-- ===== src/Evidence/Disclosed.antt =====
-- Which evidence the lists show.
use vault_keeper.Prelude.{
  String, ◌≡◌, refl, Bool, true, false, not, ◌&&◌, ◌||◌, List, [], ◌∷◌, ok, arith, ◌==◌, nat_eq,
  string_eq, filter, any, length, is_none, All, All-filter, All-take, ◌∙◌, ap, Option, ℕ, ◌+◌,
  Result, err, subst, Result-cases, Bool-cases, inl, inr,
}
use vault_keeper.Prelude.Sort.{sort_by, count-sort_by, All-sort_by}
use vault_keeper.Custody.{Uuid}
use vault_keeper.Evidence.Model.{EvidenceItem}
use vault_keeper.Evidence.Repository.{by_creation, Error}
use vault_keeper.Evidence.Listing.{
  Ext, Disclosure, EvidenceFilter, disclosed, exportable, list_by_case_for_export, matches, page_of,
  newest, below, Faults, Pagination, PaginatedResult, list, find_by_case, read_cursor, page_limit,
}

All-any : (es : List EvidenceItem) → All (λ e. Unit {0}) es
All-any [] = tt
All-any (e ∷ es) = (tt, All-any es)

pub filter-filter :
    (p q : EvidenceItem → Bool) (es : List EvidenceItem)
    → filter q (filter p es) ≡ filter (λ e. p e && q e) es
filter-filter p q [] = refl
filter-filter p q (e ∷ es) = ground (arith, filter-filter p q es)

module _ (case_id : Uuid) (role : String) (ds : List Disclosure) where
  -- What an export lists are the rows of the case that are current, not destroyed and, for the
  -- defence, disclosed, each as often as the table has it: under any test there are as many of them
  -- in the list as in the table.
  pub list_by_case_for_export-count :
      (items : List EvidenceItem) (q : EvidenceItem → Bool)
      → (listed : List EvidenceItem) × ((list_by_case_for_export false case_id role ds items
            ≡ ok listed)
          × (length (filter q listed)
              ≡ length (
                  filter
                    (λ e.
                      (e.case_id == case_id
                        && (e.is_current
                            && (is_none e.destroyed_at
                                && (not (role == "defence")
                                    || any
                                        (λ (d : Disclosure).
                                          d.evidence_id == e.id && d.case_id == e.case_id)
                                        ds))))
                      && q e)
                    items)))
  unfolding list_by_case_for_export
  list_by_case_for_export-count items q = (
    sort_by by_creation (filter (exportable case_id role ds) items),
    (
      refl,
      count-sort_by by_creation q (filter (exportable case_id role ds) items)
          ∙ ap length (filter-filter (exportable case_id role ds) q items),
    ),
  )

module _ (ext : Ext) (ds : List Disclosure) (f : EvidenceFilter) where
  -- What the defence may see of a case: what is in the case, disclosed and, unless destroyed items
  -- are asked for, not destroyed.
  abbrev pub Shown : EvidenceItem → Type 0
  Shown e =
      (e.case_id ≡ f.case_id)
      × ((disclosed ds e ≡ true) × ((f.include_destroyed || is_none e.destroyed_at) ≡ true))

  matches-Shown :
      (cursor : Option Uuid) (e : EvidenceItem)
      → (f.user_role == "defence") ≡ true
      → (matches ext ds f e && below cursor e) ≡ true
      → Shown e
  unfolding matches
  matches-Shown cursor e h m = ground (arith, h, m)

  page_of-Shown :
      (limit : ℕ) (cursor : Option Uuid) (items : List EvidenceItem)
      → (f.user_role == "defence") ≡ true
      → All Shown (page_of ext ds f limit cursor items)
  unfolding page_of
  page_of-Shown limit cursor items h =
      let cut = filter (λ e. matches ext ds f e && below cursor e) items in
      let shown =
        All-filter {P = λ e. Unit {0}} (λ e. matches ext ds f e && below cursor e) items
          (λ e _ m. matches-Shown cursor e h m) (All-any items) in
      All-take Shown limit _ (All-take Shown (limit + 1) _ (All-sort_by Shown newest cut shown))

  abbrev AnswerShown : Result Error PaginatedResult → Type 0
  AnswerShown (err e) = Unit
  AnswerShown (ok r) = All Shown r.items

  list-AnswerShown :
      (g : Faults) (page : Pagination) (items : List EvidenceItem)
      → (f.user_role == "defence") ≡ true
      → AnswerShown (list ext g ds f page items)
  unfolding list find_by_case
  list-AnswerShown g page items h = elim (Result-cases (read_cursor ext page.cursor)) [
    | inr (e, y) ↦ rw y tt
    | inl (c, y) ↦ rw y (elim (Bool-cases g.count_fails) [
      | inl bad ↦ rw bad tt
      | inr counts ↦ rw counts (elim (Bool-cases g.query_fails) [
        | inl bad ↦ rw bad tt
        | inr answers ↦ rw answers (page_of-Shown (page_limit page.limit) c items h)
      ])
    ])
  ]

  -- In any list that is asked for as the defence, with any other conditions and at any cursor, each
  -- item is in the case, disclosed and, unless destroyed items are asked for, not destroyed.
  pub list-Shown :
      (g : Faults) (page : Pagination) (items : List EvidenceItem) (r : PaginatedResult)
      → (f.user_role == "defence") ≡ true
      → list ext g ds f page items ≡ ok r
      → All Shown r.items
  list-Shown g page items r h e = subst AnswerShown e (list-AnswerShown g page items h)
