-- ===== src/Cases/Walk.antt =====
-- Reading the cases page after page.
use mathlib.Core.List.{append-nil}
use vault_keeper.Prelude.{
  ℕ, zero, suc, ◌+◌, ◌-◌, ◌≤◌, ◌<◌, ◌≡◌, refl, sym, ap, ◌∙◌, String, true, false, ◌&&◌, List, [],
  ◌∷◌, ◌++◌, Option, none, some, ok, err, arith, ltb, ◌==◌, string_eq, nat_eq, if◌then◌else◌,
  filter, take, drop, length, length-drop, length-take_full, take_short, take-take, drop-drop,
  take-append-drop, Bool-cases, ◌⊎◌, inl, inr, ◌>>=◌,
}
use vault_keeper.Prelude.Int.{ℤ, pos, clamp}
use vault_keeper.Prelude.Sort.{sort_by, length-sort_by}
use vault_keeper.Custody.{Uuid}
use vault_keeper.Cases.Model.{Case}
use vault_keeper.Cases.Lists.{
  Ext, Turn, CaseFilter, PaginatedResult, matches, newest, below, page_of, page_limit, read_cursor,
  queries, find_all, last_id, more, paginated, encode_cursor, decode_cursor, list_cases,
}
use vault_keeper.Cases.Descending.{
  under, Distinct, StrictlyDescending, filter_and, sort_by-filter, sort_by-StrictlyDescending,
  filter-Distinct, filter-last_id, last_id-take,
}

-- base64 and the text of an id are read back as they were made, and the base64 of the text of an id
-- is not empty.
pub record IsCodec (ext : Ext) : Type 0 where
  pub base64 : (text : String) → ext.decode_base64 (ext.encode_base64 text) ≡ some text
  pub uuid : (id : Uuid) → ext.parse_uuid (ext.uuid_string id) ≡ some id
  pub filled : (id : Uuid) → (ext.encode_base64 (ext.uuid_string id) == "") ≡ false

decode-encode_cursor :
    (ext : Ext) → IsCodec ext → (id : Uuid) → decode_cursor ext (encode_cursor ext id) ≡ some id
unfolding decode_cursor encode_cursor
decode-encode_cursor ext codec id =
    rw (codec.base64 (ext.uuid_string id), decode_cursor) (codec.uuid id)

-- One more page, and what a walk gives from its cursor on.
go_on :
    (p : PaginatedResult) (w : String → List Case) {next : String} {rest : List Case}
    → p.has_more ≡ true
    → p.next_cursor ≡ next
    → w next ≡ rest
    → p.items ++ (if p.has_more then w p.next_cursor else []) ≡ p.items ++ rest
go_on p w h n r =
    ap (λ b. p.items ++ (if b then w p.next_cursor else [])) h ∙ ap (λ l. p.items ++ l) (ap w n ∙ r)

page_limit-positive : (limit : ℤ) → (n : ℕ) × (page_limit limit ≡ suc n)
unfolding clamp
page_limit-positive (ℤ.negsuc n) = (49, refl)
page_limit-positive (pos n) =
    let positive : 0 < page_limit (pos n) = ground arith in (page_limit (pos n) - 1, omega arith)

drop-at : (m n : ℕ) (cs : List Case) → m ≡ n → drop m cs ≡ drop n cs
drop-at m n cs h = ap (λ i. drop i cs) h

filter_whole : (cs : List Case) → filter (below none) cs ≡ cs
filter_whole [] = refl
filter_whole (c ∷ cs) = ap (λ l. c ∷ l) (filter_whole cs)

module _ (ext : Ext) (t : Turn) (f : CaseFilter) (limit : ℤ) (cases : List Case) where
  -- A client that asks for the next page while there is more.
  unfoldable pub walk : ℕ → String → List Case
  walk zero cursor = []
  walk (suc fuel) cursor =
      elim (list_cases ext t f (record { limit = limit; cursor = cursor }) cases) [
        | err e ↦ []
        | ok p ↦ let rest = walk fuel p.next_cursor in p.items ++ (if p.has_more then rest else [])
      ]

  -- All cases that the filter lets through, in the order of the pages.
  abbrev pub listed : List Case
  listed = sort_by newest (filter (matches ext t f) cases)

  abbrev cut : Option Uuid → List Case
  cut none = listed
  cut (some id) = filter (under id) listed

  cut-sort_by :
      (c : Option Uuid)
      → sort_by newest (filter (λ x. matches ext t f x && below c x) cases) ≡ cut c
  cut-sort_by none = ap (sort_by newest) (
      filter_and (matches ext t f) (below none) cases
      ∙ filter_whole (filter (matches ext t f) cases))
  cut-sort_by (some id) =
      ap (sort_by newest) (filter_and (matches ext t f) (under id) cases)
      ∙ sort_by-filter id (filter (matches ext t f) cases)

  page_of-cut :
      (c : Option Uuid)
      → page_of ext t f (page_limit limit) cases c ≡ take (page_limit limit) (cut c)
  unfolding page_of
  page_of-cut c =
      take-take (page_limit limit) (page_limit limit + 1) _ (omega arith)
      ∙ ap (take (page_limit limit)) (cut-sort_by c)

  total : length (filter (matches ext t f) cases) ≡ length listed
  total = sym (length-sort_by newest (filter (matches ext t f) cases))

  module _ (counts : t.count_fails ≡ false) (answers : t.query_fails ≡ false) where
    abbrev page : Option Uuid → PaginatedResult
    page c = paginated ext (page_limit limit) (take (page_limit limit) (cut c), length listed)

    queries-page :
        (c : Option Uuid)
        → queries ext t f (page_limit limit) cases c
          ≡ ok (take (page_limit limit) (cut c), length listed)
    queries-page c =
        let asked : queries ext t f (page_limit limit) cases c
            ≡ ok (
              page_of ext t f (page_limit limit) cases c,
              length (filter (matches ext t f) cases),
            ) =
          ground arith in
        asked
        ∙ ap (λ items. ok (items, length (filter (matches ext t f) cases))) (page_of-cut c)
        ∙ ap (λ n. ok (take (page_limit limit) (cut c), n)) total

    list_cases-page :
        (cursor : String) (c : Option Uuid)
        → read_cursor ext cursor ≡ ok c
        → list_cases ext t f (record { limit = limit; cursor = cursor }) cases ≡ ok (page c)
    unfolding list_cases find_all
    list_cases-page cursor c h =
        rw h (ap (λ r. r >>= λ found. ok (paginated ext (page_limit limit) found)) (queries-page c))

    walk-suc :
        (fuel : ℕ) (cursor : String) (c : Option Uuid)
        → read_cursor ext cursor ≡ ok c
        → walk (suc fuel) cursor
          ≡ (page c).items ++ (if (page c).has_more then walk fuel (page c).next_cursor else [])
    unfolding walk
    walk-suc fuel cursor c h = rw (list_cases-page cursor c h, walk)

    -- A page that is not full, or one that is all there is, ends the walk.
    page_ends :
        (c : Option Uuid)
        → more (page_limit limit) (take (page_limit limit) (cut c)) (length listed) ≡ false
        → length (cut c) ≤ page_limit limit
        → (fuel : ℕ)
        → (page c).items ++ (if (page c).has_more then walk fuel (page c).next_cursor else [])
          ≡ cut c
    page_ends c h l fuel =
        rw h
          (append-nil (take (page_limit limit) (cut c)) ∙ take_short (page_limit limit) (cut c) l)

    module _ (codec : IsCodec ext) (distinct : Distinct cases) where
      descending : StrictlyDescending listed
      descending =
          sort_by-StrictlyDescending (filter (matches ext t f) cases)
            (filter-Distinct (matches ext t f) cases distinct)

      read_next : (id : Uuid) → read_cursor ext (encode_cursor ext id) ≡ ok (some id)
      unfolding encode_cursor
      read_next id = rw (codec.filled id, decode-encode_cursor ext codec id)

      -- The cursor of a full page cuts off what was read.
      cut-next :
          (n k : ℕ)
          → k + suc n ≤ length listed
          → cut (some (last_id (take (suc n) (drop k listed)))) ≡ drop (k + suc n) listed
      cut-next n k l =
          ap (λ id. cut (some id)) (last_id-take k n (k + n) listed (omega arith) refl)
          ∙ filter-last_id (k + n) listed (omega arith) descending
          ∙ drop-at (suc (k + n)) (k + suc n) listed (omega arith)

      length-cut :
          (c : Option Uuid) (k : ℕ) → cut c ≡ drop k listed → length (cut c) ≡ length listed - k
      length-cut c k e = ap length e ∙ length-drop k listed

      -- The pages end here: what is left is shorter than a page, or all fits into one.
      last_page :
          (n k : ℕ) (c : Option Uuid)
          → page_limit limit ≡ suc n
          → cut c ≡ drop k listed
          → (length listed < k + suc n) ⊎ ((k + suc n ≤ length listed) × (length listed ≤ suc n))
          → (more (page_limit limit) (take (page_limit limit) (cut c)) (length listed) ≡ false)
            × (length (cut c) ≤ page_limit limit)
      last_page n k c p e (inl short) =
          let left = length-cut c k e in
          let whole = take_short (page_limit limit) (cut c) (omega (arith, left, p)) in
          (ground (arith, left, p, ap length whole), omega (arith, left, p))
      last_page n k c p e (inr fits) =
          let left = length-cut c k e in (ground (arith, p, fits.1), omega (arith, left, p, fits.1))

      first_part :
          (n k : ℕ) (c : Option Uuid)
          → page_limit limit ≡ suc n
          → cut c ≡ drop k listed
          → take (page_limit limit) (cut c) ≡ take (suc n) (drop k listed)
      first_part n k c p e = ap (λ m. take m (cut c)) p ∙ ap (take (suc n)) e

      -- A full page, with more to come.
      full_page :
          (n k : ℕ) (c : Option Uuid)
          → page_limit limit ≡ suc n
          → cut c ≡ drop k listed
          → k + suc n ≤ length listed
          → suc n < length listed
          → ((page c).has_more ≡ true)
            × ((page c).next_cursor ≡ encode_cursor ext (last_id (take (suc n) (drop k listed))))
            × ((page c).items ++ drop (k + suc n) listed ≡ drop k listed)
      full_page n k c p e l h =
          let part = first_part n k c p e in
          let size =
            length-take_full (suc n) (drop k listed) (omega (arith, length-drop k listed)) in
          let filled : length (take (page_limit limit) (cut c)) ≡ suc n = ap length part ∙ size in
          let more_to_come : more (page_limit limit) (take (page_limit limit) (cut c))
                (length listed)
              ≡ true =
            ground (arith, p, filled) in
          (
            more_to_come,
            ground (arith, p, filled, more_to_come, ap last_id part),
            ap (λ xs. xs ++ drop (k + suc n) listed) part
                ∙ ap (λ xs. take (suc n) (drop k listed) ++ xs)
                    (sym (drop-drop k (suc n) (k + suc n) listed refl))
                ∙ take-append-drop (suc n) (drop k listed),
          )

      walk-drop :
          (n fuel k : ℕ) (cursor : String) (c : Option Uuid)
          → page_limit limit ≡ suc n
          → read_cursor ext cursor ≡ ok c
          → cut c ≡ drop k listed
          → k ≤ length listed
          → length listed < fuel + k
          → walk fuel cursor ≡ drop k listed
      walk-drop n zero k cursor c p r e l b = absurd (omega arith)
      walk-drop n (suc fuel) k cursor c p r e l b =
          walk-suc fuel cursor c r ∙ elim (Bool-cases (ltb (length listed) (k + suc n))) [
            | inl short ↦
                let (h, fits) = last_page n k c p e (inl (ground arith)) in
                page_ends c h fits fuel ∙ e
            | inr full ↦ elim (Bool-cases (ltb (suc n) (length listed))) [
              | inr all ↦
                  let (h, fits) = last_page n k c p e (inr (ground arith, ground arith)) in
                  page_ends c h fits fuel ∙ e
              | inl big ↦
                  let (go, next, parts) = full_page n k c p e (ground arith) (ground arith) in
                  let id = last_id (take (suc n) (drop k listed)) in
                  let rest =
                    walk-drop n fuel (k + suc n) (encode_cursor ext id) (some id) p (read_next id)
                      (cut-next n k (ground arith)) (ground arith) (ground arith) in
                  go_on (page c) (walk fuel) go next rest ∙ parts
            ]
          ]

      -- On a table with distinct ids that does not change, read without faults, and with base64 and
      -- texts of ids that are read back as they were made and give no empty cursor, a client that
      -- follows the cursors as long as there is more reads, in as many steps as there are cases and
      -- one more, each case that the filter lets through, once, in descending order of the ids.
      pub walk-listed : walk (suc (length listed)) "" ≡ listed
      walk-listed =
          let (n, p) = page_limit-positive limit in
          walk-drop n (suc (length listed)) 0 "" none p refl refl (omega arith) (omega arith)
