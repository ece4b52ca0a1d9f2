-- ===== src/Cases/Frozen.antt =====
-- What every operation on cases keeps: statuses only move forward, and an archived case is frozen.
use mathlib.Core.Bool.{false≢true}
use vault_keeper.Prelude.{
  String, ◌≡◌, refl, ap, sym, ◌∙◌, ◌⊎◌, subst, inl, inr, Bool, true, false, List, [], ◌∷◌, some,
  ◌==◌, nat_eq, string_eq, eq_iff, nat_beq_iff, Bool-cases,
}
use vault_keeper.Prelude.Table.{row-set_row, row-ne}
use vault_keeper.Custody.{Uuid, Time}
use vault_keeper.Cases.Model.{
  Case, CreateCaseInput, UpdateCaseInput, status_archived, is_valid_status_transition, Store,
  Faults, case_row,
}
use vault_keeper.Cases.Service.{Ext, create_case, update_case, archive_case, set_legal_hold}
use vault_keeper.Cases.Effects.{
  Effect, unchanged, created, written, create_case-Effect, update_case-Effect, archive_case-Effect,
  set_legal_hold-Effect,
}

-- A call of the service, with the choices of the clock, the id generator and the database.
pub data Operation : Type 0 where
  create : Faults → Uuid → Time → CreateCaseInput → String → String → Operation
  update : Faults → Time → Uuid → UpdateCaseInput → String → Operation
  archive : Faults → Time → Uuid → String → Operation
  hold : Faults → Time → Uuid → Bool → String → Operation

unfoldable pub run : Ext → Operation → Store → Store
run ext (create f fresh now input by name) s = (create_case ext f fresh now input by name s).1
run ext (update f now id input by) s = (update_case ext f now id input by s).1
run ext (archive f now id by) s = (archive_case f now id by s).1
run ext (hold f now id on by) s = (set_legal_hold f now id on by s).1

unfoldable pub run_all : Ext → List Operation → Store → Store
run_all ext [] s = s
run_all ext (o ∷ os) s = run_all ext os (run ext o s)

run-Effect : (ext : Ext) (o : Operation) (s : Store) → Effect s.cases (run ext o s).cases
unfolding run
run-Effect ext (create f fresh now input by name) s =
    create_case-Effect ext f fresh now input by name s
run-Effect ext (update f now id input by) s = update_case-Effect ext f now id input by s
run-Effect ext (archive f now id by) s = archive_case-Effect f now id by s
run-Effect ext (hold f now id on by) s = set_legal_hold-Effect f now id on by s

-- No step of the life cycle, or one: from active to closed, or from closed to archived.
abbrev pub Forward : String → String → Type 0
Forward from to =
    (to ≡ from) ⊎ (((from ≡ "active") × (to ≡ "closed")) ⊎ ((from ≡ "closed") × (to ≡ "archived")))

transition-Forward :
    (from to : String) → (to ≡ from) ⊎ (is_valid_status_transition from to ≡ true) → Forward from to
unfolding is_valid_status_transition
transition-Forward from to (inl e) = inl e
transition-Forward from to (inr v) = elim (Bool-cases (from == "active")) [
  | inl a ↦ inr (
      inl (
        (eq_iff from "active").0 a,
        sym ((eq_iff "closed" to).0 (rw (a, is_valid_status_transition) at v)),
      ))
  | inr n ↦ elim (Bool-cases (from == "closed")) [
    | inl c ↦ inr (
        inr (
          (eq_iff from "closed").0 c,
          sym ((eq_iff "archived" to).0 (rw (n, c, is_valid_status_transition) at v)),
        ))
    | inr m ↦ absurd (false≢true (rw (n, m, is_valid_status_transition) at v))
  ]
]

-- Two reads of one key give one row.
same_row :
    (rows : List Case) (i j : Uuid) {c d : Case}
    → (i == j) ≡ true
    → case_row i rows ≡ some d
    → case_row j rows ≡ some c
    → d ≡ c
same_row rows i j y r h = cc (ap (λ k. case_row k rows) ((nat_beq_iff i j).0 y))

module _ {before after : List Case} (j : Uuid) (c : Case) where
  Effect-Forward :
      Effect before after
      → case_row j before ≡ some c
      → (c' : Case) × (case_row j after ≡ some c') × Forward c.status c'.status
  Effect-Forward (unchanged e) h = (c, rw e h, inl refl)
  Effect-Forward (created d a e) h = (c, rw (e, row-ne (λ x. x.id) d.id j before a h) h, inl refl)
  Effect-Forward (written id g d k r n v e) h = elim (Bool-cases (id == j)) [
    | inl y ↦ (
      g c,
      rw (e, row-set_row (λ x. x.id) id j g before k, y, h),
      subst (λ x. Forward x.status (g x).status) (same_row before id j y r h)
          (transition-Forward d.status (g d).status v),
    )
    | inr y ↦ (c, rw (e, row-set_row (λ x. x.id) id j g before k, y) h, inl refl)
  ]

  Effect-frozen :
      Effect before after
      → case_row j before ≡ some c
      → c.status ≡ status_archived
      → case_row j after ≡ some c
  Effect-frozen (unchanged e) h a = rw e h
  Effect-frozen (created d n e) h a = rw (e, row-ne (λ x. x.id) d.id j before n h) h
  Effect-frozen (written id g d k r n v e) h a = elim (Bool-cases (id == j)) [
    | inl y ↦
        let same : d ≡ c = same_row before id j y r h in
        let n' : (c.status == status_archived) ≡ false = rw same at n in
        absurd (false≢true (sym n' ∙ (eq_iff c.status status_archived).1 a))
    | inr y ↦ rw (e, row-set_row (λ x. x.id) id j g before k, y) h
  ]

-- Whatever a single call does, and whatever fails in it, a case stays in the table, and its status
-- stays or goes one step along active, closed, archived.
pub run-Forward :
    (ext : Ext) (o : Operation) (s : Store) (j : Uuid) (c : Case)
    → case_row j s.cases ≡ some c
    → (c' : Case) × (case_row j (run ext o s).cases ≡ some c') × Forward c.status c'.status
run-Forward ext o s j c h = Effect-Forward j c (run-Effect ext o s) h

-- Once a case is archived, no sequence of calls changes any of its fields.
pub run_all-archived :
    (ext : Ext) (os : List Operation) (s : Store) (j : Uuid) (c : Case)
    → case_row j s.cases ≡ some c
    → c.status ≡ status_archived
    → case_row j (run_all ext os s).cases ≡ some c
unfolding run_all
run_all-archived ext [] s j c h a = h
run_all-archived ext (o ∷ os) s j c h a =
    run_all-archived ext os (run ext o s) j c (Effect-frozen j c (run-Effect ext o s) h a) a
