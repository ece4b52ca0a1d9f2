-- ===== src/Cases/Effects.antt =====
-- What each operation of the case service may do to the table of cases, on all its branches.
use vault_keeper.Prelude.{
  String, ◌≡◌, refl, ◌⊎◌, inl, inr, Bool, true, false, List, ◌∷◌, none, some, ok, arith, ◌==◌,
  nat_eq, string_eq, any, Option-cases,
}
use vault_keeper.Prelude.Table.{set_row}
use vault_keeper.Custody.{Uuid, Time}
use vault_keeper.Cases.Model.{
  Case, CreateCaseInput, UpdateCaseInput, status_archived, is_valid_status_transition, Store,
  Faults, case_row, find_by_id, create, update, archive, set_hold, assign,
}
use vault_keeper.Cases.Service.{
  Ext, validate_update_input, new_case, sanitized, create_case, update_case, archive_case,
  set_legal_hold,
}

-- What an operation may do to the table of cases.
pub data Effect (before after : List Case) : Type 0 where
  unchanged : after ≡ before → Effect before after
  created :
      (c : Case)
      → any (λ (d : Case). d.id == c.id) before ≡ false
      → after ≡ c ∷ before
      → Effect before after
  written :
      (id : Uuid) (g : Case → Case) (c : Case)
      → ((d : Case) → (g d).id ≡ d.id)
      → case_row id before ≡ some c
      → (c.status == status_archived) ≡ false
      → ((g c).status ≡ c.status) ⊎ (is_valid_status_transition c.status (g c).status ≡ true)
      → after ≡ set_row (λ d. d.id) id g before
      → Effect before after

module _ (ext : Ext) where
  validate-keeps :
      (f : Faults) (id : Uuid) (u : UpdateCaseInput) (s : Store)
      → (validate_update_input ext f id u s).1 ≡ s
  unfolding validate_update_input find_by_id
  validate-keeps f id u s = ground arith

  validate-status :
      (f : Faults) (id : Uuid) (u : UpdateCaseInput) (s : Store) {to : String} {c : Case}
      → u.status ≡ some to
      → case_row id s.cases ≡ some c
      → (validate_update_input ext f id u s).0 ≡ ok tt
      → is_valid_status_transition c.status to ≡ true
  unfolding validate_update_input find_by_id
  validate-status f id u s e r h = ground arith

  abbrev stored_case : Uuid → Time → CreateCaseInput → String → String → Case
  stored_case fresh now input by name = record (new_case ext input by name) {
    id = fresh;
    created_at = now;
    updated_at = now;
  }

  create_case-cases :
      (f : Faults) (fresh : Uuid) (now : Time) (input : CreateCaseInput) (by name : String)
      (s : Store)
      → let t = (create_case ext f fresh now input by name s).1.cases in
        (t ≡ s.cases)
        ⊎ ((any (λ (d : Case). d.id == fresh) s.cases ≡ false)
            × (t ≡ stored_case fresh now input by name ∷ s.cases))
  unfolding create_case create
  create_case-cases f fresh now input by name s = ground arith

  pub create_case-Effect :
      (f : Faults) (fresh : Uuid) (now : Time) (input : CreateCaseInput) (by name : String)
      (s : Store)
      → Effect s.cases (create_case ext f fresh now input by name s).1.cases
  create_case-Effect f fresh now input by name s =
      elim (create_case-cases f fresh now input by name s) [
        | inl e ↦ unchanged e
        | inr h ↦ created (stored_case fresh now input by name) h.0 h.1
      ]

  update_case_missing :
      (f : Faults) (now : Time) (id : Uuid) (u : UpdateCaseInput) (by : String) (s : Store)
      → case_row id s.cases ≡ none
      → (update_case ext f now id u by s).1.cases ≡ s.cases
  unfolding update_case find_by_id
  update_case_missing f now id u by s e = ground arith

  update_case-cases :
      (f : Faults) (now : Time) (id : Uuid) (u : UpdateCaseInput) (by : String) (s : Store)
      (c : Case)
      → case_row id s.cases ≡ some c
      → let t = (update_case ext f now id u by s).1.cases in
        (t ≡ s.cases)
        ⊎ (((c.status == status_archived) ≡ false)
            × ((validate_update_input ext f id u s).0 ≡ ok tt)
            × (t ≡ set_row (λ d. d.id) id (assign now (sanitized ext u)) s.cases))
  unfolding update_case update find_by_id
  update_case-cases f now id u by s c e = ground (arith, validate-keeps f id u s)

  assigned_status :
      (f : Faults) (now : Time) (id : Uuid) (u : UpdateCaseInput) (s : Store) (c : Case)
      → case_row id s.cases ≡ some c
      → (validate_update_input ext f id u s).0 ≡ ok tt
      → ((assign now (sanitized ext u) c).status ≡ c.status)
        ⊎ (is_valid_status_transition c.status (assign now (sanitized ext u) c).status ≡ true)
  unfolding assign sanitized
  assigned_status f now id u s c e v = elim (Option-cases u.status) [
    | inl n ↦ inl (rw n)
    | inr y ↦ inr (rw y.1 (validate-status f id u s y.1 e v))
  ]

  assign-id : (now : Time) (u : UpdateCaseInput) (d : Case) → (assign now u d).id ≡ d.id
  unfolding assign
  assign-id now u d = refl

  pub update_case-Effect :
      (f : Faults) (now : Time) (id : Uuid) (u : UpdateCaseInput) (by : String) (s : Store)
      → Effect s.cases (update_case ext f now id u by s).1.cases
  update_case-Effect f now id u by s = elim (Option-cases (case_row id s.cases)) [
    | inl n ↦ unchanged (update_case_missing f now id u by s n)
    | inr y ↦ elim (update_case-cases f now id u by s y.0 y.1) [
      | inl e ↦ unchanged e
      | inr h ↦
          written id (assign now (sanitized ext u)) y.0 (assign-id now (sanitized ext u)) y.1 h.0
            (assigned_status f now id u s y.0 y.1 h.1) h.2
    ]
  ]

abbrev pub archived_at : Time → Case → Case
archived_at now c = record c { status = status_archived; updated_at = now }

pub archive_case-cases :
    (f : Faults) (now : Time) (id : Uuid) (by : String) (s : Store) (c : Case)
    → case_row id s.cases ≡ some c
    → let t = (archive_case f now id by s).1.cases in
      (t ≡ s.cases)
      ⊎ (((c.status == status_archived) ≡ false)
          × (c.legal_hold ≡ false)
          × (is_valid_status_transition c.status status_archived ≡ true)
          × (t ≡ set_row (λ d. d.id) id (archived_at now) s.cases))
unfolding archive_case archive find_by_id
archive_case-cases f now id by s c e = ground arith

archive_case_missing :
    (f : Faults) (now : Time) (id : Uuid) (by : String) (s : Store)
    → case_row id s.cases ≡ none
    → (archive_case f now id by s).1.cases ≡ s.cases
unfolding archive_case find_by_id
archive_case_missing f now id by s e = ground arith

pub archive_case-Effect :
    (f : Faults) (now : Time) (id : Uuid) (by : String) (s : Store)
    → Effect s.cases (archive_case f now id by s).1.cases
archive_case-Effect f now id by s = elim (Option-cases (case_row id s.cases)) [
  | inl n ↦ unchanged (archive_case_missing f now id by s n)
  | inr y ↦ elim (archive_case-cases f now id by s y.0 y.1) [
    | inl e ↦ unchanged e
    | inr h ↦ written id (archived_at now) y.0 (λ d. refl) y.1 h.0 (inr h.2) h.3
  ]
]

abbrev held_at : Time → Bool → Case → Case
held_at now hold c = record c { legal_hold = hold; updated_at = now }

set_legal_hold-cases :
    (f : Faults) (now : Time) (id : Uuid) (hold : Bool) (by : String) (s : Store) (c : Case)
    → case_row id s.cases ≡ some c
    → let t = (set_legal_hold f now id hold by s).1.cases in
      (t ≡ s.cases)
      ⊎ (((c.status == status_archived) ≡ false)
          × (t ≡ set_row (λ d. d.id) id (held_at now hold) s.cases))
unfolding set_legal_hold set_hold find_by_id
set_legal_hold-cases f now id hold by s c e = ground arith

set_legal_hold_missing :
    (f : Faults) (now : Time) (id : Uuid) (hold : Bool) (by : String) (s : Store)
    → case_row id s.cases ≡ none
    → (set_legal_hold f now id hold by s).1.cases ≡ s.cases
unfolding set_legal_hold find_by_id
set_legal_hold_missing f now id hold by s e = ground arith

pub set_legal_hold-Effect :
    (f : Faults) (now : Time) (id : Uuid) (hold : Bool) (by : String) (s : Store)
    → Effect s.cases (set_legal_hold f now id hold by s).1.cases
set_legal_hold-Effect f now id hold by s = elim (Option-cases (case_row id s.cases)) [
  | inl n ↦ unchanged (set_legal_hold_missing f now id hold by s n)
  | inr y ↦ elim (set_legal_hold-cases f now id hold by s y.0 y.1) [
    | inl e ↦ unchanged e
    | inr h ↦ written id (held_at now hold) y.0 (λ d. refl) y.1 h.0 (inl refl) h.1
  ]
]
