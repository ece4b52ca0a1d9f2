-- ===== src/Cases/Service.antt =====
-- service.go: validation, and the operations that change a case.
use Prim.Native.String.{len, ◌++◌ as str_append}
use mathlib.Core.Option
use vault_keeper.Prelude.{
  ℕ, String, Bool, true, false, not, List, [], ◌∷◌, ◌++◌, Option, none, some, Result, ok, err, ltb,
  ◌==◌, string_eq, if◌then◌else◌,
}
use vault_keeper.Prelude.Exec.{Exec, pure, raise, ◌>>=◌, ◌>>◌}
use vault_keeper.Custody.{Uuid, uuid_nil, Time}
use vault_keeper.Cases.Model.{
  Case, CreateCaseInput, UpdateCaseInput, Error, validation, status_active, status_archived,
  is_valid_status_transition, Store, Faults, find_by_id, create, update, archive, set_hold,
}

-- `strings.TrimSpace`, `html.EscapeString` and the compiled reference code expression.
pub record Ext : Type 0 where
  pub trim_space : String → String
  pub escape_string : String → String
  pub reference_code_matches : String → Bool

-- The message names both states.
abbrev pub no_transition : String → String → Error
no_transition from to =
    validation "status"
      (str_append "cannot transition from " (str_append from (str_append " to " to)))

abbrev Op : Type 0 → Type 0
Op = Exec Store Error

-- A repository call, as a step on the whole store.
abbrev on_cases : {A : Type 0} → (List Case → Result Error A × List Case) → Op A
on_cases f s = let (r, cases) = f s.cases in (r, record s { cases = cases })

abbrev reading : {A : Type 0} → (List Case → Result Error A) → Op A
reading f s = (f s.cases, s)

-- `if s.custody != nil { _ = s.custody.RecordCaseEvent(…) }`
record_case_event : Faults → Uuid → String → String → List (String × String) → Op (Unit {0})
record_case_event f id action actor detail s =
    if not f.has_recorder then (ok tt, s) else if f.record_fails then (ok tt, s) else (
      ok tt,
      record s {
        custody =
            (record { case_id = id; action = action; actor_user_id = actor; detail = detail })
            ∷ s.custody;
      },
    )

module _ (ext : Ext) where
  open ext use {trim_space, escape_string, reference_code_matches}

  sanitize : String → String
  sanitize text = escape_string (trim_space text)

  unfoldable pub validate_create_input : CreateCaseInput → Result Error (Unit {0})
  validate_create_input input =
      if trim_space input.title == ""
      then err (validation "title" "title is required")
      else if ltb 500 (len (trim_space input.title))
      then err (validation "title" "title must not exceed 500 characters")
      else if ltb 10000 (len (trim_space input.description))
      then err (validation "description" "description must not exceed 10000 characters")
      else if ltb 200 (len (trim_space input.jurisdiction))
      then err (validation "jurisdiction" "jurisdiction must not exceed 200 characters")
      else if trim_space input.reference_code == ""
      then err (validation "reference_code" "reference code is required")
      else if not (reference_code_matches (trim_space input.reference_code))
      then err (
          validation "reference_code"
            "reference code must be 3-100 characters using letters, digits, hyphens, slashes, dots, or underscores (e.g. ICC-01/04-01/06, KSC-BC-2020-06)")
      else ok tt

  -- The `Case` that `CreateCase` hands to the repository, which sets its id and times.
  unfoldable pub new_case : CreateCaseInput → String → String → Case
  unfolding sanitize
  new_case input created_by created_by_name = record {
    id = uuid_nil;
    reference_code = trim_space input.reference_code;
    title = sanitize input.title;
    description = sanitize input.description;
    jurisdiction = sanitize input.jurisdiction;
    status = status_active;
    legal_hold = false;
    created_by = created_by;
    created_by_name = created_by_name;
    created_at = 0;
    updated_at = 0;
  }

  unfoldable pub create_case :
      Faults → Uuid → Time → CreateCaseInput → String → String → Store → Result Error Case × Store
  unfolding record_case_event
  create_case f fresh now input created_by created_by_name = do
    reading (λ _. validate_create_input input)
    result ← on_cases (create f.write_fails fresh now (new_case input created_by created_by_name))
    record_case_event f result.id "case_created" created_by
        (("reference_code", result.reference_code) ∷ ("title", result.title) ∷ [])
    pure result

  title_given : Option String → Result Error (Unit {0})
  title_given none = ok tt
  title_given (some title) =
      if trim_space title == ""
      then err (validation "title" "title cannot be empty")
      else if ltb 500 (len (trim_space title))
      then err (validation "title" "title must not exceed 500 characters")
      else ok tt

  within : Option String → ℕ → Error → Result Error (Unit {0})
  within none max e = ok tt
  within (some text) max e = if ltb max (len (trim_space text)) then err e else ok tt

  -- The case is read a second time where a status is given.
  status_given : Faults → Uuid → Option String → Op (Unit {0})
  status_given f id none = pure tt
  status_given f id (some to) = do
    current ← reading (find_by_id f.find_again_fails id)
    if is_valid_status_transition current.status to
        then pure tt
        else raise (no_transition current.status to)

  unfoldable pub validate_update_input : Faults → Uuid → UpdateCaseInput → Op (Unit {0})
  unfolding title_given within status_given
  validate_update_input f id input = do
    reading (λ _. title_given input.title)
    reading (λ _.
        within input.description 10000
          (validation "description" "description must not exceed 10000 characters"))
    reading (λ _.
        within input.jurisdiction 200
          (validation "jurisdiction" "jurisdiction must not exceed 200 characters"))
    status_given f id input.status

  -- The SET values of `UpdateCase`; the status is taken as it is.
  unfoldable pub sanitized : UpdateCaseInput → UpdateCaseInput
  unfolding sanitize
  sanitized u = record {
    title = Option.map sanitize u.title;
    description = Option.map sanitize u.description;
    jurisdiction = Option.map sanitize u.jurisdiction;
    status = u.status;
  }

  entry : String → Option String → List (String × String)
  entry key none = []
  entry key (some value) = (key, value) ∷ []

  unfoldable pub update_case :
      Faults → Time → Uuid → UpdateCaseInput → String → Store → Result Error Case × Store
  unfolding record_case_event entry
  update_case f now id input updated_by = do
    current ← reading (find_by_id f.find_fails id)
    if current.status == status_archived
        then raise (validation "status" "cannot update an archived case")
        else do
          validate_update_input f id input
          let u = sanitized input
          result ← on_cases (update f.write_fails now id u)
          record_case_event f id "case_updated" updated_by (
              entry "title" u.title
              ++ (entry "description" (Option.map (λ _. "updated") u.description)
                  ++ (entry "jurisdiction" u.jurisdiction ++ entry "status" u.status)))
          pure result

unfoldable pub archive_case :
    Faults → Time → Uuid → String → Store → Result Error (Unit {0}) × Store
unfolding record_case_event
archive_case f now id archived_by = do
  c ← reading (find_by_id f.find_fails id)
  if c.legal_hold
      then raise (validation "legal_hold" "cannot archive a case with active legal hold")
      else if c.status == status_archived
      then pure tt
      else if not (is_valid_status_transition c.status status_archived)
      then raise (no_transition c.status status_archived)
      else do
        on_cases (archive f.write_fails now id)
        record_case_event f id "case_archived" archived_by []
        pure tt

abbrev same_bool : Bool → Bool → Bool
same_bool true b = b
same_bool false b = not b

unfoldable pub set_legal_hold :
    Faults → Time → Uuid → Bool → String → Store → Result Error (Unit {0}) × Store
unfolding record_case_event
set_legal_hold f now id hold set_by = do
  c ← reading (find_by_id f.find_fails id)
  if c.status == status_archived
      then raise (validation "status" "cannot change legal hold on an archived case")
      else if same_bool c.legal_hold hold
      then pure tt
      else do
        on_cases (set_hold f.write_fails now id hold)
        record_case_event f id (if hold then "legal_hold_set" else "legal_hold_released") set_by
            (("previous_value", if c.legal_hold then "true" else "false") ∷ [])
        pure tt
