-- ===== src/Tests/Cases.antt =====
-- Cases through their life cycle.
use vault_keeper.Prelude.{String, ◌≡◌, refl, Bool, true, false, [], ◌∷◌, some, string_eq}
use vault_keeper.Cases.Model.{
  Case, no_faults, Store, case_row, status_active, status_closed, is_valid_status_transition,
  find_by_id, update, assign,
}
use vault_keeper.Cases.Service.{Ext, update_case, validate_update_input, sanitized}
use vault_keeper.Cases.Frozen.{Operation, run, run-Forward, Forward}
use vault_keeper.Cases.Hold.{only_status}

abbrev pub plain : Ext
plain = record { trim_space = λ s. s; escape_string = λ s. s; reference_code_matches = λ s. true }

abbrev pub case_at : String → Bool → Case
case_at status hold = record {
  id = 4;
  reference_code = "ICC-01";
  title = "t";
  description = "";
  jurisdiction = "";
  status = status;
  legal_hold = hold;
  created_by = "u";
  created_by_name = "U";
  created_at = 1;
  updated_at = 1;
}

abbrev pub store_with : Case → Store
store_with c = record { cases = c ∷ []; custody = [] }

abbrev close : Operation
close = Operation.update no_faults 9 4 (only_status status_closed) "u"

run-Forward_example :
    (c' : Case) × (case_row 4 (run plain close (store_with (case_at status_active false))).cases
      ≡ some c')
    × Forward status_active c'.status
run-Forward_example =
    run-Forward plain close (store_with (case_at status_active false)) 4
      (case_at status_active false) refl

closed_by_update :
    case_row 4 (run plain close (store_with (case_at status_active false))).cases
    ≡ some (record (case_at status_closed false) { updated_at = 9 })
unfolding run update_case find_by_id validate_update_input is_valid_status_transition update
    sanitized assign
closed_by_update = refl
