-- ===== src/Cases/Hold.antt =====
-- Legal hold: `ArchiveCase` respects it, `UpdateCase` with a status does not look at it.
use vault_keeper.Prelude.{
  String, ◌≡◌, refl, true, false, none, some, ok, is_ok, arith, ◌==◌, nat_eq, string_eq,
  nat_beq_iff,
}
use vault_keeper.Prelude.Table.{row-set_row}
use vault_keeper.Custody.{Uuid, Time}
use vault_keeper.Cases.Model.{
  Case, UpdateCaseInput, status_active, status_closed, status_archived, is_valid_status_transition,
  Store, Faults, no_faults, case_row, find_by_id, update, assign,
}
use vault_keeper.Cases.Service.{Ext, update_case, archive_case, validate_update_input, sanitized}

-- `ArchiveCase` of a case under legal hold fails and changes nothing, whatever else fails.
archive_case_held :
    (f : Faults) (now : Time) (id : Uuid) (by : String) (s : Store) (c : Case)
    → case_row id s.cases ≡ some c
    → c.legal_hold ≡ true
    → ((archive_case f now id by s).1 ≡ s) × (is_ok (archive_case f now id by s).0 ≡ false)
unfolding archive_case find_by_id
archive_case_held f now id by s c r h = ground arith

abbrev pub only_status : String → UpdateCaseInput
only_status to = record { title = none; description = none; jurisdiction = none; status = some to }

-- `UpdateCase` archives a closed case under legal hold: the transition is valid, and the hold is not
-- looked at.
update_case_archives_held :
    (ext : Ext) (now : Time) (id : Uuid) (by : String) (s : Store) (c : Case)
    → case_row id s.cases ≡ some c
    → c.status ≡ status_closed
    → c.legal_hold ≡ true
    → let c' = record c { status = status_archived; updated_at = now } in
      let (r, t) = update_case ext no_faults now id (only_status status_archived) by s in
      (r ≡ ok c') × (case_row id t.cases ≡ some c') × (c'.legal_hold ≡ true)
unfolding update_case find_by_id validate_update_input is_valid_status_transition update sanitized
    assign
update_case_archives_held ext now id by s c r e h =
    let open_case : (c.status == status_archived) ≡ false = rw e in
    let not_active : (c.status == status_active) ≡ false = rw e in
    let closed : (c.status == status_closed) ≡ true = rw e in
    ground (
      arith,
      row-set_row (λ x. x.id) id id (assign now (only_status status_archived)) s.cases (λ d. refl),
      nat_beq_iff id id,
    )
