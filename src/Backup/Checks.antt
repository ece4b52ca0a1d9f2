-- ===== src/Backup/Checks.antt =====
-- The reads of runner.go: `VerifyBackup`, `ListBackups` and `GetLastBackupInfo`.
use vault_keeper.Prelude.{
  ℕ, Bool, true, false, not, List, [], ◌∷◌, Option, none, some, Result, ok, err, ◌==◌, nat_eq,
  if◌then◌else◌, leb, length,
}
use vault_keeper.Prelude.Sort.{sort_by}
use vault_keeper.Prelude.Table.{row}
use vault_keeper.Custody.{Uuid, Time}
use vault_keeper.Backup.Format.{Bytes}
use vault_keeper.Backup.Runs.{Status, completed, BackupInfo, Store, Ext, Runner}

pub record Faults : Type 0 where
  pub lookup_fails : Bool
  pub stat_fails : Bool
  pub open_fails : Bool
  pub read_fails : Bool

pub data VerifyError : Type 0 where
  lookup_failed : VerifyError
  not_completed : Status → VerifyError
  file_not_found : VerifyError
  size_mismatch : ℕ → ℕ → VerifyError
  open_failed read_failed : VerifyError

abbrev same_size : Option ℕ → ℕ → Bool
same_size none n = true
same_size (some m) n = n == m

abbrev expected : Option ℕ → ℕ
expected none = 0
expected (some m) = m

-- The hash that the code computes is only logged.
unfoldable pub verify_file : Faults → Option ℕ → Option Bytes → Result VerifyError (Unit {0})
verify_file f size none = err file_not_found
verify_file f size (some content) =
    if f.stat_fails
    then err file_not_found
    else if not (same_size size (length content))
    then err (size_mismatch (expected size) (length content))
    else if f.open_fails
    then err open_failed
    else if f.read_fails
    then err read_failed
    else ok tt

abbrev is_completed : Status → Bool
is_completed completed = true
is_completed _ = false

unfoldable pub verify_backup : Ext → Runner → Faults → Uuid → Store → Result VerifyError (Unit {0})
verify_backup ext br f id s =
    if f.lookup_fails then err lookup_failed else elim (row BackupInfo.id id s.log) [
      | none ↦ err lookup_failed
      | some b ↦
          if is_completed b.status
          then verify_file f b.size_bytes (s.files (ext.backup_path br.destination id))
          else err (not_completed b.status)
    ]

-- ORDER BY started_at DESC
abbrev newer : BackupInfo → BackupInfo → Bool
newer a b = leb b.started_at a.started_at

unfoldable pub list_backups : Bool → Store → Option (List BackupInfo)
list_backups fails s = if fails then none else some (sort_by newer s.log)

abbrev first_info : List BackupInfo → Option (Time × Status)
first_info [] = none
first_info (b ∷ bs) = some (elim b.completed_at [ none ↦ b.started_at | some t ↦ t ], b.status)

-- COALESCE(completed_at, started_at), of the row that comes first.
unfoldable pub get_last_backup_info : Bool → Store → Option (Time × Status)
get_last_backup_info fails s = if fails then none else first_info (sort_by newer s.log)
