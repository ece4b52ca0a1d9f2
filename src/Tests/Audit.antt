-- ===== src/Tests/Audit.antt =====
-- The audit log with a digest that keeps its text.
use vault_keeper.Prelude.{ℕ, ◌≡◌, refl, true, List, [], ◌∷◌, some, arith}
use vault_keeper.Prelude.Sort.{sort_by}
use vault_keeper.Audit.Log.{
  AuthEvent, Ext, Turn, no_faults, descending, entry_of, denied_event, log_all,
}
use vault_keeper.Audit.Chain.{Linked, log_all-Linked, late_writer_forks}

abbrev ext : Ext
ext = record { sha256_hex = λ s. s; decimal = λ n. "t"; marshal_json = λ m. some "{}" }

abbrev denied : AuthEvent
denied = denied_event ext "u" "/api/admin/backups/run" "system_admin" "user" "10.0.0.1"

abbrev turn : ℕ → Turn
turn began = record { faults = no_faults; fresh = began; began = began; now = 9 }

-- The second of three calls cannot commit.
abbrev calls : List (Turn × AuthEvent)
calls =
    (turn 1, denied)
    ∷ (record (turn 2) { faults = record no_faults { commit_fails = true } }, denied)
    ∷ (turn 3, denied)
    ∷ []

log_all-Linked_example : Linked (sort_by descending (log_all ext calls []))
log_all-Linked_example = log_all-Linked ext calls 0 (omega arith, (omega arith, (omega arith, tt)))

late_writer_forks_example :
    sort_by descending
      (log_all ext ((turn 2, denied) ∷ (turn 1, denied) ∷ (turn 3, denied) ∷ []) [])
    ≡ entry_of ext (turn 3) denied "{}" (entry_of ext (turn 2) denied "{}" "").hash_value
      ∷ entry_of ext (turn 2) denied "{}" ""
      ∷ entry_of ext (turn 1) denied "{}" (entry_of ext (turn 2) denied "{}" "").hash_value
      ∷ []
late_writer_forks_example =
    late_writer_forks ext (turn 1) (turn 2) (turn 3) denied denied denied "{}" "{}" "{}"
      (omega arith) (omega arith) refl refl refl refl refl refl
