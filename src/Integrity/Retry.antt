-- ===== src/Integrity/Retry.antt =====
-- The retry of pending timestamps, `runOnce` of tsa_retry.go.
use vault_keeper.Prelude.{
  ℕ, ◌+◌, String, Bool, List, [], ◌∷◌, Option, none, some, Result, ok, err, nat_eq, string_eq,
  if◌then◌else◌, ltb,
}
use vault_keeper.Prelude.Exec.{◌>>◌}
use vault_keeper.Custody.{Uuid, Time}
use vault_keeper.Evidence.Model.{Bytes, EvidenceItem}
use vault_keeper.Evidence.Repository.{
  find_pending_tsa, update_tsa_result, increment_tsa_retry, mark_tsa_failed, day,
}
use vault_keeper.Evidence.Store.{Store, Faults, Op, on_items, forgiven, record_custody_event}
use vault_keeper.Integrity.Hex.{hex_to_bytes}

-- What happens around one item: whether the context is cancelled before it, the clock, the faults,
-- and what the timestamp authority answers to the digest: an error, or a token, which the disabled
-- authority leaves out.
pub record Turn : Type 0 where
  pub cancelled : Bool
  pub now : Time
  pub faults : Faults
  pub issue : Bytes → Option (Option Bytes × String × Time)

-- The bytes of a text, and the decimal of a number.
pub record Ext : Type 0 where
  pub bytes : String → List ℕ
  pub decimal : ℕ → String

pub data LockReply : Type 0 where
  lock_failed not_acquired acquired : LockReply

abbrev tsa_retry_batch : ℕ
tsa_retry_batch = 50

module _ (ext : Ext) where
  -- An answer with a token: the event is recorded where the result was stored.
  unfoldable pub store_token : Turn → EvidenceItem → Option Bytes × String × Time → Op (Unit {0})
  store_token turn item (token, name, time) = do
    on_items (update_tsa_result turn.faults.write_fails item.id token name time)
    record_custody_event turn.faults item.case_id item.id "tsa_retry_succeeded" "system"
        (("tsa_name", name) ∷ ("attempt", ext.decimal (item.tsa_retry_count + 1)) ∷ [])

  unfoldable pub issue_token : Turn → EvidenceItem → Bytes → Op (Unit {0})
  issue_token turn item digest = elim (turn.issue digest) [
    | none ↦ on_items (increment_tsa_retry turn.faults.write_fails turn.now item.id)
    | some reply ↦ store_token turn item reply
  ]

  -- The body of the loop; every error is logged, and the loop goes on.
  unfoldable pub retry_item : Turn → EvidenceItem → Op (Unit {0})
  retry_item turn item =
      if ltb (item.created_at + day) turn.now
      then (do
        forgiven (on_items (mark_tsa_failed turn.faults.mark_fails item.id))
        record_custody_event turn.faults item.case_id item.id "tsa_permanently_failed" "system"
            (("reason", "exceeded 24 hour retry window") ∷ []))
      else elim (hex_to_bytes (ext.bytes item.sha256_hash)) [
        | err _ ↦ forgiven (on_items (mark_tsa_failed turn.faults.mark_fails item.id))
        | ok digest ↦ forgiven (issue_token turn item digest)
      ]

  unfoldable pub retry_items : (Uuid → Turn) → List EvidenceItem → Store → Store
  retry_items turns [] s = s
  retry_items turns (item ∷ items) s =
      let rest = retry_items turns items (retry_item (turns item.id) item s).1 in
      if (turns item.id).cancelled then s else rest

  abbrev pub retry_found :
      {E : Type 0} → (Uuid → Turn) → Result E (List EvidenceItem) → Store → Store
  retry_found turns (err _) s = s
  retry_found turns (ok items) s = retry_items turns items s

  -- The lock keeps the instances of the server apart, and is released at the end.
  unfoldable pub run_once : LockReply → Bool → Time → (Uuid → Turn) → Store → Store
  run_once lock_failed find_fails now turns s = s
  run_once not_acquired find_fails now turns s = s
  run_once acquired find_fails now turns s =
      retry_found turns (find_pending_tsa find_fails now tsa_retry_batch s.items) s
