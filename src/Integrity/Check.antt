-- ===== src/Integrity/Check.antt =====
-- `VerifyFileHash` (verifier.go) and a verification run (handler.go). The messages of errors are
-- those of the Go code's formats, which are parameters.
use vault_keeper.Prelude.{
  ℕ, ◌+◌, String, Bool, true, false, not, List, [], ◌∷◌, Option, none, some, Result, ok, err, ◌==◌,
  nat_eq, string_eq, if◌then◌else◌, length,
}
use vault_keeper.Prelude.Table.{row}
use vault_keeper.Custody.{Uuid, Time}
use vault_keeper.Evidence.Model.{Bytes, EvidenceItem}
use vault_keeper.Evidence.Repository.{Error, list_for_verification, flag_integrity_warning}
use vault_keeper.Evidence.Store.{Store, Faults, object, record_custody_event}
use vault_keeper.Evidence.Service.{deref}

-- Why a file did not verify; `hash_mismatch` has the expected and the computed hash.
pub data FileError : Type 0 where
  unread unhashed : FileError
  hash_mismatch : String → String → FileError

pub record Ext : Type 0 where
  pub sha256_hex : Bytes → String
  pub error_text : FileError → String
  pub mismatch_body : EvidenceItem → String → String
  pub missing_body : EvidenceItem → FileError → String

pub record NotificationEvent : Type 0 where
  pub kind : String
  pub case_id : Uuid
  pub title : String
  pub body : String

-- What fails around one item. `token_rejected` is the answer of the timestamp authority.
pub record ItemFaults : Type 0 where
  pub get_fails : Bool
  pub hash_fails : Bool
  pub token_rejected : Bool
  pub flag_fails : Bool
  pub notify_fails : Bool
  pub recorder : Faults

pub record VerificationJob : Type 0 where
  pub id : Uuid
  pub case_id : Uuid
  pub status : String
  pub total : ℕ
  pub verified : ℕ
  pub mismatches : ℕ
  pub missing : ℕ
  pub started_at : Time
  pub error : String

pub record World : Type 0 where
  pub store : Store
  pub notified : List NotificationEvent

-- `ComputeSHA256` of the object's reader, which may break off.
read_hash : (Bytes → String) → Bool → Bytes → Result FileError String
read_hash sha fails content = if fails then err unhashed else ok (sha content)

-- The computed hash, empty where the file could not be read, and the error.
compared : String → Result FileError String → String × Option FileError
compared expected (err e) = ("", some e)
compared expected (ok computed) =
    if not (computed == expected)
    then (computed, some (hash_mismatch expected computed))
    else (computed, none)

module _ (ext : Ext) where
  open ext use {sha256_hex, error_text, mismatch_body, missing_body}

  hash_object : Bool → Bool → Option Bytes → Result FileError String
  unfolding read_hash
  hash_object true hash_fails content = err unread
  hash_object false hash_fails none = err unread
  hash_object false hash_fails (some content) = read_hash sha256_hex hash_fails content

  unfoldable pub verify_file_hash :
      ItemFaults → String → String → List (String × Bytes) → String × Option FileError
  unfolding hash_object compared
  verify_file_hash f key expected objects =
      compared expected (hash_object f.get_fails f.hash_fails (object key objects))

  -- `FlagIntegrityWarning`, the custody event and the notification, each error logged only.
  unfoldable pub raise_alert :
      ItemFaults
      → EvidenceItem
      → String
      → String
      → List (String × String)
      → String
      → String
      → World
      → World
  raise_alert f item actor action detail title body w =
      let (_, items) = flag_integrity_warning f.flag_fails item.id w.store.items in
      let (_, store) =
        record_custody_event f.recorder item.case_id item.id action actor detail
          (record w.store { items = items }) in
      record {
        store = store;
        notified =
            if f.notify_fails
            then w.notified
            else (record {
              kind = "integrity_warning";
              case_id = item.case_id;
              title = title;
              body = body;
            })
              ∷ w.notified;
      }

  unfoldable pub handle_mismatch :
      ItemFaults
      → VerificationJob
      → EvidenceItem
      → String
      → String
      → World
      → VerificationJob × World
  handle_mismatch f job item actor computed w = (
    record job { mismatches = job.mismatches + 1 },
    raise_alert f item actor "INTEGRITY ALERT — stored hash does not match computed hash"
        (("expected_hash", item.sha256_hash)
          ∷ ("computed_hash", computed)
          ∷ ("filename", item.filename)
          ∷ ("storage_key", deref item.storage_key)
          ∷ [])
        "Evidence Integrity Alert" (mismatch_body item computed) w,
  )

  unfoldable pub handle_missing :
      ItemFaults
      → VerificationJob
      → EvidenceItem
      → String
      → FileError
      → World
      → VerificationJob × World
  handle_missing f job item actor e w = (
    record job { missing = job.missing + 1 },
    raise_alert f item actor "INTEGRITY ALERT — evidence file missing or unreadable"
        (("filename", item.filename)
          ∷ ("storage_key", deref item.storage_key)
          ∷ ("error", error_text e)
          ∷ [])
        "Evidence File Missing" (missing_body item e) w,
  )

  -- An item with a computed hash and an error has a wrong hash. The timestamp token of a verified
  -- item is looked at, and what comes of it is a log line: no field of the job depends on it.
  handle_result :
      ItemFaults
      → VerificationJob
      → EvidenceItem
      → String
      → String × Option FileError
      → World
      → VerificationJob × World
  handle_result f job item actor (computed, some e) w =
      if not (computed == "")
      then handle_mismatch f job item actor computed w
      else handle_missing f job item actor e w
  handle_result f job item actor (computed, none) w =
      (record job { verified = job.verified + 1 }, w)

  unfoldable pub verify_item :
      ItemFaults → VerificationJob → EvidenceItem → String → World → VerificationJob × World
  unfolding handle_result
  verify_item f job item actor w =
      handle_result f job item actor
        (verify_file_hash f (deref item.storage_key) item.sha256_hash w.store.objects) w

  unfoldable pub verify_items :
      (Uuid → ItemFaults)
      → String
      → List EvidenceItem
      → VerificationJob
      → World
      → VerificationJob × World
  verify_items faults actor [] job w = (job, w)
  verify_items faults actor (item ∷ items) job w =
      let (job₁, w₁) = verify_item (faults item.id) job item actor w in
      verify_items faults actor items job₁ w₁

  abbrev set_job_failed : VerificationJob → String → VerificationJob
  set_job_failed job text = record job { status = "failed"; error = text }

  abbrev complete : VerificationJob → VerificationJob
  complete job = if job.status == "running" then record job { status = "completed" } else job

  run_items :
      (Uuid → ItemFaults)
      → String
      → Result Error (List EvidenceItem)
      → VerificationJob
      → World
      → VerificationJob × World
  run_items faults actor (err _) job w = (set_job_failed job "load evidence", w)
  run_items faults actor (ok items) job w =
      let (job₁, w₁) = verify_items faults actor items (record job { total = length items }) w in
      (complete job₁, w₁)

  -- `runVerification`, from the list of the case's current items.
  unfoldable pub run_verification :
      Bool → (Uuid → ItemFaults) → String → VerificationJob → World → VerificationJob × World
  unfolding run_items
  run_verification list_fails faults actor job w =
      run_items faults actor (list_for_verification list_fails job.case_id w.store.items) job w

-- `jobs.Load` and `jobs.Store`: one job for a case.
abbrev pub load_job : Uuid → List VerificationJob → Option VerificationJob
load_job = row (λ j. j.case_id)

unfoldable pub store_job : VerificationJob → List VerificationJob → List VerificationJob
store_job job jobs = job ∷ jobs

-- The two halves of `StartVerification`, which other requests may come between.
unfoldable pub may_start : Uuid → List VerificationJob → Bool
may_start case_id jobs = elim (load_job case_id jobs) [
  | none ↦ true
  | some job ↦ not (job.status == "running")
]

unfoldable pub new_job : Uuid → Uuid → Time → VerificationJob
new_job id case_id now = record {
  id = id;
  case_id = case_id;
  status = "running";
  total = 0;
  verified = 0;
  mismatches = 0;
  missing = 0;
  started_at = now;
  error = "";
}
