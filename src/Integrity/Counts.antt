-- ===== src/Integrity/Counts.antt =====
-- What a verification run counts, against a description of an intact file.
use mathlib.Core.Option.{get_or}
use vault_keeper.Prelude.{
  ℕ, ◌+◌, String, ◌≡◌, ◌∙◌, sym, refl, Bool, true, false, not, ◌&&◌, List, [], ◌∷◌, none, some, ok,
  arith, ◌==◌, nat_eq, string_eq, eq_iff, if◌then◌else◌, length, filter,
}
use vault_keeper.Custody.{Uuid, Time}
use vault_keeper.Evidence.Model.{Bytes, EvidenceItem, UploadInput}
use vault_keeper.Evidence.Repository.{list_for_verification}
use vault_keeper.Evidence.Store.{Store, Faults, object, record_custody_event}
use vault_keeper.Evidence.Service.{deref, upload, TsaReply}
use vault_keeper.Evidence.Service
use vault_keeper.Evidence.Pipeline.{upload_ok}
use vault_keeper.Integrity.Check.{
  Ext, ItemFaults, VerificationJob, World, verify_file_hash, raise_alert, handle_mismatch,
  handle_missing, verify_item, verify_items, run_verification, new_job,
}

module _ (ext : Ext) where
  open ext use {sha256_hex}

  -- The file can be read, and its hash is the one on record.
  abbrev pub intact : (Uuid → ItemFaults) → List (String × Bytes) → EvidenceItem → Bool
  intact faults objects item = elim (object (deref item.storage_key) objects) [
    | none ↦ false
    | some content ↦
        not (faults item.id).get_fails
        && (not (faults item.id).hash_fails && (sha256_hex content == item.sha256_hash))
  ]

  abbrev pub handled : VerificationJob → ℕ
  handled job = job.verified + job.mismatches + job.missing

  raise_alert-objects :
      (f : ItemFaults) (item : EvidenceItem) (actor action : String) (d : List (String × String))
      (title body : String) (w : World)
      → (raise_alert ext f item actor action d title body w).store.objects ≡ w.store.objects
  unfolding raise_alert record_custody_event
  raise_alert-objects f item actor action d title body w = ground arith

  verify_item-counts :
      (faults : Uuid → ItemFaults) (job : VerificationJob) (item : EvidenceItem) (actor : String)
      (w : World)
      → let (j, t) = verify_item ext (faults item.id) job item actor w in
        (t.store.objects ≡ w.store.objects)
        × (j.verified ≡ job.verified + (if intact faults w.store.objects item then 1 else 0))
        × (handled j ≡ handled job + 1)
        × (j.total ≡ job.total)
        × (j.status ≡ job.status)
  unfolding verify_item verify_file_hash handle_mismatch handle_missing raise_alert
      record_custody_event
  verify_item-counts faults job item actor w = ground arith

  verify_items-counts :
      (faults : Uuid → ItemFaults) (actor : String) (items : List EvidenceItem)
      (job : VerificationJob) (w : World)
      → let (j, t) = verify_items ext faults actor items job w in
        (j.verified ≡ job.verified + length (filter (intact faults w.store.objects) items))
        × (handled j ≡ handled job + length items)
        × (j.total ≡ job.total)
        × (j.status ≡ job.status)
  unfolding verify_items
  verify_items-counts faults actor [] job w = (omega arith, omega arith, refl, refl)
  verify_items-counts faults actor (item ∷ items) job w =
      let (job₁, w₁) = verify_item ext (faults item.id) job item actor w in
      let (o, v, h, t, s) = verify_item-counts faults job item actor w in
      let (v', h', t', s') = verify_items-counts faults actor items job₁ w₁ in
      let v'' : _ ≡ job₁.verified + length (filter (intact faults w.store.objects) items) =
        rw o at v' in
      (ground (arith, v, v''), omega (arith, h, h'), t' ∙ t, s' ∙ s)

  -- A run over a readable list completes. It counts each listed item once, as verified, wrong or
  -- missing, and as verified exactly those whose file is intact.
  pub run_verification-counts :
      (faults : Uuid → ItemFaults) (actor : String) (id case_id : Uuid) (now : Time) (w : World)
      (items : List EvidenceItem)
      → list_for_verification false case_id w.store.items ≡ ok items
      → let j = (run_verification ext false faults actor (new_job id case_id now) w).0 in
        (j.status ≡ "completed")
        × (j.total ≡ length items)
        × (j.verified + j.mismatches + j.missing ≡ length items)
        × (j.verified ≡ length (filter (intact faults w.store.objects) items))
  unfolding run_verification new_job
  run_verification-counts faults actor id case_id now w items h =
      let job = record (new_job id case_id now) { total = length items } in
      let (v, n, t, s) = verify_items-counts faults actor items job w in
      (let j = (verify_items ext faults actor items job w).0 in
        let running : (j.status == "running") ≡ true = (eq_iff j.status "running").1 s in
        rw (h, running) (refl, t, omega (arith, n), omega (arith, v)))

-- The file of an upload that succeeded verifies against the hash on record right after it, if both
-- parts compute the same hash and the file can be read.
pub verify_file_hash-upload :
    (ext : Ext) (service : Service.Ext) (max : ℕ) (f : Faults) (g : ItemFaults)
    (fresh row_id : Uuid) (now : Time) (reply : TsaReply) (i : UploadInput) (s : Store)
    {e : EvidenceItem}
    → let (r, t) = upload service max f fresh row_id now reply i s in
      ((b : Bytes) → ext.sha256_hex b ≡ service.sha256_hex b)
      → r ≡ ok e
      → g.get_fails ≡ false
      → g.hash_fails ≡ false
      → verify_file_hash ext g (deref e.storage_key) e.sha256_hash t.objects ≡ (e.sha256_hash, none)
unfolding verify_file_hash
verify_file_hash-upload ext service max f g fresh row_id now reply i s {e} same h a b =
    let (_, _, _, (name, (holds, stored))) =
      upload_ok service max f fresh row_id now reply i s {e = e} h in
    let here : (e.sha256_hash == e.sha256_hash) ≡ true =
      (eq_iff e.sha256_hash e.sha256_hash).1 refl in
    rw (a, b, holds.has_key, stored, same (get_or i.file []), sym holds.has_hash, here) refl
