-- ===== src/Backup/Recover.antt =====
-- A run that meets no fault leaves a file from which the archive comes back, and which verifies.
use vault_keeper.Prelude.{
  List, map, All, All-map, Has, ◌<◌, ◌≡◌, String, refl, false, ◌∷◌, Option, none, some, ok, arith,
  ap, ◌∙◌, ◌==◌, nat_eq, string_eq, length, any,
}
use vault_keeper.Backup.Format.{Bytes}
use vault_keeper.Backup.Crypt.{Crypto, encrypt, decrypt}
use vault_keeper.Backup.RoundTrip.{IsAead, IsRandom, decrypt-encrypt}
use vault_keeper.Backup.Snapshot.{Taken, snapshot_minio-Taken}
use vault_keeper.Backup.Runs.{
  Entry, Storage, storage_objects, snapshot_minio, create_archive, started, completed, BackupInfo,
  BackupResult, RunError, Store, Ext, Runner, Disk, Turn, archive, put_file, insert_log,
  update_log_completed, write_to_file, finish_backup, write_backup, save_dump, run_backup,
}
use vault_keeper.Backup.Checks.{Faults, verify_file, verify_backup}

-- The file system takes the whole file.
pub record IsWorking (d : Disk) : Type 0 where
  pub makes : d.mkdir_fails ≡ false
  pub opens : d.open_fails ≡ false
  pub copies : d.short ≡ none
  pub syncs : d.sync_fails ≡ false

pub record IsReadable (f : Faults) : Type 0 where
  pub looks_up : f.lookup_fails ≡ false
  pub stats : f.stat_fails ≡ false
  pub opens : f.open_fails ≡ false
  pub reads : f.read_fails ≡ false

module _ (ext : Ext) (c : Crypto) (br : Runner) (t : Turn) (w : IsWorking t.disk) where
  abbrev path : String
  path = ext.backup_path br.destination t.id

  -- The store once the file stands.
  abbrev filed : Bytes → Store → Store
  filed out s = record s { files = put_file path out s.files }

  write_backup_ok :
      (out : Bytes) (s : Store)
      → write_backup ext c br t out s ≡ finish_backup ext c br t (length out) (filed out s)
  unfolding write_backup write_to_file
  write_backup_ok out s = rw (w.makes, w.opens, w.copies, w.syncs)

  save_dump_ok :
      (dump out : Bytes) (s : Store)
      → encrypt c t.rand (record { bytes = archive ext c br t dump; fails = false }) br.enc_key
        ≡ ok out
      → save_dump ext c br t dump s ≡ finish_backup ext c br t (length out) (filed out s)
  unfolding save_dump
  save_dump_ok dump out s h = ground (arith, write_backup_ok out s)

  run_backup_saved :
      (dump : Bytes) (s : Store)
      → t.insert_fails ≡ false
      → any (λ (b : BackupInfo). b.id == t.id) s.log ≡ false
      → t.dump ≡ some dump
      → run_backup ext c br t s
        ≡ save_dump ext c br t dump (insert_log false br t.id t.started_at s).1
  unfolding run_backup insert_log
  run_backup_saved dump s i n d = ground arith

  put_file-get :
      (out : Bytes) (files : String → Option Bytes) → put_file path out files path ≡ some out
  put_file-get out files = rw ((string_eq.same_iff path path).1 refl)

  abbrev row_started : BackupInfo
  row_started = record {
    id = t.id;
    started_at = t.started_at;
    completed_at = none;
    status = started;
    size_bytes = none;
    destination = br.destination;
    error = none;
  }

  insert_log_ok :
      (s : Store)
      → any (λ (b : BackupInfo). b.id == t.id) s.log ≡ false
      → (insert_log false br t.id t.started_at s).1 ≡ record s { log = row_started ∷ s.log }
  unfolding insert_log
  insert_log_ok s n = rw n

  -- The row that was inserted is completed, and the file has the size that it names.
  finish_backup-verify :
      (f : Faults) (out : Bytes) (s : Store)
      → IsReadable f
      → t.complete_fails ≡ false
      → verify_backup ext br f t.id
          (finish_backup ext c br t
            (length out)
            (filed out (record s { log = row_started ∷ s.log }))).1
        ≡ ok tt
  unfolding verify_backup verify_file finish_backup update_log_completed
  finish_backup-verify f out s r d =
      ground (arith, r.looks_up, r.stats, r.opens, r.reads, put_file-get out s.files)

  run_backup_ok :
      (dump out : Bytes) (s : Store)
      → t.insert_fails ≡ false
      → any (λ (b : BackupInfo). b.id == t.id) s.log ≡ false
      → t.dump ≡ some dump
      → encrypt c t.rand (record { bytes = archive ext c br t dump; fails = false }) br.enc_key
        ≡ ok out
      → run_backup ext c br t s
        ≡ finish_backup ext c br t (length out) (filed out (record s { log = row_started ∷ s.log }))
  run_backup_ok dump out s i n d h =
      run_backup_saved dump s i n d
      ∙ ap (save_dump ext c br t dump) (insert_log_ok s n)
      ∙ save_dump_ok dump out (record s { log = row_started ∷ s.log }) h

module _ (ext : Ext) (c : Crypto) (aead : IsAead c) (br : Runner) where
  -- The record that a completed run returns.
  abbrev pub Completed : Turn → Bytes → (BackupResult × Option RunError) × Store → Type 0
  Completed t out ((result, e), s) =
      (e ≡ none)
      × (result.status ≡ completed)
      × (result.total_size ≡ length out)
      × (s.files (ext.backup_path br.destination t.id) ≡ some out)
      × (s.consecutive_failures ≡ 0)

  finish_backup-Completed :
      (t : Turn) (w : IsWorking t.disk) (out : Bytes) (s : Store)
      → Completed t out (
          finish_backup ext c br t
            (length out)
            (filed ext c br t w out (record s { log = row_started ext c br t w ∷ s.log })))
  unfolding finish_backup update_log_completed
  finish_backup-Completed t w out s = ground (arith, put_file-get ext c br t w out s.files)

  -- With a key that is not empty, a fresh id, and no fault of the log, of pg_dump, of the snapshot of
  -- the storage and of the file system, where the walk over the entries of the snapshot leaves none
  -- out, a run returns no error and leaves a file of the size that it returns, which decrypts to the
  -- archive of the dump and of entries that have each object that the storage lists, with its
  -- content; the count of failures is 0, and the backup verifies where the file can be read.
  pub run_backup-verify :
      (t : Turn) (dump : Bytes) (f : Faults) (s : Store) (storage : Storage) (keys : List String)
      (objects : List Entry)
      → IsRandom t.rand
      → IsWorking t.disk
      → IsReadable f
      → 0 < length br.enc_key
      → t.insert_fails ≡ false
      → t.complete_fails ≡ false
      → any (λ (b : BackupInfo). b.id == t.id) s.log ≡ false
      → t.dump ≡ some dump
      → t.storage ≡ some storage
      → storage.list_objects ≡ some keys
      → snapshot_minio ext storage ≡ some objects
      → ((e : Entry) → Has e objects → Has e (t.visited objects))
      → (out : Bytes) × (entries : List Entry) × Completed t out (run_backup ext c br t s)
        × (decrypt c out br.enc_key
            ≡ ok (
                ext.tar_gzip (
                  (record { name = "database.dump"; content = dump })
                  ∷ map (λ (e : Entry). record e { name = ext.evidence_name e.name }) entries)))
        × All (Taken storage entries) keys
        × (verify_backup ext br f t.id (run_backup ext c br t s).1 ≡ ok tt)
  unfolding storage_objects create_archive
  run_backup-verify t dump f s storage keys objects random w r k i u n d from listed taken visits =
      let (out, encrypted, plain) =
        decrypt-encrypt c aead t.rand random
          (record { bytes = archive ext c br t dump; fails = false }) br.enc_key k refl in
      let ran = run_backup_ok ext c br t w dump out s i n d encrypted in
      let snapshot : storage_objects ext (some storage) ≡ objects =
        rw (taken, storage_objects) refl in
      (
        out,
        t.visited objects,
        rw ran (finish_backup-Completed t w out s),
        plain
            ∙ ap (λ b. ok (create_archive ext dump (t.visited (storage_objects ext b)))) from
            ∙ ap (λ es. ok (create_archive ext dump (t.visited es))) snapshot,
        All-map (λ key (content, g, h). (content, g, visits _ h)) keys
            (snapshot_minio-Taken ext storage keys objects listed taken),
        ap (λ x. verify_backup ext br f t.id x.1) ran
            ∙ finish_backup-verify ext c br t w f out s r u,
      )
