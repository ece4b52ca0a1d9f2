-- ===== src/Tests/Runs.antt =====
-- Backup runs under a cipher that appends a tag of zeros, with an archive that joins its entries.
use vault_keeper.Prelude.{
  ◌≡◌, refl, map, All, true, false, List, [], ◌∷◌, ◌++◌, none, some, ok, arith,
}
use vault_keeper.Backup.Format.{Bytes}
use vault_keeper.Backup.Crypt.{decrypt}
use vault_keeper.Backup.Snapshot.{Taken}
use vault_keeper.Backup.Runs.{Ext, Runner, Storage, Disk, Turn, Store, Entry, archive, run_backup}
use vault_keeper.Backup.Checks.{Faults, verify_backup}
use vault_keeper.Backup.Recover.{IsWorking, IsReadable, Completed, run_backup-verify}
use vault_keeper.Backup.Failures.{run_all, count_after, told_after, run_all-count}
use vault_keeper.Tests.Backup.{toy, toy-IsAead, fixed, fixed-IsRandom}

abbrev joined : List Entry → Bytes
joined [] = []
joined (e ∷ es) = e.content ++ joined es

abbrev ext : Ext
ext = record {
  backup_path = λ destination id. destination;
  evidence_name = λ key. key;
  marshal_keys = λ keys. 91 ∷ 93 ∷ [];
  tar_gzip = joined;
}

abbrev runner : Runner
runner = record { enc_key = 7 ∷ []; destination = "/backups"; has_notifier = true }

abbrev bucket : Storage
bucket = record { list_objects = some ("a" ∷ []); get_object = λ key. some (4 ∷ []) }

abbrev disk : Disk
disk = record { mkdir_fails = false; open_fails = false; short = none; sync_fails = false }

abbrev turn : Turn
turn = record {
  id = 1;
  started_at = 10;
  ended_at = 20;
  insert_fails = false;
  complete_fails = false;
  fail_fails = false;
  dump = some (1 ∷ 2 ∷ []);
  storage = some bucket;
  visited = λ es. es;
  rand = fixed;
  disk = disk;
}

-- pg_dump fails.
abbrev bad_turn : Turn
bad_turn = record turn { id = 2; dump = none }

abbrev fresh_store : Store
fresh_store = record { log = []; files = λ path. none; consecutive_failures = 0; notices = [] }

abbrev no_faults : Faults
no_faults = record {
  lookup_fails = false;
  stat_fails = false;
  open_fails = false;
  read_fails = false;
}

disk-IsWorking : IsWorking disk
disk-IsWorking = record { makes = refl; opens = refl; copies = refl; syncs = refl }

no_faults-IsReadable : IsReadable no_faults
no_faults-IsReadable = record { looks_up = refl; stats = refl; opens = refl; reads = refl }

abbrev objects : List Entry
objects =
    (record { name = "a"; content = 4 ∷ [] })
    ∷ (record { name = "_manifest.json"; content = 91 ∷ 93 ∷ [] })
    ∷ []

run_backup-verify_example :
    (out : Bytes) × (entries : List Entry) × Completed ext toy toy-IsAead runner turn out
      (run_backup ext toy runner turn fresh_store)
    × (decrypt toy out (7 ∷ [])
        ≡ ok (
            joined (
              (record { name = "database.dump"; content = 1 ∷ 2 ∷ [] })
              ∷ map (λ (e : Entry). record e { name = ext.evidence_name e.name }) entries)))
    × All (Taken bucket entries) ("a" ∷ [])
    × (verify_backup ext runner no_faults 1 (run_backup ext toy runner turn fresh_store).1 ≡ ok tt)
unfolding vault_keeper.Backup.Runs.snapshot_minio vault_keeper.Backup.Runs.read_objects
run_backup-verify_example =
    run_backup-verify ext toy toy-IsAead runner turn (1 ∷ 2 ∷ []) no_faults fresh_store bucket
      ("a" ∷ []) objects fixed-IsRandom disk-IsWorking no_faults-IsReadable (omega arith) refl refl
      refl refl refl refl refl (λ e h. h)

run_all-count_example :
    ((run_all ext toy runner (bad_turn ∷ turn ∷ []) fresh_store).1.consecutive_failures
      ≡ count_after ext toy runner 0 (run_all ext toy runner (bad_turn ∷ turn ∷ []) fresh_store).0)
    × ((run_all ext toy runner (bad_turn ∷ turn ∷ []) fresh_store).1.notices
        ≡ told_after ext toy runner 0
            (run_all ext toy runner (bad_turn ∷ turn ∷ []) fresh_store).0
            [])
run_all-count_example = run_all-count ext toy runner (bad_turn ∷ turn ∷ []) fresh_store
