-- ===== src/Backup/Runs.antt =====
-- The backup runner of runner.go: what it acts on, the table backup_log, the files, and one run.
-- pg_dump, tar, gzip, JSON, filepath.Join and the object storage are parameters.
use vault_keeper.Prelude.{
  ℕ, ◌+◌, String, Bool, true, false, ◌||◌, List, [], ◌∷◌, Option, none, some, Result, ok, err, map,
  ◌==◌, nat_eq, string_eq, if◌then◌else◌, leb, length, take, filter, not, any,
}
use vault_keeper.Prelude.Table.{set_row}
use vault_keeper.Custody.{Uuid, Time}
use vault_keeper.Backup.Format.{Bytes}
use vault_keeper.Backup.Format.{Error as CryptError}
use vault_keeper.Backup.Crypt.{Crypto, Random, encrypt}

pub data WriteError : Type 0 where
  mkdir_failed open_failed copy_failed sync_failed : WriteError

-- The error of a run; the table keeps its text.
pub data RunError : Type 0 where
  insert_failed dump_failed : RunError
  encrypt_failed : CryptError → RunError
  write_failed : WriteError → RunError

pub data Status : Type 0 where
  started completed failed : Status

pub record BackupInfo : Type 0 where
  pub id : Uuid
  pub started_at : Time
  pub completed_at : Option Time
  pub status : Status
  pub size_bytes : Option ℕ
  pub destination : String
  pub error : Option RunError

pub record BackupResult : Type 0 where
  pub id : Uuid
  pub status : Status
  pub started_at : Time
  pub completed_at : Option Time
  pub file_count : ℕ
  pub total_size : ℕ
  pub error_message : Option RunError

pub data Level : Type 0 where
  warning critical : Level

-- What the notifier is called with.
pub record Notice : Type 0 where
  pub level : Level
  pub id : Uuid
  pub failures : ℕ
  pub error : RunError

-- The table, the files of the destination, and the fields of the runner that change; `notices` are
-- the calls of the notifier.
pub record Store : Type 0 where
  pub log : List BackupInfo
  pub files : String → Option Bytes
  pub consecutive_failures : ℕ
  pub notices : List Notice

pub record Entry : Type 0 where
  pub name : String
  pub content : Bytes

-- The libraries: the path of the backup of an id in a destination, the name of an object in the
-- archive, the list of keys as JSON, and the writers of tar and gzip.
pub record Ext : Type 0 where
  pub backup_path : String → Uuid → String
  pub evidence_name : String → String
  pub marshal_keys : List String → Bytes
  pub tar_gzip : List Entry → Bytes

pub record Runner : Type 0 where
  pub enc_key : Bytes
  pub destination : String
  pub has_notifier : Bool

-- The object storage: the keys it lists, and the content of each.
pub record Storage : Type 0 where
  pub list_objects : Option (List String)
  pub get_object : String → Option Bytes

-- What the file system does with one write: `short` is the length after which the copy fails.
pub record Disk : Type 0 where
  pub mkdir_fails : Bool
  pub open_fails : Bool
  pub short : Option ℕ
  pub sync_fails : Bool

-- What one run meets: its id, the clock, the faults of the three statements, what pg_dump and the
-- storage deliver, the order in which Go visits a map, and the random source.
pub record Turn : Type 0 where
  pub id : Uuid
  pub started_at : Time
  pub ended_at : Time
  pub insert_fails : Bool
  pub complete_fails : Bool
  pub fail_fails : Bool
  pub dump : Option Bytes
  pub storage : Option Storage
  pub visited : List Entry → List Entry
  pub rand : Random
  pub disk : Disk

-- The primary key refuses a second row of an id.
unfoldable pub insert_log : Bool → Runner → Uuid → Time → Store → Bool × Store
insert_log fails br id now s =
    if fails || any (λ (b : BackupInfo). b.id == id) s.log then (false, s) else (
      true,
      record s {
        log =
            (record {
              id = id;
              started_at = now;
              completed_at = none;
              status = started;
              size_bytes = none;
              destination = br.destination;
              error = none;
            })
            ∷ s.log;
      },
    )

unfoldable pub update_log_completed : Bool → Uuid → Time → ℕ → Store → Store
update_log_completed fails id now size s = if fails then s else record s {
  log =
      set_row BackupInfo.id id
        (λ b. record b { completed_at = some now; status = completed; size_bytes = some size })
        s.log;
}

unfoldable pub update_log_failed : Bool → Uuid → Time → RunError → Store → Store
update_log_failed fails id now e s = if fails then s else record s {
  log =
      set_row BackupInfo.id id
        (λ b. record b { completed_at = some now; status = failed; error = some e }) s.log;
}

abbrev pub level_of : ℕ → Level
level_of n = if leb 3 n then critical else warning

unfoldable pub notify_failed : Bool → Uuid → RunError → Store → Store
notify_failed notifies id e s =
    if notifies
    then record s {
      notices =
          (record {
            level = level_of s.consecutive_failures;
            id = id;
            failures = s.consecutive_failures;
            error = e;
          })
          ∷ s.notices;
    }
    else s

unfoldable pub fail_backup :
    Runner → Turn → BackupResult → RunError → Store → (BackupResult × Option RunError) × Store
fail_backup br t result e s =
    let logged = update_log_failed t.fail_fails t.id t.ended_at e s in
    let counted : Store = record logged {
      consecutive_failures = logged.consecutive_failures + 1;
    } in
    (
      (record result { status = failed; error_message = some e }, some e),
      notify_failed br.has_notifier t.id e counted,
    )

-- `objects[key] = data`
abbrev pub put_entry : Entry → List Entry → List Entry
put_entry e es = e ∷ filter (λ (q : Entry). not (q.name == e.name)) es

-- The loop over the keys; one object that cannot be read ends it.
unfoldable pub read_objects : Storage → List String → List Entry → Option (List Entry)
read_objects storage [] objects = some objects
read_objects storage (key ∷ keys) objects = elim (storage.get_object key) [
  | none ↦ none
  | some content ↦
      read_objects storage keys (put_entry (record { name = key; content = content }) objects)
]

module _ (ext : Ext) where
  abbrev manifest : List String → List Entry
  manifest [] = []
  manifest (key ∷ keys) =
      (record { name = "_manifest.json"; content = ext.marshal_keys (key ∷ keys) }) ∷ []

  -- An empty bucket yields no objects, and no manifest.
  unfoldable pub snapshot_minio : Storage → Option (List Entry)
  snapshot_minio storage = elim storage.list_objects [
    | none ↦ none
    | some keys ↦ read_objects storage keys (manifest keys)
  ]

  -- A snapshot that fails is logged, and leaves the database alone in the backup.
  unfoldable pub storage_objects : Option Storage → List Entry
  storage_objects none = []
  storage_objects (some storage) = elim (snapshot_minio storage) [
    | none ↦ []
    | some objects ↦ objects
  ]

  abbrev filed : Entry → Entry
  filed o = record o { name = ext.evidence_name o.name }

  abbrev pub entries : Bytes → List Entry → List Entry
  entries dump objects = (record { name = "database.dump"; content = dump }) ∷ map filed objects

  unfoldable pub create_archive : Bytes → List Entry → Bytes
  create_archive dump objects = ext.tar_gzip (entries dump objects)

abbrev pub put_file : String → Bytes → (String → Option Bytes) → String → Option Bytes
put_file path content files q = if q == path then some content else files q

-- The file is created, or emptied, before the copy.
unfoldable pub write_to_file :
    Disk → String → Bytes → (String → Option Bytes) → Result WriteError ℕ × (String → Option Bytes)
write_to_file d path content files =
    if d.mkdir_fails
    then (err mkdir_failed, files)
    else if d.open_fails
    then (err open_failed, files)
    else elim d.short [
      | some n ↦ (err copy_failed, put_file path (take n content) files)
      | none ↦ (
        if d.sync_fails then err sync_failed else ok (length content),
        put_file path content files,
      )
    ]

module _ (ext : Ext) (c : Crypto) (br : Runner) where
  abbrev pub begun : Turn → BackupResult
  begun t = record {
    id = t.id;
    status = started;
    started_at = t.started_at;
    completed_at = none;
    file_count = 0;
    total_size = 0;
    error_message = none;
  }

  -- Step 7: an error of the update is logged, and the run is a success all the same.
  unfoldable pub finish_backup : Turn → ℕ → Store → (BackupResult × Option RunError) × Store
  finish_backup t written s =
      let logged = update_log_completed t.complete_fails t.id t.ended_at written s in
      (
        (
          record (begun t) {
            status = completed;
            completed_at = some t.ended_at;
            file_count = 1;
            total_size = written;
          },
          none,
        ),
        record logged { consecutive_failures = 0 },
      )

  -- Step 6.
  unfoldable pub write_backup : Turn → Bytes → Store → (BackupResult × Option RunError) × Store
  write_backup t encrypted s =
      let (r, files) =
        write_to_file t.disk (ext.backup_path br.destination t.id) encrypted s.files in
      let written : Store = record s { files = files } in
      elim r [
        | err e ↦ fail_backup br t (begun t) (write_failed e) written
        | ok n ↦ finish_backup t n written
      ]

  abbrev pub archive : Turn → Bytes → Bytes
  archive t dump = create_archive ext dump (t.visited (storage_objects ext t.storage))

  -- Steps 3 to 6.
  unfoldable pub save_dump : Turn → Bytes → Store → (BackupResult × Option RunError) × Store
  save_dump t dump s =
      elim (encrypt c t.rand (record { bytes = archive t dump; fails = false }) br.enc_key) [
        | err e ↦ fail_backup br t (begun t) (encrypt_failed e) s
        | ok encrypted ↦ write_backup t encrypted s
      ]

  unfoldable pub run_backup : Turn → Store → (BackupResult × Option RunError) × Store
  run_backup t s =
      let (inserted, logged) = insert_log t.insert_fails br t.id t.started_at s in
      if not inserted then ((begun t, some insert_failed), logged) else elim t.dump [
        | none ↦ fail_backup br t (begun t) dump_failed logged
        | some dump ↦ save_dump t dump logged
      ]
