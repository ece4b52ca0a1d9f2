-- ===== src/Cases/Archive.antt =====
-- export.go: the archive of a case, entry by entry.
use Prim.Native.String.{◌++◌ as append}
use mathlib.Core.Option.{get_or}
use vault_keeper.Prelude.{
  ℕ, String, Bool, List, [], ◌∷◌, ◌++◌, map, Option, none, some, Result, ok, err, ◌==◌, nat_eq,
  if◌then◌else◌, length,
}
use vault_keeper.Prelude.Exec.{Exec, pure, ◌>>◌}
use vault_keeper.Custody.{Ext as CustodyExt, Event, Uuid, uuid_nil, Time}
use vault_keeper.Custody.Log.{Faults as LogFaults}
use vault_keeper.Evidence.Model.{Bytes, EvidenceItem}
use vault_keeper.Evidence.Store.{object}
use vault_keeper.Cases.Model.{Case}

pub record ExportManifest : Type 0 where
  pub export_date : Time
  pub version : String
  pub case_id : Uuid
  pub reference : String
  pub title : String
  pub jurisdiction : String
  pub status : String
  pub total_items : ℕ
  pub exported_by : String

-- What an entry of the archive holds: the value that is written as JSON, the bytes of a file, the
-- records of a CSV file, the text of the README, or what an error left of it.
pub data Content : Type 0 where
  manifest : ExportManifest → Content
  case_json : Case → Content
  file : Bytes → Content
  table : List (List String) → Content
  readme : Case → Time → Content
  broken : Content

pub data Error : Type 0 where
  load_case list_evidence list_events close_zip : Error
  create_entry write_entry download : String → Error

-- The archive as it is streamed: its entries, and whether its directory stands at its end.
pub record Archive : Type 0 where
  pub entries : List (String × Content)
  pub closed : Bool

abbrev pub Op : Type 0 → Type 0
Op = Exec Archive Error

-- The texts of numbers, ids and times, and the recorder's.
pub record Ext : Type 1 where
  pub decimal : ℕ → String
  pub rfc3339 : Time → String
  pub custody : CustodyExt

-- What the database refuses, which entries the ZIP writer refuses to begin or to fill, and which
-- objects the storage refuses.
pub record Faults : Type 0 where
  pub find_fails : Bool
  pub list_fails : Bool
  pub events_fail : Bool
  pub create_fails : String → Bool
  pub write_fails : String → Bool
  pub get_fails : String → Bool
  pub close_fails : Bool
  pub recorder : LogFaults

abbrev pub export_version : String
export_version = "1.0"

abbrev pub with_entry : String → Content → Archive → Archive
with_entry name c a = record a { entries = a.entries ++ ((name, c) ∷ []) }

-- `Create`, and then the writes; what is begun and not finished stays in the archive.
unfoldable pub write : Faults → String → Content → Op (Unit {0})
write f name c a =
    if f.create_fails name
    then (err (create_entry name), a)
    else if f.write_fails name
    then (err (write_entry name), with_entry name broken a)
    else (ok tt, with_entry name c a)

-- The object is fetched after its entry is begun.
abbrev pub copied :
    Faults → String → String → Option Bytes → Archive → Result Error (Unit {0}) × Archive
copied f name key none a = (err (download key), with_entry name broken a)
copied f name key (some content) a =
    if f.write_fails name
    then (err (write_entry name), with_entry name broken a)
    else (ok tt, with_entry name (file content) a)

abbrev pub fetched : Faults → List (String × Bytes) → String → Option Bytes
fetched f objects key = if f.get_fails key then none else object key objects

unfoldable pub copy_file : Faults → List (String × Bytes) → String → String → Op (Unit {0})
copy_file f objects name key a =
    if f.create_fails name
    then (err (create_entry name), a)
    else copied f name key (fetched f objects key) a

abbrev pub number_of : EvidenceItem → String
number_of e = get_or e.evidence_number ""

abbrev pub file_name : String → EvidenceItem → String
file_name prefix e =
    append prefix (append "evidence/" (append (number_of e) (append "_" e.filename)))

-- An item without a key is passed over.
abbrev pub copy_item :
    Faults → String → List (String × Bytes) → EvidenceItem → Option String → Op (Unit {0})
copy_item f prefix objects e none = pure tt
copy_item f prefix objects e (some key) = copy_file f objects (file_name prefix e) key

unfoldable pub write_evidence_files :
    Faults → String → List (String × Bytes) → List EvidenceItem → Op (Unit {0})
write_evidence_files f prefix objects [] = pure tt
write_evidence_files f prefix objects (e ∷ es) = do
  copy_item f prefix objects e e.storage_key
  write_evidence_files f prefix objects es

module _ (ext : Ext) where
  open ext use {decimal, rfc3339}

  abbrev pub stamp_text : Option Time → String
  stamp_text none = ""
  stamp_text (some t) = rfc3339 t

  abbrev pub metadata_row : EvidenceItem → List String
  metadata_row e =
      number_of e
      ∷ e.filename
      ∷ e.original_name
      ∷ e.mime_type
      ∷ decimal e.size_bytes
      ∷ e.sha256_hash
      ∷ e.classification
      ∷ e.description
      ∷ e.uploaded_by
      ∷ e.tsa_status
      ∷ stamp_text e.tsa_timestamp
      ∷ rfc3339 e.created_at
      ∷ []

  abbrev pub metadata_header : List String
  metadata_header =
      "evidence_number" ∷ "filename" ∷ "original_name" ∷ "mime_type" ∷ "size_bytes" ∷ "sha256_hash"
      ∷ "classification" ∷ "description" ∷ "uploaded_by" ∷ "tsa_status" ∷ "tsa_timestamp"
      ∷ "created_at" ∷ []

  abbrev pub custody_row : Event → List String
  custody_row e =
      ext.custody.uuid_string e.id
      ∷ ext.custody.uuid_string e.case_id
      ∷ (if e.evidence_id == uuid_nil then "" else ext.custody.uuid_string e.evidence_id)
      ∷ e.action
      ∷ e.actor_user_id
      ∷ e.detail
      ∷ e.hash_value
      ∷ e.previous_hash
      ∷ rfc3339 e.timestamp
      ∷ []

  abbrev pub custody_header : List String
  custody_header =
      "id" ∷ "case_id" ∷ "evidence_id" ∷ "action" ∷ "actor_user_id" ∷ "detail" ∷ "hash_value"
      ∷ "previous_hash" ∷ "timestamp" ∷ []

  abbrev pub hash_row : EvidenceItem → List String
  hash_row e =
      number_of e ∷ e.filename ∷ e.sha256_hash ∷ e.tsa_status ∷ stamp_text e.tsa_timestamp ∷ []

  abbrev pub hash_header : List String
  hash_header = "evidence_number" ∷ "filename" ∷ "sha256_hash" ∷ "tsa_status" ∷ "tsa_timestamp" ∷ []

  unfoldable pub manifest_of : Time → Case → List EvidenceItem → String → ExportManifest
  manifest_of now c items actor = record {
    export_date = now;
    version = export_version;
    case_id = c.id;
    reference = c.reference_code;
    title = c.title;
    jurisdiction = c.jurisdiction;
    status = c.status;
    total_items = length items;
    exported_by = actor;
  }

  abbrev pub prefix_of : Case → String
  prefix_of c = append c.reference_code "-export/"

  -- The clock is read once for the manifest and once for the README.
  unfoldable pub build_archive :
      Faults
      → Time
      → Time
      → List (String × Bytes)
      → Case
      → List EvidenceItem
      → List Event
      → String
      → Op (Unit {0})
  build_archive f now later objects c items events actor = do
    let prefix = prefix_of c
    write f (append prefix "manifest.json") (manifest (manifest_of now c items actor))
    write f (append prefix "case.json") (case_json c)
    write_evidence_files f prefix objects items
    write f (append prefix "metadata.csv") (table (metadata_header ∷ map metadata_row items))
    write f (append prefix "custody_log.csv") (table (custody_header ∷ map custody_row events))
    write f (append prefix "hashes.csv") (table (hash_header ∷ map hash_row items))
    write f (append prefix "README.txt") (readme c later)
