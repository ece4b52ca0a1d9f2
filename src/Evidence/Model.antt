-- ===== src/Evidence/Model.antt =====
-- models.go and the input of the service: the rows, the inputs and the limits.
use Prim.Native.String.{len, slice, ◌++◌ as str_append}
use vault_keeper.Prelude.{
  ℕ, ◌-◌, String, Bool, ◌||◌, List, Option, none, some, ◌==◌, string_eq, ltb, if◌then◌else◌,
}
use vault_keeper.Custody.{Uuid, Time}

abbrev pub Bytes : Type 0
Bytes = List ℕ

-- The last field is a column that no query of this package reads back.
pub record EvidenceItem : Type 0 where
  pub id : Uuid
  pub case_id : Uuid
  pub evidence_number : Option String
  pub filename : String
  pub original_name : String
  pub storage_key : Option String
  pub thumbnail_key : Option String
  pub mime_type : String
  pub size_bytes : ℕ
  pub sha256_hash : String
  pub classification : String
  pub description : String
  pub tags : List String
  pub uploaded_by : String
  pub uploaded_by_name : String
  pub is_current : Bool
  pub version : ℕ
  pub parent_id : Option Uuid
  pub tsa_token : Option Bytes
  pub tsa_name : Option String
  pub tsa_timestamp : Option Time
  pub tsa_status : String
  pub tsa_retry_count : ℕ
  pub tsa_last_retry : Option Time
  pub exif_data : Option Bytes
  pub source : String
  pub source_date : Option Time
  pub destroyed_at : Option Time
  pub destroyed_by : Option String
  pub destroy_reason : Option String
  pub created_at : Time
  pub integrity_warning : Bool

pub record EvidenceUpdate : Type 0 where
  pub description : Option String
  pub classification : Option String
  pub tags : Option (List String)

pub record CreateEvidenceInput : Type 0 where
  pub case_id : Uuid
  pub evidence_number : String
  pub filename : String
  pub original_name : String
  pub storage_key : String
  pub mime_type : String
  pub size_bytes : ℕ
  pub sha256_hash : String
  pub classification : String
  pub description : String
  pub tags : List String
  pub uploaded_by : String
  pub uploaded_by_name : String
  pub source : String
  pub source_date : Option Time
  pub tsa_token : Option Bytes
  pub tsa_name : String
  pub tsa_timestamp : Option Time
  pub tsa_status : String
  pub exif_data : Option Bytes

pub record DestroyInput : Type 0 where
  pub evidence_id : Uuid
  pub reason : String
  pub actor_id : String

-- `file` is what the reader of the request would deliver, `none` the nil reader.
pub record UploadInput : Type 0 where
  pub case_id : Uuid
  pub file : Option Bytes
  pub filename : String
  pub size_bytes : ℕ
  pub classification : String
  pub description : String
  pub tags : List String
  pub uploaded_by : String
  pub uploaded_by_name : String
  pub source : String
  pub source_date : Option Time

abbrev pub valid_classification : String → Bool
valid_classification c =
    c == "public" || (c == "restricted" || (c == "confidential" || c == "ex_parte"))

abbrev pub tsa_pending : String
tsa_pending = "pending"

abbrev pub tsa_stamped : String
tsa_stamped = "stamped"

abbrev pub tsa_failed : String
tsa_failed = "failed"

abbrev pub tsa_disabled : String
tsa_disabled = "disabled"

abbrev pub max_filename_length : ℕ
max_filename_length = 255

abbrev pub max_description_length : ℕ
max_description_length = 10000

abbrev pub max_tag_length : ℕ
max_tag_length = 100

abbrev pub max_tag_count : ℕ
max_tag_count = 50

-- The functions of path/filepath, strings and regexp that `SanitizeFilename` calls.
pub record FileNames : Type 0 where
  pub base : String → String
  pub drop_nulls : String → String
  pub replace_unsafe : String → String
  pub collapse : String → String
  pub trim_dots : String → String
  pub ext : String → String

-- `name[:n]`, which panics past the end.
abbrev cut : String → ℕ → ℕ → Option String
cut name max n = if ltb max n then none else some (slice name 0 (max - n))

shorten : FileNames → String → Option String
shorten names name =
    if ltb max_filename_length (len name)
    then elim (cut name max_filename_length (len (names.ext name))) [
      | none ↦ none
      | some base ↦ some (str_append base (names.ext name))
    ]
    else some name

-- `none` is the panic of a slice with a negative bound.
unfoldable pub sanitize_filename : FileNames → String → Option String
unfolding shorten
sanitize_filename names name =
    let cleaned =
      names.trim_dots
        (names.collapse (names.replace_unsafe (names.drop_nulls (names.base name)))) in
    elim (shorten names cleaned) [
      | none ↦ none
      | some n ↦ some (if n == "" || (n == "." || n == "..") then "unnamed" else n)
    ]
