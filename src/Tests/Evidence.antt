-- ===== src/Tests/Evidence.antt =====
-- An upload, a download and a destruction, on a store of one case.

use vault_keeper.Evidence.Versions.{link_version, upload_new_version}
use vault_keeper.Evidence.Lineage.{OnlyCurrent, upload_new_version-current}
use vault_keeper.Evidence.Repository.{Error, root_id, mark_previous_versions, update_version_fields}
use vault_keeper.Prelude.{
  Result, ◌+◌, String, ◌≡◌, refl, Bool, true, false, List, [], ◌∷◌, none, some, ok, is_ok,
  string_eq,
}
use vault_keeper.Evidence.Model.{EvidenceItem, UploadInput, DestroyInput, sanitize_filename}
use vault_keeper.Evidence.Repository.{
  CaseRow, get_status, get_reference_code, get_legal_hold, increment_evidence_counter, create,
  new_item, find_by_id, mark_destroyed,
}
use vault_keeper.Evidence.Store.{
  Store, Faults, no_faults, put_object, delete_object, record_custody_event, index_evidence,
}
use vault_keeper.Evidence.Service.{
  Ext, unavailable, stamp, validate_upload_input, read_file, create_input, file_upload,
  store_upload, upload, delete_thumbnail, clear_files, destroy, download,
}
use vault_keeper.Evidence.Uploads.{Same}
use vault_keeper.Evidence.Pipeline.{upload_err, download-upload}

abbrev pub plain : Ext
plain = record {
  names = record {
    base = λ s. s;
    drop_nulls = λ s. s;
    replace_unsafe = λ s. s;
    collapse = λ s. s;
    trim_dots = λ s. s;
    ext = λ s. "";
  };
  trim_space = λ s. s;
  escape_string = λ s. s;
  sha256_hex = λ b. "e3b0";
  detect_content_type = λ b. "text/plain";
  extract_exif = λ b m. none;
  generate_thumbnail = λ b m. ok none;
  marshal_tags = λ t. "[]";
  decimal = λ n. "2";
  evidence_number = λ code n. code;
  object_key = λ c e v name. name;
  thumbnail_key = λ c e. "thumb";
}

abbrev pub case_in : String → Bool → CaseRow
case_in status hold = record {
  id = 4;
  reference_code = "ICC-01";
  status = status;
  legal_hold = hold;
  evidence_counter = 0;
}

abbrev pub store_of : CaseRow → List EvidenceItem → Store
store_of c items = record {
  cases = c ∷ [];
  items = items;
  objects = [];
  custody = [];
  indexed = [];
}

abbrev pub input : UploadInput
input = record {
  case_id = 4;
  file = some (7 ∷ 8 ∷ []);
  filename = "a.txt";
  size_bytes = 2;
  classification = "public";
  description = "";
  tags = [];
  uploaded_by = "u";
  uploaded_by_name = "U";
  source = "";
  source_date = none;
}

abbrev pub active : Store
active = store_of (case_in "active" false) []

-- The row that the upload makes.
abbrev pub item : EvidenceItem
item = record {
  id = 9;
  case_id = 4;
  evidence_number = some "ICC-01";
  filename = "a.txt";
  original_name = "a.txt";
  storage_key = some "a.txt";
  thumbnail_key = none;
  mime_type = "text/plain";
  size_bytes = 2;
  sha256_hash = "e3b0";
  classification = "public";
  description = "";
  tags = [];
  uploaded_by = "u";
  uploaded_by_name = "U";
  is_current = true;
  version = 1;
  parent_id = none;
  tsa_token = none;
  tsa_name = some "";
  tsa_timestamp = none;
  tsa_status = "pending";
  tsa_retry_count = 0;
  tsa_last_retry = none;
  exif_data = none;
  source = "";
  source_date = none;
  destroyed_at = none;
  destroyed_by = none;
  destroy_reason = none;
  created_at = 5;
  integrity_warning = false;
}

pub uploaded : (upload plain 10 no_faults 1 9 5 unavailable input active).0 ≡ ok item
unfolding upload validate_upload_input get_status sanitize_filename read_file store_upload
    get_reference_code increment_evidence_counter file_upload put_object create create_input
    new_item stamp record_custody_event index_evidence
uploaded = refl

-- The database refuses the row, and the stored file is removed.
abbrev no_row : Faults
no_row = record no_faults { write_fails = true }

refused : is_ok (upload plain 10 no_row 1 9 5 unavailable input active).0 ≡ false
unfolding upload validate_upload_input get_status sanitize_filename read_file store_upload
    get_reference_code increment_evidence_counter file_upload put_object create create_input
    new_item stamp record_custody_event index_evidence
refused = refl

upload_err_example : Same 4 active (upload plain 10 no_row 1 9 5 unavailable input active).1
upload_err_example =
    upload_err plain 10 no_row 1 9 5 unavailable input active (λ name. refl) refl refused

download-upload_example :
    (download no_faults 9 "v" (upload plain 10 no_faults 1 9 5 unavailable input active).1).0
    ≡ ok (7 ∷ 8 ∷ [], "a.txt")
download-upload_example =
    download-upload plain 10 no_faults no_faults 1 9 5 unavailable input active "v" {e = item}
      uploaded refl refl

abbrev removal : DestroyInput
removal = record { evidence_id = 9; reason = "court order"; actor_id = "u" }

abbrev held : Store
held = store_of (case_in "active" true) (item ∷ [])

abbrev open_store : Store
open_store = store_of (case_in "closed" false) (item ∷ [])

destroys : (destroy plain no_faults 6 removal open_store).0 ≡ ok tt
unfolding destroy find_by_id get_status get_legal_hold mark_destroyed clear_files delete_object
    delete_thumbnail record_custody_event
destroys = refl

-- A second version of the item.
abbrev with_item : Store
with_item = store_of (case_in "active" false) (item ∷ [])

abbrev second : EvidenceItem
second = record item { id = 11; version = 2; parent_id = some 9 }

abbrev second_version : Result Error EvidenceItem × Store
second_version =
    upload_new_version plain (λ u. "9") 10 no_faults no_faults 1 11 5 unavailable 9 input with_item

makes_second : second_version.0 ≡ ok second
unfolding upload_new_version link_version upload validate_upload_input get_status sanitize_filename
    read_file store_upload get_reference_code increment_evidence_counter file_upload put_object
    create create_input new_item stamp record_custody_event index_evidence find_by_id
    mark_previous_versions update_version_fields
makes_second = refl

upload_new_version-current_example :
    (2 ≡ item.version + 1)
    × (some 9 ≡ some (root_id item))
    × (true ≡ true)
    × OnlyCurrent (root_id item) second_version.1.items second 11
upload_new_version-current_example =
    upload_new_version-current plain (λ u. "9") 10 no_faults no_faults 1 11 5 unavailable 9 input
      with_item item {e' = second} refl refl refl makes_second
