-- ===== src/Evidence/Service.antt =====
-- service.go: validation, the upload pipeline, metadata, downloads and destruction.
use Prim.Native.String.{len, ◌++◌ as str_append}
use mathlib.Core.Option
use mathlib.Core.Option.{get_or}
use vault_keeper.Prelude.{
  ℕ, ◌+◌, String, Bool, not, List, [], ◌∷◌, ◌++◌, Option, none, some, Result, ok, err, ◌==◌, nat_eq,
  string_eq, if◌then◌else◌, ltb, any, is_none, length, take,
}
use vault_keeper.Prelude.Exec.{pure, raise, ◌>>=◌, ◌>>◌}
use vault_keeper.Custody.{Uuid, uuid_nil, Time}
use vault_keeper.Evidence.Model.{
  Bytes, EvidenceItem, EvidenceUpdate, CreateEvidenceInput, DestroyInput, UploadInput, FileNames,
  valid_classification, tsa_pending, tsa_stamped, tsa_disabled, max_description_length,
  max_tag_length, max_tag_count, sanitize_filename,
}
use vault_keeper.Evidence.Repository.{
  Error, validation, failed, panic, get_status, get_legal_hold, get_reference_code,
  increment_evidence_counter, create, find_by_id, update, mark_destroyed, update_thumbnail_key,
}
use vault_keeper.Evidence.Store.{
  Store, Faults, Op, given, on_cases, on_items, reading_cases, reading_items, forgiven, put_object,
  delete_object, get_object, record_custody_event, index_evidence,
}

-- The standard library, the EXIF and thumbnail libraries, and the formats of `fmt.Sprintf`.
pub record Ext : Type 0 where
  pub names : FileNames
  pub trim_space : String → String
  pub escape_string : String → String
  pub sha256_hex : Bytes → String
  pub detect_content_type : Bytes → String
  pub extract_exif : Bytes → String → Option Bytes
  pub generate_thumbnail : Bytes → String → Result (Unit {0}) (Option Bytes)
  pub marshal_tags : List String → String
  pub decimal : ℕ → String
  pub evidence_number : String → ℕ → String
  pub object_key : Uuid → Uuid → ℕ → String → String
  pub thumbnail_key : Uuid → Uuid → String

-- What `IssueTimestamp` answers: an error, no token (the disabled authority), or a token.
pub data TsaReply : Type 0 where
  unavailable : TsaReply
  no_token : TsaReply
  issued : Bytes → String → Time → TsaReply

-- What the upload stores of the answer.
pub record Stamp : Type 0 where
  pub token : Option Bytes
  pub name : String
  pub time : Option Time
  pub status : String

unfoldable pub stamp : TsaReply → Stamp
stamp unavailable = record { token = none; name = ""; time = none; status = tsa_pending }
stamp no_token = record { token = none; name = ""; time = none; status = tsa_disabled }
stamp (issued token name time) = record {
  token = some token;
  name = name;
  time = some time;
  status = tsa_stamped;
}

abbrev pub deref : Option String → String
deref key = get_or key ""

or_panic : Option String → Result Error String
or_panic none = err panic
or_panic (some name) = ok name

too_long : String → Bool
too_long tag = ltb max_tag_length (len tag)

check_tags : List String → Result Error (Unit {0})
unfolding too_long
check_tags tags =
    if ltb max_tag_count (length tags)
    then err (validation "tags" "too many tags")
    else if any too_long tags
    then err (validation "tags" "tag too long")
    else ok tt

check_description : String → Result Error (Unit {0})
check_description description =
    if ltb max_description_length (len description)
    then err (validation "description" "description too long")
    else ok tt

check_classification : String → Result Error (Unit {0})
check_classification c =
    if valid_classification c
    then ok tt
    else err (validation "classification" "invalid classification")

check_given : {A : Type 0} → (A → Result Error (Unit {0})) → Option A → Result Error (Unit {0})
check_given check none = ok tt
check_given check (some a) = check a

unfoldable pub validate_evidence_update : EvidenceUpdate → Result Error (Unit {0})
unfolding check_given check_tags check_description check_classification
validate_evidence_update u = elim (check_given check_description u.description) [
  | err e ↦ err e
  | ok _ ↦ elim (check_given check_classification u.classification) [
    | err e ↦ err e
    | ok _ ↦ check_given check_tags u.tags
  ]
]

unfoldable pub delete_thumbnail : Faults → Option String → Op (Unit {0})
delete_thumbnail f none = pure tt
delete_thumbnail f (some key) =
    if key == "" then pure tt else forgiven (delete_object f.delete_fails key)

-- What follows the mark in the database: both files go, and the event is recorded.
unfoldable pub clear_files : Faults → DestroyInput → EvidenceItem → Op (Unit {0})
clear_files f i e = do
  forgiven (delete_object f.delete_fails (deref e.storage_key))
  delete_thumbnail f e.thumbnail_key
  record_custody_event f e.case_id e.id "evidence_destroyed" i.actor_id
      (("reason", i.reason) ∷ ("filename", e.filename) ∷ ("sha256", e.sha256_hash) ∷ [])
  pure tt

module _ (ext : Ext) where
  open ext use {names, trim_space, escape_string, sha256_hex, detect_content_type}

  -- The default classification is set on the copy that the call was given, and lost.
  unfoldable pub validate_upload_input : UploadInput → Result Error (Unit {0})
  unfolding check_tags
  validate_upload_input i =
      if i.case_id == uuid_nil
      then err (validation "case_id" "case ID is required")
      else if trim_space i.filename == ""
      then err (validation "filename" "filename is required")
      else if is_none i.file
      then err (validation "file" "file is required")
      else if not
          (valid_classification (if i.classification == "" then "restricted" else i.classification))
      then err (validation "classification" "invalid classification")
      else if ltb max_description_length (len i.description)
      then err (validation "description" "description too long")
      else check_tags i.tags

  -- `io.ReadAll(io.LimitReader(input.File, s.maxUpload+1))` and the test of the size.
  unfoldable pub read_file : Bool → ℕ → Option Bytes → Result Error Bytes
  read_file fails max_upload file =
      let content = take (max_upload + 1) (get_or file []) in
      if fails
      then err (failed "read upload data")
      else if ltb max_upload (length content)
      then err (validation "file" "file exceeds maximum upload size")
      else ok content

  unfoldable pub create_input :
      UploadInput → String → String → String → Bytes → TsaReply → CreateEvidenceInput
  unfolding stamp
  create_input i name number key content reply = record {
    case_id = i.case_id;
    evidence_number = number;
    filename = name;
    original_name = i.filename;
    storage_key = key;
    mime_type = detect_content_type content;
    size_bytes = length content;
    sha256_hash = sha256_hex content;
    classification = i.classification;
    description = escape_string (trim_space i.description);
    tags = i.tags;
    uploaded_by = i.uploaded_by;
    uploaded_by_name = i.uploaded_by_name;
    source = i.source;
    source_date = i.source_date;
    tsa_token = (stamp reply).token;
    tsa_name = (stamp reply).name;
    tsa_timestamp = (stamp reply).time;
    tsa_status = (stamp reply).status;
    exif_data = ext.extract_exif content (detect_content_type content);
  }

  abbrev uploaded_detail : String → String → Bytes → List (String × String)
  uploaded_detail number name content =
      ("evidence_number", number)
      ∷ ("filename", name)
      ∷ ("sha256", sha256_hex content)
      ∷ ("size_bytes", ext.decimal (length content))
      ∷ ("mime_type", detect_content_type content)
      ∷ []

  -- The record of the file; on an error the stored file is removed again.
  create_or_clean_up : Faults → Uuid → Time → CreateEvidenceInput → Op EvidenceItem
  create_or_clean_up f row_id now input s =
      let (r, items) = create f.write_fails row_id now input s.items in
      elim r [
        | ok e ↦ (ok e, record s { items = items })
        | err e ↦ (err e, (delete_object f.delete_fails input.storage_key s).1)
      ]

  -- The object first, then the record, the event and the index.
  unfoldable pub file_upload :
      Faults → Uuid → Time → UploadInput → CreateEvidenceInput → Bytes → Op EvidenceItem
  unfolding create_or_clean_up
  file_upload f row_id now i input content = do
    put_object f.put_fails input.storage_key content
    e ← create_or_clean_up f row_id now input
    record_custody_event f i.case_id e.id "evidence_uploaded" i.uploaded_by
        (uploaded_detail input.evidence_number input.filename content)
    index_evidence f e
    pure e

  -- From the file's bytes on. `fresh` is the `uuid.New()` in the storage key, `row_id` the id that
  -- the table gives the row.
  unfoldable pub store_upload :
      Faults → Uuid → Uuid → Time → TsaReply → UploadInput → String → Bytes → Op EvidenceItem
  store_upload f fresh row_id now reply i name content = do
    code ← reading_cases (get_reference_code f.code_fails i.case_id)
    counter ← on_cases (increment_evidence_counter f.counter_fails i.case_id)
    file_upload f row_id now i
        (create_input i name (ext.evidence_number code counter)
          (ext.object_key i.case_id fresh 1 name) content reply)
        content

  -- `Upload`; the thumbnail is made by a goroutine of its own, `generate_thumbnail` below.
  unfoldable pub upload :
      ℕ
      → Faults
      → Uuid
      → Uuid
      → Time
      → TsaReply
      → UploadInput
      → Store
      → Result Error EvidenceItem × Store
  unfolding or_panic
  upload max_upload f fresh row_id now reply i = do
    given (validate_upload_input i)
    status ← reading_cases (get_status f.status_fails i.case_id)
    if not (status == "active")
        then raise (
            validation "case"
              (str_append "cannot upload evidence to a " (str_append status " case")))
        else do
          name ← given (or_panic (sanitize_filename names i.filename))
          content ← given (read_file f.read_fails max_upload i.file)
          store_upload f fresh row_id now reply i name content

  unfoldable pub sanitized_update : EvidenceUpdate → EvidenceUpdate
  sanitized_update u = record u {
    description = Option.map (λ d. escape_string (trim_space d)) u.description;
  }

  entry : String → Option String → List (String × String)
  entry key none = []
  entry key (some value) = (key, value) ∷ []

  unfoldable pub update_metadata :
      Faults → Uuid → EvidenceUpdate → String → Store → Result Error EvidenceItem × Store
  unfolding entry
  update_metadata f id updates actor = do
    given (validate_evidence_update updates)
    let u = sanitized_update updates
    result ← on_items (update f.write_fails id u)
    record_custody_event f result.case_id result.id "metadata_updated" actor (
        entry "description" (Option.map (λ _. "updated") u.description)
        ++ (entry "classification" u.classification
            ++ entry "tags" (Option.map ext.marshal_tags u.tags)))
    index_evidence f result
    pure result

  -- The work of the goroutine that an upload starts: it may run at any later time.
  unfoldable pub generate_thumbnail :
      Faults → Uuid → Uuid → String → Bytes → Store → Result Error (Unit {0}) × Store
  generate_thumbnail f evidence_id case_id mime_type content =
      elim (ext.generate_thumbnail content mime_type) [
        | err _ ↦ pure tt
        | ok none ↦ pure tt
        | ok (some thumb) ↦ forgiven (do
          put_object f.put_fails (ext.thumbnail_key case_id evidence_id) thumb
          on_items (
              update_thumbnail_key f.write_fails evidence_id
                (ext.thumbnail_key case_id evidence_id)))
      ]

  unfoldable pub destroy : Faults → Time → DestroyInput → Store → Result Error (Unit {0}) × Store
  destroy f now i = do
    e ← reading_items (find_by_id f.find_fails i.evidence_id)
    if not (is_none e.destroyed_at) then pure tt else do
      status ← reading_cases (get_status f.status_fails e.case_id)
      if status == "archived"
          then raise (validation "case" "cannot destroy evidence in an archived case")
          else do
            held ← reading_cases (get_legal_hold f.hold_fails e.case_id)
            if held
                then raise (validation "legal_hold" "cannot destroy evidence under legal hold")
                else if trim_space i.reason == ""
                then raise (validation "reason" "destruction reason is required")
                else do
                  on_items (mark_destroyed f.mark_fails now i.evidence_id i.reason i.actor_id)
                  clear_files f i e

-- The bytes and the file's name.
unfoldable pub download : Faults → Uuid → String → Store → Result Error (Bytes × String) × Store
download f id actor = do
  e ← reading_items (find_by_id f.find_fails id)
  if not (is_none e.destroyed_at)
      then raise (validation "evidence" "evidence has been destroyed")
      else do
        content ← get_object f.get_fails (deref e.storage_key)
        record_custody_event f e.case_id e.id "evidence_downloaded" actor
            (("filename", e.filename) ∷ [])
        pure (content, e.filename)

unfoldable pub get_thumbnail : Faults → Uuid → Store → Result Error Bytes × Store
get_thumbnail f id = do
  e ← reading_items (find_by_id f.find_fails id)
  if deref e.thumbnail_key == ""
      then raise (validation "thumbnail" "no thumbnail available")
      else get_object f.get_fails (deref e.thumbnail_key)
