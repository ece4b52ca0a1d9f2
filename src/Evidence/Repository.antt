-- ===== src/Evidence/Repository.antt =====
-- repository.go and case_adapter.go: the statements on evidence_items and on cases. A table is the
-- list of its rows, the latest insertion first; a Boolean says that the database refuses.
use mathlib.Core.Option.{get_or}
use vault_keeper.Prelude.{
  ℕ, ◌+◌, String, Bool, true, false, not, ◌&&◌, ◌||◌, List, [], ◌∷◌, Option, none, some, Result, ok,
  err, ◌==◌, nat_eq, string_eq, if◌then◌else◌, ltb, leb, any, filter, take, update_where, is_none,
}
use vault_keeper.Prelude.Sort.{sort_by}
use vault_keeper.Prelude.Table.{row, set_row}
use vault_keeper.Custody.{Uuid, Time}
use vault_keeper.Evidence.Model.{
  Bytes, EvidenceItem, EvidenceUpdate, CreateEvidenceInput, valid_classification, tsa_pending,
  tsa_stamped, tsa_failed,
}

-- `ErrNotFound`, a `*ValidationError`, a wrapped error, or a panic.
pub data Error : Type 0 where
  not_found : Error
  validation : String → String → Error
  failed : String → Error
  panic : Error

-- The columns of cases that the evidence code reads.
pub record CaseRow : Type 0 where
  pub id : Uuid
  pub reference_code : String
  pub status : String
  pub legal_hold : Bool
  pub evidence_counter : ℕ

abbrev pub item_row : Uuid → List EvidenceItem → Option EvidenceItem
item_row = row (λ e. e.id)

abbrev pub set_item : Uuid → (EvidenceItem → EvidenceItem) → List EvidenceItem → List EvidenceItem
set_item = set_row (λ e. e.id)

-- `QueryRow(…).Scan`: no row is an error that nobody tells from the others.
read_case : {A : Type 0} → String → (CaseRow → A) → Option CaseRow → Result Error A
read_case what f none = err (failed what)
read_case what f (some c) = ok (f c)

unfoldable pub get_legal_hold : Bool → Uuid → List CaseRow → Result Error Bool
unfolding read_case
get_legal_hold fails id cases =
    if fails
    then err (failed "get legal hold status")
    else read_case "get legal hold status" (λ c. c.legal_hold) (row (λ c. c.id) id cases)

unfoldable pub get_status : Bool → Uuid → List CaseRow → Result Error String
unfolding read_case
get_status fails id cases =
    if fails
    then err (failed "get case status")
    else read_case "get case status" (λ c. c.status) (row (λ c. c.id) id cases)

unfoldable pub get_reference_code : Bool → Uuid → List CaseRow → Result Error String
unfolding read_case
get_reference_code fails id cases =
    if fails
    then err (failed "get case reference code")
    else read_case "get case reference code" (λ c. c.reference_code) (row (λ c. c.id) id cases)

-- One transaction under the lock of the case; every error rolls it back.
unfoldable pub increment_evidence_counter :
    Bool → Uuid → List CaseRow → Result Error ℕ × List CaseRow
unfolding read_case
increment_evidence_counter fails id cases =
    if fails then (err (failed "increment evidence counter"), cases) else (
      read_case "increment evidence counter" (λ c. c.evidence_counter + 1)
          (row (λ c. c.id) id cases),
      set_row (λ c. c.id) id (λ c. record c { evidence_counter = c.evidence_counter + 1 }) cases,
    )

-- INSERT … RETURNING: the columns that are not given take their defaults.
unfoldable pub new_item : Uuid → Time → CreateEvidenceInput → EvidenceItem
new_item fresh now i = record {
  id = fresh;
  case_id = i.case_id;
  evidence_number = some i.evidence_number;
  filename = i.filename;
  original_name = i.original_name;
  storage_key = some i.storage_key;
  thumbnail_key = none;
  mime_type = i.mime_type;
  size_bytes = i.size_bytes;
  sha256_hash = i.sha256_hash;
  classification = i.classification;
  description = i.description;
  tags = i.tags;
  uploaded_by = i.uploaded_by;
  uploaded_by_name = i.uploaded_by_name;
  is_current = true;
  version = 1;
  parent_id = none;
  tsa_token = i.tsa_token;
  tsa_name = some i.tsa_name;
  tsa_timestamp = i.tsa_timestamp;
  tsa_status = i.tsa_status;
  tsa_retry_count = 0;
  tsa_last_retry = none;
  exif_data = i.exif_data;
  source = i.source;
  source_date = i.source_date;
  destroyed_at = none;
  destroyed_by = none;
  destroy_reason = none;
  created_at = now;
  integrity_warning = false;
}

-- The primary key, and the CHECK on the classification.
unfoldable pub create :
    Bool
    → Uuid
    → Time
    → CreateEvidenceInput
    → List EvidenceItem
    → Result Error EvidenceItem × List EvidenceItem
create fails fresh now i items =
    if fails || any (λ (e : EvidenceItem). e.id == fresh) items
    then (err (failed "insert evidence"), items)
    else if not (valid_classification i.classification)
    then (err (failed "insert evidence"), items)
    else (ok (new_item fresh now i), new_item fresh now i ∷ items)

found : Option EvidenceItem → Result Error EvidenceItem
found none = err not_found
found (some e) = ok e

unfoldable pub find_by_id : Bool → Uuid → List EvidenceItem → Result Error EvidenceItem
unfolding found
find_by_id fails id items =
    if fails then err (failed "find evidence by id") else found (item_row id items)

abbrev pub updated : EvidenceUpdate → EvidenceItem → EvidenceItem
updated u e = record e {
  description = get_or u.description e.description;
  classification = get_or u.classification e.classification;
  tags = get_or u.tags e.tags;
}

-- `WHERE id = $1 AND destroyed_at IS NULL`
abbrev pub alive : Uuid → EvidenceItem → Bool
alive id e = e.id == id && is_none e.destroyed_at

-- An UPDATE with RETURNING, or with `RowsAffected() == 0`: no live row is `ErrNotFound`.
live : Uuid → List EvidenceItem → Result Error EvidenceItem
live id items = elim (filter (alive id) items) [ [] ↦ err not_found | e ∷ _ ↦ ok e ]

unfoldable pub update :
    Bool → Uuid → EvidenceUpdate → List EvidenceItem → Result Error EvidenceItem × List EvidenceItem
unfolding live
update fails id u items =
    if is_none u.description && (is_none u.classification && is_none u.tags)
    then (find_by_id fails id items, items)
    else if fails
    then (err (failed "update evidence"), items)
    else (let items₁ = update_where (alive id) (updated u) items in (live id items₁, items₁))

abbrev pub destroyed : Time → String → String → EvidenceItem → EvidenceItem
destroyed now reason by e = record e {
  destroyed_at = some now;
  destroyed_by = some by;
  destroy_reason = some reason;
}

affected : Result Error EvidenceItem → Result Error (Unit {0})
affected (ok e) = ok tt
affected (err e) = err e

unfoldable pub mark_destroyed :
    Bool
    → Time
    → Uuid
    → String
    → String
    → List EvidenceItem
    → Result Error (Unit {0}) × List EvidenceItem
unfolding affected live
mark_destroyed fails now id reason by items =
    if fails
    then (err (failed "mark evidence destroyed"), items)
    else (affected (live id items), update_where (alive id) (destroyed now reason by) items)

-- An UPDATE by id whose count of rows is not looked at.
abbrev blind :
    String
    → Bool
    → (List EvidenceItem → List EvidenceItem)
    → List EvidenceItem
    → Result Error (Unit {0}) × List EvidenceItem
blind what fails f items = if fails then (err (failed what), items) else (ok tt, f items)

unfoldable pub update_tsa_result :
    Bool
    → Uuid
    → Option Bytes
    → String
    → Time
    → List EvidenceItem
    → Result Error (Unit {0}) × List EvidenceItem
update_tsa_result fails id token name time = blind "update TSA result" fails (
    set_item id (λ e. record e {
      tsa_token = token;
      tsa_name = some name;
      tsa_timestamp = some time;
      tsa_status = tsa_stamped;
    }))

unfoldable pub increment_tsa_retry :
    Bool → Time → Uuid → List EvidenceItem → Result Error (Unit {0}) × List EvidenceItem
increment_tsa_retry fails now id = blind "increment TSA retry" fails (
    set_item id
      (λ e. record e { tsa_retry_count = e.tsa_retry_count + 1; tsa_last_retry = some now }))

unfoldable pub mark_tsa_failed :
    Bool → Uuid → List EvidenceItem → Result Error (Unit {0}) × List EvidenceItem
mark_tsa_failed fails id =
    blind "mark TSA failed" fails (set_item id (λ e. record e { tsa_status = tsa_failed }))

unfoldable pub update_thumbnail_key :
    Bool → Uuid → String → List EvidenceItem → Result Error (Unit {0}) × List EvidenceItem
update_thumbnail_key fails id key =
    blind "update thumbnail key" fails (set_item id (λ e. record e { thumbnail_key = some key }))

unfoldable pub update_version_fields :
    Bool → Uuid → Uuid → ℕ → List EvidenceItem → Result Error (Unit {0}) × List EvidenceItem
update_version_fields fails id parent_id version = blind "update version fields" fails (
    set_item id
      (λ e. record e { parent_id = some parent_id; version = version; is_current = true }))

unfoldable pub flag_integrity_warning :
    Bool → Uuid → List EvidenceItem → Result Error (Unit {0}) × List EvidenceItem
flag_integrity_warning fails id =
    blind "flag integrity warning" fails (set_item id (λ e. record e { integrity_warning = true }))

abbrev pub is_id : Option Uuid → Uuid → Bool
is_id none id = false
is_id (some p) id = p == id

-- `WHERE id = $1 OR parent_id = $1`
abbrev pub of_family : Uuid → EvidenceItem → Bool
of_family root e = e.id == root || is_id e.parent_id root

unfoldable pub mark_previous_versions :
    Bool → Uuid → List EvidenceItem → Result Error (Unit {0}) × List EvidenceItem
mark_previous_versions fails root =
    blind "mark previous versions" fails
      (update_where (of_family root) (λ e. record e { is_current = false }))

-- `rootID := e.ID; if e.ParentID != nil { rootID = *e.ParentID }`
abbrev pub root_id : EvidenceItem → Uuid
root_id e = get_or e.parent_id e.id

unfoldable pub by_version : EvidenceItem → EvidenceItem → Bool
by_version a b = leb a.version b.version

unfoldable pub find_version_history :
    Bool → Bool → Uuid → List EvidenceItem → Result Error (List EvidenceItem)
find_version_history find_fails fails id items = elim (find_by_id find_fails id items) [
  | err e ↦ err e
  | ok e ↦
      if fails
      then err (failed "find version history")
      else ok (sort_by by_version (filter (of_family (root_id e)) items))
]

unfoldable pub find_by_hash :
    Bool → Uuid → String → List EvidenceItem → Result Error (List EvidenceItem)
find_by_hash fails case_id hash items =
    if fails
    then err (failed "find evidence by hash")
    else ok (
        filter (λ e. e.case_id == case_id && (e.sha256_hash == hash && is_none e.destroyed_at))
          items)

-- 24 hours, in nanoseconds; shut, so that no proof counts it.
unfoldable pub day : Time
day = 86400000000000

unfoldable pub by_creation : EvidenceItem → EvidenceItem → Bool
by_creation a b = leb a.created_at b.created_at

-- Pending items that live and were created less than 24 hours ago, the oldest first.
unfoldable pub find_pending_tsa :
    Bool → Time → ℕ → List EvidenceItem → Result Error (List EvidenceItem)
find_pending_tsa fails now limit items =
    if fails
    then err (failed "find pending TSA items")
    else ok (
        take limit (
          sort_by by_creation (
            filter
              (λ e.
                e.tsa_status == tsa_pending
                && (is_none e.destroyed_at && ltb now (e.created_at + day)))
              items)))

-- The current, living items of a case, the oldest first.
unfoldable pub list_for_verification :
    Bool → Uuid → List EvidenceItem → Result Error (List EvidenceItem)
list_for_verification fails case_id items =
    if fails
    then err (failed "list evidence for verification")
    else ok (
        sort_by by_creation
          (filter (λ e. e.case_id == case_id && (e.is_current && is_none e.destroyed_at)) items))
