-- ===== src/Evidence/Requests.antt =====
-- The endpoints of handler.go, from a request to its answer. Their routes have no guard but the
-- sign-in.
use vault_keeper.Prelude.{
  ℕ, zero, suc, String, Bool, false, List, [], ◌∷◌, Option, none, some, ok, err, ltb, ◌==◌, nat_eq,
  string_eq, if◌then◌else◌, length,
}
use vault_keeper.Prelude.Int.{ℤ, pos, negsuc}
use vault_keeper.Prelude.Replies.{
  Reply, answered, refused, Decoded, too_large, invalid, decoded, replied, read,
}
use vault_keeper.Custody.{Uuid, Time, Event}
use vault_keeper.Custody.Pages.{CursorCodec, Page, list as list_events}
use vault_keeper.Access.Tokens.{AuthContext}
use vault_keeper.Evidence.Model.{Bytes, EvidenceItem, EvidenceUpdate, UploadInput}
use vault_keeper.Evidence.Repository.{Error, not_found, validation, find_by_id}
use vault_keeper.Evidence.Store.{Store, Faults}
use vault_keeper.Evidence.Service.{
  Ext, TsaReply, upload, update_metadata, destroy, download, get_thumbnail,
}
use vault_keeper.Evidence.Versions.{get_version_history}
use vault_keeper.Evidence.Listing.{
  Ext as ListExt, Faults as ListFaults, Disclosure, EvidenceFilter, Pagination, PaginatedResult,
  list,
}

-- `respondServiceError`; a panic is recovered to a 500.
unfoldable pub service_error : Error → ℕ
service_error (validation field message) = 400
service_error not_found = 404
service_error _ = 500

-- The standard library, the uuid package and JSON.
pub record Parsers : Type 0 where
  pub parse_uuid : String → Option Uuid
  pub atoi : String → Option ℤ
  pub parse_rfc3339 : String → Option Time
  pub parse_day : String → Option Time
  pub unmarshal_tags : String → Option (List String)
  pub split_comma : String → List String
  pub trim_space : String → String

-- A multipart form; the values are empty where they are absent.
pub record Form : Type 0 where
  pub file : Option Bytes
  pub filename : String
  pub size : ℕ
  pub classification : String
  pub description : String
  pub source : String
  pub source_date : String
  pub tags : String

pub record ListParams : Type 0 where
  pub classification : String
  pub mime_type : String
  pub q : String
  pub current_only : String
  pub tags : String
  pub limit : String
  pub cursor : String

-- The query parameters of the custody log.
pub record LogParams : Type 0 where
  pub limit : String
  pub cursor : String

abbrev pub default_to : String → String → String
default_to default s = if s == "" then default else s

abbrev pub destroy_decoded :
    Ext → Faults → Time → AuthContext → Uuid → Store → Decoded String → Reply (Unit {0}) × Store
destroy_decoded ext f now user id s too_large = (refused 400, s)
destroy_decoded ext f now user id s invalid = (refused 400, s)
destroy_decoded ext f now user id s (decoded reason) =
    replied service_error 200
      (destroy ext f now (record { evidence_id = id; reason = reason; actor_id = user.user_id }) s)

module _ (p : Parsers) where
  abbrev kept : List String → List String
  kept [] = []
  kept (t ∷ ts) = let rest = kept ts in if p.trim_space t == "" then rest else p.trim_space t ∷ rest

  unfoldable pub split_tags : String → List String
  split_tags s = kept (p.split_comma s)

  abbrev or_split : String → Option (List String) → List String
  or_split s none = split_tags s
  or_split s (some tags) = tags

  abbrev or_day : String → Option Time → Option Time
  or_day s none = p.parse_day s
  or_day s (some t) = some t

  -- A date that neither format reads is left out.
  abbrev pub source_date_of : String → Option Time
  source_date_of s = if s == "" then none else or_day s (p.parse_rfc3339 s)

  abbrev pub tags_of : String → List String
  tags_of s = if s == "" then [] else or_split s (p.unmarshal_tags s)

  unfoldable pub upload_input : AuthContext → Uuid → Form → Bytes → UploadInput
  upload_input user case_id form file = record {
    case_id = case_id;
    file = some file;
    filename = form.filename;
    size_bytes = form.size;
    classification = default_to "restricted" form.classification;
    description = form.description;
    tags = tags_of form.tags;
    uploaded_by = user.user_id;
    uploaded_by_name = user.username;
    source = form.source;
    source_date = source_date_of form.source_date;
  }

  abbrev positive : Option ℤ → ℕ
  positive none = 0
  positive (some (negsuc n)) = 0
  positive (some (pos n)) = n

  unfoldable pub parse_pagination : String → String → Pagination
  parse_pagination limit cursor = record {
    limit = pos (if limit == "" then 0 else positive (p.atoi limit));
    cursor = cursor;
  }

  abbrev within : Option ℤ → ℕ
  within none = 50
  within (some (negsuc n)) = 50
  within (some (pos zero)) = 50
  within (some (pos (suc n))) = if ltb 200 (suc n) then 50 else suc n

  -- The parameter `limit` of the custody log.
  abbrev pub log_limit : String → ℕ
  log_limit text = if text == "" then 50 else within (p.atoi text)

  abbrev pub with_file :
      Ext
      → ℕ
      → Faults
      → Uuid
      → Uuid
      → Time
      → TsaReply
      → AuthContext
      → Uuid
      → Form
      → Store
      → Option Bytes
      → Reply EvidenceItem × Store
  with_file ext max f fresh row_id now reply user id form s none = (refused 400, s)
  with_file ext max f fresh row_id now reply user id form s (some file) =
      replied service_error 201
        (upload ext max f fresh row_id now reply (upload_input user id form file) s)

  -- `form` is `none` where no multipart form can be read; the file of a form may be missing.
  unfoldable pub handle_upload :
      Ext
      → ℕ
      → Faults
      → Uuid
      → Uuid
      → Time
      → TsaReply
      → Option AuthContext
      → String
      → Option Form
      → Store
      → Reply EvidenceItem × Store
  handle_upload ext max f fresh row_id now reply none case_id form s = (refused 500, s)
  handle_upload ext max f fresh row_id now reply (some user) case_id form s =
      elim (p.parse_uuid case_id) [
        | none ↦ (refused 400, s)
        | some id ↦ elim form [
          | none ↦ (refused 400, s)
          | some form ↦ with_file ext max f fresh row_id now reply user id form s form.file
        ]
      ]

  -- The role of the user in the case is not among the fields that are set.
  unfoldable pub filter_of : Uuid → ListParams → EvidenceFilter
  filter_of case_id q = record {
    case_id = case_id;
    classification = q.classification;
    mime_type = q.mime_type;
    tags = if q.tags == "" then [] else p.split_comma q.tags;
    current_only = q.current_only == "true";
    include_destroyed = false;
    search_query = q.q;
    user_role = "";
  }

  unfoldable pub handle_list :
      ListExt
      → ListFaults
      → List Disclosure
      → String
      → ListParams
      → List EvidenceItem
      → Reply PaginatedResult
  handle_list ext g ds case_id q items = elim (p.parse_uuid case_id) [
    | none ↦ refused 400
    | some id ↦
        read service_error
          (list ext g ds (filter_of id q) (parse_pagination q.limit q.cursor) items)
  ]

  unfoldable pub handle_get : Faults → String → Store → Reply EvidenceItem
  handle_get f id s = elim (p.parse_uuid id) [
    | none ↦ refused 400
    | some id ↦ read service_error (find_by_id f.find_fails id s.items)
  ]

  unfoldable pub handle_download :
      Faults → Option AuthContext → String → Store → Reply (Bytes × String) × Store
  handle_download f none id s = (refused 500, s)
  handle_download f (some user) id s = elim (p.parse_uuid id) [
    | none ↦ (refused 400, s)
    | some id ↦ replied service_error 200 (download f id user.user_id s)
  ]

  unfoldable pub handle_thumbnail : Faults → String → Store → Reply Bytes × Store
  handle_thumbnail f id s = elim (p.parse_uuid id) [
    | none ↦ (refused 400, s)
    | some id ↦ replied service_error 200 (get_thumbnail f id s)
  ]

  unfoldable pub handle_version_history : Faults → String → Store → Reply (List EvidenceItem)
  handle_version_history f id s = elim (p.parse_uuid id) [
    | none ↦ refused 400
    | some id ↦ read service_error (get_version_history f id s)
  ]

  -- The page, and whether it says that there are more; it gives no cursor.
  unfoldable pub handle_custody_log :
      CursorCodec → Bool → Bool → String → LogParams → List Event → Reply (Page × Bool)
  handle_custody_log codec count_fails query_fails id q rows = elim (p.parse_uuid id) [
    | none ↦ refused 400
    | some id ↦
        elim (list_events codec count_fails query_fails "evidence_id" id (pos (log_limit q.limit))
          q.cursor rows) [
            | err _ ↦ refused 500
            | ok page ↦ answered 200 (page, length page.items == log_limit q.limit)
          ]
  ]

  unfoldable pub handle_update :
      Ext
      → Faults
      → Option AuthContext
      → String
      → Decoded EvidenceUpdate
      → Store
      → Reply EvidenceItem × Store
  handle_update ext f none id body s = (refused 500, s)
  handle_update ext f (some user) id body s = elim (p.parse_uuid id) [
    | none ↦ (refused 400, s)
    | some id ↦ elim body [
      | too_large ↦ (refused 400, s)
      | invalid ↦ (refused 400, s)
      | decoded updates ↦
          replied service_error 200 (update_metadata ext f id updates user.user_id s)
    ]
  ]

  -- The body holds the reason.
  unfoldable pub handle_destroy :
      Ext
      → Faults
      → Time
      → Option AuthContext
      → String
      → Decoded String
      → Store
      → Reply (Unit {0}) × Store
  handle_destroy ext f now none id body s = (refused 500, s)
  handle_destroy ext f now (some user) id body s = elim (p.parse_uuid id) [
    | none ↦ (refused 400, s)
    | some id ↦ destroy_decoded ext f now user id s body
  ]
