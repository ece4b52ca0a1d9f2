-- ===== src/Reports/Pdf.antt =====
-- pdf.go: what the rows of a report hold, and the two reports.
use Prim.Native.String.{◌++◌ as append}
use mathlib.Core.Option.{get_or}
use vault_keeper.Prelude.{
  ℕ, ◌+◌, String, Bool, true, false, not, List, [], ◌∷◌, ◌++◌, map, Option, none, some, Result, ok,
  err, ◌==◌, string_eq, if◌then◌else◌, length, ◌>>=◌,
}
use vault_keeper.Prelude.Int.{pos}
use vault_keeper.Custody.{Ext as CustodyExt, Event, Uuid, Time}
use vault_keeper.Custody.Hash.{compute_log_hash}
use vault_keeper.Custody.Log.{list_all_by_case}
use vault_keeper.Custody.Pages.{CursorCodec, list as list_events}
use vault_keeper.Evidence.Model.{Bytes, EvidenceItem}
use vault_keeper.Evidence.Repository.{find_by_id as find_item}
use vault_keeper.Evidence.Listing.{
  Ext as ListExt, Faults as ListFaults, Disclosure, EvidenceFilter, find_by_case,
}
use vault_keeper.Cases.Model.{Case, Error as CaseError, find_by_id as find_case}
use vault_keeper.Reports.Text.{utf8, truncate, prefix}

pub record CaseRecord : Type 0 where
  pub id : Uuid
  pub reference_code : String
  pub title : String
  pub jurisdiction : String
  pub status : String

pub data Error : Type 0 where
  load_case load_evidence load_events render_pdf : Error

-- A line of cells, each with its text.
abbrev pub Row : Type 0
Row = List Bytes

-- The formats of numbers and times, the PDF library, and what the sources take.
pub record Ext : Type 1 where
  pub decimal : ℕ → String
  pub to_minute : Time → String
  pub to_second : Time → String
  pub rfc3339 : Time → String
  pub render : List Row → Bytes
  pub custody : CustodyExt
  pub lists : ListExt
  pub codec : CursorCodec

pub record Faults : Type 0 where
  pub case_fails : Bool
  pub item_fails : Bool
  pub items : ListFaults
  pub events_fail : Bool
  pub count_fails : Bool
  pub query_fails : Bool
  pub render_fails : Bool

-- The tables that a report reads.
pub record Sources : Type 0 where
  pub cases : List Case
  pub items : List EvidenceItem
  pub disclosures : List Disclosure
  pub events : List Event

-- `caseReportSourceAdapter.FindByID`.
unfoldable pub case_record : Case → CaseRecord
case_record c = record {
  id = c.id;
  reference_code = c.reference_code;
  title = c.title;
  jurisdiction = c.jurisdiction;
  status = c.status;
}

abbrev pub labelled : {E A : Type 0} → Error → Result E A → Result Error A
labelled l (ok a) = ok a
labelled l (err _) = err l

unfoldable pub find_record : Bool → Uuid → List Case → Result CaseError CaseRecord
find_record fails id cases = find_case fails id cases >>= λ c. ok (case_record c)

abbrev pub stamp : (Time → String) → Option Time → String
stamp format none = ""
stamp format (some t) = format t

abbrev pub line : List String → Row
line = map utf8

-- The state of the loop: `verified` and `breakCount`.
pub record ChainStatus : Type 0 where
  pub verified : Bool
  pub break_count : ℕ

module _ (ext : Ext) where
  open ext use {decimal, rfc3339}

  unfoldable pub write_report_header : Time → CaseRecord → List Row
  write_report_header now c =
      line ("Chain of Custody Report" ∷ [])
      ∷ line ("Case Reference:" ∷ c.reference_code ∷ [])
      ∷ line ("Case Title:" ∷ c.title ∷ [])
      ∷ line ("Jurisdiction:" ∷ c.jurisdiction ∷ [])
      ∷ line ("Report Generated:" ∷ rfc3339 now ∷ [])
      ∷ []

  abbrev pub evidence_row : EvidenceItem → Row
  evidence_row e =
      utf8 (get_or e.evidence_number "")
      ∷ truncate (utf8 e.filename) 30
      ∷ utf8 e.tsa_status
      ∷ utf8 (stamp ext.to_minute e.tsa_timestamp)
      ∷ prefix 16 (utf8 e.sha256_hash)
      ∷ []

  unfoldable pub write_evidence_summary : List EvidenceItem → List Row
  write_evidence_summary items =
      line ("Evidence Items" ∷ [])
      ∷ line
          ("Number" ∷ "Filename" ∷ "TSA Status" ∷ "Upload Date" ∷ "SHA-256 (first 16 chars)" ∷ [])
      ∷ map evidence_row items

  abbrev pub field : String → String → Row
  field label value = line (append label ":" ∷ value ∷ [])

  unfoldable pub write_single_evidence_detail : EvidenceItem → List Row
  write_single_evidence_detail e =
      line ("Evidence Item Detail" ∷ [])
      ∷ field "Evidence Number" (get_or e.evidence_number "")
      ∷ field "Filename" e.filename
      ∷ field "Original Name" e.original_name
      ∷ field "MIME Type" e.mime_type
      ∷ field "Size (bytes)" (decimal e.size_bytes)
      ∷ field "Classification" e.classification
      ∷ field "SHA-256 Hash" e.sha256_hash
      ∷ field "TSA Status" e.tsa_status
      ∷ field "TSA Timestamp" (stamp rfc3339 e.tsa_timestamp)
      ∷ field "Uploaded By" e.uploaded_by
      ∷ field "Created At" (rfc3339 e.created_at)
      ∷ []

  abbrev pub custody_row : Event → Row
  custody_row e =
      utf8 (ext.to_second e.timestamp)
      ∷ truncate (utf8 e.action) 15
      ∷ truncate (utf8 e.actor_user_id) 18
      ∷ prefix 12 (utf8 e.hash_value)
      ∷ truncate (utf8 e.detail) 38
      ∷ []

  unfoldable pub write_custody_table : List Event → List Row
  write_custody_table events =
      line ("Custody Chain" ∷ [])
      ∷ line ("Timestamp" ∷ "Action" ∷ "Actor" ∷ "Hash (first 12)" ∷ "Detail" ∷ [])
      ∷ map custody_row events

  abbrev pub check_link : String → Event → ChainStatus → ChainStatus
  check_link previous_hash e s =
      if not (compute_log_hash ext.custody previous_hash e == e.hash_value)
      then record { verified = false; break_count = s.break_count + 1 }
      else s

  unfoldable pub status_loop : String → List Event → ChainStatus → ChainStatus
  status_loop previous_hash [] s = s
  status_loop previous_hash (e ∷ events) s =
      status_loop e.hash_value events (check_link previous_hash e s)

  -- The loop begins at the second entry.
  unfoldable pub chain_status : List Event → ChainStatus
  chain_status [] = record { verified = true; break_count = 0 }
  chain_status (e ∷ events) =
      status_loop e.hash_value events (record { verified = true; break_count = 0 })

  abbrev pub status_text : ChainStatus → String
  status_text s =
      if s.verified
      then "VERIFIED - Chain is intact"
      else append "BROKEN - " (append (decimal s.break_count) " break(s) detected")

  unfoldable pub write_hash_chain_status : List Event → List Row
  write_hash_chain_status events =
      line ("Hash Chain Verification" ∷ [])
      ∷ line ("Total Entries:" ∷ decimal (length events) ∷ [])
      ∷ line ("Chain Status:" ∷ status_text (chain_status events) ∷ [])
      ∷ []

  unfoldable pub write_footer : Time → List Row
  write_footer now = line (append "Generated by VaultKeeper at " (rfc3339 now) ∷ []) ∷ []

  abbrev pub drawn : Bool → List Row → Result Error Bytes
  drawn fails rows = if fails then err render_pdf else ok (ext.render rows)

  abbrev pub case_filter : Uuid → EvidenceFilter
  case_filter id = record {
    case_id = id;
    classification = "";
    mime_type = "";
    tags = [];
    current_only = true;
    include_destroyed = false;
    search_query = "";
    user_role = "";
  }

  abbrev pub case_rows : Time → Time → CaseRecord → List EvidenceItem → List Event → List Row
  case_rows now later c items events =
      write_report_header now c
      ++ (write_evidence_summary items
          ++ (write_custody_table events ++ (write_hash_chain_status events ++ write_footer later)))

  -- The clock is read for the header and for the footer.
  unfoldable pub generate_custody_pdf : Faults → Time → Time → Uuid → Sources → Result Error Bytes
  generate_custody_pdf f now later id s = do
    c ← labelled load_case (find_record f.case_fails id s.cases)
    found ← labelled load_evidence (
        find_by_case ext.lists f.items s.disclosures (case_filter id)
          (record { limit = pos 200; cursor = "" }) s.items)
    events ← if f.events_fail then err load_events else ok (list_all_by_case id s.events)
    drawn f.render_fails (case_rows now later c found.0 events)

  unfoldable pub get_reference_code : Faults → Uuid → Sources → Result Error String
  get_reference_code f id s =
      labelled load_case (find_record f.case_fails id s.cases) >>= λ c. ok c.reference_code

  abbrev pub evidence_rows : Time → Time → CaseRecord → EvidenceItem → List Event → List Row
  evidence_rows now later c item events =
      write_report_header now c
      ++ (write_single_evidence_detail item ++ (write_custody_table events ++ write_footer later))

  unfoldable pub generate_evidence_custody_pdf :
      Faults → Time → Time → Uuid → Sources → Result Error Bytes
  generate_evidence_custody_pdf f now later id s = do
    item ← labelled load_evidence (find_item f.item_fails id s.items)
    c ← labelled load_case (find_record f.case_fails item.case_id s.cases)
    page ←
        labelled load_events (
          list_events ext.codec f.count_fails f.query_fails "evidence_id" id (pos 10000) ""
            s.events)
    drawn f.render_fails (evidence_rows now later c item page.items)
