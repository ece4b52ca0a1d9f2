-- ===== src/Tests/Reports.antt =====
-- The reports on the small history of a case.
use vault_keeper.Prelude.{
  take, ℕ, ◌≤◌, ◌≡◌, ◌↔◌, refl, true, false, List, [], ◌∷◌, none, some, ok, ◌==◌, nat_eq, length,
  filter,
}
use vault_keeper.Prelude.Sort.{sort_by}
use vault_keeper.Prelude.Int.{pos}
use vault_keeper.Custody.{Event}
use vault_keeper.Custody.Log.{record_all}
use vault_keeper.Custody.Verify.{verify_events}
use vault_keeper.Custody.Pages.{Page, column_is}
use vault_keeper.Evidence.Model.{EvidenceItem}
use vault_keeper.Evidence.Listing
use vault_keeper.Cases.Model.{Case, find_by_id}
use vault_keeper.Reports.Text.{utf8, utf8_of, truncate}
use vault_keeper.Reports.Pdf.{
  Ext, Faults, Sources, CaseRecord, find_record, chain_status, case_rows, evidence_rows,
  write_report_header, write_custody_table, write_footer, generate_evidence_custody_pdf,
}
use vault_keeper.Reports.Verdict.{FirstHashed, Named, verify_events-report}
use vault_keeper.Reports.Drawn.{newest, generate_evidence_custody_pdf-page}
use vault_keeper.Tests.Custody.{toy, history, entry_at}
use vault_keeper.Tests.Cases.{case_at}
use vault_keeper.Tests.Evidence.{item}

-- The library that draws keeps the number of rows.
abbrev ext : Ext
ext = record {
  decimal = λ n. "2";
  to_minute = λ t. "minute";
  to_second = λ t. "second";
  rfc3339 = λ t. "now";
  render = λ rows. length rows ∷ [];
  custody = toy;
  lists = record {
    encode_base64 = λ s. s;
    decode_base64 = λ s. none;
    uuid_string = λ id. "u";
    parse_uuid = λ s. none;
    ilike = λ s p. false;
  };
  codec = record { decode_base64 = λ s. none; parse_uuid = λ s. none };
}

abbrev faultless : Faults
faultless = record {
  case_fails = false;
  item_fails = false;
  items = record { count_fails = false; query_fails = false };
  events_fail = false;
  count_fails = false;
  query_fails = false;
  render_fails = false;
}

abbrev recorded : List Event
recorded = record_all toy history []

abbrev this_case : Case
this_case = record (case_at "closed" false) { id = 7 }

abbrev sources : Sources
sources = record {
  cases = this_case ∷ [];
  items = record item { case_id = 7 } ∷ [];
  disclosures = [];
  events = recorded;
}

-- A letter of two bytes is cut in its middle.
cut_letter : truncate (utf8 "abcdé") 5 ≡ 97 ∷ 98 ∷ 46 ∷ 46 ∷ 46 ∷ []
unfolding truncate utf8 utf8_of
cut_letter = refl

verify_events-report_example : ((verify_events toy 0 recorded).valid ≡ true) ↔ (
    ((chain_status ext recorded).verified ≡ true)
    × FirstHashed ext recorded
    × Named ext "" recorded)
verify_events-report_example = verify_events-report ext 0 recorded

abbrev with_event : Sources
with_event = record sources { events = record (entry_at 1 5) { evidence_id = 9 } ∷ [] }

drawn_once : generate_evidence_custody_pdf ext faultless 8 9 9 with_event ≡ ok (21 ∷ [])
unfolding generate_evidence_custody_pdf find_record vault_keeper.Evidence.Repository.find_by_id
    find_by_id vault_keeper.Custody.Pages.list vault_keeper.Custody.Pages.read_cursor
    vault_keeper.Custody.Pages.page_of vault_keeper.Prelude.Sort.sort_by
    vault_keeper.Prelude.Sort.insert vault_keeper.Prelude.Int.clamp write_report_header
    vault_keeper.Reports.Pdf.write_single_evidence_detail write_custody_table write_footer
drawn_once = refl

generate_evidence_custody_pdf-page_example :
    (c : CaseRecord) × (i : EvidenceItem) × (page : Page) × (21 ∷ []
      ≡ ext.render (evidence_rows ext 8 9 c i page.items))
    × (page.items
        ≡ take 200 (sort_by newest (filter (λ (e : Event). e.evidence_id == 9) with_event.events)))
    × (page.total ≡ length (filter (column_is "evidence_id" 9) with_event.events))
    × (length page.items ≤ 200)
generate_evidence_custody_pdf-page_example =
    generate_evidence_custody_pdf-page ext faultless 8 9 9 with_event (21 ∷ []) drawn_once
