-- ===== src/Tests/Requests.antt =====
-- Requests to the endpoints of evidence and of cases.
use mathlib.Core.Option
use vault_keeper.Prelude.{
  ◌≤◌, String, ◌≡◌, refl, true, false, List, [], ◌∷◌, none, some, length, All,
}
use vault_keeper.Prelude.Replies.{decoded}
use vault_keeper.Access.Roles.{role_case_admin}
use vault_keeper.Access.Tokens.{AuthContext}
use vault_keeper.Evidence.Model.{Bytes, EvidenceItem, sanitize_filename}
use vault_keeper.Evidence.Repository.{
  get_status, get_reference_code, get_legal_hold, increment_evidence_counter, create, new_item,
  find_by_id,
}
use vault_keeper.Evidence.Store.{
  no_faults, object, put_object, record_custody_event, index_evidence,
}
use vault_keeper.Evidence.Service.{
  unavailable, stamp, validate_upload_input, read_file, create_input, file_upload, store_upload,
  upload, destroy,
}
use vault_keeper.Evidence.Requests.{
  Parsers, Form, service_error, upload_input, handle_upload, handle_destroy,
}
use vault_keeper.Evidence.Typed.{Typed, Operation, upload_file, give_up, run_all, run_all-Typed}
use vault_keeper.Evidence.Answers.{handle_upload-answered, handle_destroy-refused}
use vault_keeper.Cases.Model.{status_archived, case_row, no_faults as no_case_faults}
use vault_keeper.Cases.Lists.{Ext as ListExt}
use vault_keeper.Cases.Requests.{
  Parsers as CaseParsers, archive_request, hold_request, Conditions, Call, serve, serve_all,
}
use vault_keeper.Cases.Served.{Authorized, serve-Authorized, serve_all-archived}
use vault_keeper.Tests.Evidence.{plain, active, item, input, store_of, case_in}
use vault_keeper.Tests.Cases.{plain as plain_cases, case_at, store_with}
use vault_keeper.Tests.Tokens.{caller}

abbrev parsers : Parsers
parsers = record {
  parse_uuid = λ s. some 4;
  atoi = λ s. none;
  parse_rfc3339 = λ s. none;
  parse_day = λ s. none;
  unmarshal_tags = λ s. none;
  split_comma = λ s. s ∷ [];
  trim_space = λ s. s;
}

abbrev form : Form
form = record {
  file = some (7 ∷ 8 ∷ []);
  filename = "a.txt";
  size = 2;
  classification = "public";
  description = "";
  source = "";
  source_date = "";
  tags = "";
}

abbrev made : EvidenceItem
made = record item { uploaded_by_name = "u" }

handle_upload-answered_example :
    let t =
      (handle_upload parsers plain 10 no_faults 1 9 5 unavailable
        (some caller)
        "4"
        (some form)
        active).1 in
    (u : AuthContext) × (key : String) × (file : Bytes) × (some caller ≡ some u)
    × (Option.bind (some form) (λ (x : Form). x.file) ≡ some file)
    × (length file ≤ 10)
    × (t.items ≡ made ∷ [])
    × (made.storage_key ≡ some key)
    × (object key t.objects ≡ some file)
    × (made.sha256_hash ≡ plain.sha256_hex file)
unfolding handle_upload upload_input upload validate_upload_input get_status sanitize_filename
    read_file store_upload get_reference_code increment_evidence_counter file_upload put_object
    create create_input new_item stamp record_custody_event index_evidence
handle_upload-answered_example =
    handle_upload-answered parsers plain 10 no_faults 1 9 5 unavailable (some caller) "4"
      (some form) active 201 made refl

-- The case is under legal hold.
handle_destroy-refused_example :
    (handle_destroy parsers plain no_faults 7
      (some caller)
      "9"
      (decoded "r")
      (store_of (case_in "active" true) ((record item { id = 4 }) ∷ []))).1
    ≡ store_of (case_in "active" true) ((record item { id = 4 }) ∷ [])
unfolding handle_destroy destroy find_by_id get_status get_legal_hold service_error
handle_destroy-refused_example =
    handle_destroy-refused parsers plain no_faults 7 (some caller) "9" (decoded "r")
      (store_of (case_in "active" true) ((record item { id = 4 }) ∷ [])) 400 refl

abbrev case_parsers : CaseParsers
case_parsers = record { parse_uuid = λ s. some 4; split_comma = λ s. s ∷ [] }

abbrev lists : ListExt
lists = record {
  encode_base64 = λ s. s;
  decode_base64 = λ s. none;
  uuid_string = λ id. "u";
  parse_uuid = λ s. none;
  ilike = λ s q. true;
}

abbrev conditions : Conditions
conditions = record {
  faults = no_case_faults;
  fresh = 8;
  now = 9;
  turn = record { has_role = λ id user. true; count_fails = false; query_fails = false };
}

abbrev admin : AuthContext
admin = record caller { system_role = role_case_admin }

serve-Authorized_example :
    Authorized case_parsers plain_cases lists
      (some admin)
      (store_with (case_at "closed" false))
      (serve case_parsers plain_cases lists conditions
        (some admin)
        (archive_request "4")
        (store_with (case_at "closed" false))).1
serve-Authorized_example =
    serve-Authorized case_parsers plain_cases lists conditions (some admin) (archive_request "4")
      (store_with (case_at "closed" false))

abbrev calls : List Call
calls =
    record {
      conditions = conditions;
      caller = some admin;
      request = hold_request "4" (decoded true);
    }
    ∷ []

serve_all-archived_example :
    case_row 4
      (serve_all case_parsers plain_cases lists calls
        (store_with (case_at status_archived false))).cases
    ≡ some (case_at status_archived false)
serve_all-archived_example =
    serve_all-archived case_parsers plain_cases lists calls
      (store_with (case_at status_archived false)) 4 (case_at status_archived false) refl refl

abbrev operations : List Operation
operations = upload_file 10 no_faults 1 9 5 unavailable input ∷ give_up false 9 ∷ []

run_all-Typed_example : All Typed (run_all plain operations active).items
run_all-Typed_example = run_all-Typed plain operations active tt
