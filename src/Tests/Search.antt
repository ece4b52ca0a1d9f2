-- ===== src/Tests/Search.antt =====
-- A value with a quote, one with a backslash, and the search of a user of one case.
use vault_keeper.Search.Index.{EvidenceSearchDoc, Payload, Server}
use vault_keeper.Search.Reindexed.{put_all, with_text}
use vault_keeper.Prelude.{
  ◌==◌, string_eq, ◌&&◌, ◌≡◌, refl, none, if◌then◌else◌, String, true, false, List, [], ◌∷◌, Option,
  some,
}
use vault_keeper.Prelude.Int.{pos}
use vault_keeper.Access.Roles.{role_user}
use vault_keeper.Access.Gates.{CaseRole, Caller}
use vault_keeper.Search.Escape.{escape_filter_value, open_quotes}
use vault_keeper.Search.Filter.{SearchQuery, build_evidence_filter}
use vault_keeper.Search.Requests.{Ext, Params, Loaders}

-- A backslash of the value takes the meaning of the one that is put in, and the quote ends the text.
backslash_ends : open_quotes false (escape_filter_value "\\' OR id EXISTS") ≡ 1
unfolding escape_filter_value
backslash_ends = refl

abbrev ext : Ext
ext = record {
  atoi = λ s. some (pos 7);
  split_comma = λ s. s ∷ [];
  trim_space = λ s. s;
  uuid_string = λ id. "case-1";
}

abbrev params : Params
params = record {
  q = "knife";
  limit = "500";
  offset = "";
  case_id = "";
  type_ = "image/png";
  tag = "";
  classification = "";
  from = "";
  to = "";
}

abbrev caller : Caller
caller = record { user_id = "v"; system_role = role_user }

abbrev roles : List CaseRole
roles =
    (record {
      id = 1;
      case_id = 4;
      user_id = "v";
      role = "defence";
      granted_by = "a";
      granted_at = 5;
    })
    ∷ []

abbrev loaders : Loaders
loaders = record { ids_fail = false; at_ids = roles; roles_fail = false; at_roles = roles }

-- The searcher gives the filter back.
abbrev echo : SearchQuery → Option String
echo q = some (build_evidence_filter q)

abbrev restricted : String
restricted = "case_id IN ['case-1'] AND mime_type IN ['image/png'] AND is_disclosed = true"

abbrev doc : EvidenceSearchDoc
doc = record {
  id = "e";
  case_id = "c";
  title = "";
  description = "";
  evidence_number = "";
  tags = [];
  source = "";
  file_name = "";
  mime_type = "";
  classification = "";
  source_date = none;
  uploaded_at = "";
  is_current = true;
  is_disclosed = false;
}

-- An index as what it gives for an id; it knows no filter but that of the case c.
abbrev Index : Type 0
Index = String → Option Payload

abbrev server : Server Index
server = record {
  add_documents = λ ps s. some (λ id. put_all ps id (s id));
  delete_document = λ id s. some s;
  delete_by_filter = λ filter s.
      some
        (λ id. if filter == "case_id = 'c'" && with_text "case_id" "c" (s id) then none else s id);
}

abbrev document : String → Index → Option Payload
document id s = s id
