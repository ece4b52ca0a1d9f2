-- ===== src/Search/Requests.antt =====
-- `Search` of handler.go with its parameters, and the cases and roles of a user (case_loader.go).
use vault_keeper.Prelude.{
  ℕ, String, Bool, false, not, List, [], ◌∷◌, Option, none, some, map, ltb, ◌==◌, nat_eq, string_eq,
  if◌then◌else◌, filter, any,
}
use vault_keeper.Prelude.Int.{ℤ, pos, negsuc}
use vault_keeper.Custody.{Uuid}
use vault_keeper.Access.Roles.{level, role_system_admin}
use vault_keeper.Access.Gates.{CaseRole, Caller}
use vault_keeper.Search.Filter.{SearchQuery}

-- The parsers of the standard library, and the text of an id.
pub record Ext : Type 0 where
  pub atoi : String → Option ℤ
  pub split_comma : String → List String
  pub trim_space : String → String
  pub uuid_string : Uuid → String

-- The parameters of the URL, empty where they are absent.
pub record Params : Type 0 where
  pub q : String
  pub limit : String
  pub offset : String
  pub case_id : String
  pub type_ : String
  pub tag : String
  pub classification : String
  pub from : String
  pub to : String

-- The rows of a user, in the order in which the database gives them.
abbrev pub rows_of : String → List CaseRole → List CaseRole
rows_of user roles = filter (λ (r : CaseRole). r.user_id == user) roles

abbrev pub put_role : String → String → List (String × String) → List (String × String)
put_role case_id role roles =
    (case_id, role) ∷ filter (λ (r : String × String). not (r.0 == case_id)) roles

abbrev pub is_defence : String × String → Bool
is_defence r = r.1 == "defence"

abbrev pub restrict : SearchQuery → List String → List (String × String) → SearchQuery
restrict q ids roles = record q { user_case_ids = ids; disclosed_only = any is_defence roles }

module _ (ext : Ext) where
  abbrev nonempty : List String → List String
  nonempty [] = []
  nonempty (p ∷ ps) =
      let rest = nonempty ps in if ext.trim_space p == "" then rest else ext.trim_space p ∷ rest

  unfoldable pub split_and_trim : String → List String
  split_and_trim s = nonempty (ext.split_comma s)

  abbrev positive_or : ℕ → Option ℤ → ℕ
  positive_or default none = default
  positive_or default (some (negsuc n)) = default
  positive_or default (some (pos n)) = if n == 0 then default else n

  abbrev natural_or : ℕ → Option ℤ → ℕ
  natural_or default none = default
  natural_or default (some (negsuc n)) = default
  natural_or default (some (pos n)) = n

  abbrev at_most : ℕ → ℕ → ℕ
  at_most max n = if ltb max n then max else n

  abbrev given : String → Option String
  given s = if s == "" then none else some s

  abbrev listed : String → List String
  listed s = if s == "" then [] else split_and_trim s

  unfoldable pub parse_search_params : Params → SearchQuery
  parse_search_params p = record {
    query = p.q;
    case_id = given p.case_id;
    mime_types = listed p.type_;
    tags = listed p.tag;
    classifications = listed p.classification;
    date_from = given p.from;
    date_to = given p.to;
    limit = pos (at_most 200 (if p.limit == "" then 50 else positive_or 50 (ext.atoi p.limit)));
    offset = pos (if p.offset == "" then 0 else natural_or 0 (ext.atoi p.offset));
    user_case_ids = [];
    disclosed_only = false;
  }

  unfoldable pub get_user_case_ids : Bool → String → List CaseRole → Option (List String)
  get_user_case_ids fails user roles =
      if fails
      then none
      else some (map (λ (r : CaseRole). ext.uuid_string r.case_id) (rows_of user roles))

  -- `roles[caseID] = role`: of two roles in a case the later row's stays.
  unfoldable pub case_roles : List CaseRole → List (String × String) → List (String × String)
  case_roles [] roles = roles
  case_roles (r ∷ rs) roles = case_roles rs (put_role (ext.uuid_string r.case_id) r.role roles)

  unfoldable pub get_user_case_roles :
      Bool → String → List CaseRole → Option (List (String × String))
  get_user_case_roles fails user roles =
      if fails then none else some (case_roles (rows_of user roles) [])

-- The answer: a status, the empty result without a search, or what the search gave.
pub data Outcome (R : Type 0) : Type 0 where
  refuse : ℕ → Outcome R
  nothing : Outcome R
  results : R → Outcome R

-- The rows that the two queries of one request see, and whether each fails; another request may
-- change the table in between.
pub record Loaders : Type 0 where
  pub ids_fail : Bool
  pub at_ids : List CaseRole
  pub roles_fail : Bool
  pub at_roles : List CaseRole

module _ (ext : Ext) {R : Type 0} (search_evidence : SearchQuery → Option R) where
  abbrev pub answer : SearchQuery → Outcome R
  answer q = elim (search_evidence q) [ none ↦ refuse 503 | some r ↦ results r ]

  abbrev pub search_roles : SearchQuery → List String → Option (List (String × String)) → Outcome R
  search_roles q ids none = refuse 500
  search_roles q ids (some roles) = answer (restrict q ids roles)

  abbrev pub search_cases : Loaders → String → SearchQuery → Option (List String) → Outcome R
  search_cases l user q none = refuse 500
  search_cases l user q (some []) = nothing
  search_cases l user q (some (id ∷ ids)) =
      search_roles q (id ∷ ids) (get_user_case_roles ext l.roles_fail user l.at_roles)

  unfoldable pub search : Loaders → Option Caller → Params → Outcome R
  search l none p = refuse 500
  search l (some c) p =
      let q = parse_search_params ext p in
      if ltb (level c.system_role) (level role_system_admin)
      then search_cases l c.user_id q (get_user_case_ids ext l.ids_fail c.user_id l.at_ids)
      else answer q
