-- ===== src/Cases/Requests.antt =====
-- handler.go: the routes of cases, each behind its guard.
use Prim.Native.Char.{Char, code}
use Prim.Native.String.{String, [] as end_of_text, ◌∷◌ as letter}
use vault_keeper.Prelude.{
  ℕ, ◌+◌, ◌-◌, ◌*◌, ◌%◌, Bool, ◌&&◌, List, [], ◌∷◌, Option, none, some, Result, ok, err, ltb, leb,
  ◌==◌, string_eq, if◌then◌else◌,
}
use vault_keeper.Prelude.Int.{ℤ, pos, negsuc}
use vault_keeper.Prelude.Replies.{Reply, refused, Decoded, too_large, invalid, decoded, replied}
use vault_keeper.Custody.{Uuid, Time}
use vault_keeper.Access.Roles.{level, role_case_admin, role_system_admin}
use vault_keeper.Access.Gates.{Caller, Outcome, pass, refuse, deny, require_system_role}
use vault_keeper.Access.Tokens.{AuthContext}
use vault_keeper.Cases.Model.{
  Case, CreateCaseInput, UpdateCaseInput, Error, not_found, reference_code_exists, validation,
  Store, Faults, find_by_id,
}
use vault_keeper.Cases.Service.{Ext, create_case, update_case, archive_case, set_legal_hold}
use vault_keeper.Cases.Lists.{
  Ext as ListExt, Turn, CaseFilter, Pagination, PaginatedResult, list_cases,
}

-- `respondServiceError`.
unfoldable pub service_error : Error → ℕ
service_error (validation field message) = 400
service_error not_found = 404
service_error reference_code_exists = 409
service_error _ = 500

-- The parameters of a list, empty where they are absent.
pub record ListParams : Type 0 where
  pub jurisdiction : String
  pub q : String
  pub status : String
  pub limit : String
  pub cursor : String

-- A request as it is routed.
pub data Request : Type 0 where
  create_request : Decoded CreateCaseInput → Request
  list_request : ListParams → Request
  get_request : String → Request
  update_request : String → Decoded UpdateCaseInput → Request
  archive_request : String → Request
  hold_request : String → Decoded Bool → Request

pub data Body : Type 0 where
  one_case : Case → Body
  page : PaginatedResult → Body
  archived : Body
  legal_hold : Bool → Body

-- `uuid.Parse` and `strings.Split` by commas.
pub record Parsers : Type 0 where
  pub parse_uuid : String → Option Uuid
  pub split_comma : String → List String

-- What a request meets: the faults, the id that a new row gets, the clock, and the lists' queries.
pub record Conditions : Type 0 where
  pub faults : Faults
  pub fresh : Uuid
  pub now : Time
  pub turn : Turn

-- Go's `int` wraps at 64 bits.
unfoldable pub wrapped : ℕ → ℕ
wrapped n = n % 18446744073709551616

unfoldable pub int_of : ℕ → ℤ
int_of n = if ltb n 9223372036854775808 then pos n else negsuc (18446744073709551615 - n)

abbrev pub is_digit : Char → Bool
is_digit c = leb 48 (code c) && leb (code c) 57

-- The loop over the parameter; another letter than a digit ends it with the default.
unfoldable pub parse_limit : ℕ → String → ℕ
parse_limit limit end_of_text = limit
parse_limit limit (letter c s) =
    let rest = parse_limit (wrapped (limit * 10 + (code c - 48))) s in
    if is_digit c then rest else 50

unfoldable pub parse_pagination : String → String → Pagination
parse_pagination limit cursor = record {
  limit = int_of (if limit == "" then 0 else parse_limit 0 limit);
  cursor = cursor;
}

abbrev pub caller_of : AuthContext → Caller
caller_of u = record { user_id = u.user_id; system_role = u.system_role }

abbrev pub asker : Option AuthContext → Option Caller
asker none = none
asker (some u) = some (caller_of u)

-- A route behind `RequireSystemRole(RoleCaseAdmin)`.
abbrev pub behind : Outcome → (Store → Reply Body × Store) → Store → Reply Body × Store
behind (pass role) handle s = handle s
behind (refuse status) handle s = (refused status, s)
behind deny handle s = (refused 403, s)

-- A result, shown as the body of an answer.
abbrev pub shown : {A : Type 0} → (A → Body) → Result Error A × Store → Result Error Body × Store
shown show (ok a, s) = (ok (show a), s)
shown show (err e, s) = (err e, s)

-- `parseUUID`, and what is done with the id.
abbrev pub with_id : Option Uuid → (Uuid → Store → Reply Body × Store) → Store → Reply Body × Store
with_id none handle s = (refused 400, s)
with_id (some id) handle s = handle id s

-- `decodeBody`, and what is done with the value.
abbrev pub with_body :
    {A : Type 0} → Decoded A → (A → Store → Reply Body × Store) → Store → Reply Body × Store
with_body too_large handle s = (refused 400, s)
with_body invalid handle s = (refused 400, s)
with_body (decoded a) handle s = handle a s

module _ (p : Parsers) (ext : Ext) (lists : ListExt) (c : Conditions) where
  abbrev filter_of : AuthContext → ListParams → CaseFilter
  filter_of u q = record {
    user_id = u.user_id;
    system_admin = leb (level role_system_admin) (level u.system_role);
    status = if q.status == "" then [] else p.split_comma q.status;
    jurisdiction = q.jurisdiction;
    search_query = q.q;
  }

  unfoldable pub handle_create : AuthContext → Decoded CreateCaseInput → Store → Reply Body × Store
  handle_create u body = with_body body (λ input s.
      replied service_error 201
        (shown one_case (create_case ext c.faults c.fresh c.now input u.user_id u.username s)))

  unfoldable pub handle_list : AuthContext → ListParams → Store → Reply Body × Store
  handle_list u q s = replied service_error 200 (
      shown page
        (list_cases lists c.turn (filter_of u q) (parse_pagination q.limit q.cursor) s.cases, s))

  unfoldable pub handle_get : String → Store → Reply Body × Store
  handle_get id = with_id (p.parse_uuid id) (λ i s.
      replied service_error 200 (shown one_case (find_by_id c.faults.find_fails i s.cases, s)))

  unfoldable pub handle_update :
      AuthContext → String → Decoded UpdateCaseInput → Store → Reply Body × Store
  handle_update u id body = with_id (p.parse_uuid id) (λ i. with_body body (λ input s.
      replied service_error 200
        (shown one_case (update_case ext c.faults c.now i input u.user_id s))))

  unfoldable pub handle_archive : AuthContext → String → Store → Reply Body × Store
  handle_archive u id = with_id (p.parse_uuid id) (λ i s.
      replied service_error 200 (shown (λ _. archived) (archive_case c.faults c.now i u.user_id s)))

  unfoldable pub handle_hold : AuthContext → String → Decoded Bool → Store → Reply Body × Store
  handle_hold u id body = with_id (p.parse_uuid id) (λ i. with_body body (λ on s.
      replied service_error 200
        (shown (λ _. legal_hold on) (set_legal_hold c.faults c.now i on u.user_id s))))

  -- The routes; without a caller a handler that needs one answers 500. `Get` needs none.
  unfoldable pub serve : Option AuthContext → Request → Store → Reply Body × Store
  serve caller (get_request id) s = handle_get id s
  serve none request s = (refused 500, s)
  serve (some u) (list_request q) s = handle_list u q s
  serve (some u) (create_request body) s =
      behind (require_system_role role_case_admin (asker (some u))) (handle_create u body) s
  serve (some u) (update_request id body) s =
      behind (require_system_role role_case_admin (asker (some u))) (handle_update u id body) s
  serve (some u) (archive_request id) s =
      behind (require_system_role role_case_admin (asker (some u))) (handle_archive u id) s
  serve (some u) (hold_request id body) s =
      behind (require_system_role role_case_admin (asker (some u))) (handle_hold u id body) s

pub record Call : Type 0 where
  pub conditions : Conditions
  pub caller : Option AuthContext
  pub request : Request

-- Requests one after another.
unfoldable pub serve_all : Parsers → Ext → ListExt → List Call → Store → Store
serve_all p ext lists [] s = s
serve_all p ext lists (r ∷ rs) s =
    serve_all p ext lists rs (serve p ext lists r.conditions r.caller r.request s).1
