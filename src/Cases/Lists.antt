-- ===== src/Cases/Lists.antt =====
-- `FindAll` of repository.go, `ListCases` of service.go, and the cursor between the pages.
use Prim.Native.String.{◌++◌ as append}
use vault_keeper.Prelude.{
  ℕ, ◌+◌, String, Bool, true, false, ◌&&◌, ◌||◌, List, [], ◌∷◌, Option, none, some, Result, ok, err,
  ltb, ◌==◌, nat_eq, string_eq, if◌then◌else◌, filter, any, take, length, ◌>>=◌,
}
use vault_keeper.Prelude.Int.{ℤ, clamp}
use vault_keeper.Prelude.Sort.{sort_by}
use vault_keeper.Custody.{Uuid}
use vault_keeper.Cases.Model.{Case, Error, database}

pub record CaseFilter : Type 0 where
  pub user_id : String
  pub system_admin : Bool
  pub status : List String
  pub jurisdiction : String
  pub search_query : String

pub record Pagination : Type 0 where
  pub limit : ℤ
  pub cursor : String

pub record PaginatedResult : Type 0 where
  pub items : List Case
  pub total_count : ℕ
  pub next_cursor : String
  pub has_more : Bool

-- base64 and the text of an id, each with its inverse, and the operator ILIKE.
pub record Ext : Type 0 where
  pub encode_base64 : String → String
  pub decode_base64 : String → Option String
  pub uuid_string : Uuid → String
  pub parse_uuid : String → Option Uuid
  pub ilike : String → String → Bool

-- What the two queries of a call meet: `has_role` is the subquery on case_roles.
pub record Turn : Type 0 where
  pub has_role : Uuid → String → Bool
  pub count_fails : Bool
  pub query_fails : Bool

abbrev pub page_limit : ℤ → ℕ
page_limit limit = clamp 50 200 limit

-- ORDER BY id DESC
abbrev pub newest : Case → Case → Bool
newest a b = ltb b.id a.id

-- `c.id < $n`, where a cursor was given.
abbrev pub below : Option Uuid → Case → Bool
below none c = true
below (some id) c = ltb c.id id

abbrev pub last_id : List Case → Uuid
last_id [] = 0
last_id (c ∷ []) = c.id
last_id (c ∷ d ∷ cs) = last_id (d ∷ cs)

abbrev pub more : ℕ → List Case → ℕ → Bool
more limit items total = length items == limit && ltb limit total

module _ (ext : Ext) where
  unfoldable pub encode_cursor : Uuid → String
  encode_cursor id = ext.encode_base64 (ext.uuid_string id)

  unfoldable pub decode_cursor : String → Option Uuid
  decode_cursor cursor = elim (ext.decode_base64 cursor) [
    | none ↦ none
    | some text ↦ ext.parse_uuid text
  ]

  abbrev pattern : String → String
  pattern q = append "%" (append q "%")

  abbrev found : String → Case → Bool
  found q c =
      ext.ilike c.title (pattern q)
      || (ext.ilike c.reference_code (pattern q) || ext.ilike c.description (pattern q))

  abbrev is_empty : List String → Bool
  is_empty [] = true
  is_empty (s ∷ ss) = false

  -- The conditions but that of the cursor.
  unfoldable pub matches : Turn → CaseFilter → Case → Bool
  matches t f c =
      (f.system_admin || (f.user_id == "" || t.has_role c.id f.user_id))
      && ((is_empty f.status || any (λ s. s == c.status) f.status)
          && ((f.jurisdiction == "" || c.jurisdiction == f.jurisdiction)
              && (f.search_query == "" || found f.search_query c)))

  unfoldable pub page_of : Turn → CaseFilter → ℕ → List Case → Option Uuid → List Case
  page_of t f limit cases cursor =
      take limit
        (take (limit + 1) (sort_by newest (filter (λ c. matches t f c && below cursor c) cases)))

  abbrev decoded : Option Uuid → Result Error (Option Uuid)
  decoded none = err (database "invalid cursor")
  decoded (some id) = ok (some id)

  abbrev pub read_cursor : String → Result Error (Option Uuid)
  read_cursor cursor = if cursor == "" then ok none else decoded (decode_cursor cursor)

  abbrev pub queries :
      Turn → CaseFilter → ℕ → List Case → Option Uuid → Result Error (List Case × ℕ)
  queries t f limit cases cursor =
      if t.count_fails
      then err (database "count cases")
      else if t.query_fails
      then err (database "query cases")
      else ok (page_of t f limit cases cursor, length (filter (matches t f) cases))

  unfoldable pub find_all :
      Turn → CaseFilter → Pagination → List Case → Result Error (List Case × ℕ)
  find_all t f page cases = read_cursor page.cursor >>= queries t f (page_limit page.limit) cases

  abbrev pub paginated : ℕ → List Case × ℕ → PaginatedResult
  paginated limit (items, total) = record {
    items = items;
    total_count = total;
    next_cursor =
        if more limit items total && ltb 0 (length items)
        then encode_cursor (last_id items)
        else "";
    has_more = more limit items total;
  }

  unfoldable pub list_cases :
      Turn → CaseFilter → Pagination → List Case → Result Error PaginatedResult
  list_cases t f page cases =
      find_all t f page cases >>= λ found. ok (paginated (page_limit page.limit) found)
