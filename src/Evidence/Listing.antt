-- ===== src/Evidence/Listing.antt =====
-- The lists of evidence: `FindByCase` and `ListByCaseForExport` of repository.go, `List` of
-- service.go, and the cursor between the pages.
use Prim.Native.String.{◌++◌ as append}
use vault_keeper.Prelude.{
  ℕ, ◌+◌, String, Bool, true, not, ◌&&◌, ◌||◌, List, [], ◌∷◌, Option, none, some, Result, ok, err,
  ltb, ◌==◌, nat_eq, string_eq, if◌then◌else◌, filter, any, all, take, length, is_none, ◌>>=◌,
}
use vault_keeper.Prelude.Int.{ℤ, clamp}
use vault_keeper.Prelude.Sort.{sort_by}
use vault_keeper.Custody.{Uuid}
use vault_keeper.Evidence.Model.{EvidenceItem}
use vault_keeper.Evidence.Repository.{Error, failed, by_creation}

pub record EvidenceFilter : Type 0 where
  pub case_id : Uuid
  pub classification : String
  pub mime_type : String
  pub tags : List String
  pub current_only : Bool
  pub include_destroyed : Bool
  pub search_query : String
  pub user_role : String

pub record Pagination : Type 0 where
  pub limit : ℤ
  pub cursor : String

pub record PaginatedResult : Type 0 where
  pub items : List EvidenceItem
  pub total_count : ℕ
  pub next_cursor : String
  pub has_more : Bool

-- A row of disclosures, as far as the joins read it.
pub record Disclosure : Type 0 where
  pub case_id : Uuid
  pub evidence_id : Uuid

-- base64 and the text of an id, each with its inverse, and the operator ILIKE.
pub record Ext : Type 0 where
  pub encode_base64 : String → String
  pub decode_base64 : String → Option String
  pub uuid_string : Uuid → String
  pub parse_uuid : String → Option Uuid
  pub ilike : String → String → Bool

-- Which of the two queries the database refuses.
pub record Faults : Type 0 where
  pub count_fails : Bool
  pub query_fails : Bool

-- The JOIN finds a row; the SELECT DISTINCT gives the item once, however many it finds.
abbrev pub disclosed : List Disclosure → EvidenceItem → Bool
disclosed ds e = any (λ (d : Disclosure). d.evidence_id == e.id && d.case_id == e.case_id) ds

abbrev pub seen_as : String → List Disclosure → EvidenceItem → Bool
seen_as role ds e = not (role == "defence") || disclosed ds e

abbrev pub exportable : Uuid → String → List Disclosure → EvidenceItem → Bool
exportable case_id role ds e =
    e.case_id == case_id && (e.is_current && (is_none e.destroyed_at && seen_as role ds e))

unfoldable pub list_by_case_for_export :
    Bool → Uuid → String → List Disclosure → List EvidenceItem → Result Error (List EvidenceItem)
list_by_case_for_export fails case_id role ds items =
    if fails
    then err (failed "list evidence for export")
    else ok (sort_by by_creation (filter (exportable case_id role ds) items))

-- ORDER BY e.created_at DESC, e.id DESC
abbrev pub newest : EvidenceItem → EvidenceItem → Bool
newest a b = ltb b.created_at a.created_at || (b.created_at == a.created_at && ltb b.id a.id)

-- `e.id < $n`, where a cursor was given.
abbrev pub below : Option Uuid → EvidenceItem → Bool
below none e = true
below (some id) e = ltb e.id id

abbrev pub page_limit : ℤ → ℕ
page_limit limit = clamp 50 200 limit

abbrev pub last_id : List EvidenceItem → Uuid
last_id [] = 0
last_id (e ∷ []) = e.id
last_id (e ∷ d ∷ es) = last_id (d ∷ es)

abbrev pub more : ℕ → List EvidenceItem → ℕ → Bool
more limit items total = length items == limit && ltb limit total

module _ (ext : Ext) where
  unfoldable pub encode_cursor : Uuid → String
  encode_cursor id = ext.encode_base64 (ext.uuid_string id)

  unfoldable pub decode_cursor : String → Option Uuid
  decode_cursor cursor = elim (ext.decode_base64 cursor) [
    | none ↦ none
    | some text ↦ ext.parse_uuid text
  ]

  abbrev found : String → EvidenceItem → Bool
  found q e =
      let pattern = append "%" (append q "%") in
      ext.ilike e.filename pattern
      || (ext.ilike e.original_name pattern || ext.ilike e.description pattern)

  -- `e.tags @> $n`; no tags are in every array.
  abbrev tagged : List String → EvidenceItem → Bool
  tagged tags e = all (λ t. any (λ s. s == t) e.tags) tags

  -- The conditions but that of the cursor, and the join.
  unfoldable pub matches : List Disclosure → EvidenceFilter → EvidenceItem → Bool
  matches ds f e =
      e.case_id == f.case_id
      && ((not f.current_only || e.is_current)
          && ((f.include_destroyed || is_none e.destroyed_at)
              && ((f.classification == "" || e.classification == f.classification)
                  && ((f.mime_type == "" || ext.ilike e.mime_type (append f.mime_type "%"))
                      && (tagged f.tags e
                          && ((f.search_query == "" || found f.search_query e)
                              && seen_as f.user_role ds e))))))

  unfoldable pub page_of :
      List Disclosure → EvidenceFilter → ℕ → Option Uuid → List EvidenceItem → List EvidenceItem
  page_of ds f limit cursor items =
      take limit
        (take (limit + 1) (sort_by newest (filter (λ e. matches ds f e && below cursor e) items)))

  abbrev decoded : Option Uuid → Result Error (Option Uuid)
  decoded none = err (failed "invalid cursor")
  decoded (some id) = ok (some id)

  abbrev pub read_cursor : String → Result Error (Option Uuid)
  read_cursor cursor = if cursor == "" then ok none else decoded (decode_cursor cursor)

  abbrev pub queries :
      Faults
      → List Disclosure
      → EvidenceFilter
      → ℕ
      → List EvidenceItem
      → Option Uuid
      → Result Error (List EvidenceItem × ℕ)
  queries g ds f limit items cursor =
      if g.count_fails
      then err (failed "count evidence")
      else if g.query_fails
      then err (failed "query evidence")
      else ok (page_of ds f limit cursor items, length (filter (matches ds f) items))

  unfoldable pub find_by_case :
      Faults
      → List Disclosure
      → EvidenceFilter
      → Pagination
      → List EvidenceItem
      → Result Error (List EvidenceItem × ℕ)
  find_by_case g ds f page items =
      read_cursor page.cursor >>= queries g ds f (page_limit page.limit) items

  abbrev pub paginated : ℕ → List EvidenceItem × ℕ → PaginatedResult
  paginated limit (items, total) = record {
    items = items;
    total_count = total;
    next_cursor =
        if more limit items total && ltb 0 (length items)
        then encode_cursor (last_id items)
        else "";
    has_more = more limit items total;
  }

  -- `List` of the service.
  unfoldable pub list :
      Faults
      → List Disclosure
      → EvidenceFilter
      → Pagination
      → List EvidenceItem
      → Result Error PaginatedResult
  list g ds f page items =
      find_by_case g ds f page items >>= λ found. ok (paginated (page_limit page.limit) found)
