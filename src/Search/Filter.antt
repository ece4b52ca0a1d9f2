-- ===== src/Search/Filter.antt =====
-- The query of models.go, and the filter and the request that meilisearch.go makes of it.
use Prim.Native.String.{◌++◌ as append}
use vault_keeper.Prelude.{
  ℕ, String, Bool, List, [], ◌∷◌, ◌++◌, Option, none, some, map, ◌==◌, string_eq, if◌then◌else◌,
}
use vault_keeper.Prelude.Int.{ℤ, clamp}
use vault_keeper.Search.Escape.{escape_filter_value}

pub record SearchQuery : Type 0 where
  pub query : String
  pub case_id : Option String
  pub mime_types : List String
  pub tags : List String
  pub classifications : List String
  pub date_from : Option String
  pub date_to : Option String
  pub limit : ℤ
  pub offset : ℤ
  pub user_case_ids : List String
  pub disclosed_only : Bool

-- What the client of the search server is asked, apart from the attributes that are constant.
pub record SearchRequest : Type 0 where
  pub limit : ℕ
  pub offset : ℤ
  pub filter : String

-- `strings.Join`
abbrev pub join : String → List String → String
join separator [] = ""
join separator (s ∷ []) = s
join separator (s ∷ t ∷ ss) = append s (append separator (join separator (t ∷ ss)))

-- '…'
abbrev pub quoted : String → String
quoted s = append "'" (append (escape_filter_value s) "'")

abbrev pub one_of : String → List String → String
one_of field values = append field (append " IN [" (append (join ", " (map quoted values)) "]"))

abbrev pub part_one_of : String → List String → List String
part_one_of field [] = []
part_one_of field (v ∷ vs) = one_of field (v ∷ vs) ∷ []

abbrev compared : String → String → String
compared operator value = append operator (quoted value)

abbrev pub part_compared : String → Option String → List String
part_compared operator none = []
part_compared operator (some value) = if value == "" then [] else compared operator value ∷ []

abbrev pub part_tags : List String → List String
part_tags [] = []
part_tags (t ∷ ts) = append "(" (append (join " OR " (map (compared "tags = ") (t ∷ ts))) ")") ∷ []

abbrev pub part_disclosed : Bool → List String
part_disclosed b = if b then "is_disclosed = true" ∷ [] else []

-- The conditions, all of which are to hold.
unfoldable pub filter_parts : SearchQuery → List String
filter_parts q =
    part_compared "case_id = " q.case_id
    ++ (part_one_of "case_id" q.user_case_ids
        ++ (part_one_of "mime_type" q.mime_types
            ++ (part_one_of "classification" q.classifications
                ++ (part_tags q.tags
                    ++ (part_disclosed q.disclosed_only
                        ++ (part_compared "source_date >= " q.date_from
                            ++ part_compared "source_date <= " q.date_to))))))

unfoldable pub build_evidence_filter : SearchQuery → String
build_evidence_filter q = join " AND " (filter_parts q)

unfoldable pub search_request : SearchQuery → SearchRequest
search_request q = record {
  limit = clamp 50 200 q.limit;
  offset = q.offset;
  filter = build_evidence_filter q;
}
