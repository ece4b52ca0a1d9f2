-- ===== src/Search/Index.antt =====
-- The index of evidence: what meilisearch.go puts into it, removes from it and reads of its answers.
use Prim.Native.String.{◌++◌ as append}
use vault_keeper.Prelude.{
  ℕ, String, Bool, List, [], ◌∷◌, Option, none, some, Result, ok, err, map, ◌==◌, string_eq,
  if◌then◌else◌,
}
use vault_keeper.Search.Filter.{SearchQuery, SearchRequest, search_request, quoted}

pub record EvidenceSearchDoc : Type 0 where
  pub id : String
  pub case_id : String
  pub title : String
  pub description : String
  pub evidence_number : String
  pub tags : List String
  pub source : String
  pub file_name : String
  pub mime_type : String
  pub classification : String
  pub source_date : Option String
  pub uploaded_at : String
  pub is_current : Bool
  pub is_disclosed : Bool

-- A value of a document that is put into an index.
pub data Value : Type 0 where
  text : String → Value
  texts : List String → Value
  date : Option String → Value
  flag : Bool → Value

abbrev pub Payload : Type 0
Payload = List (String × Value)

-- The document of `IndexDocument`, whose payload is a map.
pub record Document : Type 0 where
  pub id : String
  pub index : String
  pub payload : Payload

-- The SDK of the search server over the state of one index: each call gives the state after its
-- task, or an error.
pub record Server (S : Type 0) : Type 0 where
  pub add_documents : List Payload → S → Option S
  pub delete_document : String → S → Option S
  pub delete_by_filter : String → S → Option S

pub data Error : Type 0 where
  index_failed remove_failed delete_failed reindex_failed search_failed : Error

unfoldable pub payload_of : EvidenceSearchDoc → Payload
payload_of d =
    ("id", text d.id)
    ∷ ("case_id", text d.case_id)
    ∷ ("title", text d.title)
    ∷ ("description", text d.description)
    ∷ ("evidence_number", text d.evidence_number)
    ∷ ("tags", texts d.tags)
    ∷ ("source", text d.source)
    ∷ ("file_name", text d.file_name)
    ∷ ("mime_type", text d.mime_type)
    ∷ ("classification", text d.classification)
    ∷ ("source_date", date d.source_date)
    ∷ ("uploaded_at", text d.uploaded_at)
    ∷ ("is_current", flag d.is_current)
    ∷ ("is_disclosed", flag d.is_disclosed)
    ∷ []

abbrev pub or_keep : {S : Type 0} → Error → S → Option S → Result Error (Unit {0}) × S
or_keep e s none = (err e, s)
or_keep e s (some t) = (ok tt, t)

-- The payload is copied, and the id put over one that it has.
abbrev pub with_id : String → Payload → Payload
with_id id [] = ("id", text id) ∷ []
with_id id ((k, v) ∷ p) =
    let rest = with_id id p in if k == "id" then ("id", text id) ∷ p else (k, v) ∷ rest

abbrev pub case_filter : String → String
case_filter case_id = append "case_id = " (quoted case_id)

module _ {S : Type 0} (server : Server S) where
  unfoldable pub index_document : Document → S → Result Error (Unit {0}) × S
  index_document d s = or_keep index_failed s (server.add_documents (with_id d.id d.payload ∷ []) s)

  unfoldable pub delete_document : String → S → Result Error (Unit {0}) × S
  delete_document id s = or_keep remove_failed s (server.delete_document id s)

  unfoldable pub index_evidence : EvidenceSearchDoc → S → Result Error (Unit {0}) × S
  index_evidence d s = or_keep index_failed s (server.add_documents (payload_of d ∷ []) s)

  unfoldable pub remove_evidence : String → S → Result Error (Unit {0}) × S
  remove_evidence id s = or_keep remove_failed s (server.delete_document id s)

  abbrev pub refill : List EvidenceSearchDoc → S → Result Error (Unit {0}) × S
  refill [] s = (ok tt, s)
  refill (d ∷ ds) s = or_keep reindex_failed s (server.add_documents (map payload_of (d ∷ ds)) s)

  -- The documents of the case go first; where the new ones are then refused, they are gone.
  unfoldable pub reindex_all : String → List EvidenceSearchDoc → S → Result Error (Unit {0}) × S
  reindex_all case_id items s = elim (server.delete_by_filter (case_filter case_id) s) [
    | none ↦ (err delete_failed, s)
    | some t ↦ refill items t
  ]

-- The raw JSON of an answer, with what `json.Unmarshal` reads of it.
pub record Json : Type 1 where
  pub Raw : Type 0
  pub Score : Type 0
  pub zero_score : Score
  pub to_string : Raw → Option String
  pub to_fields : Raw → Option (List (String × Raw))
  pub to_score : Raw → Option Score

abbrev pub field : {A : Type 0} → String → List (String × A) → Option A
field key [] = none
field key ((k, a) ∷ fields) = let rest = field key fields in if k == key then some a else rest

module _ (json : Json) where
  open json use {Raw, Score, zero_score, to_string, to_fields, to_score}

  pub record EvidenceSearchHit : Type 0 where
    pub evidence_id : String
    pub case_id : String
    pub title : String
    pub description : String
    pub evidence_number : String
    pub highlights : List (String × List String)
    pub score : Score

  abbrev or_empty : Option String → String
  or_empty none = ""
  or_empty (some s) = s

  abbrev string_of : Option Raw → String
  string_of none = ""
  string_of (some raw) = or_empty (to_string raw)

  abbrev highlight : String → String → List (String × List String) → List (String × List String)
  highlight name value rest = if value == "" then rest else (name, value ∷ []) ∷ rest

  abbrev highlights_in : List String → Option (List (String × Raw)) → List (String × List String)
  highlights_in names none = []
  highlights_in [] (some formatted) = []
  highlights_in (n ∷ names) (some formatted) =
      let rest = highlights_in names (some formatted) in
      highlight n (string_of (field n formatted)) rest

  abbrev formatted_of : Option Raw → Option (List (String × Raw))
  formatted_of none = none
  formatted_of (some raw) = to_fields raw

  abbrev or_zero : Option Score → Score
  or_zero none = zero_score
  or_zero (some s) = s

  abbrev score_of : Option Raw → Score
  score_of none = zero_score
  score_of (some raw) = or_zero (to_score raw)

  unfoldable pub parse_evidence_hit : List (String × Raw) → EvidenceSearchHit
  parse_evidence_hit hit = record {
    evidence_id = string_of (field "id" hit);
    case_id = string_of (field "case_id" hit);
    title = string_of (field "title" hit);
    description = string_of (field "description" hit);
    evidence_number = string_of (field "evidence_number" hit);
    highlights =
        highlights_in ("title" ∷ "description" ∷ "evidence_number" ∷ [])
          (formatted_of (field "_formatted" hit));
    score = score_of (field "_rankingScore" hit);
  }

  pub record EvidenceSearchResult : Type 0 where
    pub hits : List EvidenceSearchHit
    pub total_hits : ℕ
    pub query : String
    pub processing_time_ms : ℕ
    pub facets : List (String × List (String × ℕ))

  -- What the server answers to a search: the distribution of a facet is a map where it is one, and a
  -- count a number where it is one.
  pub record Answer : Type 0 where
    pub hits : List (List (String × Raw))
    pub estimated_total_hits : ℕ
    pub processing_time_ms : ℕ
    pub facet_distribution : Option (List (String × Option (List (String × Option ℕ))))

  abbrev counts_of : List (String × Option ℕ) → List (String × ℕ)
  counts_of [] = []
  counts_of ((key, none) ∷ cs) = counts_of cs
  counts_of ((key, some n) ∷ cs) = (key, n) ∷ counts_of cs

  abbrev facets_of :
      List (String × Option (List (String × Option ℕ))) → List (String × List (String × ℕ))
  facets_of [] = []
  facets_of ((facet, none) ∷ fs) = facets_of fs
  facets_of ((facet, some cs) ∷ fs) = (facet, counts_of cs) ∷ facets_of fs

  unfoldable pub parse_facet_distribution :
      Option (List (String × Option (List (String × Option ℕ)))) → List (String × List (String × ℕ))
  parse_facet_distribution none = []
  parse_facet_distribution (some fs) = facets_of fs

  abbrev pub result_of : SearchQuery → Option Answer → Result Error EvidenceSearchResult
  result_of q none = err search_failed
  result_of q (some a) = ok (record {
    hits = map parse_evidence_hit a.hits;
    total_hits = a.estimated_total_hits;
    query = q.query;
    processing_time_ms = a.processing_time_ms;
    facets = parse_facet_distribution a.facet_distribution;
  })

  unfoldable pub search_evidence :
      (String → SearchRequest → Option Answer) → SearchQuery → Result Error EvidenceSearchResult
  search_evidence ask q = result_of q (ask q.query (search_request q))
