-- ===== src/Search/Scope.antt =====
-- Below a system administrator, the filter that is sent with a search names the cases of the user.
use Prim.Native.String.{◌++◌ as append}
use vault_keeper.Prelude.{
  ◌≡◌, ◌⊎◌, ◌≢◌, String, Bool, List, [], ◌∷◌, ◌++◌, Option, none, some, map, ◌==◌, nat_eq,
  string_eq, if◌then◌else◌, filter,
}
use vault_keeper.Access.Gates.{CaseRole}
use vault_keeper.Search.Escape.{escape_filter_value}
use vault_keeper.Search.Filter.{
  SearchQuery, join, part_compared, part_one_of, part_tags, part_disclosed, search_request,
}
use vault_keeper.Search.Requests.{Ext, Loaders}

-- The role that the last row of a case has.
abbrev pub last_role : (CaseRole → String) → String → List CaseRole → Option String
last_role key id [] = none
last_role key id (r ∷ rs) =
    let rest = last_role key id rs in
    elim rest [ some role ↦ some role | none ↦ if key r == id then some r.role else none ]

abbrev role_in : String → List (String × String) → Option String
role_in id [] = none
role_in id (r ∷ rs) = let rest = role_in id rs in if r.0 == id then some r.1 else rest

abbrev or_else : Option String → Option String → Option String
or_else none o = o
or_else (some s) o = some s

module _ (ext : Ext) where
  abbrev pub case_of : CaseRole → String
  case_of r = ext.uuid_string r.case_id

-- The text of a filter joins its conditions by AND; one of them has exactly these ids.
abbrev pub WithIds : String → List String → Type 0
WithIds filter_text ids =
    (before : List String) × (after : List String) × (filter_text
      ≡ join " AND " (
          before
          ++ append "case_id" (
              append " IN [" (
                append
                  (join ", " (map (λ id. append "'" (append (escape_filter_value id) "'")) ids))
                  "]"))
            ∷ after))

-- The same with the condition on what is disclosed among the others.
abbrev pub Disclosed : String → Type 0
Disclosed filter_text =
    (before : List String) × (after : List String) × (filter_text
      ≡ join " AND " (before ++ "is_disclosed = true" ∷ after))

abbrev dates : SearchQuery → List String
dates q = part_compared "source_date >= " q.date_from ++ part_compared "source_date <= " q.date_to

abbrev with_ids : SearchQuery → List String → List String
with_ids q ids =
    part_compared "case_id = " q.case_id
    ++ (part_one_of "case_id" ids
        ++ (part_one_of "mime_type" q.mime_types
            ++ (part_one_of "classification" q.classifications
                ++ (part_tags q.tags ++ (part_disclosed q.disclosed_only ++ dates q)))))

module _ (ext : Ext) {R : Type 0} (search_evidence : SearchQuery → Option R) where
  -- The query that was searched for is sent with a filter of which one condition has the cases of
  -- the user, and one asks for what is disclosed, unless the last role in the case `id` is not the
  -- defence's.
  abbrev pub Scoped : Loaders → String → String → R → Type 0
  Scoped l user id r =
      (q : SearchQuery) × (search_evidence q ≡ some r)
      × WithIds (search_request q).filter
          (map (case_of ext) (filter (λ (r : CaseRole). r.user_id == user) l.at_ids))
      × (Disclosed (search_request q).filter
          ⊎ (last_role (case_of ext) id (filter (λ (r : CaseRole). r.user_id == user) l.at_roles)
              ≢ some "defence"))
