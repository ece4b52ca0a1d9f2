-- ===== src/Evidence/Store.antt =====
-- What the evidence service acts on: the tables, the object storage, the custody recorder and the
-- search index, with the faults of each, as steps that may fail.
use vault_keeper.Prelude.{
  String, Bool, true, false, not, List, [], ◌∷◌, Option, none, some, Result, ok, err, ◌==◌,
  string_eq, if◌then◌else◌, filter,
}
use vault_keeper.Prelude.Exec.{Exec}
use vault_keeper.Custody.{Uuid}
use vault_keeper.Evidence.Model.{Bytes, EvidenceItem}
use vault_keeper.Evidence.Repository.{Error, failed, CaseRow}

-- An event that the custody recorder was asked to write.
pub record EvidenceEvent : Type 0 where
  pub case_id : Uuid
  pub evidence_id : Uuid
  pub action : String
  pub actor_user_id : String
  pub detail : List (String × String)

pub record Store : Type 0 where
  pub cases : List CaseRow
  pub items : List EvidenceItem
  pub objects : List (String × Bytes)
  pub custody : List EvidenceEvent
  pub indexed : List EvidenceItem

-- What fails in one call, and which of the optional parts are configured.
pub record Faults : Type 0 where
  pub status_fails : Bool
  pub hold_fails : Bool
  pub code_fails : Bool
  pub counter_fails : Bool
  pub find_fails : Bool
  pub find_again_fails : Bool
  pub read_fails : Bool
  pub put_fails : Bool
  pub delete_fails : Bool
  pub get_fails : Bool
  pub write_fails : Bool
  pub mark_fails : Bool
  pub version_fails : Bool
  pub has_recorder : Bool
  pub record_fails : Bool
  pub has_indexer : Bool
  pub index_fails : Bool

abbrev pub no_faults : Faults
no_faults = record {
  status_fails = false;
  hold_fails = false;
  code_fails = false;
  counter_fails = false;
  find_fails = false;
  find_again_fails = false;
  read_fails = false;
  put_fails = false;
  delete_fails = false;
  get_fails = false;
  write_fails = false;
  mark_fails = false;
  version_fails = false;
  has_recorder = true;
  record_fails = false;
  has_indexer = true;
  index_fails = false;
}

abbrev pub Op : Type 0 → Type 0
Op = Exec Store Error

abbrev pub given : {A : Type 0} → Result Error A → Op A
given r s = (r, s)

abbrev pub on_cases : {A : Type 0} → (List CaseRow → Result Error A × List CaseRow) → Op A
on_cases f s = let (r, cases) = f s.cases in (r, record s { cases = cases })

abbrev pub on_items : {A : Type 0} → (List EvidenceItem → Result Error A × List EvidenceItem) → Op A
on_items f s = let (r, items) = f s.items in (r, record s { items = items })

abbrev pub reading_cases : {A : Type 0} → (List CaseRow → Result Error A) → Op A
reading_cases f s = (f s.cases, s)

abbrev pub reading_items : {A : Type 0} → (List EvidenceItem → Result Error A) → Op A
reading_items f s = (f s.items, s)

-- A step whose error is logged and forgotten.
abbrev pub forgiven : Op (Unit {0}) → Op (Unit {0})
forgiven m s = let (_, t) = m s in (ok tt, t)

abbrev pub is_key : String → String × Bytes → Bool
is_key key o = o.0 == key

abbrev pub without : String → List (String × Bytes) → List (String × Bytes)
without key objects = filter (λ o. not (is_key key o)) objects

-- The object storage: a put replaces the object of its key, a delete of no object succeeds.
unfoldable pub put_object : Bool → String → Bytes → Op (Unit {0})
put_object fails key content s =
    if fails
    then (err (failed "put object"), s)
    else (ok tt, record s { objects = (key, content) ∷ without key s.objects })

unfoldable pub delete_object : Bool → String → Op (Unit {0})
delete_object fails key s =
    if fails
    then (err (failed "delete object"), s)
    else (ok tt, record s { objects = without key s.objects })

abbrev pub object : String → List (String × Bytes) → Option Bytes
object key [] = none
object key (o ∷ os) = let rest = object key os in if is_key key o then some o.1 else rest

read_object : Option Bytes → Result Error Bytes
read_object none = err (failed "get object")
read_object (some content) = ok content

unfoldable pub get_object : Bool → String → Op Bytes
unfolding read_object
get_object fails key s =
    if fails then (err (failed "get object"), s) else (read_object (object key s.objects), s)

-- `recordCustodyEvent`: an error of the recorder is logged and forgotten.
unfoldable pub record_custody_event :
    Faults → Uuid → Uuid → String → String → List (String × String) → Op (Unit {0})
record_custody_event f case_id evidence_id action actor detail s =
    if not f.has_recorder then (ok tt, s) else if f.record_fails then (ok tt, s) else (
      ok tt,
      record s {
        custody =
            (record {
              case_id = case_id;
              evidence_id = evidence_id;
              action = action;
              actor_user_id = actor;
              detail = detail;
            })
            ∷ s.custody;
      },
    )

-- `indexEvidence`; the document that is built is a view of the item.
unfoldable pub index_evidence : Faults → EvidenceItem → Op (Unit {0})
index_evidence f e s =
    if not f.has_indexer
    then (ok tt, s)
    else if f.index_fails
    then (ok tt, s)
    else (ok tt, record s { indexed = e ∷ s.indexed })
