-- ===== src/Custody/Log.antt =====
-- The table custody_log: `Insert`, `ListAllByCase` (repository.go) and the recorder of logger.go.
-- A table is the list of its rows, the latest insertion first, as a SELECT reads them back. Row
-- security lets the server insert and select, so no operation changes or removes a row.
use vault_keeper.Prelude.{
  String, Bool, false, ◌&&◌, ◌||◌, List, [], ◌∷◌, Result, ok, err, ltb, ◌==◌, nat_eq, if◌then◌else◌,
  filter, is_none,
}
use mathlib.Core.Option.{get_or}
use vault_keeper.Prelude.Sort.{sort_by}
use vault_keeper.Custody.{Ext, Event, ChainVerification, Uuid, uuid_nil, Time}
use vault_keeper.Custody.Hash.{compute_log_hash}
use vault_keeper.Custody.Verify.{verify_events}

-- Where `Insert` and the lists fail.
pub data Error : Type 0 where
  begin_tx lock_chain last_hash_query insert_row commit_tx : Error
  invalid_filter invalid_cursor count_query list_query : Error

-- Which statements of one transaction the database refuses.
pub record Faults : Type 0 where
  pub begin_fails : Bool
  pub lock_fails : Bool
  pub query_fails : Bool
  pub exec_fails : Bool
  pub commit_fails : Bool

abbrev pub no_faults : Faults
no_faults = record {
  begin_fails = false;
  lock_fails = false;
  query_fails = false;
  exec_fails = false;
  commit_fails = false;
}

-- ORDER BY timestamp ASC, id ASC
unfoldable pub ascending : Event → Event → Bool
ascending a b = ltb a.timestamp b.timestamp || (a.timestamp == b.timestamp && ltb a.id b.id)

-- ORDER BY timestamp DESC, id DESC
unfoldable pub descending : Event → Event → Bool
descending a b = ltb b.timestamp a.timestamp || (b.timestamp == a.timestamp && ltb b.id a.id)

abbrev pub of_case : Uuid → Event → Bool
of_case c e = e.case_id == c

unfoldable pub list_all_by_case : Uuid → List Event → List Event
list_all_by_case c rows = sort_by ascending (filter (of_case c) rows)

-- `LIMIT 1` of the newest row; no row leaves `previousHash` empty.
abbrev pub first_hash : List Event → String
first_hash [] = ""
first_hash (e ∷ _) = e.hash_value

unfoldable pub last_hash : Uuid → List Event → String
last_hash c rows = first_hash (sort_by descending (filter (of_case c) rows))

module _ (ext : Ext) where
  open ext use {column_time, actor_column, marshal_map}

  -- The column actor_user_id is a UUID: it refuses a text that spells none.
  abbrev pub actor_refused : Event → Bool
  actor_refused e = is_none (actor_column e.actor_user_id)

  -- What a SELECT returns for a row that was written: the times and the actors of the columns, and
  -- `uuid.Nil` for the NULL that stands for it.
  abbrev pub read_back : Event → Event
  read_back e = record e {
    timestamp = column_time e.timestamp;
    actor_user_id = get_or (actor_column e.actor_user_id) e.actor_user_id;
  }

  -- The entry that `Insert` writes; `fresh` is the `uuid.New()` of a call without an id.
  unfoldable pub sealed : Uuid → String → Event → Event
  sealed fresh previous_hash e =
      let e₁ = record e {
        id = if e.id == uuid_nil then fresh else e.id;
        previous_hash = previous_hash;
      } in
      record e₁ { hash_value = compute_log_hash ext previous_hash e₁ }

  -- The deferred `Rollback` leaves the table as it was on every error.
  unfoldable pub insert : Faults → Uuid → Event → List Event → Result Error (Unit {0}) × List Event
  insert f fresh e rows =
      if f.begin_fails
      then (err begin_tx, rows)
      else if f.lock_fails
      then (err lock_chain, rows)
      else if f.query_fails
      then (err last_hash_query, rows)
      else if f.exec_fails || actor_refused e
      then (err insert_row, rows)
      else if f.commit_fails
      then (err commit_tx, rows)
      else (ok tt, read_back (sealed fresh (last_hash e.case_id rows) e) ∷ rows)

  -- `VerifyCaseChain`: no verdict where the rows cannot be read.
  unfoldable pub verify_case_chain :
      Bool → Time → Uuid → List Event → Result Error ChainVerification
  verify_case_chain list_fails now c rows =
      if list_fails then err list_query else ok (verify_events ext now (list_all_by_case c rows))

  -- The entry that `RecordEvidenceEvent` hands to `Insert`.
  unfoldable pub evidence_event :
      Time → Uuid → Uuid → String → String → List (String × String) → Event
  evidence_event now case_id evidence_id action actor detail = record {
    id = uuid_nil;
    case_id = case_id;
    evidence_id = evidence_id;
    action = action;
    actor_user_id = actor;
    detail = marshal_map detail;
    hash_value = "";
    previous_hash = "";
    timestamp = now;
  }

  unfoldable pub record_evidence_event :
      Faults
      → Uuid
      → Time
      → Uuid
      → Uuid
      → String
      → String
      → List (String × String)
      → List Event
      → Result Error (Unit {0}) × List Event
  record_evidence_event f fresh now case_id evidence_id action actor detail =
      insert f fresh (evidence_event now case_id evidence_id action actor detail)

  unfoldable pub record_case_event :
      Faults
      → Uuid
      → Time
      → Uuid
      → String
      → String
      → List (String × String)
      → List Event
      → Result Error (Unit {0}) × List Event
  record_case_event f fresh now case_id action actor detail =
      insert f fresh (evidence_event now case_id uuid_nil action actor detail)

  -- One call of the recorder.
  pub record Request : Type 0 where
    pub faults : Faults
    pub fresh : Uuid
    pub event : Event

  -- A history of calls, the first one first. The advisory lock of a case keeps the transactions on
  -- one case apart, so their inserts are such a sequence.
  unfoldable pub record_all : List Request → List Event → List Event
  record_all [] rows = rows
  record_all (r ∷ rs) rows = record_all rs (insert r.faults r.fresh r.event rows).1
