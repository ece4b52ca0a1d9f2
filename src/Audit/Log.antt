-- ===== src/Audit/Log.antt =====
-- logger.go: an entry of the audit log with its hash, in one transaction.
use Prim.Native.String.{◌++◌ as append}
use vault_keeper.Prelude.{
  ℕ, String, Bool, false, ◌&&◌, ◌||◌, List, [], ◌∷◌, Option, none, some, Result, ok, err, ltb, ◌==◌,
  nat_eq, if◌then◌else◌,
}
use vault_keeper.Prelude.Sort.{sort_by}
use vault_keeper.Custody.{Uuid, Time}

pub record AuthEvent : Type 0 where
  pub action : String
  pub actor_user_id : String
  pub ip_address : String
  pub user_agent : String
  pub detail : List (String × String)

-- A row of auth_audit_log.
pub record Entry : Type 0 where
  pub id : Uuid
  pub action : String
  pub actor_user_id : String
  pub ip_address : String
  pub user_agent : String
  pub detail : String
  pub hash_value : String
  pub previous_hash : String
  pub created_at : Time

pub data Error : Type 0 where
  marshal_detail begin_tx lock_chain last_hash_query insert_row commit_tx : Error

-- SHA-256 in hexadecimal digits, the text of a number, and JSON.
pub record Ext : Type 0 where
  pub sha256_hex : String → String
  pub decimal : ℕ → String
  pub marshal_json : List (String × String) → Option String

-- Which statements fail.
pub record Faults : Type 0 where
  pub begin_fails : Bool
  pub lock_fails : Bool
  pub query_fails : Bool
  pub exec_fails : Bool
  pub commit_fails : Bool

abbrev pub no_faults : Faults
no_faults = record {
  begin_fails = false;
  lock_fails = false;
  query_fails = false;
  exec_fails = false;
  commit_fails = false;
}

-- What the database and the clock give to a call: the id of the row, the time at which its transaction
-- began, which is the default of created_at, and the time at which the hash is taken.
pub record Turn : Type 0 where
  pub faults : Faults
  pub fresh : Uuid
  pub began : Time
  pub now : Time

-- ORDER BY created_at DESC, id DESC
abbrev pub descending : Entry → Entry → Bool
descending a b = ltb b.created_at a.created_at || (b.created_at == a.created_at && ltb b.id a.id)

abbrev pub first_hash : List Entry → String
first_hash [] = ""
first_hash (e ∷ es) = e.hash_value

unfoldable pub get_last_hash : List Entry → String
get_last_hash rows = first_hash (sort_by descending rows)

module _ (ext : Ext) where
  unfoldable pub compute_hash : String → String → String → String → Time → String
  compute_hash action actor detail previous_hash ts = ext.sha256_hex (
      append action (
        append "|" (
          append actor (
            append "|"
              (append detail (append "|" (append previous_hash (append "|" (ext.decimal ts)))))))))

  unfoldable pub entry_of : Turn → AuthEvent → String → String → Entry
  entry_of t e detail previous_hash = record {
    id = t.fresh;
    action = e.action;
    actor_user_id = e.actor_user_id;
    ip_address = e.ip_address;
    user_agent = e.user_agent;
    detail = detail;
    hash_value = compute_hash e.action e.actor_user_id detail previous_hash t.now;
    previous_hash = previous_hash;
    created_at = t.began;
  }

  -- From the transaction on; its deferred `Rollback` leaves the table on every error as it was.
  abbrev pub logged :
      Turn → AuthEvent → Option String → List Entry → Result Error (Unit {0}) × List Entry
  logged t e none rows = (err marshal_detail, rows)
  logged t e (some detail) rows =
      if t.faults.begin_fails
      then (err begin_tx, rows)
      else if t.faults.lock_fails
      then (err lock_chain, rows)
      else if t.faults.query_fails
      then (err last_hash_query, rows)
      else if t.faults.exec_fails
      then (err insert_row, rows)
      else if t.faults.commit_fails
      then (err commit_tx, rows)
      else (ok tt, entry_of t e detail (get_last_hash rows) ∷ rows)

  unfoldable pub log_auth_event :
      Turn → AuthEvent → List Entry → Result Error (Unit {0}) × List Entry
  log_auth_event t e rows = logged t e (ext.marshal_json e.detail) rows

  unfoldable pub denied_event : String → String → String → String → String → AuthEvent
  denied_event user_id endpoint required_role actual_role ip = record {
    action = "access_denied";
    actor_user_id = user_id;
    ip_address = ip;
    user_agent = "";
    detail =
        ("endpoint", endpoint)
        ∷ ("required_role", required_role)
        ∷ ("actual_role", actual_role)
        ∷ [];
  }

  -- The error is dropped.
  unfoldable pub log_access_denied :
      Turn → String → String → String → String → String → List Entry → List Entry
  log_access_denied t user_id endpoint required_role actual_role ip rows =
      (log_auth_event t (denied_event user_id endpoint required_role actual_role ip) rows).1

  -- Calls in the order in which they take the lock.
  unfoldable pub log_all : List (Turn × AuthEvent) → List Entry → List Entry
  log_all [] rows = rows
  log_all ((t, e) ∷ cs) rows = log_all cs (log_auth_event t e rows).1
