-- ===== src/Custody.antt =====
-- The chain of custody: internal/custody (models.go, chain.go, repository.go, logger.go) over the
-- table custody_log. A `uuid.UUID` is the 128-bit number that its bytes spell, which is the order of
-- a UUID column; `uuid.Nil` is 0. A `time.Time` is its nanoseconds since the epoch, in UTC.
pub mod Hash
pub mod Verify
pub mod Log
pub mod Append
pub mod Breaks
pub mod Refines
pub mod Binding
pub mod Pages
use vault_keeper.Prelude.{ℕ, String, Bool, List, Option}

abbrev pub Uuid : Type 0
Uuid = ℕ

abbrev pub uuid_nil : Uuid
uuid_nil = 0

abbrev pub Time : Type 0
Time = ℕ

pub record Event : Type 0 where
  pub id : Uuid
  pub case_id : Uuid
  pub evidence_id : Uuid
  pub action : String
  pub actor_user_id : String
  pub detail : String
  pub hash_value : String
  pub previous_hash : String
  pub timestamp : Time

pub record ChainBreak : Type 0 where
  pub entry_id : Uuid
  pub position : ℕ
  pub expected_hash : String
  pub actual_hash : String
  pub timestamp : Time

pub record ChainVerification : Type 0 where
  pub valid : Bool
  pub total_entries : ℕ
  pub verified_at : Time
  pub breaks : List ChainBreak

-- What the custody code takes from the Go standard library, the uuid package and PostgreSQL.
-- `column_time` is what a TIMESTAMPTZ column gives back for a time that was written to it, and
-- `actor_column` what the UUID column of the actor gives back for a text, which it may refuse.
pub record Ext : Type 1 where
  pub sha256_hex : String → String
  pub uuid_string : Uuid → String
  pub rfc3339_nano : Time → String
  pub Json : Type 0
  pub unmarshal : String → Option Json
  pub marshal : Json → Option String
  pub marshal_map : List (String × String) → String
  pub column_time : Time → Time
  pub actor_column : String → Option String
