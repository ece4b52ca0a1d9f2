-- ===== src/Integrity/Authority.antt =====
-- The client of the timestamp authority, tsa.go: its retries and the checks of a token. The
-- timestamp library, HTTP and the clock are parameters.
use vault_keeper.Prelude.{
  ℕ, zero, suc, ◌+◌, String, Bool, true, false, not, List, [], ◌∷◌, Option, none, some, Result, ok,
  err, ltb, ◌==◌, nat_eq, if◌then◌else◌,
}
use vault_keeper.Custody.{Time}

abbrev pub Bytes : Type 0
Bytes = List ℕ

-- What the library reads from a response; `subject` is the name of the first certificate.
pub record Timestamp : Type 0 where
  pub hashed_message : Bytes
  pub subject : Option String
  pub time : Time

pub record Ext : Type 0 where
  pub build_request : Bytes → Option Bytes
  pub parse_response : Bytes → Option Timestamp

-- One HTTP request: an error, or a status with a body that may not be readable.
pub data Reply : Type 0 where
  unreachable : Reply
  replied : ℕ → Option Bytes → Reply

pub data Error : Type 0 where
  request_failed send_failed read_failed parse_failed digest_mismatch cancelled : Error
  bad_status : ℕ → Error
  gave_up : Error → Error

-- The reply to each attempt, and whether the context is done in the wait after it.
pub record Turn : Type 0 where
  pub reply : ℕ → Reply
  pub done : ℕ → Bool

pub record Issued : Type 0 where
  pub token : Bytes
  pub tsa_name : String
  pub tsa_time : Time

abbrev pub same_bytes : Bytes → Bytes → Bool
same_bytes [] [] = true
same_bytes (x ∷ xs) (y ∷ ys) = let rest = same_bytes xs ys in if x == y then rest else false
same_bytes _ _ = false

abbrev name_of : Option String → String
name_of none = ""
name_of (some s) = s

abbrev pub max_retries : ℕ
max_retries = 3

module _ (ext : Ext) where
  abbrev pub check_digest : Bytes → Bytes → Timestamp → Result Error Issued
  check_digest body digest ts =
      if same_bytes ts.hashed_message digest
      then ok (record { token = body; tsa_name = name_of ts.subject; tsa_time = ts.time })
      else err digest_mismatch

  abbrev pub read_token : Bytes → Option Bytes → Result Error Issued
  read_token digest none = err read_failed
  read_token digest (some body) = elim (ext.parse_response body) [
    | none ↦ err parse_failed
    | some ts ↦ check_digest body digest ts
  ]

  unfoldable pub do_request : Bytes → Reply → Result Error Issued
  do_request digest unreachable = err send_failed
  do_request digest (replied status body) =
      if not (status == 200) then err (bad_status status) else read_token digest body

  -- The attempts that are left, from the `attempt`-th on, with the last error.
  unfoldable pub attempts : Bytes → Turn → ℕ → ℕ → Error → Result Error Issued
  attempts digest t attempt zero last = err (gave_up last)
  attempts digest t attempt (suc left) last =
      let here = do_request digest (t.reply attempt) in
      let next : Error → Result Error Issued = λ e. attempts digest t (attempt + 1) left e in
      elim here [
        | ok issued ↦ ok issued
        | err e ↦ if ltb 0 left then (if t.done attempt then err cancelled else next e) else next e
      ]

  unfoldable pub issue_timestamp : Turn → Bytes → Result Error Issued
  issue_timestamp t digest = elim (ext.build_request digest) [
    | none ↦ err request_failed
    | some request ↦ attempts digest t 0 max_retries send_failed
  ]

  unfoldable pub verify_timestamp : Bytes → Bytes → Result Error (Unit {0})
  verify_timestamp token digest = elim (ext.parse_response token) [
    | none ↦ err parse_failed
    | some ts ↦ if same_bytes ts.hashed_message digest then ok tt else err digest_mismatch
  ]
