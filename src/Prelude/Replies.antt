-- ===== src/Prelude/Replies.antt =====
-- What an endpoint answers, and what it reads of a JSON body (httputil/response.go).
use vault_keeper.Prelude.Results.{Result, ok, err}
use Prim.Native.Nat.{ℕ}

-- A status with what it shows, or a refusal.
pub data Reply (A : Type 0) : Type 0 where
  answered : ℕ → A → Reply A
  refused : ℕ → Reply A

-- A body that is cut off at its limit, that is no JSON, or that decodes.
pub data Decoded (A : Type 0) : Type 0 where
  too_large invalid : Decoded A
  decoded : A → Decoded A

module _ {E S A : Type 0} (status_of : E → ℕ) where
  -- The answer of an operation: its result under the status of success, or the status of its error.
  abbrev pub replied : ℕ → Result E A × S → Reply A × S
  replied success (ok a, s) = (answered success a, s)
  replied success (err e, s) = (refused (status_of e), s)

module _ {E A : Type 0} (status_of : E → ℕ) where
  abbrev pub read : Result E A → Reply A
  read (ok a) = answered 200 a
  read (err e) = refused (status_of e)
