-- ===== src/Integrity/Attempts.antt =====
-- What the attempts of tsa.go come to.
use vault_keeper.Prelude.{
  ℕ, zero, suc, ◌+◌, ◌≤◌, ◌<◌, ◌≡◌, subst, false, Option, none, some, ok, is_ok, arith, nat_eq,
  ◌==◌, Bool-cases, Option-cases, Result-cases, inl, inr,
}
use vault_keeper.Integrity.Authority.{
  Bytes, Ext, Turn, Reply, unreachable, replied, Error, Issued, send_failed, same_bytes,
  max_retries, do_request, read_token, attempts, issue_timestamp, verify_timestamp,
}

module _ (ext : Ext) (digest : Bytes) where
  read_token-verify :
      (body : Option Bytes) {i : Issued}
      → read_token ext digest body ≡ ok i
      → verify_timestamp ext i.token digest ≡ ok tt
  unfolding verify_timestamp
  read_token-verify none h = absurd (ground arith)
  read_token-verify (some body) {i = i} h = elim (Option-cases (ext.parse_response body)) [
    | inl n ↦ absurd (ground arith)
    | inr (ts, y) ↦ elim (Bool-cases (same_bytes ts.hashed_message digest)) [
      | inr n ↦ absurd (ground arith)
      | inl same ↦
          let held : body ≡ i.token = ground arith in
          subst (λ b. verify_timestamp ext b digest ≡ ok tt) held (ground arith)
    ]
  ]

  do_request-verify :
      (r : Reply) {i : Issued}
      → do_request ext digest r ≡ ok i
      → verify_timestamp ext i.token digest ≡ ok tt
  unfolding do_request
  do_request-verify unreachable h = absurd (ground arith)
  do_request-verify (replied status body) {i = i} h = elim (Bool-cases (status == 200)) [
    | inl y ↦ read_token-verify body {i = i} (ground arith)
    | inr n ↦ absurd (ground arith)
  ]

  attempts-verify :
      (t : Turn) (attempt left : ℕ) (last : Error) {i : Issued}
      → attempts ext digest t attempt left last ≡ ok i
      → verify_timestamp ext i.token digest ≡ ok tt
  unfolding attempts
  attempts-verify t attempt zero last h = absurd (ground arith)
  attempts-verify t attempt (suc left) last {i = i} h =
      elim (Result-cases (do_request ext digest (t.reply attempt))) [
        | inl (j, y) ↦ do_request-verify (t.reply attempt) {i = i} (ground arith)
        | inr (e, y) ↦ attempts-verify t (attempt + 1) left e {i = i} (ground arith)
      ]

  -- A token that is issued for a digest verifies against that digest.
  verify-issue_timestamp :
      (t : Turn) {i : Issued}
      → issue_timestamp ext t digest ≡ ok i
      → verify_timestamp ext i.token digest ≡ ok tt
  unfolding issue_timestamp
  verify-issue_timestamp t {i = i} h = elim (Option-cases (ext.build_request digest)) [
    | inl n ↦ absurd (ground arith)
    | inr (request, y) ↦ attempts-verify t 0 max_retries send_failed {i = i} (ground arith)
  ]

  -- The attempt fails, and the context is not done in the wait after it.
  abbrev pub Passed : Turn → ℕ → Type 0
  Passed t k = (is_ok (do_request ext digest (t.reply k)) ≡ false) × (t.done k ≡ false)

  attempts_reach :
      (t : Turn) (j attempt n left : ℕ) (last : Error) {i : Issued}
      → j < left
      → attempt + j ≡ n
      → ((k : ℕ) → attempt ≤ k → k < n → Passed t k)
      → do_request ext digest (t.reply n) ≡ ok i
      → attempts ext digest t attempt left last ≡ ok i
  unfolding attempts
  attempts_reach t j attempt n zero last l e p h = absurd (omega arith)
  attempts_reach t zero attempt n (suc left) last {i = i} l e p h =
      let now : n ≡ attempt = omega arith in
      let here = subst (λ k. do_request ext digest (t.reply k) ≡ ok i) now h in ground (arith, here)
  attempts_reach t (suc j) attempt n (suc left) last {i = i} l e p h =
      let (bad, on) = p attempt (omega arith) (omega arith) in
      elim (Result-cases (do_request ext digest (t.reply attempt))) [
        | inl (x, y) ↦ absurd (ground arith)
        | inr (f, y) ↦
            let rest =
              attempts_reach t j (attempt + 1) n left f {i = i} (omega arith) (omega arith)
                (λ k a b. p k (omega arith) b) h in
            ground (arith, rest)
      ]

  -- Where a request can be built, one of the three attempts gives a token, each before it fails, and
  -- the context is not done in a wait before it, that token is issued.
  pub issue_timestamp_first :
      (t : Turn) (n : ℕ) {request : Bytes} {i : Issued}
      → ext.build_request digest ≡ some request
      → n < max_retries
      → ((k : ℕ) → 0 ≤ k → k < n → Passed t k)
      → do_request ext digest (t.reply n) ≡ ok i
      → issue_timestamp ext t digest ≡ ok i
  unfolding issue_timestamp
  issue_timestamp_first t n {i = i} b l p h =
      rw (b, issue_timestamp)
        (attempts_reach t n 0 n max_retries send_failed {i = i} l (omega arith) p h)
