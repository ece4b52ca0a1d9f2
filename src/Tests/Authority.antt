-- ===== src/Tests/Authority.antt =====
-- An authority that is out of reach at first, and answers the second attempt.
use vault_keeper.Prelude.{
  ℕ, ◌≤◌, ◌<◌, ◌≡◌, refl, false, [], ◌∷◌, some, ok, arith, ◌==◌, nat_eq, if◌then◌else◌,
}
use vault_keeper.Integrity.Authority.{
  Bytes, Ext, Turn, unreachable, replied, Issued, do_request, issue_timestamp,
}
use vault_keeper.Integrity.Attempts.{Passed, issue_timestamp_first}

abbrev ext : Ext
ext = record {
  build_request = λ digest. some digest;
  parse_response = λ body. some (record { hashed_message = body; subject = some "tsa"; time = 9 });
}

abbrev digest : Bytes
digest = 1 ∷ 2 ∷ []

abbrev turn : Turn
turn = record {
  reply = λ n. if n == 0 then unreachable else replied 200 (some digest);
  done = λ n. false;
}

abbrev issued : Issued
issued = record { token = digest; tsa_name = "tsa"; tsa_time = 9 }

first-Passed : (k : ℕ) → 0 ≤ k → k < 1 → Passed ext digest turn k
unfolding do_request
first-Passed k a b = let z : k ≡ 0 = omega arith in rw z (refl, refl)

issue_timestamp_first_example : issue_timestamp ext turn digest ≡ ok issued
unfolding do_request
issue_timestamp_first_example =
    issue_timestamp_first ext digest turn 1 {request = digest} {i = issued} refl (omega arith)
      first-Passed refl
