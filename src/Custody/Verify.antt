-- ===== src/Custody/Verify.antt =====
-- `VerifyCaseChain` of chain.go, and what its verdict means.
use vault_keeper.Prelude.{
  ℕ, ◌+◌, String, ◌≡◌, refl, ap, ◌↔◌, true, false, not, List, [], ◌∷◌, ◌++◌, arith, eq_iff, ◌==◌,
  string_eq, if◌then◌else◌, length,
}
use vault_keeper.Custody.{Ext, Event, ChainVerification, Time}
use vault_keeper.Custody.Hash.{compute_log_hash}

-- `result.Valid = false; result.Breaks = append(result.Breaks, ChainBreak{…})`
abbrev add_break : Event → ℕ → String → String → ChainVerification → ChainVerification
add_break e i expected actual r = record r {
  valid = false;
  breaks =
      r.breaks
      ++ (record {
        entry_id = e.id;
        position = i;
        expected_hash = expected;
        actual_hash = actual;
        timestamp = e.timestamp;
      })
        ∷ [];
}

module _ (ext : Ext) where
  -- The body of the loop at entry `i`.
  check_entry : ℕ → String → Event → ChainVerification → ChainVerification
  check_entry i previous_hash e r =
      let expected = compute_log_hash ext previous_hash e in
      let r₁ =
        if not (e.hash_value == expected) then add_break e i expected e.hash_value r else r in
      if not (e.previous_hash == previous_hash)
      then add_break e i previous_hash e.previous_hash r₁
      else r₁

  verify_loop : ℕ → String → List Event → ChainVerification → ChainVerification
  verify_loop i previous_hash [] r = r
  verify_loop i previous_hash (e ∷ events) r =
      verify_loop (i + 1) e.hash_value events (check_entry i previous_hash e r)

  -- `events` is what `ListAllByCase` returned.
  pub verify_events : Time → List Event → ChainVerification
  verify_events now events =
      verify_loop 0 "" events
        (record { valid = true; total_entries = length events; verified_at = now; breaks = [] })

  -- An entry that is hashed over its predecessor's hash.
  pub record IsLinked (previous_hash : String) (e : Event) : Type 0 where
    pub hashed : e.hash_value ≡ compute_log_hash ext previous_hash e
    pub linked : e.previous_hash ≡ previous_hash

  abbrev pub IsChain : String → List Event → Type 0
  IsChain previous_hash [] = Unit
  IsChain previous_hash (e ∷ events) = IsLinked previous_hash e × IsChain e.hash_value events

  check_entry_ok :
      (i : ℕ) (p : String) (e : Event) (r : ChainVerification)
      → IsLinked p e
      → check_entry i p e r ≡ r
  unfolding check_entry
  check_entry_ok i p e r h =
      ground (arith, eq_iff e.hash_value (compute_log_hash ext p e), eq_iff e.previous_hash p)

  check_entry_valid :
      (i : ℕ) (p : String) (e : Event) (r : ChainVerification)
      → (check_entry i p e r).valid ≡ true
      → (r.valid ≡ true) × IsLinked p e
  unfolding check_entry
  check_entry_valid i p e r h =
      ground (arith, eq_iff e.hash_value (compute_log_hash ext p e), eq_iff e.previous_hash p)

  verify_loop_ok :
      (i : ℕ) (p : String) (events : List Event) (r : ChainVerification)
      → IsChain p events
      → verify_loop i p events r ≡ r
  unfolding verify_loop
  verify_loop_ok i p [] r h = refl
  verify_loop_ok i p (e ∷ events) r h =
      rw (check_entry_ok i p e r h.0) (verify_loop_ok (i + 1) e.hash_value events r h.1)

  verify_loop_valid :
      (i : ℕ) (p : String) (events : List Event) (r : ChainVerification)
      → (verify_loop i p events r).valid ≡ true
      → (r.valid ≡ true) × IsChain p events
  unfolding verify_loop
  verify_loop_valid i p [] r h = (h, tt)
  verify_loop_valid i p (e ∷ events) r h =
      let (v, c) = verify_loop_valid (i + 1) e.hash_value events (check_entry i p e r) h in
      let (v', l) = check_entry_valid i p e r v in (v', (l, c))

  -- The verdict is valid exactly when every entry is hashed over, and names, the hash of the entry
  -- before it, the first entry that of the empty text.
  pub verify_events_iff :
      (now : Time) (events : List Event)
      → ((verify_events now events).valid ≡ true) ↔ IsChain "" events
  unfolding verify_events
  verify_events_iff now events = (
    λ v. (verify_loop_valid 0 "" events _ v).1,
    λ c. ap (λ r. r.valid) (verify_loop_ok 0 "" events _ c),
  )
