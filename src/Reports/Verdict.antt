-- ===== src/Reports/Verdict.antt =====
-- The verdict of a report on the chain against that of `VerifyCaseChain`, and what a report of one
-- item leaves out.
use vault_keeper.Prelude.{String, ◌≡◌, ◌↔◌, refl, ap, true, List, [], ◌∷◌, arith, eq_iff, string_eq}
use vault_keeper.Custody.{Event, Time}
use vault_keeper.Custody.Hash.{compute_log_hash}
use vault_keeper.Custody.Verify.{verify_events, verify_events_iff, IsChain}
use vault_keeper.Reports.Pdf.{Ext, ChainStatus, check_link, status_loop, chain_status}

module _ (ext : Ext) where
  -- Each entry is hashed over the hash of the one before it.
  abbrev pub Hashed : String → List Event → Type 0
  Hashed previous_hash [] = Unit
  Hashed previous_hash (e ∷ events) =
      (e.hash_value ≡ compute_log_hash ext.custody previous_hash e) × Hashed e.hash_value events

  -- Each entry names the hash of the one before it.
  abbrev pub Named : String → List Event → Type 0
  Named previous_hash [] = Unit
  Named previous_hash (e ∷ events) = (e.previous_hash ≡ previous_hash) × Named e.hash_value events

  abbrev pub FirstHashed : List Event → Type 0
  FirstHashed [] = Unit
  FirstHashed (e ∷ events) = e.hash_value ≡ compute_log_hash ext.custody "" e

  IsChain-parts :
      (p : String) (events : List Event)
      → IsChain ext.custody p events ↔ (Hashed p events × Named p events)
  IsChain-parts p [] = (λ _. (tt, tt), λ _. tt)
  IsChain-parts p (e ∷ events) =
      let rest = IsChain-parts e.hash_value events in
      (
        λ (l, c). let (h, n) = rest.0 c in ((l.hashed, h), (l.linked, n)),
        λ ((h, hs), (n, ns)). (record { hashed = h; linked = n }, rest.1 (hs, ns)),
      )

  check_link_ok :
      (p : String) (e : Event) (s : ChainStatus)
      → e.hash_value ≡ compute_log_hash ext.custody p e
      → check_link ext p e s ≡ s
  check_link_ok p e s h = ground (arith, eq_iff (compute_log_hash ext.custody p e) e.hash_value)

  check_link-verified :
      (p : String) (e : Event) (s : ChainStatus)
      → (check_link ext p e s).verified ≡ true
      → (s.verified ≡ true) × (e.hash_value ≡ compute_log_hash ext.custody p e)
  check_link-verified p e s h =
      ground (arith, eq_iff (compute_log_hash ext.custody p e) e.hash_value)

  status_loop_ok :
      (p : String) (events : List Event) (s : ChainStatus)
      → Hashed p events
      → status_loop ext p events s ≡ s
  unfolding status_loop
  status_loop_ok p [] s h = refl
  status_loop_ok p (e ∷ events) s h =
      rw (check_link_ok p e s h.0) (status_loop_ok e.hash_value events s h.1)

  status_loop-verified :
      (p : String) (events : List Event) (s : ChainStatus)
      → (status_loop ext p events s).verified ≡ true
      → (s.verified ≡ true) × Hashed p events
  unfolding status_loop
  status_loop-verified p [] s h = (h, tt)
  status_loop-verified p (e ∷ events) s h =
      let (v, hs) = status_loop-verified e.hash_value events (check_link ext p e s) h in
      let (w, x) = check_link-verified p e s v in (w, (x, hs))

  chain_status_iff :
      (events : List Event)
      → (((chain_status ext events).verified ≡ true) × FirstHashed events) ↔ Hashed "" events
  unfolding chain_status
  chain_status_iff [] = (λ _. tt, λ _. (refl, tt))
  chain_status_iff (e ∷ events) = (
    λ (v, f). (f, (status_loop-verified e.hash_value events _ v).1),
    λ (f, hs). (ap (λ s. s.verified) (status_loop_ok e.hash_value events _ hs), f),
  )

  -- `VerifyCaseChain` finds a chain valid exactly when the report finds it verified, its first entry
  -- is hashed over the empty text, and each entry names the hash of the entry before it, the first
  -- one the empty text: the report looks at neither of the last two.
  pub verify_events-report :
      (now : Time) (events : List Event)
      → ((verify_events ext.custody now events).valid ≡ true)
        ↔ (((chain_status ext events).verified ≡ true) × FirstHashed events × Named "" events)
  verify_events-report now events =
      let whole = verify_events_iff ext.custody now events in
      let parts = IsChain-parts "" events in
      let status = chain_status_iff events in
      (
        λ v. let (h, n) = parts.0 (whole.0 v) in let (s, f) = status.1 h in (s, f, n),
        λ (s, f, n). whole.1 (parts.1 (status.0 (s, f), n)),
      )
