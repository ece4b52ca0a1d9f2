-- ===== src/Audit/Chain.antt =====
-- Where the entries of the audit log hang together, and where they fork.
use vault_keeper.Prelude.{
  ◌≤◌, ◌<◌, String, ◌≡◌, refl, ap, ◌∙◌, sym, subst, Bool, true, false, List, [], ◌∷◌, Option, none,
  some, Result, err, arith, nat_eq, All, All-map, inl, inr, ◌⊎◌, if◌then◌else◌,
}
use vault_keeper.Prelude.Sort.{insert, sort_by, sort_by-first, Descending}
use vault_keeper.Custody.{Time}
use vault_keeper.Audit.Log.{
  AuthEvent, Entry, Error, begin_tx, lock_chain, last_hash_query, insert_row, commit_tx, Ext, Turn,
  no_faults, descending, first_hash, get_last_hash, entry_of, logged, log_auth_event, log_all,
}

-- Each entry, newest first, holds the hash of the one before it.
abbrev pub Linked : List Entry → Type 0
Linked [] = Unit
Linked (e ∷ es) = (e.previous_hash ≡ first_hash es) × Linked es

-- Transactions that begin one after another.
abbrev pub InOrder : Time → List (Turn × AuthEvent) → Type 0
InOrder start [] = Unit
InOrder start ((t, e) ∷ cs) = (start < t.began) × InOrder t.began cs

record Ordered (now : Time) (rows : List Entry) : Type 0 where
  recent : All (λ (e : Entry). e.created_at ≤ now) rows
  sorted : Descending descending true rows
  linked : Linked rows

-- Two entries of which the older stands in front.
sort_by-two :
    (a b : Entry) → a.created_at < b.created_at → sort_by descending (a ∷ b ∷ []) ≡ b ∷ a ∷ []
unfolding sort_by insert
sort_by-two a b h = ground arith

sort_by-three :
    (c a b : Entry)
    → a.created_at < b.created_at
    → b.created_at < c.created_at
    → sort_by descending (c ∷ a ∷ b ∷ []) ≡ c ∷ b ∷ a ∷ []
unfolding sort_by insert
sort_by-three c a b h k = ground arith

module _ (ext : Ext) where
  -- What a call may leave of the log: what it was, or one entry in front.
  abbrev Logged : Turn → AuthEvent → List Entry → Result Error (Unit {0}) × List Entry → Type 0
  Logged t e rows (r, after) =
      (after ≡ rows)
      ⊎ ((detail : String) × (after ≡ entry_of ext t e detail (get_last_hash rows) ∷ rows))

  either-Logged :
      (t : Turn) (e : AuthEvent) (rows : List Entry) (x : Error) (b : Bool)
      (q : Result Error (Unit {0}) × List Entry)
      → Logged t e rows q
      → Logged t e rows (if b then (err x, rows) else q)
  either-Logged t e rows x true q h = inl refl
  either-Logged t e rows x false q h = h

  logged-Logged :
      (t : Turn) (e : AuthEvent) (detail : Option String) (rows : List Entry)
      → Logged t e rows (logged ext t e detail rows)
  logged-Logged t e none rows = inl refl
  logged-Logged t e (some detail) rows = either-Logged t e rows begin_tx t.faults.begin_fails _ (
      either-Logged t e rows lock_chain t.faults.lock_fails _ (
        either-Logged t e rows last_hash_query t.faults.query_fails _ (
          either-Logged t e rows insert_row t.faults.exec_fails _
            (either-Logged t e rows commit_tx t.faults.commit_fails _ (inr (detail, refl))))))

  entry-Ordered :
      (t : Turn) (e : AuthEvent) (detail : String) (now : Time) (rows : List Entry)
      → now < t.began
      → Ordered now rows
      → Ordered t.began (entry_of ext t e detail (get_last_hash rows) ∷ rows)
  unfolding entry_of get_last_hash
  entry-Ordered t e detail now rows later h = record {
    recent = (omega arith, All-map (λ x p. omega (arith, p, later)) rows h.recent);
    sorted = (All-map (λ x p. ground (arith, p, later)) rows h.recent, h.sorted);
    linked = (ap first_hash (sort_by-first descending rows h.sorted), h.linked);
  }

  wait :
      (later now : Time) (rows : List Entry) → now < later → Ordered now rows → Ordered later rows
  wait later now rows l h = record {
    recent = All-map (λ x p. omega (arith, p, l)) rows h.recent;
    sorted = h.sorted;
    linked = h.linked;
  }

  log_all-Ordered :
      (cs : List (Turn × AuthEvent)) (now : Time) (rows : List Entry)
      → InOrder now cs
      → Ordered now rows
      → (last : Time) × Ordered last (log_all ext cs rows)
  unfolding log_all log_auth_event
  log_all-Ordered [] now rows i h = (now, h)
  log_all-Ordered ((t, e) ∷ cs) now rows i h =
      elim (logged-Logged t e (ext.marshal_json e.detail) rows) [
        | inl same ↦
            log_all-Ordered cs t.began _ i.1
              (subst (Ordered t.began) (sym same) (wait t.began now rows i.0 h))
        | inr (detail, new) ↦
            log_all-Ordered cs t.began _ i.1
              (subst (Ordered t.began) (sym new) (entry-Ordered t e detail now rows i.0 h))
      ]

  -- Where the transactions begin one after another, whatever fails in them, the log as it is read,
  -- newest first, has in each entry the hash of the entry before it, and in the first the empty text.
  pub log_all-Linked :
      (cs : List (Turn × AuthEvent)) (start : Time)
      → InOrder start cs
      → Linked (sort_by descending (log_all ext cs []))
  log_all-Linked cs start i =
      let (t, h) =
        log_all-Ordered cs start [] i (record { recent = tt; sorted = tt; linked = tt }) in
      rw (sort_by-first descending (log_all ext cs []) h.sorted) h.linked

  log_auth_event_ok :
      (t : Turn) (e : AuthEvent) (detail : String) (rows : List Entry)
      → t.faults ≡ no_faults
      → ext.marshal_json e.detail ≡ some detail
      → (log_auth_event ext t e rows).1 ≡ entry_of ext t e detail (get_last_hash rows) ∷ rows
  unfolding log_auth_event
  log_auth_event_ok t e detail rows f m = rw (m, log_auth_event) (rw f refl)

  -- The lock keeps the writers apart, and yet three of them fork the chain: where the transaction
  -- that began first takes the lock second, its entry and the third one hold the same hash, that of
  -- the entry of the second transaction.
  pub late_writer_forks :
      (ta tb tc : Turn) (ea eb ec : AuthEvent) (da db dc : String)
      → ta.began < tb.began
      → tb.began < tc.began
      → ta.faults ≡ no_faults
      → tb.faults ≡ no_faults
      → tc.faults ≡ no_faults
      → ext.marshal_json ea.detail ≡ some da
      → ext.marshal_json eb.detail ≡ some db
      → ext.marshal_json ec.detail ≡ some dc
      → sort_by descending (log_all ext ((tb, eb) ∷ (ta, ea) ∷ (tc, ec) ∷ []) [])
        ≡ entry_of ext tc ec dc (entry_of ext tb eb db "").hash_value
          ∷ entry_of ext tb eb db ""
          ∷ entry_of ext ta ea da (entry_of ext tb eb db "").hash_value
          ∷ []
  unfolding log_all get_last_hash entry_of sort_by insert
  late_writer_forks ta tb tc ea eb ec da db dc ab bc fa fb fc ma mb mc =
      let b = entry_of ext tb eb db "" in
      let a = entry_of ext ta ea da b.hash_value in
      let c = entry_of ext tc ec dc b.hash_value in
      let after_a = λ (rows : List Entry). (log_auth_event ext ta ea rows).1 in
      let after_c = λ (rows : List Entry). (log_auth_event ext tc ec rows).1 in
      ap (λ rows. sort_by descending (after_c (after_a rows))) (log_auth_event_ok tb eb db [] fb mb)
      ∙ ap (λ rows. sort_by descending (after_c rows)) (log_auth_event_ok ta ea da (b ∷ []) fa ma)
      ∙ ap (sort_by descending) (log_auth_event_ok tc ec dc (a ∷ b ∷ []) fc mc)
      ∙ ap (λ es. sort_by descending (entry_of ext tc ec dc (first_hash es) ∷ a ∷ b ∷ []))
          (sort_by-two a b ab)
      ∙ sort_by-three c a b ab bc
