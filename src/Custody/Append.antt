-- ===== src/Custody/Append.antt =====
-- What `Insert` keeps: while entries arrive in the order of their times, and the column keeps those
-- times exactly, every case's chain verifies, whatever fails on the way.
use mathlib.Core.List.{reverse, reverse-cons}
use mathlib.Core.Option.{get_or}
use vault_keeper.Prelude.{
  ◌≤◌, ◌<◌, String, ◌≡◌, refl, ap, sym, ◌∙◌, subst, nat_beq_iff, Bool, true, false, List, [], ◌∷◌,
  ◌++◌, arith, nat_eq, filter, All, All-map, Bool-cases, inl, inr, is_ok, ok, ◌⊎◌,
}
use vault_keeper.Prelude.Sort.{sort_by-first, sort_by-last, Descending}
use vault_keeper.Custody.{Ext, Event, ChainVerification, Uuid, Time}
use vault_keeper.Custody.Hash.{compute_log_hash, entry_text}
use vault_keeper.Custody.Verify.{IsLinked, IsChain, verify_events, verify_events_iff}
use vault_keeper.Custody.Log.{
  Faults, ascending, descending, of_case, list_all_by_case, verify_case_chain, last_hash,
  first_hash, sealed, read_back, insert, Request, record_all,
}

-- Every entry is later than those behind it in the table.
abbrev pub NewestFirst : List Event → Type 0
NewestFirst [] = Unit
NewestFirst (e ∷ es) = All (λ x. x.timestamp < e.timestamp) es × NewestFirst es

All-filter {ℓ κ} :
    {A : Type ℓ} (P : A → Type κ) (p : A → Bool) (xs : List A) → All P xs → All P (filter p xs)
All-filter P p [] h = h
All-filter P p (x ∷ xs) h = elim (Bool-cases (p x)) [
  | inl y ↦ rw y (h.0, All-filter P p xs h.1)
  | inr n ↦ rw n (All-filter P p xs h.1)
]

pub NewestFirst-filter :
    (p : Event → Bool) (es : List Event) → NewestFirst es → NewestFirst (filter p es)
NewestFirst-filter p [] h = h
NewestFirst-filter p (e ∷ es) h = elim (Bool-cases (p e)) [
  | inl y ↦ rw y (All-filter _ p es h.0, NewestFirst-filter p es h.1)
  | inr n ↦ rw n (NewestFirst-filter p es h.1)
]

later_descending : (e x : Event) → x.timestamp < e.timestamp → descending e x ≡ true
unfolding descending
later_descending e x h = ground arith

later_ascending : (e x : Event) → x.timestamp < e.timestamp → ascending e x ≡ false
unfolding ascending
later_ascending e x h = ground arith

NewestFirst-descending : (es : List Event) → NewestFirst es → Descending descending true es
NewestFirst-descending [] h = tt
NewestFirst-descending (e ∷ es) h =
    (All-map (later_descending e) es h.0, NewestFirst-descending es h.1)

NewestFirst-ascending : (es : List Event) → NewestFirst es → Descending ascending false es
NewestFirst-ascending [] h = tt
NewestFirst-ascending (e ∷ es) h =
    (All-map (later_ascending e) es h.0, NewestFirst-ascending es h.1)

-- On such a table `ListAllByCase` reads the case's rows backwards.
pub list_all_by_case-reverse :
    (c : Uuid) (rows : List Event)
    → NewestFirst rows
    → list_all_by_case c rows ≡ reverse (filter (of_case c) rows)
unfolding list_all_by_case
list_all_by_case-reverse c rows h =
    sort_by-last ascending _ (NewestFirst-ascending _ (NewestFirst-filter (of_case c) rows h))

pub last_hash-first :
    (c : Uuid) (rows : List Event)
    → NewestFirst rows
    → last_hash c rows ≡ first_hash (filter (of_case c) rows)
unfolding last_hash
last_hash-first c rows h =
    ap first_hash (
      sort_by-first descending _ (NewestFirst-descending _ (NewestFirst-filter (of_case c) rows h)))

-- The hash that the entry after `es` is linked to.
abbrev pub end_hash : String → List Event → String
end_hash p [] = p
end_hash p (e ∷ es) = end_hash e.hash_value es

pub end_hash-snoc :
    (p : String) (es : List Event) (e : Event) → end_hash p (es ++ e ∷ []) ≡ e.hash_value
end_hash-snoc p [] e = refl
end_hash-snoc p (x ∷ es) e = end_hash-snoc x.hash_value es e

pub end_hash-reverse : (es : List Event) → end_hash "" (reverse es) ≡ first_hash es
end_hash-reverse [] = refl
end_hash-reverse (e ∷ es) = rw (reverse-cons e es) (end_hash-snoc "" (reverse es) e)

module _ (ext : Ext) where
  open ext use {column_time, actor_column}

  -- The columns give back the time, and the actor where they take it, as they were written.
  abbrev pub Exact : Event → Type 0
  Exact e =
      (column_time e.timestamp ≡ e.timestamp)
      × (get_or (actor_column e.actor_user_id) e.actor_user_id ≡ e.actor_user_id)

  pub IsChain-snoc :
      (p : String) (es : List Event) (e : Event)
      → IsChain ext p es
      → IsLinked ext (end_hash p es) e
      → IsChain ext p (es ++ e ∷ [])
  IsChain-snoc p [] e h l = (l, tt)
  IsChain-snoc p (x ∷ es) e h l = (h.0, IsChain-snoc x.hash_value es e h.1 l)

  pub IsChain-unsnoc :
      (p : String) (es : List Event) (e : Event)
      → IsChain ext p (es ++ e ∷ [])
      → IsChain ext p es × IsLinked ext (end_hash p es) e
  IsChain-unsnoc p [] e h = (tt, h.0)
  IsChain-unsnoc p (x ∷ es) e h = let (c, l) = IsChain-unsnoc x.hash_value es e h.1 in ((h.0, c), l)

  -- A row that the columns keep as it was hashed.
  sealed-IsLinked :
      (fresh : Uuid) (p : String) (e : Event)
      → Exact e
      → IsLinked ext p (read_back ext (sealed ext fresh p e))
  unfolding sealed compute_log_hash entry_text
  sealed-IsLinked fresh p e h = rw h.0 (rw h.1 (record { hashed = refl; linked = refl }))

  -- The table is in the order of its times, none after `now`, and each case's chain is linked.
  pub record IsIntact (now : Time) (rows : List Event) : Type 0 where
    pub recent : All (λ x. x.timestamp ≤ now) rows
    pub ordered : NewestFirst rows
    pub chained : (c : Uuid) → IsChain ext "" (reverse (filter (of_case c) rows))

  added-IsChain :
      (x : Event) (now : Time) (rows : List Event)
      → IsIntact now rows
      → IsLinked ext (last_hash x.case_id rows) x
      → (c : Uuid) → IsChain ext "" (reverse (filter (of_case c) (x ∷ rows)))
  added-IsChain x now rows h l c = elim (Bool-cases (of_case c x)) [
    | inl y ↦ rw y (
        rw (reverse-cons x (filter (of_case c) rows))
          (IsChain-snoc "" _ x (h.chained c) (subst (λ p. IsLinked ext p x) (end_at y) l)))
    | inr n ↦ rw n (h.chained c)
  ]
    where
      end_at :
          of_case c x ≡ true
          → last_hash x.case_id rows ≡ end_hash "" (reverse (filter (of_case c) rows))
      end_at y =
          ap (λ d. last_hash d rows) ((nat_beq_iff x.case_id c).0 y)
          ∙ last_hash-first c rows h.ordered
          ∙ sym (end_hash-reverse (filter (of_case c) rows))

  -- The entry that a successful `Insert` leaves in the table.
  abbrev pub added : Uuid → Event → List Event → Event
  added fresh e rows = read_back ext (sealed ext fresh (last_hash e.case_id rows) e)

  -- `Insert` is atomic: it fails and leaves the table alone, or succeeds and adds one entry.
  insert_atomic :
      (f : Faults) (fresh : Uuid) (e : Event) (rows : List Event)
      → ((is_ok (insert ext f fresh e rows).0 ≡ false) × ((insert ext f fresh e rows).1 ≡ rows))
        ⊎ (insert ext f fresh e rows ≡ (ok tt, added fresh e rows ∷ rows))
  unfolding insert
  insert_atomic f fresh e rows = ground arith

  sealed-timestamp :
      (fresh : Uuid) (p : String) (e : Event) → (sealed ext fresh p e).timestamp ≡ e.timestamp
  unfolding sealed
  sealed-timestamp fresh p e = refl

  added-IsLinked :
      (fresh : Uuid) (e : Event) (rows : List Event)
      → Exact e
      → IsLinked ext (last_hash (added fresh e rows).case_id rows) (added fresh e rows)
  unfolding sealed
  added-IsLinked fresh e rows k = sealed-IsLinked fresh (last_hash e.case_id rows) e k

  added-IsIntact :
      (fresh : Uuid) (e : Event) (now : Time) (rows : List Event)
      → now < e.timestamp
      → Exact e
      → IsIntact now rows
      → IsIntact e.timestamp (added fresh e rows ∷ rows)
  added-IsIntact fresh e now rows t k h = record {
    recent =
        (omega (arith, stamped), All-map (λ x (p : x.timestamp ≤ now). omega arith) rows h.recent);
    ordered =
        (All-map (λ x (p : x.timestamp ≤ now). omega (arith, stamped)) rows h.recent, h.ordered);
    chained = added-IsChain (added fresh e rows) now rows h (added-IsLinked fresh e rows k);
  }
    where
      stamped : (added fresh e rows).timestamp ≡ e.timestamp
      stamped = ap column_time (sealed-timestamp fresh (last_hash e.case_id rows) e) ∙ k.0

  later-IsIntact :
      (now t : Time) (rows : List Event) → now ≤ t → IsIntact now rows → IsIntact t rows
  later-IsIntact now t rows l h = record {
    recent = All-map (λ x (p : x.timestamp ≤ now). omega arith) rows h.recent;
    ordered = h.ordered;
    chained = h.chained;
  }

  -- A call at a later time keeps the table intact, whether it succeeds or fails.
  pub insert-IsIntact :
      (f : Faults) (fresh : Uuid) (e : Event) (now : Time) (rows : List Event)
      → now < e.timestamp
      → Exact e
      → IsIntact now rows
      → IsIntact e.timestamp (insert ext f fresh e rows).1
  insert-IsIntact f fresh e now rows t k h = elim (insert_atomic f fresh e rows) [
    | inl kept ↦ rw kept.1 (later-IsIntact now e.timestamp rows (omega arith) h)
    | inr done ↦ rw done (added-IsIntact fresh e now rows t k h)
  ]

  -- The times of the calls grow strictly, and the columns keep each of them and its actor exactly.
  abbrev pub InTime : Time → List (Request ext) → Type 0
  InTime now [] = Unit
  InTime now (r ∷ rs) = (now < r.event.timestamp) × Exact r.event × InTime r.event.timestamp rs

  pub record_all-IsIntact :
      (rs : List (Request ext)) (now : Time) (rows : List Event)
      → InTime now rs
      → IsIntact now rows
      → (t : Time) × IsIntact t (record_all ext rs rows)
  unfolding record_all
  record_all-IsIntact [] now rows i h = (now, h)
  record_all-IsIntact (r ∷ rs) now rows i h =
      record_all-IsIntact rs r.event.timestamp _ i.2
        (insert-IsIntact r.faults r.fresh r.event now rows i.0 i.1 h)

  IsIntact-valid :
      (t : Time) (rows : List Event) (at : Time) (c : Uuid)
      → IsIntact t rows
      → (verify_events ext at (list_all_by_case c rows)).valid ≡ true
  IsIntact-valid t rows at c h =
      (verify_events_iff ext at (list_all_by_case c rows)).1
        (rw (list_all_by_case-reverse c rows h.ordered) (h.chained c))

  -- After any calls of the recorder at strictly growing times that the timestamp column keeps
  -- exactly, by actors that the actor column refuses or keeps exactly, some of which may fail, the
  -- chain of every case verifies.
  pub record_all-valid :
      (rs : List (Request ext)) (now at : Time) (c : Uuid)
      → InTime now rs
      → (v : ChainVerification) × (verify_case_chain ext false at c (record_all ext rs []) ≡ ok v)
        × (v.valid ≡ true)
  unfolding verify_case_chain
  record_all-valid rs now at c i =
      let (t, h) =
        record_all-IsIntact rs now [] i (record { recent = tt; ordered = tt; chained = λ d. tt }) in
      (
        verify_events ext at (list_all_by_case c (record_all ext rs [])),
        refl,
        IsIntact-valid t _ at c h,
      )
