-- ===== src/Custody/Breaks.antt =====
-- Where an entry that the recorder itself writes leaves a chain that does not verify.
use mathlib.Core.List.{reverse, reverse-cons}
use vault_keeper.Prelude.{
  ◌<◌, String, ◌≡◌, ◌≢◌, refl, ap, sym, ◌∙◌, true, false, List, [], ◌∷◌, ◌++◌, arith, filter, All,
  Bool-cases, inl, inr, nat_beq_iff,
}
use vault_keeper.Prelude.Sort.{insert, sort_by, All-reverse}
use vault_keeper.Custody.{Ext, Event, Uuid, Time}
use vault_keeper.Custody.Verify.{IsChain, verify_events, verify_events_iff}
use vault_keeper.Custody.Log.{
  ascending, of_case, list_all_by_case, last_hash, first_hash, insert as insert_row, no_faults,
  sealed, actor_refused,
}
use vault_keeper.Custody.Append.{NewestFirst, list_all_by_case-reverse, last_hash-first, added}

module _ (ext : Ext) where
  open ext use {sha256_hex, rfc3339_nano, column_time}

  not-valid :
      (at : Time) (events : List Event)
      → ¬ IsChain ext "" events
      → (verify_events ext at events).valid ≡ false
  not-valid at events h = elim (Bool-cases (verify_events ext at events).valid) [
    | inl v ↦ absurd (h ((verify_events_iff ext at events).0 v))
    | inr v ↦ v
  ]

  -- An entry in front of one that names another predecessor.
  late_entry :
      (p h : String) (e l : Event) (xs : List Event)
      → ascending e l ≡ true
      → e.previous_hash ≡ h
      → p ≢ h
      → All (λ x. x.hash_value ≢ h) xs
      → ¬ IsChain ext p (insert ascending e (xs ++ l ∷ []))
  unfolding insert
  late_entry p h e l [] a q n d c = let c' = rw a at c in n (sym c'.0.linked ∙ q)
  late_entry p h e l (x ∷ xs) a q n d c = elim (Bool-cases (ascending e x)) [
    | inl y ↦ let c' = rw y at c in n (sym c'.0.linked ∙ q)
    | inr y ↦ let c' = rw y at c in late_entry x.hash_value h e l xs a q d.0 d.1 c'.1
  ]

  -- After a successful insert the case is read with the new entry sorted in.
  list_after_insert :
      (fresh : Uuid) (e : Event) (rows : List Event)
      → actor_refused ext e ≡ false
      → list_all_by_case e.case_id (insert_row ext no_faults fresh e rows).1
        ≡ insert ascending (added ext fresh e rows) (list_all_by_case e.case_id rows)
  unfolding insert_row list_all_by_case sort_by sealed
  list_after_insert fresh e rows k = rw (k, (nat_beq_iff e.case_id e.case_id).1 refl)

  sealed-previous_hash :
      (fresh : Uuid) (p : String) (e : Event) → (sealed ext fresh p e).previous_hash ≡ p
  unfolding sealed
  sealed-previous_hash fresh p e = refl

  sealed-timestamp :
      (fresh : Uuid) (p : String) (e : Event) → (sealed ext fresh p e).timestamp ≡ e.timestamp
  unfolding sealed
  sealed-timestamp fresh p e = refl

  earlier_ascending : (a b : Event) → a.timestamp < b.timestamp → ascending a b ≡ true
  unfolding ascending
  earlier_ascending a b h = ground arith

  -- In a table whose rows have strictly falling times, an entry that is inserted without a fault, by
  -- an actor that the column takes, and whose time lies before that of the newest entry of its case,
  -- leaves a chain that does not verify, where the newest hash is not empty and no other entry's of
  -- the case.
  pub late_insert_breaks :
      (fresh : Uuid) (e l : Event) (rest rows : List Event) (at : Time)
      → actor_refused ext e ≡ false
      → NewestFirst rows
      → filter (of_case e.case_id) rows ≡ l ∷ rest
      → column_time e.timestamp < l.timestamp
      → "" ≢ l.hash_value
      → All (λ x. x.hash_value ≢ l.hash_value) rest
      → (verify_events ext at
          (list_all_by_case e.case_id (insert_row ext no_faults fresh e rows).1)).valid
        ≡ false
  late_insert_breaks fresh e l rest rows at k o f t n d =
      let a = added ext fresh e rows in
      let early : a.timestamp < l.timestamp =
        rw (sealed-timestamp fresh (last_hash e.case_id rows) e) t in
      let names : a.previous_hash ≡ l.hash_value =
        sealed-previous_hash fresh (last_hash e.case_id rows) e
        ∙ last_hash-first e.case_id rows o
        ∙ ap first_hash f in
      let read : list_all_by_case e.case_id rows ≡ reverse rest ++ l ∷ [] =
        list_all_by_case-reverse e.case_id rows o ∙ ap reverse f ∙ reverse-cons l rest in
      not-valid at _ (
        rw (list_after_insert fresh e rows k, read)
          (late_entry "" l.hash_value a l (reverse rest) (earlier_ascending a l early) names n
            (All-reverse _ rest d)))
