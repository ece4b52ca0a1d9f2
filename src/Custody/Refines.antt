-- ===== src/Custody/Refines.antt =====
-- The table and its reads as an append-only log of each case.
use mathlib.Core.List.{reverse, reverse-cons, append_assoc, append-nil, map-append}
use vault_keeper.Prelude.{
  String, ◌≡◌, ap, sym, ◌∙◌, Bool, true, false, ◌||◌, List, [], ◌∷◌, ◌++◌, arith, nat_eq, filter,
  map, Bool-cases, inl, inr, if◌then◌else◌,
}
use vault_keeper.Custody.{Ext, Event, Uuid, Time}
use vault_keeper.Custody.Log.{
  Faults, of_case, list_all_by_case, insert, Request, record_all, sealed, actor_refused,
}
use vault_keeper.Custody.Append.{
  InTime, Exact, added, record_all-IsIntact, list_all_by_case-reverse,
}

-- What an entry says, without its id and its hashes.
pub record Fact : Type 0 where
  pub case_id : Uuid
  pub evidence_id : Uuid
  pub action : String
  pub actor_user_id : String
  pub detail : String
  pub timestamp : Time

abbrev pub fact : Event → Fact
fact e = record {
  case_id = e.case_id;
  evidence_id = e.evidence_id;
  action = e.action;
  actor_user_id = e.actor_user_id;
  detail = e.detail;
  timestamp = e.timestamp;
}

-- Whether the database takes every statement of a call.
abbrev pub refused : Faults → Bool
refused f = f.begin_fails || (f.lock_fails || (f.query_fails || (f.exec_fails || f.commit_fails)))

module _ (ext : Ext) where
  -- The log of a case: what was asked for it and not refused, in the order of the calls.
  abbrev pub log_of : Uuid → List (Request ext) → List Fact
  log_of c [] = []
  log_of c (r ∷ rs) =
      let rest = log_of c rs in
      if refused r.faults || actor_refused ext r.event
      then rest
      else if of_case c r.event
      then fact r.event ∷ rest
      else rest

  -- What the table says of a case.
  abbrev facts : Uuid → List Event → List Fact
  facts c rows = map fact (reverse (filter (of_case c) rows))

  insert-refused :
      (f : Faults) (fresh : Uuid) (e : Event) (rows : List Event)
      → (refused f || actor_refused ext e) ≡ true
      → (insert ext f fresh e rows).1 ≡ rows
  unfolding insert
  insert-refused f fresh e rows h = ground arith

  insert_taken :
      (f : Faults) (fresh : Uuid) (e : Event) (rows : List Event)
      → (refused f || actor_refused ext e) ≡ false
      → (insert ext f fresh e rows).1 ≡ added ext fresh e rows ∷ rows
  unfolding insert
  insert_taken f fresh e rows h = ground arith

  fact-added :
      (fresh : Uuid) (e : Event) (rows : List Event)
      → Exact ext e
      → fact (added ext fresh e rows) ≡ fact e
  unfolding sealed
  fact-added fresh e rows h =
      ap (λ t. record (fact (added ext fresh e rows)) { timestamp = t }) h.0
      ∙ ap (λ a. record (fact e) { actor_user_id = a }) h.1

  facts-added :
      (c fresh : Uuid) (e : Event) (rows : List Event)
      → Exact ext e
      → facts c (added ext fresh e rows ∷ rows)
        ≡ facts c rows ++ (if of_case c e then fact e ∷ [] else [])
  unfolding sealed
  facts-added c fresh e rows h = elim (Bool-cases (of_case c e)) [
    | inl y ↦
        let old = reverse (filter (of_case c) rows) in
        rw (y, reverse-cons (added ext fresh e rows) (filter (of_case c) rows))
          (map-append fact old (added ext fresh e rows ∷ [])
            ∙ ap (λ f. map fact old ++ f ∷ []) (fact-added fresh e rows h))
    | inr n ↦ rw n (sym (append-nil (facts c rows)))
  ]

  log_of-refused :
      (c : Uuid) (r : Request ext) (rs : List (Request ext))
      → (refused r.faults || actor_refused ext r.event) ≡ true
      → log_of c (r ∷ rs) ≡ log_of c rs
  log_of-refused c r rs h = rw h

  log_of-taken :
      (c : Uuid) (r : Request ext) (rs : List (Request ext))
      → (refused r.faults || actor_refused ext r.event) ≡ false
      → log_of c (r ∷ rs) ≡ (if of_case c r.event then fact r.event ∷ [] else []) ++ log_of c rs
  log_of-taken c r rs h = elim (Bool-cases (of_case c r.event)) [
    | inl y ↦ rw (h, y)
    | inr n ↦ rw (h, n)
  ]

  facts-record_all :
      (c : Uuid) (rs : List (Request ext)) (now : Time) (rows : List Event)
      → InTime ext now rs
      → facts c (record_all ext rs rows) ≡ facts c rows ++ log_of c rs
  unfolding record_all
  facts-record_all c [] now rows i = sym (append-nil (facts c rows))
  facts-record_all c (r ∷ rs) now rows i =
      let rest =
        facts-record_all c rs r.event.timestamp (insert ext r.faults r.fresh r.event rows).1 i.2 in
      elim (Bool-cases (refused r.faults || actor_refused ext r.event)) [
        | inl y ↦
            rest
            ∙ ap (λ t. facts c t ++ log_of c rs) (insert-refused r.faults r.fresh r.event rows y)
            ∙ ap (λ l. facts c rows ++ l) (sym (log_of-refused c r rs y))
        | inr n ↦
            rest
            ∙ ap (λ t. facts c t ++ log_of c rs) (insert_taken r.faults r.fresh r.event rows n)
            ∙ ap (λ l. l ++ log_of c rs) (facts-added c r.fresh r.event rows i.1)
            ∙ append_assoc (facts c rows) _ (log_of c rs)
            ∙ ap (λ l. facts c rows ++ l) (sym (log_of-taken c r rs n))
      ]

  -- After any calls of the recorder at strictly growing times that the timestamp column keeps
  -- exactly, by actors that the actor column refuses or keeps exactly, some of which may be refused,
  -- the entries that the table gives for a case say, in their order, what the calls for the case that
  -- were not refused asked to record, no more and no less.
  pub list_all_by_case-log :
      (c : Uuid) (rs : List (Request ext)) (now : Time)
      → InTime ext now rs
      → map fact (list_all_by_case c (record_all ext rs [])) ≡ log_of c rs
  list_all_by_case-log c rs now i =
      let (t, intact) =
        record_all-IsIntact ext rs now [] i
          (record { recent = tt; ordered = tt; chained = λ d. tt }) in
      ap (map fact) (list_all_by_case-reverse c (record_all ext rs []) intact.ordered)
      ∙ facts-record_all c rs now [] i
