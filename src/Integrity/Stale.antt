-- ===== src/Integrity/Stale.antt =====
-- Which items the retry can reach: the query leaves out what is older than 24 hours.
use vault_keeper.Prelude.{
  ◌+◌, String, ◌≡◌, refl, ◌∙◌, inl, inr, Bool, true, false, List, [], ◌∷◌, Option, none, some, ok,
  arith, ◌==◌, nat_eq, string_eq, ltb, All, All-take, All-filter, Bool-cases, Option-cases,
  Result-cases,
}
use vault_keeper.Prelude.Sort.{All-sort_by}
use vault_keeper.Prelude.Table.{set_row, row-set_row}
use vault_keeper.Custody.{Uuid, Time}
use vault_keeper.Evidence.Model.{Bytes, EvidenceItem}
use vault_keeper.Evidence.Repository.{
  item_row, find_pending_tsa, update_tsa_result, increment_tsa_retry, mark_tsa_failed, day,
  by_creation,
}
use vault_keeper.Evidence.Store.{Store, record_custody_event}
use vault_keeper.Integrity.Hex.{hex_to_bytes}
use vault_keeper.Integrity.Retry.{
  Ext, Turn, LockReply, lock_failed, not_acquired, acquired, store_token, issue_token, retry_item,
  retry_items, run_once,
}

-- The update of one row leaves the row of another id.
other :
    (i j : Uuid) (f : EvidenceItem → EvidenceItem) (items : List EvidenceItem)
    → ((e : EvidenceItem) → (f e).id ≡ e.id)
    → (i == j) ≡ false
    → item_row j (set_row (λ e. e.id) i f items) ≡ item_row j items
other i j f items k h = rw (row-set_row (λ e. e.id) i j f items k, h) refl

module _ (i j : Uuid) (h : (i == j) ≡ false) (items : List EvidenceItem) where
  mark-other : (fails : Bool) → item_row j (mark_tsa_failed fails i items).1 ≡ item_row j items
  unfolding mark_tsa_failed
  mark-other true = refl
  mark-other false = other i j _ items (λ e. refl) h

  increment-other :
      (fails : Bool) (now : Time)
      → item_row j (increment_tsa_retry fails now i items).1 ≡ item_row j items
  unfolding increment_tsa_retry
  increment-other true now = refl
  increment-other false now = other i j _ items (λ e. refl) h

  result-other :
      (fails : Bool) (token : Option Bytes) (name : String) (time : Time)
      → item_row j (update_tsa_result fails i token name time items).1 ≡ item_row j items
  unfolding update_tsa_result
  result-other true token name time = refl
  result-other false token name time = other i j _ items (λ e. refl) h

module _ (ext : Ext) (turn : Turn) (item : EvidenceItem) (j : Uuid) (s : Store) where
  issue_token-other :
      (digest : Bytes)
      → (item.id == j) ≡ false
      → item_row j (issue_token ext turn item digest s).1.items ≡ item_row j s.items
  unfolding issue_token store_token record_custody_event
  issue_token-other digest h = elim (Option-cases (turn.issue digest)) [
    | inl n ↦
        ground (arith, n, increment-other item.id j h s.items turn.faults.write_fails turn.now)
    | inr ((token, name, time), y) ↦
        ground (arith, y, result-other item.id j h s.items turn.faults.write_fails token name time)
  ]

  retry_item-other :
      (item.id == j) ≡ false → item_row j (retry_item ext turn item s).1.items ≡ item_row j s.items
  unfolding retry_item record_custody_event
  retry_item-other h = elim (Result-cases (hex_to_bytes (ext.bytes item.sha256_hash))) [
    | inl (digest, y) ↦ ground (
      arith,
      y,
      mark-other item.id j h s.items turn.faults.mark_fails,
      issue_token-other digest h,
    )
    | inr (_, n) ↦ ground (arith, n, mark-other item.id j h s.items turn.faults.mark_fails)
  ]

retry_items-other :
    (ext : Ext) (turns : Uuid → Turn) (items : List EvidenceItem) (j : Uuid) (s : Store)
    → All (λ item. (item.id == j) ≡ false) items
    → item_row j (retry_items ext turns items s).items ≡ item_row j s.items
unfolding retry_items retry_item
retry_items-other ext turns [] j s h = refl
retry_items-other ext turns (item ∷ items) j s h =
    let s₁ = (retry_item ext (turns item.id) item s).1 in
    let rest = retry_items-other ext turns items j s₁ h.1 in
    let here = retry_item-other ext (turns item.id) item j s h.0 in
    elim (Bool-cases (turns item.id).cancelled) [ inl y ↦ rw y refl | inr n ↦ rw n (rest ∙ here) ]

-- Where every item of an id was created 24 hours before the query or earlier, a run of the retry
-- leaves the row of that id as it is.
run_once-stale :
    (ext : Ext) (lock : LockReply) (find_fails : Bool) (now : Time) (turns : Uuid → Turn) (j : Uuid)
    (s : Store)
    → All (λ e. (e.id == j) ≡ true → ltb now (e.created_at + day) ≡ false) s.items
    → item_row j (run_once ext lock find_fails now turns s).items ≡ item_row j s.items
unfolding run_once find_pending_tsa
run_once-stale ext lock_failed find_fails now turns j s h = refl
run_once-stale ext not_acquired find_fails now turns j s h = refl
run_once-stale ext acquired true now turns j s h = refl
run_once-stale ext acquired false now turns j s h = retry_items-other ext turns _ j s (
    All-take _ 50 _ (
      All-sort_by _ by_creation _ (
        All-filter _ s.items
          (λ e old chosen. elim (Bool-cases (e.id == j)) [
            | inl y ↦ absurd (ground (arith, old y))
            | inr n ↦ n
          ])
          h)))

-- The disabled authority answers with no token and no error. An item of the table that is in time
-- and has decodable digits, and whose turn of the retry gets that answer, is marked as stamped without
-- a token, if the row can be written.
retry_item_disabled :
    (ext : Ext) (turn : Turn) (item : EvidenceItem) (s : Store) (digest : Bytes)
    → item_row item.id s.items ≡ some item
    → ltb (item.created_at + day) turn.now ≡ false
    → hex_to_bytes (ext.bytes item.sha256_hash) ≡ ok digest
    → turn.issue digest ≡ some (none, "", 0)
    → turn.faults.write_fails ≡ false
    → item_row item.id (retry_item ext turn item s).1.items
      ≡ some (record item {
        tsa_token = none;
        tsa_name = some "";
        tsa_timestamp = some 0;
        tsa_status = "stamped";
      })
unfolding retry_item issue_token store_token update_tsa_result record_custody_event
retry_item_disabled ext turn item s digest r t d a w =
    let stamped = λ (e : EvidenceItem). record e {
      tsa_token = none;
      tsa_name = some "";
      tsa_timestamp = some 0;
      tsa_status = "stamped";
    } in
    ground (arith, row-set_row (λ e. e.id) item.id item.id stamped s.items (λ e. refl))
