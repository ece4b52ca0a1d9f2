-- ===== src/Evidence/Destruction.antt =====
-- `Destroy` of service.go: its guards, and what it leaves.
use vault_keeper.Prelude.{
  String, ◌≡◌, refl, ◌⊎◌, true, false, List, [], ◌∷◌, Option, none, some, ok, arith, ◌==◌, nat_eq,
  string_eq, eq_iff, is_ok, update_where,
}
use vault_keeper.Prelude.Table.{row}
use vault_keeper.Custody.{Time}
use vault_keeper.Evidence.Model.{Bytes, EvidenceItem, DestroyInput}
use vault_keeper.Evidence.Repository.{
  CaseRow, item_row, find_by_id, get_status, get_legal_hold, mark_destroyed, alive, destroyed,
}
use vault_keeper.Evidence.Store.{
  Store, Faults, object, without, delete_object, record_custody_event,
}
use vault_keeper.Evidence.Service.{Ext, destroy, delete_thumbnail, clear_files, deref}

-- A live item whose case is archived or under legal hold is not destroyed: the call fails and changes
-- nothing, whatever else fails.
destroy_guarded :
    (ext : Ext) (f : Faults) (now : Time) (i : DestroyInput) (s : Store) (e : EvidenceItem)
    (c : CaseRow)
    → item_row i.evidence_id s.items ≡ some e
    → e.destroyed_at ≡ none
    → row (λ c. c.id) e.case_id s.cases ≡ some c
    → (c.status ≡ "archived") ⊎ (c.legal_hold ≡ true)
    → ((destroy ext f now i s).1 ≡ s) × (is_ok (destroy ext f now i s).0 ≡ false)
unfolding destroy find_by_id get_status get_legal_hold
destroy_guarded ext f now i s e c a b d h = ground (arith, eq_iff c.status "archived")

-- The storage after a delete.
object-without_self :
    (key : String) (os : List (String × Bytes)) → object key (without key os) ≡ none
object-without_self key [] = refl
object-without_self key (o ∷ os) = ground (arith, object-without_self key os)

object-without-none :
    (k key : String) (os : List (String × Bytes))
    → object k os ≡ none
    → object k (without key os) ≡ none
object-without-none k key [] h = refl
object-without-none k key (o ∷ os) h = ground (arith, object-without-none k key os)

delete_thumbnail-keeps :
    (f : Faults) (thumb : Option String) (key : String) (s : Store)
    → let (r, t) = delete_thumbnail f thumb s in
      (r ≡ ok tt)
      × (t.items ≡ s.items)
      × (object key s.objects ≡ none → object key t.objects ≡ none)
unfolding delete_thumbnail delete_object
delete_thumbnail-keeps f none key s = (refl, refl, λ h. h)
delete_thumbnail-keeps f (some thumb) key s =
    ground (arith, object-without-none key thumb s.objects)

pub clear_files-keeps :
    (f : Faults) (i : DestroyInput) (e : EvidenceItem) (s : Store)
    → let (r, t) = clear_files f i e s in
      (r ≡ ok tt)
      × (t.items ≡ s.items)
      × (f.delete_fails ≡ false → object (deref e.storage_key) t.objects ≡ none)
unfolding clear_files delete_object record_custody_event
clear_files-keeps f i e s =
    let key = deref e.storage_key in
    let s₁ = (delete_object f.delete_fails key s).1 in
    ground
      (arith, delete_thumbnail-keeps f e.thumbnail_key key s₁, object-without_self key s.objects)

-- A call on a live item that succeeds found its case open to it, and a reason given; it marks the
-- live rows of that id and no other.
destroy_ok :
    (ext : Ext) (f : Faults) (now : Time) (i : DestroyInput) (s : Store) (e : EvidenceItem)
    → item_row i.evidence_id s.items ≡ some e
    → e.destroyed_at ≡ none
    → (destroy ext f now i s).0 ≡ ok tt
    → let t = (destroy ext f now i s).1 in
      (get_legal_hold f.hold_fails e.case_id s.cases ≡ ok false)
      × ((ext.trim_space i.reason == "") ≡ false)
      × (t.items ≡ update_where (alive i.evidence_id) (destroyed now i.reason i.actor_id) s.items)
unfolding destroy find_by_id mark_destroyed
destroy_ok ext f now i s e a b h =
    let s₁ = record s {
      items = update_where (alive i.evidence_id) (destroyed now i.reason i.actor_id) s.items;
    } in
    ground (arith, clear_files-keeps f i e s₁)

-- A call on a live item that succeeds, over a storage that deletes, leaves no file at the item's key.
destroy-without :
    (ext : Ext) (f : Faults) (now : Time) (i : DestroyInput) (s : Store) (e : EvidenceItem)
    → item_row i.evidence_id s.items ≡ some e
    → e.destroyed_at ≡ none
    → (destroy ext f now i s).0 ≡ ok tt
    → f.delete_fails ≡ false
    → object (deref e.storage_key) (destroy ext f now i s).1.objects ≡ none
unfolding destroy find_by_id mark_destroyed
destroy-without ext f now i s e a b h d =
    let s₁ = record s {
      items = update_where (alive i.evidence_id) (destroyed now i.reason i.actor_id) s.items;
    } in
    ground (arith, clear_files-keeps f i e s₁)
