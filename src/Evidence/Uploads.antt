-- ===== src/Evidence/Uploads.antt =====
-- What an upload leaves behind, on success and on every error.
use vault_keeper.Prelude.{
  ◌+◌, Result-cases, String, ◌≡◌, refl, ◌⊎◌, inl, inr, Bool, true, false, List, [], ◌∷◌, none, some,
  ok, err, arith, ◌==◌, nat_eq, string_eq, eq_iff, length, is_ok, any,
}
use vault_keeper.Prelude.Table.{set_row}
use vault_keeper.Custody.{Uuid, Time}
use vault_keeper.Evidence.Model.{
  Bytes, EvidenceItem, CreateEvidenceInput, UploadInput, valid_classification,
}
use vault_keeper.Evidence.Repository.{
  CaseRow, failed, create, new_item, get_reference_code, increment_evidence_counter,
}
use vault_keeper.Evidence.Store.{
  Store, Faults, put_object, delete_object, object, without, record_custody_event, index_evidence,
}
use vault_keeper.Evidence.Service.{Ext, TsaReply, create_input, store_upload, file_upload}

object-without :
    (k key : String) (os : List (String × Bytes))
    → (k == key) ≡ false
    → object k (without key os) ≡ object k os
object-without k key [] h = refl
object-without k key (o ∷ os) h =
    ground (arith, eq_iff o.0 key, eq_iff o.0 k, eq_iff k key, object-without k key os h)

without-none :
    (key : String) (os : List (String × Bytes)) → object key os ≡ none → without key os ≡ os
without-none key [] h = refl
without-none key (o ∷ os) h = ground (arith, without-none key os)

without_twice :
    (key : String) (os : List (String × Bytes)) → without key (without key os) ≡ without key os
without_twice key [] = refl
without_twice key (o ∷ os) = ground (arith, without_twice key os)

-- A put on a free key and a delete leave the storage as it was.
put_back :
    (key : String) (content : Bytes) (os : List (String × Bytes))
    → object key os ≡ none
    → without key ((key, content) ∷ without key os) ≡ os
put_back key content os h =
    let same : (key == key) ≡ true = (eq_iff key key).1 refl in
    rw (same, without-none key os h) (without-none key os h)

record_events :
    (f : Faults) (c e : Uuid) (action actor : String) (d : List (String × String)) (s : Store)
    → let (r, t) = record_custody_event f c e action actor d s in
      (r ≡ ok tt) × (t.items ≡ s.items) × (t.objects ≡ s.objects) × (t.cases ≡ s.cases)
unfolding record_custody_event
record_events f c e action actor d s = ground arith

index_only :
    (f : Faults) (e : EvidenceItem) (s : Store)
    → let (r, t) = index_evidence f e s in
      (r ≡ ok tt) × (t.items ≡ s.items) × (t.objects ≡ s.objects) × (t.cases ≡ s.cases)
unfolding index_evidence
index_only f e s = ground arith

pub create-cases :
    (fails : Bool) (id : Uuid) (now : Time) (i : CreateEvidenceInput) (items : List EvidenceItem)
    → ((is_ok (create fails id now i items).0 ≡ false) × ((create fails id now i items).1 ≡ items))
      ⊎ ((create fails id now i items ≡ (ok (new_item id now i), new_item id now i ∷ items))
          × (valid_classification i.classification ≡ true)
          × (any (λ (e : EvidenceItem). e.id == id) items ≡ false))
unfolding create
create-cases fails id now i items = ground arith

put-cases :
    (fails : Bool) (key : String) (content : Bytes) (s : Store)
    → (put_object fails key content s ≡ (err (failed "put object"), s))
      ⊎ (put_object fails key content s
          ≡ (ok tt, record s { objects = (key, content) ∷ without key s.objects }))
unfolding put_object
put-cases fails key content s = ground arith

-- The counter's row is all that the counter changes.
counter_only :
    (f : Bool) (id : Uuid) (s : Store)
    → let t = (record s { cases = (increment_evidence_counter f id s.cases).1 }) in
      (t.items ≡ s.items) × (t.objects ≡ s.objects) × (t.custody ≡ s.custody)
counter_only f id s = (refl, refl, refl)

module _ (ext : Ext) where
  abbrev pub key_of : Uuid → UploadInput → String → String
  key_of fresh i name = ext.object_key i.case_id fresh 1 name

  -- The fields of a new item that name its file.
  pub record Holds (key name : String) (content : Bytes) (row_id : Uuid) (e : EvidenceItem)
      : Type 0 where
    pub has_id : e.id ≡ row_id
    pub has_key : e.storage_key ≡ some key
    pub has_name : e.filename ≡ name
    pub has_hash : e.sha256_hash ≡ ext.sha256_hex content
    pub has_size : e.size_bytes ≡ length content
    pub is_live : e.destroyed_at ≡ none

  new_item-Holds :
      (row_id : Uuid) (now : Time) (reply : TsaReply) (i : UploadInput) (name number key : String)
      (content : Bytes)
      → Holds key name content row_id
          (new_item row_id now (create_input ext i name number key content reply))
  unfolding new_item create_input
  new_item-Holds row_id now reply i name number key content = record {
    has_id = refl;
    has_key = refl;
    has_name = refl;
    has_hash = refl;
    has_size = refl;
    is_live = refl;
  }

  file_upload-ok :
      (f : Faults) (row_id : Uuid) (now : Time) (i : UploadInput) (input : CreateEvidenceInput)
      (content : Bytes) (s : Store) {e : EvidenceItem}
      → let (r, t) = file_upload ext f row_id now i input content s in
        r ≡ ok e
        → (e ≡ new_item row_id now input)
          × (t.items ≡ e ∷ s.items)
          × (object input.storage_key t.objects ≡ some content)
  unfolding file_upload record_custody_event index_evidence put_object
  file_upload-ok f row_id now i input content s h = ground (
    arith,
    eq_iff input.storage_key input.storage_key,
    create-cases f.write_fails row_id now input s.items,
  )

  file_upload-err :
      (f : Faults) (row_id : Uuid) (now : Time) (i : UploadInput) (input : CreateEvidenceInput)
      (content : Bytes) (s : Store)
      → let (r, t) = file_upload ext f row_id now i input content s in
        is_ok r ≡ false → f.delete_fails ≡ false → object input.storage_key s.objects ≡ none → t ≡ s
  unfolding file_upload put_object delete_object record_custody_event index_evidence
  file_upload-err f row_id now i input content s h d k = ground (
    arith,
    eq_iff input.storage_key input.storage_key,
    without-none input.storage_key s.objects k,
    create-cases f.write_fails row_id now input s.items,
  )

-- Everything but the counter of the case is as before; the counter may be one more.
pub record Same (case_id : Uuid) (s t : Store) : Type 0 where
  pub same_cases :
      (t.cases ≡ s.cases)
      ⊎ (t.cases
          ≡ set_row
              (λ c. c.id)
              case_id
              (λ (c : CaseRow). record c { evidence_counter = c.evidence_counter + 1 })
              s.cases)
  pub same_items : t.items ≡ s.items
  pub same_objects : t.objects ≡ s.objects
  pub same_custody : t.custody ≡ s.custody
  pub same_indexed : t.indexed ≡ s.indexed

pub Same-refl : (id : Uuid) (s : Store) → Same id s s
Same-refl id s = record {
  same_cases = inl refl;
  same_items = refl;
  same_objects = refl;
  same_custody = refl;
  same_indexed = refl;
}

Same-increment :
    (fails : Bool) (id : Uuid) (s : Store)
    → Same id s (record s { cases = (increment_evidence_counter fails id s.cases).1 })
unfolding increment_evidence_counter
Same-increment true id s = Same-refl id s
Same-increment false id s = record {
  same_cases = inr refl;
  same_items = refl;
  same_objects = refl;
  same_custody = refl;
  same_indexed = refl;
}

module _ (ext : Ext) where
  pub store_upload-ok :
      (f : Faults) (fresh row_id : Uuid) (now : Time) (reply : TsaReply) (i : UploadInput)
      (name : String) (content : Bytes) (s : Store) {e : EvidenceItem}
      → let (r, t) = store_upload ext f fresh row_id now reply i name content s in
        r ≡ ok e
        → Holds ext (key_of ext fresh i name) name content row_id e
          × (t.items ≡ e ∷ s.items)
          × (object (key_of ext fresh i name) t.objects ≡ some content)
  unfolding store_upload create_input
  store_upload-ok f fresh row_id now reply i name content s {e} h =
      elim (Result-cases (get_reference_code f.code_fails i.case_id s.cases)) [
        | inr (_, n) ↦ absurd (ground arith)
        | inl (code, y) ↦
            elim (Result-cases (increment_evidence_counter f.counter_fails i.case_id s.cases).0) [
              | inr (_, n) ↦ absurd (ground arith)
              | inl (counter, z) ↦
                  let input =
                    create_input ext i name (ext.evidence_number code counter)
                      (key_of ext fresh i name) content reply in
                  let s₁ = record s {
                    cases = (increment_evidence_counter f.counter_fails i.case_id s.cases).1;
                  } in
                  let h₁ : (file_upload ext f row_id now i input content s₁).0 ≡ ok e =
                    rw (y, z) at h in
                  let (made, items, stored) =
                    file_upload-ok ext f row_id now i input content s₁ h₁ in
                  (
                    rw made (
                        new_item-Holds ext row_id now reply i name
                          (ext.evidence_number code counter) (key_of ext fresh i name) content),
                    rw (y, z) items,
                    rw (y, z) stored,
                  )
            ]
      ]

  pub store_upload-err :
      (f : Faults) (fresh row_id : Uuid) (now : Time) (reply : TsaReply) (i : UploadInput)
      (name : String) (content : Bytes) (s : Store)
      → let (r, t) = store_upload ext f fresh row_id now reply i name content s in
        is_ok r ≡ false
        → f.delete_fails ≡ false
        → object (key_of ext fresh i name) s.objects ≡ none
        → Same i.case_id s t
  unfolding store_upload create_input
  store_upload-err f fresh row_id now reply i name content s h d k =
      elim (Result-cases (get_reference_code f.code_fails i.case_id s.cases)) [
        | inr (_, n) ↦ rw n (Same-refl i.case_id s)
        | inl (code, y) ↦
            elim (Result-cases (increment_evidence_counter f.counter_fails i.case_id s.cases).0) [
              | inr (_, n) ↦ rw (y, n) (Same-increment f.counter_fails i.case_id s)
              | inl (counter, z) ↦
                  let input =
                    create_input ext i name (ext.evidence_number code counter)
                      (key_of ext fresh i name) content reply in
                  let s₁ = record s {
                    cases = (increment_evidence_counter f.counter_fails i.case_id s.cases).1;
                  } in
                  let h₁ : is_ok (file_upload ext f row_id now i input content s₁).0 ≡ false =
                    rw (y, z) at h in
                  rw (y, z, file_upload-err ext f row_id now i input content s₁ h₁ d k)
                    (Same-increment f.counter_fails i.case_id s)
            ]
      ]
