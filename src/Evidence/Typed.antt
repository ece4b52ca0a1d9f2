-- ===== src/Evidence/Typed.antt =====
-- The values that the columns of evidence keep, whatever the service and the retry job do.

use vault_keeper.Prelude.{
  ℕ, String, ◌≡◌, refl, sym, ◌∙◌, subst, ◌⊎◌, inl, inr, Bool, true, false, ◌||◌, List, [], ◌∷◌,
  Option, Result, ok, arith, ◌==◌, nat_eq, string_eq, update_where, All, Option-cases, Bool-cases,
  Result-cases,
}
use vault_keeper.Custody.{Uuid, Time}
use vault_keeper.Evidence.Model.{
  Bytes, EvidenceItem, EvidenceUpdate, CreateEvidenceInput, UploadInput, DestroyInput,
  valid_classification,
}
use vault_keeper.Evidence.Repository.{
  new_item, update, updated, alive, destroyed, mark_destroyed, find_by_id, update_tsa_result,
  mark_tsa_failed, increment_tsa_retry, set_item, get_reference_code, increment_evidence_counter,
  Error,
}
use vault_keeper.Evidence.Store.{
  Store, Faults, put_object, delete_object, record_custody_event, index_evidence,
}
use vault_keeper.Evidence.Service.{
  Ext, TsaReply, unavailable, no_token, issued, stamp, create_input, file_upload, store_upload,
  upload, sanitized_update, validate_evidence_update, update_metadata, destroy,
}
use vault_keeper.Evidence.Uploads.{create-cases}
use vault_keeper.Evidence.Pipeline.{upload-cases}
use vault_keeper.Evidence.Destruction.{clear_files-keeps}

abbrev pub valid_tsa_status : String → Bool
valid_tsa_status s = s == "pending" || (s == "stamped" || (s == "failed" || s == "disabled"))

-- A row whose classification and state of the timestamp are among these values.
abbrev pub Typed : EvidenceItem → Type 0
Typed e =
    ((e.classification == "public"
        || (e.classification == "restricted"
            || (e.classification == "confidential" || e.classification == "ex_parte")))
      ≡ true)
    × (valid_tsa_status e.tsa_status ≡ true)

All-update_where :
    {P : EvidenceItem → Type 0} (q : EvidenceItem → Bool) (g : EvidenceItem → EvidenceItem)
    (es : List EvidenceItem)
    → ((e : EvidenceItem) → P e → P (g e))
    → All P es
    → All P (update_where q g es)
All-update_where q g [] k h = tt
All-update_where q g (e ∷ es) k h = elim (Bool-cases (q e)) [
  | inl y ↦ rw y (k e h.0, All-update_where q g es k h.1)
  | inr n ↦ rw n (h.0, All-update_where q g es k h.1)
]

stamp-status : (reply : TsaReply) → valid_tsa_status (stamp reply).status ≡ true
unfolding stamp
stamp-status unavailable = refl
stamp-status no_token = refl
stamp-status (issued token name time) = refl

update-cases :
    (fails : Bool) (id : Uuid) (u : EvidenceUpdate) (es : List EvidenceItem)
    → ((update fails id u es).1 ≡ es)
      ⊎ ((update fails id u es).1 ≡ update_where (alive id) (updated u) es)
unfolding update
update-cases fails id u es = ground arith

mark_destroyed-cases :
    (fails : Bool) (now : Time) (id : Uuid) (reason by : String) (es : List EvidenceItem)
    → ((mark_destroyed fails now id reason by es).1 ≡ es)
      ⊎ ((mark_destroyed fails now id reason by es).1
          ≡ update_where (alive id) (destroyed now reason by) es)
unfolding mark_destroyed
mark_destroyed-cases fails now id reason by es = ground arith

module _ (ext : Ext) where
  file_upload-items :
      (f : Faults) (row_id : Uuid) (now : Time) (i : UploadInput) (input : CreateEvidenceInput)
      (content : Bytes) (s : Store)
      → let t = (file_upload ext f row_id now i input content s).1 in
        (t.items ≡ s.items)
        ⊎ ((t.items ≡ new_item row_id now input ∷ s.items)
            × (valid_classification input.classification ≡ true))
  unfolding file_upload put_object delete_object record_custody_event index_evidence
  file_upload-items f row_id now i input content s =
      ground (arith, create-cases f.write_fails row_id now input s.items)

  file_upload-Typed :
      (f : Faults) (row_id : Uuid) (now : Time) (reply : TsaReply) (i : UploadInput)
      (name number key : String) (content : Bytes) (s : Store)
      → All Typed s.items
      → All Typed
          (file_upload ext f row_id now i
            (create_input ext i name number key content reply)
            content
            s).1.items
  unfolding create_input new_item
  file_upload-Typed f row_id now reply i name number key content s h =
      elim (file_upload-items f row_id now i (create_input ext i name number key content reply)
        content s) [
          | inl same ↦ subst (All Typed) (sym same) h
          | inr (more, good) ↦ subst (All Typed) (sym more) ((good, stamp-status reply), h)
        ]

  store_upload-Typed :
      (f : Faults) (fresh row_id : Uuid) (now : Time) (reply : TsaReply) (i : UploadInput)
      (name : String) (content : Bytes) (s : Store)
      → All Typed s.items
      → All Typed (store_upload ext f fresh row_id now reply i name content s).1.items
  unfolding store_upload
  store_upload-Typed f fresh row_id now reply i name content s h =
      elim (Result-cases (get_reference_code f.code_fails i.case_id s.cases)) [
        | inr (_, y) ↦ rw (y, store_upload) h
        | inl (code, y) ↦
            elim (Result-cases (increment_evidence_counter f.counter_fails i.case_id s.cases).0) [
              | inr (_, z) ↦ rw (y, store_upload, z) h
              | inl (n, z) ↦
                  rw (y, store_upload, z)
                    (file_upload-Typed f row_id now reply i name _ _ content _ h)
            ]
      ]

  upload-Typed :
      (max : ℕ) (f : Faults) (fresh row_id : Uuid) (now : Time) (reply : TsaReply) (i : UploadInput)
      (s : Store)
      → All Typed s.items
      → All Typed (upload ext max f fresh row_id now reply i s).1.items
  upload-Typed max f fresh row_id now reply i s h =
      elim (upload-cases ext max f fresh row_id now reply i s) [
        | inl (_, same) ↦ subst (λ (t : Store). All Typed t.items) (sym same) h
        | inr (name, content, (_, _, _, u)) ↦
            subst (λ (r : Result Error EvidenceItem × Store). All Typed r.1.items) (sym u)
              (store_upload-Typed f fresh row_id now reply i name content s h)
      ]

  updated-Typed :
      (u : EvidenceUpdate) (e : EvidenceItem)
      → validate_evidence_update u ≡ ok tt
      → Typed e
      → Typed (updated (sanitized_update ext u) e)
  unfolding validate_evidence_update sanitized_update
  updated-Typed u e v h = elim (Option-cases u.classification) [
    | inl n ↦ (ground (arith, n, h.0), h.1)
    | inr (c, y) ↦ (ground (arith, y, v), h.1)
  ]

  update_metadata-items :
      (f : Faults) (id : Uuid) (u : EvidenceUpdate) (actor : String) (s : Store)
      → validate_evidence_update u ≡ ok tt
      → (update_metadata ext f id u actor s).1.items
        ≡ (update f.write_fails id (sanitized_update ext u) s.items).1
  unfolding update_metadata record_custody_event index_evidence
  update_metadata-items f id u actor s v =
      elim (Result-cases (update f.write_fails id (sanitized_update ext u) s.items).0) [
        | inr (_, y) ↦ rw (v, update_metadata, y) refl
        | inl (e, y) ↦ rw (v, update_metadata, y) (ground arith)
      ]

  update_metadata-Typed :
      (f : Faults) (id : Uuid) (u : EvidenceUpdate) (actor : String) (s : Store)
      → All Typed s.items
      → All Typed (update_metadata ext f id u actor s).1.items
  unfolding update_metadata
  update_metadata-Typed f id u actor s h = elim (Result-cases (validate_evidence_update u)) [
    | inr (_, v) ↦ rw (v, update_metadata) h
    | inl (_, v) ↦
        let items = update_metadata-items f id u actor s v in
        elim (update-cases f.write_fails id (sanitized_update ext u) s.items) [
          | inl same ↦ subst (All Typed) (sym (items ∙ same)) h
          | inr changed ↦ subst (All Typed) (sym (items ∙ changed)) (
              All-update_where (alive id) (updated (sanitized_update ext u)) s.items
                (λ e t. updated-Typed u e v t) h)
        ]
  ]

  destroy-items :
      (f : Faults) (now : Time) (i : DestroyInput) (s : Store)
      → ((destroy ext f now i s).1.items ≡ s.items)
        ⊎ ((destroy ext f now i s).1.items
            ≡ update_where (alive i.evidence_id) (destroyed now i.reason i.actor_id) s.items)
  unfolding destroy
  destroy-items f now i s =
      let marked = mark_destroyed f.mark_fails now i.evidence_id i.reason i.actor_id s.items in
      elim (Result-cases (find_by_id f.find_fails i.evidence_id s.items)) [
        | inr (_, y) ↦ ground (arith, y)
        | inl (item, y) ↦ ground (
          arith,
          y,
          mark_destroyed-cases f.mark_fails now i.evidence_id i.reason i.actor_id s.items,
          (clear_files-keeps f i item (record s { items = marked.1 })).0,
          (clear_files-keeps f i item (record s { items = marked.1 })).1,
        )
      ]

  destroy-Typed :
      (f : Faults) (now : Time) (i : DestroyInput) (s : Store)
      → All Typed s.items
      → All Typed (destroy ext f now i s).1.items
  destroy-Typed f now i s h = elim (destroy-items f now i s) [
    | inl same ↦ subst (All Typed) (sym same) h
    | inr changed ↦ subst (All Typed) (sym changed) (
        All-update_where (alive i.evidence_id) (destroyed now i.reason i.actor_id) s.items
          (λ e t. t) h)
  ]

-- A call of the service or a statement of the retry job, with what it meets.
pub data Operation : Type 0 where
  upload_file : ℕ → Faults → Uuid → Uuid → Time → TsaReply → UploadInput → Operation
  change_metadata : Faults → Uuid → EvidenceUpdate → String → Operation
  destroy_item : Faults → Time → DestroyInput → Operation
  store_token : Bool → Uuid → Option Bytes → String → Time → Operation
  give_up : Bool → Uuid → Operation
  count_retry : Bool → Time → Uuid → Operation

unfoldable pub run : Ext → Operation → Store → Store
run ext (upload_file max f fresh row_id now reply i) s =
    (upload ext max f fresh row_id now reply i s).1
run ext (change_metadata f id u actor) s = (update_metadata ext f id u actor s).1
run ext (destroy_item f now i) s = (destroy ext f now i s).1
run ext (store_token fails id token name time) s = record s {
  items = (update_tsa_result fails id token name time s.items).1;
}
run ext (give_up fails id) s = record s { items = (mark_tsa_failed fails id s.items).1 }
run ext (count_retry fails now id) s = record s {
  items = (increment_tsa_retry fails now id s.items).1;
}

unfoldable pub run_all : Ext → List Operation → Store → Store
run_all ext [] s = s
run_all ext (o ∷ os) s = run_all ext os (run ext o s)

All-set_item :
    {P : EvidenceItem → Type 0} (id : Uuid) (g : EvidenceItem → EvidenceItem)
    (es : List EvidenceItem)
    → ((e : EvidenceItem) → P e → P (g e))
    → All P es
    → All P (set_item id g es)
All-set_item id g es k h = All-update_where (λ e. e.id == id) g es k h

run-Typed :
    (ext : Ext) (o : Operation) (s : Store) → All Typed s.items → All Typed (run ext o s).items
unfolding run update_tsa_result mark_tsa_failed increment_tsa_retry
run-Typed ext (upload_file max f fresh row_id now reply i) s h =
    upload-Typed ext max f fresh row_id now reply i s h
run-Typed ext (change_metadata f id u actor) s h = update_metadata-Typed ext f id u actor s h
run-Typed ext (destroy_item f now i) s h = destroy-Typed ext f now i s h
run-Typed ext (store_token true id token name time) s h = h
run-Typed ext (store_token false id token name time) s h =
    All-set_item id _ s.items (λ e t. (t.0, refl)) h
run-Typed ext (count_retry true now id) s h = h
run-Typed ext (count_retry false now id) s h = All-set_item id _ s.items (λ e t. t) h
run-Typed ext (give_up true id) s h = h
run-Typed ext (give_up false id) s h = All-set_item id _ s.items (λ e t. (t.0, refl)) h

-- After any uploads, changes, destructions and statements of the retry job, with any faults, each
-- row has one of the classifications public, restricted, confidential and ex_parte, and one of the
-- states pending, stamped, failed and disabled of the timestamp, where each row had them before.
pub run_all-Typed :
    (ext : Ext) (os : List Operation) (s : Store)
    → All Typed s.items
    → All Typed (run_all ext os s).items
unfolding run_all
run_all-Typed ext [] s h = h
run_all-Typed ext (o ∷ os) s h = run_all-Typed ext os (run ext o s) (run-Typed ext o s h)
