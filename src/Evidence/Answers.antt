-- ===== src/Evidence/Answers.antt =====
-- What the endpoints of handler.go answer, and what they leave.
use mathlib.Core.Option
use mathlib.Core.Option.{get_or}
use vault_keeper.Prelude.{
  ℕ, ◌≤◌, String, ◌≡◌, refl, sym, ap, ◌∙◌, Bool, List, [], ◌∷◌, Option, none, some, Result, ok, err,
  arith, nat_eq, string_eq, length, filter, update_where, Option-cases, Result-cases, inl, inr,
  subst,
}
use vault_keeper.Prelude.Replies.{
  Reply, answered, refused, Decoded, too_large, invalid, decoded, replied,
}
use vault_keeper.Custody.{Uuid, Time}
use vault_keeper.Access.Tokens.{AuthContext}
use vault_keeper.Evidence.Model.{Bytes, EvidenceItem, DestroyInput}
use vault_keeper.Evidence.Repository.{Error, alive, destroyed, mark_destroyed, find_by_id}
use vault_keeper.Evidence.Store.{Store, Faults, object}
use vault_keeper.Evidence.Service.{Ext, TsaReply, upload, destroy}
use vault_keeper.Evidence.Destruction.{clear_files-keeps}
use vault_keeper.Evidence.Uploads.{key_of}
use vault_keeper.Evidence.Pipeline.{upload_ok}
use vault_keeper.Evidence.Requests.{
  Parsers, Form, service_error, upload_input, with_file, destroy_decoded, handle_upload,
  handle_destroy,
}

replied-answered :
    {A : Type 0} (n : ℕ) (p : Result Error A × Store) {m : ℕ} {a : A}
    → (replied service_error n p).0 ≡ answered m a
    → p.0 ≡ ok a
replied-answered n (ok a, s) h = ground (arith, h)
replied-answered n (err e, s) h = ground (arith, h)

replied-store :
    {A : Type 0} (n : ℕ) (p : Result Error A × Store) → (replied service_error n p).1 ≡ p.1
replied-store n (ok a, s) = refl
replied-store n (err e, s) = refl

update_where-none :
    (q : EvidenceItem → Bool) (g : EvidenceItem → EvidenceItem) (es : List EvidenceItem)
    → filter q es ≡ []
    → update_where q g es ≡ es
update_where-none q g [] h = refl
update_where-none q g (e ∷ es) h = ground (arith, update_where-none q g es)

mark_destroyed-err :
    (fails : Bool) (now : Time) (id : Uuid) (reason by : String) (es : List EvidenceItem)
    {e : Error}
    → (mark_destroyed fails now id reason by es).0 ≡ err e
    → (mark_destroyed fails now id reason by es).1 ≡ es
unfolding mark_destroyed
mark_destroyed-err fails now id reason by es h =
    ground (arith, update_where-none (alive id) (destroyed now reason by) es)

destroy-err :
    (ext : Ext) (f : Faults) (now : Time) (i : DestroyInput) (s : Store) {e : Error}
    → (destroy ext f now i s).0 ≡ err e
    → (destroy ext f now i s).1 ≡ s
unfolding destroy
destroy-err ext f now i s {e} h =
    let marked = mark_destroyed f.mark_fails now i.evidence_id i.reason i.actor_id s.items in
    elim (Result-cases (find_by_id f.find_fails i.evidence_id s.items)) [
      | inr (_, y) ↦ ground (arith, y)
      | inl (item, y) ↦ ground (
        arith,
        y,
        mark_destroyed-err f.mark_fails now i.evidence_id i.reason i.actor_id s.items {e = e},
        (clear_files-keeps f i item (record s { items = marked.1 })).0,
      )
    ]

replied-refused :
    {A : Type 0} (n : ℕ) (p : Result Error A × Store) {m : ℕ}
    → (replied service_error n p).0 ≡ refused m
    → (e : Error) × (p.0 ≡ err e)
replied-refused n (ok a, s) h = ground (arith, h)
replied-refused n (err e, s) h = (e, refl)

module _ (p : Parsers) where
  -- An upload that is answered with an item was asked for by a signed-in user with a form that has a
  -- file; the item is the one new row, the storage holds the file at its key, and its hash is that of
  -- the file, which keeps the limit.
  pub handle_upload-answered :
      (ext : Ext) (max : ℕ) (f : Faults) (fresh row_id : Uuid) (now : Time) (reply : TsaReply)
      (user : Option AuthContext) (case_id : String) (form : Option Form) (s : Store) (m : ℕ)
      (e : EvidenceItem)
      → (handle_upload p ext max f fresh row_id now reply user case_id form s).0 ≡ answered m e
      → let t = (handle_upload p ext max f fresh row_id now reply user case_id form s).1 in
        (u : AuthContext) × (key : String) × (file : Bytes) × (user ≡ some u)
        × (Option.bind form (λ (x : Form). x.file) ≡ some file)
        × (length file ≤ max)
        × (t.items ≡ e ∷ s.items)
        × (e.storage_key ≡ some key)
        × (object key t.objects ≡ some file)
        × (e.sha256_hash ≡ ext.sha256_hex file)
  unfolding handle_upload upload_input Option.bind
  handle_upload-answered ext max f fresh row_id now reply none case_id form s m e h =
      ground (arith, h)
  handle_upload-answered ext max f fresh row_id now reply (some user) case_id none s m e h =
      elim (Option-cases (p.parse_uuid case_id)) [
        | inl n ↦ ground (arith, n, h)
        | inr (id, y) ↦ ground (arith, y, h)
      ]
  handle_upload-answered ext max f fresh row_id now reply (some user) case_id (some form) s m e h =
      elim (Option-cases (p.parse_uuid case_id)) [
        | inl n ↦ ground (arith, n, h)
        | inr (id, y) ↦ elim (Option-cases form.file) [
          | inl n ↦ ground (arith, y, n, h)
          | inr (file, z) ↦
              let i = upload_input p user id form file in
              let done = upload ext max f fresh row_id now reply i s in
              let same =
                subst
                  (λ o.
                    handle_upload p ext max f fresh row_id now reply (some user) case_id (some form)
                      s
                    ≡ with_file p ext max f fresh row_id now reply user id form s o)
                  z (rw (y, handle_upload) refl) in
              let good =
                replied-answered 201 done
                  (ap (λ (r : Reply EvidenceItem × Store). r.0) (sym same) ∙ h) in
              let (_, fits, items, (name, (holds, stored))) =
                upload_ok ext max f fresh row_id now reply i s {e = e} good in
              let after =
                ap (λ (r : Reply EvidenceItem × Store). r.1) same ∙ replied-store 201 done in
              (
                user,
                key_of ext fresh i name,
                file,
                refl,
                z,
                fits,
                ap (λ (t : Store). t.items) after ∙ items,
                holds.has_key,
                ap (λ (t : Store). object (key_of ext fresh i name) t.objects) after ∙ stored,
                holds.has_hash,
              )
        ]
      ]

  decoded_destroy_refused :
      (ext : Ext) (f : Faults) (now : Time) (user : AuthContext) (i : Uuid) (body : Decoded String)
      (s : Store) (m : ℕ)
      → (destroy_decoded ext f now user i s body).0 ≡ refused m
      → (destroy_decoded ext f now user i s body).1 ≡ s
  decoded_destroy_refused ext f now user i too_large s m h = refl
  decoded_destroy_refused ext f now user i invalid s m h = refl
  decoded_destroy_refused ext f now user i (decoded reason) s m h =
      let input : DestroyInput = record {
        evidence_id = i;
        reason = reason;
        actor_id = user.user_id;
      } in
      let done = destroy ext f now input s in
      let (e, bad) = replied-refused 200 done h in
      replied-store 200 done ∙ destroy-err ext f now input s {e = e} bad

  -- A request to destroy that is refused leaves everything as it was.
  pub handle_destroy-refused :
      (ext : Ext) (f : Faults) (now : Time) (user : Option AuthContext) (id : String)
      (body : Decoded String) (s : Store) (m : ℕ)
      → (handle_destroy p ext f now user id body s).0 ≡ refused m
      → (handle_destroy p ext f now user id body s).1 ≡ s
  unfolding handle_destroy
  handle_destroy-refused ext f now none id body s m h = refl
  handle_destroy-refused ext f now (some user) id body s m h =
      elim (Option-cases (p.parse_uuid id)) [
        | inl n ↦ rw (n, handle_destroy) refl
        | inr (i, y) ↦
            let same : handle_destroy p ext f now (some user) id body s
                ≡ destroy_decoded ext f now user i s body =
              rw (y, handle_destroy) refl in
            ap (λ (r : Reply (Unit {0}) × Store). r.1) same
            ∙ decoded_destroy_refused ext f now user i body s m
                (ap (λ (r : Reply (Unit {0}) × Store). r.0) (sym same) ∙ h)
      ]
