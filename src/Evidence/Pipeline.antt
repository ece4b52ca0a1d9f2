-- ===== src/Evidence/Pipeline.antt =====
-- `Upload` as a whole, and what a later download gives back.
use mathlib.Core.Option.{get_or}
use mathlib.Core.Bool.{true≢false}
use vault_keeper.Prelude.{
  ℕ, ◌≤◌, String, ◌≡◌, refl, sym, ap, ◌∙◌, ◌⊎◌, inl, inr, Bool, true, false, [], ◌∷◌, Option, none,
  some, ok, arith, ◌==◌, nat_eq, string_eq, eq_iff, nat_beq_iff, length, take_whole, Result-cases,
  Bool-cases, Option-cases, is_ok,
}
use vault_keeper.Custody.{Uuid, Time}
use vault_keeper.Evidence.Model.{Bytes, EvidenceItem, UploadInput, sanitize_filename}
use vault_keeper.Evidence.Repository.{find_by_id, get_status}
use vault_keeper.Evidence.Store.{Store, Faults, object, get_object, record_custody_event}
use vault_keeper.Evidence.Service.{
  Ext, TsaReply, store_upload, upload, download, validate_upload_input, read_file,
}
use vault_keeper.Evidence.Uploads.{
  Holds, key_of, Same, Same-refl, store_upload-ok, store_upload-err,
}

module _ (ext : Ext) where
  -- A read that succeeds returns the whole file, which keeps the limit.
  read_file-ok :
      (fails : Bool) (max : ℕ) (file : Option Bytes) {content : Bytes}
      → read_file ext fails max file ≡ ok content
      → (content ≡ get_or file []) × (length content ≤ max)
  unfolding read_file
  read_file-ok fails max file h = ground (arith, take_whole max (get_or file []))

  -- An upload that fails after its guards fails in the storing.
  pub upload-cases :
      (max : ℕ) (f : Faults) (fresh row_id : Uuid) (now : Time) (reply : TsaReply) (i : UploadInput)
      (s : Store)
      → ((is_ok (upload ext max f fresh row_id now reply i s).0 ≡ false)
          × ((upload ext max f fresh row_id now reply i s).1 ≡ s))
        ⊎ ((name : String) × (content : Bytes) × ((get_status f.status_fails i.case_id s.cases
                ≡ ok "active")
              × (sanitize_filename ext.names i.filename ≡ some name)
              × (read_file ext f.read_fails max i.file ≡ ok content)
              × (upload ext max f fresh row_id now reply i s
                  ≡ store_upload ext f fresh row_id now reply i name content s)))
  unfolding upload
  upload-cases max f fresh row_id now reply i s =
      elim (Result-cases (validate_upload_input ext i)) [
        | inr (_, v) ↦ inl (rw v (refl, refl))
        | inl (_, v) ↦ elim (Result-cases (get_status f.status_fails i.case_id s.cases)) [
          | inr (_, g) ↦ inl (rw (v, g) (refl, refl))
          | inl (status, g) ↦ elim (Bool-cases (status == "active")) [
            | inr a ↦ inl (rw (v, g, a) (refl, refl))
            | inl a ↦ elim (Option-cases (sanitize_filename ext.names i.filename)) [
              | inl n ↦ inl (rw (v, g, a, n) (refl, refl))
              | inr (name, n) ↦ elim (Result-cases (read_file ext f.read_fails max i.file)) [
                | inr (_, r) ↦ inl (rw (v, g, a, n, r) (refl, refl))
                | inl (content, r) ↦ inr (
                  name,
                  content,
                  (g ∙ ap ok ((eq_iff status "active").0 a), n, r, rw (v, g, a, n, r) refl),
                )
              ]
            ]
          ]
        ]
      ]

  -- A successful upload was to an active case and within the limit; the new item is the only new
  -- row, it names the whole file by hash, size and key, and the storage holds the file at that key.
  pub upload_ok :
      (max : ℕ) (f : Faults) (fresh row_id : Uuid) (now : Time) (reply : TsaReply) (i : UploadInput)
      (s : Store) {e : EvidenceItem}
      → let (r, t) = upload ext max f fresh row_id now reply i s in
        let file = get_or i.file [] in
        r ≡ ok e
        → (get_status f.status_fails i.case_id s.cases ≡ ok "active")
          × (length file ≤ max)
          × (t.items ≡ e ∷ s.items)
          × ((name : String) × (Holds ext (key_of ext fresh i name) name file row_id e
                × (object (key_of ext fresh i name) t.objects ≡ some file)))
  upload_ok max f fresh row_id now reply i s {e} h =
      elim (upload-cases max f fresh row_id now reply i s) [
        | inl (n, _) ↦ absurd (true≢false (sym (ap is_ok h) ∙ n))
        | inr (name, content, (g, n, r, u)) ↦
            let (whole, fits) = read_file-ok f.read_fails max i.file r in
            let stored =
              store_upload-ok ext f fresh row_id now reply i name content s {e = e} (rw u at h) in
            (
              g,
              rw (sym whole) fits,
              rw u stored.1,
              (name, (rw (sym whole) stored.0, rw (sym whole, u) stored.2)),
            )
      ]

  -- A failed upload under a fresh key, whose clean-up works, changes nothing but the counter of the
  -- case, which may be one more.
  pub upload_err :
      (max : ℕ) (f : Faults) (fresh row_id : Uuid) (now : Time) (reply : TsaReply) (i : UploadInput)
      (s : Store)
      → let (r, t) = upload ext max f fresh row_id now reply i s in
        ((name : String) → object (key_of ext fresh i name) s.objects ≡ none)
        → f.delete_fails ≡ false
        → is_ok r ≡ false
        → Same i.case_id s t
  upload_err max f fresh row_id now reply i s k d h =
      elim (upload-cases max f fresh row_id now reply i s) [
        | inl (_, same) ↦ rw same (Same-refl i.case_id s)
        | inr (name, content, (_, _, _, u)) ↦
            let h₁ = rw u at h in
            rw u (store_upload-err ext f fresh row_id now reply i name content s h₁ d (k name))
      ]

-- A download of an item right after its upload, over a table and a storage that can be read, returns
-- the bytes that were uploaded and the name of the item.
pub download-upload :
    (ext : Ext) (max : ℕ) (f g : Faults) (fresh row_id : Uuid) (now : Time) (reply : TsaReply)
    (i : UploadInput) (s : Store) (actor : String) {e : EvidenceItem}
    → let (r, t) = upload ext max f fresh row_id now reply i s in
      r ≡ ok e
      → g.find_fails ≡ false
      → g.get_fails ≡ false
      → (download g e.id actor t).0 ≡ ok (get_or i.file [], e.filename)
unfolding download find_by_id get_object record_custody_event
download-upload ext max f g fresh row_id now reply i s actor {e} h a b =
    let (_, _, items, (name, (holds, stored))) =
      upload_ok ext max f fresh row_id now reply i s {e = e} h in
    let same : (e.id == e.id) ≡ true = (nat_beq_iff e.id e.id).1 refl in
    rw (a, b, items, same, holds.is_live, holds.has_key, stored) (ground arith)
