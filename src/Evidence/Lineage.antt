-- ===== src/Evidence/Lineage.antt =====
-- What a new version leaves in the family of its parent.
use vault_keeper.Prelude.{
  ℕ, ◌+◌, String, ◌≡◌, sym, ap, subst, ◌∙◌, inl, inr, Bool, true, false, List, [], ◌∷◌, some, ok,
  arith, ◌==◌, nat_eq, nat_beq_iff, update_where, Result-cases,
}
use vault_keeper.Custody.{Uuid, Time}
use vault_keeper.Evidence.Model.{EvidenceItem, UploadInput}
use vault_keeper.Evidence.Repository.{
  item_row, set_item, find_by_id, mark_previous_versions, update_version_fields, root_id, of_family,
}
use vault_keeper.Evidence.Store.{Store, Faults, record_custody_event}
use vault_keeper.Evidence.Service.{Ext, TsaReply, upload}
use vault_keeper.Evidence.Versions.{link_version, upload_new_version}
use vault_keeper.Evidence.Pipeline.{upload_ok}

abbrev pub uncurrent : EvidenceItem → EvidenceItem
uncurrent e = record e { is_current = false }

abbrev pub as_version : Uuid → ℕ → EvidenceItem → EvidenceItem
as_version root n e = record e { parent_id = some root; version = n; is_current = true }

-- The rows after a new version `e` of a parent with this root.
abbrev pub versioned : Uuid → Uuid → ℕ → List EvidenceItem → List EvidenceItem
versioned id root n items =
    set_item id (as_version root n) (update_where (of_family root) uncurrent items)

-- Every other member of the family has lost its mark.
versioned-others :
    (id root j : Uuid) (n : ℕ) (items : List EvidenceItem) {d : EvidenceItem}
    → (id == j) ≡ false
    → item_row j (versioned id root n items) ≡ some d
    → of_family root d ≡ true
    → d.is_current ≡ false
versioned-others id root j n [] {d} h r m = absurd (ground arith)
versioned-others id root j n (e ∷ items) {d} h r m =
    ground (arith, versioned-others id root j n items {d = d} h)

module _ (ext : Ext) (uuid_string : Uuid → String) (f : Faults) (p e : EvidenceItem) (by : String)
    (s : Store) where
  link_version-items :
      f.mark_fails ≡ false
      → f.version_fails ≡ false
      → let after = versioned e.id (root_id p) (p.version + 1) s.items in
        let (r, t) = link_version ext uuid_string f p e by s in
        (t.items ≡ after) × (r ≡ find_by_id f.find_again_fails e.id after)
  unfolding link_version mark_previous_versions update_version_fields record_custody_event
  link_version-items a b = ground arith

-- The new item as it is read back at the end.
versioned-new :
    (root : Uuid) (n : ℕ) (e : EvidenceItem) (items : List EvidenceItem) (fails : Bool)
    {e' : EvidenceItem}
    → let after = versioned e.id root n (e ∷ items) in
      find_by_id fails e.id after ≡ ok e'
      → (e'.version ≡ n)
        × (e'.parent_id ≡ some root)
        × (e'.is_current ≡ true)
        × (item_row e.id after ≡ some e')
unfolding find_by_id
versioned-new root n e items fails h = ground (arith, nat_beq_iff e.id e.id)

-- The row `k` is this item, and no other member of the family is current.
abbrev pub OnlyCurrent : Uuid → List EvidenceItem → EvidenceItem → Uuid → Type 0
OnlyCurrent root items e k =
    (item_row k items ≡ some e)
    × ((j : Uuid) (d : EvidenceItem)
        → (k == j) ≡ false
        → item_row j items ≡ some d
        → of_family root d ≡ true
        → d.is_current ≡ false)

-- A new version that succeeds, with both marks written, is current, counts on from its parent, hangs
-- on the root of the parent's family, and is read back as stored; no other member is current.
pub upload_new_version-current :
    (ext : Ext) (uuid_string : Uuid → String) (max : ℕ) (f g : Faults) (fresh row_id : Uuid)
    (now : Time) (reply : TsaReply) (parent_id : Uuid) (i : UploadInput) (s : Store)
    (p : EvidenceItem) {e' : EvidenceItem}
    → let (r, t) =
        upload_new_version ext uuid_string max f g fresh row_id now reply parent_id i s in
      item_row parent_id s.items ≡ some p
      → f.mark_fails ≡ false
      → f.version_fails ≡ false
      → r ≡ ok e'
      → (e'.version ≡ p.version + 1)
        × (e'.parent_id ≡ some (root_id p))
        × (e'.is_current ≡ true)
        × OnlyCurrent (root_id p) t.items e' row_id
unfolding upload_new_version find_by_id
upload_new_version-current ext uuid_string max f g fresh row_id now reply parent_id i s p {e'} a b c
      h =
    let i₁ = record i { case_id = p.case_id } in
    let up = upload ext max g fresh row_id now reply i₁ s in
    elim (Result-cases up.0) [
      | inr (_, n) ↦ absurd (ground arith)
      | inl (e, y) ↦
          let (_, _, items, (_, (holds, _))) =
            upload_ok ext max g fresh row_id now reply i₁ s {e = e} y in
          let (linked, result) = link_version-items ext uuid_string f p e i.uploaded_by up.1 b c in
          let run : upload_new_version ext uuid_string max f g fresh row_id now reply parent_id i s
              ≡ link_version ext uuid_string f p e i.uploaded_by up.1 =
            ground arith in
          let found : find_by_id f.find_again_fails e.id
                (versioned e.id (root_id p) (p.version + 1) (e ∷ s.items))
              ≡ ok e' =
            rw items at (sym result ∙ rw run at h) in
          let (v, q, cur, back) =
            versioned-new (root_id p) (p.version + 1) e s.items f.find_again_fails {e' = e'}
              found in
          let t =
            (upload_new_version ext uuid_string max f g fresh row_id now reply parent_id i s).1 in
          let after : t.items ≡ versioned e.id (root_id p) (p.version + 1) (e ∷ s.items) =
            ap (λ x. x.1.items) run
            ∙ linked
            ∙ ap (λ items. versioned e.id (root_id p) (p.version + 1) items) items in
          (
            v,
            q,
            cur,
            subst (OnlyCurrent (root_id p) t.items e') holds.has_id (
              ap (item_row e.id) after ∙ back,
              λ j d other r m.
                  versioned-others e.id (root_id p) j (p.version + 1) (e ∷ s.items) {d = d} other
                    (sym (ap (item_row j) after) ∙ r) m,
            ),
          )
    ]
