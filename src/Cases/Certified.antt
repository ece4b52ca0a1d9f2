-- ===== src/Cases/Certified.antt =====
-- What an archive proves of the files in it, what an error leaves of it, and what the route of an
-- export does not look at.
use Prim.Native.String.{◌++◌ as append}
use mathlib.Core.Option.{get_or}
use vault_keeper.Prelude.{
  Has, String, ◌≡◌, refl, ap, ◌∙◌, Bool, true, false, List, [], ◌∷◌, ◌++◌, map, Option, none, some,
  Result, ok, err, if_not, ltb, subst, All, All-map, inl, inr, Bool-cases, Result-cases,
}
use vault_keeper.Custody.{Event, Uuid, Time}
use vault_keeper.Custody.Log.{list_all_by_case}
use vault_keeper.Evidence.Model.{Bytes, EvidenceItem}
use vault_keeper.Evidence.Store.{object}
use vault_keeper.Evidence.Listing.{Disclosure, list_by_case_for_export}
use vault_keeper.Access.Roles.{level, role_case_admin}
use vault_keeper.Access.Gates.{Caller, require_system_role}
use vault_keeper.Cases.Model.{Case, find_by_id}
use vault_keeper.Cases.Archive.{
  Content, Error, file, table, Archive, Ext, Faults, file_name, number_of, stamp_text, hash_header,
  hash_row, prefix_of,
}
use vault_keeper.Cases.Export.{
  Sources, archive_case, export_case, finish, export_route, handle_export, answered,
}
use vault_keeper.Cases.Exported.{PresentAt, file_at, files, whole, export_case_ok}

module _ {A : Type 0} where
  Has-append_left : (x : A) (xs ys : List A) → Has x xs → Has x (xs ++ ys)
  Has-append_left x [] ys h = absurd h
  Has-append_left x (z ∷ xs) ys (inl e) = inl e
  Has-append_left x (z ∷ xs) ys (inr h) = inr (Has-append_left x xs ys h)

  Has-append_right : (x : A) (xs ys : List A) → Has x ys → Has x (xs ++ ys)
  Has-append_right x [] ys h = h
  Has-append_right x (z ∷ xs) ys h = inr (Has-append_right x xs ys h)

module _ (sha256_hex : Bytes → String) (objects : List (String × Bytes)) where
  abbrev SealedAt : String → Option String → Type 0
  SealedAt hash none = Unit
  SealedAt hash (some key) =
      (content : Bytes) × ((object key objects ≡ some content) × (hash ≡ sha256_hex content))

  -- The object of an item is there and has the hash of its row, as an upload leaves it.
  abbrev pub Sealed : EvidenceItem → Type 0
  Sealed e = SealedAt e.sha256_hash e.storage_key

  module _ (ext : Ext) (prefix : String) (a : Archive) (rows : List (List String)) where
    abbrev CertifiedAt : EvidenceItem → Option String → Type 0
    CertifiedAt e none = Unit
    CertifiedAt e (some key) =
        (content : Bytes) × ((object key objects ≡ some content)
          × (Has (file_name prefix e, file content) a.entries
              × Has
                  (number_of e
                    ∷ e.filename
                    ∷ sha256_hex content
                    ∷ e.tsa_status
                    ∷ stamp_text ext e.tsa_timestamp
                    ∷ [])
                  rows))

    -- The object of an item stands in the archive under the number and name of the item, and the
    -- row of that number and name has the hash of the bytes that stand there.
    abbrev pub Certified : EvidenceItem → Type 0
    Certified e = CertifiedAt e e.storage_key

    certify :
        (e : EvidenceItem) (key : Option String)
        → SealedAt e.sha256_hash key
        → ((x : String × Content)
            → Has x (file_at (file_name prefix e) objects key)
            → Has x a.entries)
        → Has (hash_row ext e) rows
        → CertifiedAt e key
    certify e none h k r = tt
    certify e (some key) (content, (o, h)) k r =
        let entry = k (file_name prefix e, file (get_or (object key objects) [])) (inl refl) in
        (
          content,
          (
            o,
            (
              subst (λ c. Has (file_name prefix e, file (get_or c [])) a.entries) o entry,
              subst
                  (λ t.
                    Has
                      (number_of e
                        ∷ e.filename
                        ∷ t
                        ∷ e.tsa_status
                        ∷ stamp_text ext e.tsa_timestamp
                        ∷ [])
                      rows)
                  h r,
            ),
          ),
        )

    certify-All :
        (es : List EvidenceItem)
        → All Sealed es
        → ((x : String × Content) → Has x (files prefix objects es) → Has x a.entries)
        → ((r : List String) → Has r (map (hash_row ext) es) → Has r rows)
        → All Certified es
    certify-All [] h k r = tt
    certify-All (e ∷ es) h k r =
        let here = file_at (file_name prefix e) objects e.storage_key in
        (
          certify e e.storage_key h.0
              (λ x m. k x (Has-append_left x here (files prefix objects es) m))
              (r (hash_row ext e) (inl refl)),
          certify-All es h.1 (λ x m. k x (Has-append_right x here (files prefix objects es) m))
              (λ x m. r x (inr m)),
        )

  sealed-present : (hash : String) (key : Option String) → SealedAt hash key → PresentAt objects key
  sealed-present hash none h = tt
  sealed-present hash (some key) (content, (o, h)) = (content, o)

module _ (ext : Ext) (f : Faults) (now later : Time) (s : Sources) (c : Case)
    (items : List EvidenceItem) (actor : String) where
  -- Without faults, where the object of each listed item is there and has the hash of its row, as an
  -- upload leaves it, an export succeeds, and its archive holds a table of hashes, and for each listed
  -- item with a key its bytes under its number and name, and in the table a row with that number, that
  -- name and the hash of those bytes.
  pub export_case-Certified :
      (sha256_hex : Bytes → String) (fresh case_id : Uuid) (role : String)
      → ((name : String) → f.create_fails name ≡ false)
      → ((name : String) → f.write_fails name ≡ false)
      → ((key : String) → f.get_fails key ≡ false)
      → f.close_fails ≡ false
      → f.events_fail ≡ false
      → find_by_id f.find_fails case_id s.cases ≡ ok c
      → list_by_case_for_export f.list_fails case_id role s.disclosures s.items ≡ ok items
      → All (Sealed sha256_hex s.objects) items
      → (a : Archive) × ((rows : List (List String)) × (((export_case ext f fresh now later case_id
                role actor s).0
              ≡ ok tt)
            × (((export_case ext f fresh now later case_id role actor s).1.0 ≡ a)
                × (Has (append (prefix_of ext c) "hashes.csv", table rows) a.entries
                    × All (Certified sha256_hex s.objects ext (prefix_of ext c) a rows) items))))
  export_case-Certified sha256_hex fresh case_id role creates writes gets closes v x y h =
      let prefix = prefix_of ext c in
      let events = list_all_by_case case_id s.events in
      let present =
        All-map (λ e. sealed-present sha256_hex s.objects e.sha256_hash e.storage_key) items h in
      let all =
        export_case_ok f creates writes gets closes ext now later s c items actor fresh case_id role
          v x y present in
      let entries = whole f creates writes gets closes ext now later s c items actor events in
      let a : Archive = record { entries = entries; closed = true } in
      let rows = hash_header ext ∷ map (hash_row ext) items in
      (
        a,
        (
          rows,
          (
            ap (λ r. r.0) all,
            (
              ap (λ r. r.1.0) all,
              (
                inr (
                    inr
                      (Has-append_right _ (files prefix s.objects items) _ (inr (inr (inl refl))))),
                certify-All sha256_hex s.objects ext prefix a rows items h
                    (λ z m. inr (inr (Has-append_left z (files prefix s.objects items) _ m)))
                    (λ r m. inr m),
              ),
            ),
          ),
        ),
      )

module _ (ext : Ext) (f : Faults) (fresh : Uuid) (now later : Time) where
  finish-closed :
      (case_id : Uuid) (role actor : String) (items : List EvidenceItem) (events : List Event)
      (p : Result Error (Unit {0}) × Archive)
      → f.close_fails ≡ false
      → (finish ext f fresh later case_id role actor items events p).1.0.closed ≡ true
  finish-closed case_id role actor items events (err e, a) h = if_not f.close_fails _ _ h
  finish-closed case_id role actor items events (ok _, a) h =
      ap (λ (r : Result Error (Unit {0}) × (Archive × List Event)). r.1.0.closed)
        (if_not f.close_fails _ _ h)
      ∙ if_not f.close_fails _ _ h

  -- Where the three reads succeed and the directory of the archive can be written, the archive is
  -- closed, also where the export returns an error, of an object that cannot be read or else.
  pub export_case-closed :
      (case_id : Uuid) (role actor : String) (s : Sources) (c : Case) (items : List EvidenceItem)
      → f.close_fails ≡ false
      → f.events_fail ≡ false
      → find_by_id f.find_fails case_id s.cases ≡ ok c
      → list_by_case_for_export f.list_fails case_id role s.disclosures s.items ≡ ok items
      → (export_case ext f fresh now later case_id role actor s).1.0.closed ≡ true
  unfolding export_case archive_case
  export_case-closed case_id role actor s c items closes v x y =
      rw (x, export_case)
        (rw y (
          ap (λ (r : Result Error (Unit {0}) × (Archive × List Event)). r.1.0.closed)
            (if_not f.events_fail _ _ v)
          ∙ finish-closed case_id role actor items s.events _ closes))

  export_case-disclosures :
      (case_id : Uuid) (actor : String) (s : Sources) (ds : List Disclosure)
      → export_case ext f fresh now later case_id "" actor s
        ≡ export_case ext f fresh now later case_id "" actor (record s { disclosures = ds })
  unfolding export_case list_by_case_for_export archive_case
  export_case-disclosures case_id actor s ds = refl

  handle_export-disclosures :
      (code_fails : Bool) (caller : Option Caller) (id : Option Uuid) (s : Sources)
      (ds : List Disclosure)
      → handle_export ext f code_fails fresh now later none caller id s
        ≡ handle_export ext f code_fails fresh now later none caller id
            (record s { disclosures = ds })
  unfolding handle_export
  handle_export-disclosures code_fails none id s ds = refl
  handle_export-disclosures code_fails (some u) none s ds = refl
  handle_export-disclosures code_fails (some u) (some id) s ds =
      elim (Result-cases (find_by_id code_fails id s.cases)) [
        | inr (e, y) ↦ rw (y, handle_export) refl
        | inl (c, y) ↦
            rw (y, handle_export)
              (ap (λ (r : Result Error (Unit {0}) × (Archive × List Event)). answered ext r.1)
                (export_case-disclosures id u.user_id s ds))
      ]

  -- Whoever asks, and whatever has been disclosed, the route answers the same: what it exports is
  -- never kept to the disclosed items.
  export_route-disclosures :
      (code_fails : Bool) (caller : Option Caller) (id : Option Uuid) (s : Sources)
      (ds : List Disclosure)
      → export_route ext f code_fails fresh now later caller id s
        ≡ export_route ext f code_fails fresh now later caller id (record s { disclosures = ds })
  unfolding export_route require_system_role
  export_route-disclosures code_fails none id s ds = refl
  export_route-disclosures code_fails (some u) id s ds =
      elim (Bool-cases (ltb (level u.system_role) (level role_case_admin))) [
        | inl low ↦ rw (low, export_route, require_system_role) refl
        | inr high ↦
            rw (high, export_route, require_system_role)
              (handle_export-disclosures code_fails (some u) id s ds)
      ]
