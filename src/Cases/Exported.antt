-- ===== src/Cases/Exported.antt =====
-- What an archive holds.
use mathlib.Core.Option.{get_or}
use mathlib.Core.List.{append_assoc, append-nil}
use Prim.Native.String.{◌++◌ as append}
use vault_keeper.Prelude.{
  String, ◌≡◌, refl, sym, ap, ◌∙◌, true, false, List, [], ◌∷◌, ◌++◌, map, Option, none, some,
  Result, ok, if_not, All,
}
use vault_keeper.Prelude.Exec.{continue, pure, ◌>>◌}
use vault_keeper.Custody.{Event, Uuid, Time}
use vault_keeper.Custody.Log.{list_all_by_case, record_case_event}
use vault_keeper.Evidence.Model.{Bytes, EvidenceItem}
use vault_keeper.Evidence.Store.{object}
use vault_keeper.Evidence.Listing.{list_by_case_for_export}
use vault_keeper.Cases.Model.{Case, find_by_id}
use vault_keeper.Cases.Archive.{
  Content, Error, Op, manifest, case_json, file, table, readme, Archive, Ext, Faults, with_entry,
  write, copy_file, copy_item, file_name, write_evidence_files, metadata_header, metadata_row,
  custody_header, custody_row, hash_header, hash_row, manifest_of, prefix_of, build_archive,
}
use vault_keeper.Cases.Export.{
  Sources, export_detail, archive_case, export_case, empty_archive, finish,
}

-- An item that has a key has its object in the storage.
abbrev pub PresentAt : List (String × Bytes) → Option String → Type 0
PresentAt objects none = Unit
PresentAt objects (some key) = (content : Bytes) × (object key objects ≡ some content)

abbrev pub Present : List (String × Bytes) → EvidenceItem → Type 0
Present objects e = PresentAt objects e.storage_key

abbrev pub file_at : String → List (String × Bytes) → Option String → List (String × Content)
file_at name objects none = []
file_at name objects (some key) = (name, file (get_or (object key objects) [])) ∷ []

-- The files of the items that have a key, each under its number and name.
abbrev pub files : String → List (String × Bytes) → List EvidenceItem → List (String × Content)
files prefix objects [] = []
files prefix objects (e ∷ es) =
    file_at (file_name prefix e) objects e.storage_key ++ files prefix objects es

abbrev added : List (String × Content) → Archive → Archive
added es a = record a { entries = a.entries ++ es }

abbrev done : Archive → Result Error (Unit {0}) × Archive
done a = (ok tt, a)

same_archive :
    (a : Archive) (xs : List (String × Content)) {ys : List (String × Content)}
    → xs ≡ ys
    → done (record a { entries = xs }) ≡ done (record a { entries = ys })
same_archive a xs h = ap (λ l. done (record a { entries = l })) h

-- A step that succeeds and adds these entries.
abbrev Writes : Op (Unit {0}) → List (String × Content) → Type 0
Writes m es = (a : Archive) → m a ≡ done (added es a)

Writes-pure : Writes (pure tt) []
Writes-pure a = same_archive a a.entries (sym (append-nil a.entries))

Writes-then :
    (m n : Op (Unit {0})) (es fs : List (String × Content))
    → Writes m es
    → Writes n fs
    → Writes (m >> n) (es ++ fs)
Writes-then m n es fs h k a =
    ap (λ r. continue r (λ _. n)) (h a)
    ∙ k (added es a)
    ∙ same_archive a ((a.entries ++ es) ++ fs) (append_assoc a.entries es fs)

module _ (f : Faults) (creates : (name : String) → f.create_fails name ≡ false)
    (writes : (name : String) → f.write_fails name ≡ false)
    (gets : (key : String) → f.get_fails key ≡ false) where
  write_ok :
      (name : String) (c : Content) (a : Archive) → write f name c a ≡ (ok tt, with_entry name c a)
  unfolding write
  write_ok name c a = rw (creates name, writes name) refl

  copy_item_ok :
      (prefix : String) (objects : List (String × Bytes)) (e : EvidenceItem) (key : Option String)
      (a : Archive)
      → PresentAt objects key
      → copy_item f prefix objects e key a
        ≡ (ok tt, added (file_at (file_name prefix e) objects key) a)
  unfolding copy_file
  copy_item_ok prefix objects e none a h = Writes-pure a
  copy_item_ok prefix objects e (some key) a (content, h) =
      rw (creates (file_name prefix e), gets key, h, writes (file_name prefix e)) refl

  write_evidence_files_ok :
      (prefix : String) (objects : List (String × Bytes)) (es : List EvidenceItem)
      → All (Present objects) es
      → Writes (write_evidence_files f prefix objects es) (files prefix objects es)
  unfolding write_evidence_files
  write_evidence_files_ok prefix objects [] h = Writes-pure
  write_evidence_files_ok prefix objects (e ∷ es) h =
      Writes-then (copy_item f prefix objects e e.storage_key)
        (write_evidence_files f prefix objects es)
        (file_at (file_name prefix e) objects e.storage_key) (files prefix objects es)
        (λ a. copy_item_ok prefix objects e e.storage_key a h.0)
        (write_evidence_files_ok prefix objects es h.1)

  module _ (closes : f.close_fails ≡ false) (ext : Ext) (now later : Time) (s : Sources) (c : Case)
      (items : List EvidenceItem) (actor : String) where
    -- Every entry, in the order of the archive.
    abbrev pub whole : List Event → List (String × Content)
    whole events =
        ((append (prefix_of ext c) "manifest.json", manifest (manifest_of ext now c items actor))
          ∷ (append (prefix_of ext c) "case.json", case_json c)
          ∷ [])
        ++ (files (prefix_of ext c) s.objects items
            ++ ((
              append (prefix_of ext c) "metadata.csv",
              table (metadata_header ext ∷ map (metadata_row ext) items),
            )
                ∷ (
                  append (prefix_of ext c) "custody_log.csv",
                  table (custody_header ext ∷ map (custody_row ext) events),
                )
                ∷ (
                  append (prefix_of ext c) "hashes.csv",
                  table (hash_header ext ∷ map (hash_row ext) items),
                )
                ∷ (append (prefix_of ext c) "README.txt", readme c later)
                ∷ []))

    build_archive_ok :
        (events : List Event)
        → All (Present s.objects) items
        → build_archive ext f now later s.objects c items events actor (empty_archive ext)
          ≡ (ok tt, record { entries = whole events; closed = false })
    unfolding build_archive
    build_archive_ok events h =
        let prefix = prefix_of ext c in
        Writes-then _ _ _ _
          (write_ok (append prefix "manifest.json") (manifest (manifest_of ext now c items actor)))
          (Writes-then _ _ _ _ (write_ok (append prefix "case.json") (case_json c)) (
            Writes-then _ _ _ _ (write_evidence_files_ok prefix s.objects items h) (
              Writes-then _ _ _ _
                (write_ok (append prefix "metadata.csv")
                  (table (metadata_header ext ∷ map (metadata_row ext) items)))
                (Writes-then _ _ _ _
                  (write_ok (append prefix "custody_log.csv")
                    (table (custody_header ext ∷ map (custody_row ext) events)))
                  (Writes-then _ _ _ _
                    (write_ok (append prefix "hashes.csv")
                      (table (hash_header ext ∷ map (hash_row ext) items)))
                    (write_ok (append prefix "README.txt") (readme c later)))))))
          (empty_archive ext)

    -- Without faults, and with an object for each listed item that has a key, an export succeeds: the
    -- archive is closed and holds the manifest, the case, the file of each such item under its number
    -- and name, the metadata, the log of the case as it was before, the hashes and the README, in this
    -- order, and the export is recorded after that.
    pub export_case_ok :
        (fresh case_id : Uuid) (role : String)
        → f.events_fail ≡ false
        → find_by_id f.find_fails case_id s.cases ≡ ok c
        → list_by_case_for_export f.list_fails case_id role s.disclosures s.items ≡ ok items
        → All (Present s.objects) items
        → export_case ext f fresh now later case_id role actor s ≡ (
          ok tt,
          (
            record { entries = whole (list_all_by_case case_id s.events); closed = true },
            (record_case_event ext.custody f.recorder fresh later case_id "case_exported" actor
                (export_detail ext items role)
                s.events).1,
          ),
        )
    unfolding export_case archive_case
    export_case_ok fresh case_id role v x y h =
        let events = list_all_by_case case_id s.events in
        let a : Archive = record { entries = whole events; closed = false } in
        let logged =
          (record_case_event ext.custody f.recorder fresh later case_id "case_exported" actor
            (export_detail ext items role) s.events).1 in
        rw (x, export_case)
          (rw y (
            if_not f.events_fail _ _ v
            ∙ ap (finish ext f fresh later case_id role actor items s.events)
                (build_archive_ok events h)
            ∙ if_not f.close_fails _ _ closes
            ∙ ap (λ b. (ok tt, (record a { closed = b }, logged)))
                (if_not f.close_fails _ _ closes)))
