-- ===== src/Tests/Exports.antt =====
-- The export of a case with one item.
use Prim.Native.String.{◌++◌ as append}
use vault_keeper.Prelude.{
  Has, String, ◌≡◌, refl, true, false, not, ◌&&◌, ◌||◌, List, [], ◌∷◌, ok, ◌==◌, nat_eq, string_eq,
  All, any, filter, length, is_none,
}
use vault_keeper.Prelude.Sort.{sort_by}
use vault_keeper.Custody.Log.{no_faults}
use vault_keeper.Access.Roles.{role_case_admin}
use vault_keeper.Access.Gates.{Caller}
use vault_keeper.Evidence.Model.{EvidenceItem}
use vault_keeper.Evidence.Listing.{Disclosure, list_by_case_for_export}
use vault_keeper.Evidence.Disclosed.{list_by_case_for_export-count}
use vault_keeper.Cases.Model.{Case, find_by_id}
use vault_keeper.Cases.Archive.{Ext, Faults, Archive, table, prefix_of}
use vault_keeper.Cases.Export.{Sources, export_case}
use vault_keeper.Cases.Certified.{Certified, export_case-Certified, export_case-closed}
use vault_keeper.Tests.Custody.{toy}
use vault_keeper.Tests.Cases.{case_at}
use vault_keeper.Tests.Evidence.{item}

abbrev ext : Ext
ext = record { decimal = λ n. "2"; rfc3339 = λ t. "now"; custody = toy }

abbrev faultless : Faults
faultless = record {
  find_fails = false;
  list_fails = false;
  events_fail = false;
  create_fails = λ name. false;
  write_fails = λ name. false;
  get_fails = λ key. false;
  close_fails = false;
  recorder = no_faults;
}

abbrev closed_case : Case
closed_case = case_at "closed" false

abbrev defence : String
defence = "defence"

abbrev disclosure : Disclosure
disclosure = record { case_id = 4; evidence_id = 9 }

abbrev sources : Sources
sources = record {
  cases = closed_case ∷ [];
  items = item ∷ [];
  disclosures = disclosure ∷ [];
  objects = ("a.txt", 7 ∷ 8 ∷ []) ∷ [];
  events = [];
}

list_by_case_for_export-count_example :
    (listed : List EvidenceItem) × ((list_by_case_for_export false 4 defence
          (disclosure ∷ [])
          (item ∷ [])
        ≡ ok listed)
      × (length (filter (λ (e : EvidenceItem). e.id == 9) listed)
          ≡ length (
              filter
                (λ (e : EvidenceItem).
                  (e.case_id == 4
                    && (e.is_current
                        && (is_none e.destroyed_at
                            && (not (defence == "defence")
                                || any
                                    (λ (d : Disclosure).
                                      d.evidence_id == e.id && d.case_id == e.case_id)
                                    (disclosure ∷ [])))))
                  && e.id == 9)
                (item ∷ []))))
list_by_case_for_export-count_example =
    list_by_case_for_export-count 4 defence (disclosure ∷ []) (item ∷ [])
      (λ (e : EvidenceItem). e.id == 9)

export_case-Certified_example :
    (a : Archive) × ((rows : List (List String)) × (((export_case ext faultless 1 2 3 4 "" "u"
            sources).0
          ≡ ok tt)
        × (((export_case ext faultless 1 2 3 4 "" "u" sources).1.0 ≡ a)
            × (Has (append (prefix_of ext closed_case) "hashes.csv", table rows) a.entries
                × All
                    (Certified (λ b. "e3b0") sources.objects ext (prefix_of ext closed_case) a rows)
                    (item ∷ [])))))
unfolding find_by_id list_by_case_for_export sort_by
export_case-Certified_example =
    export_case-Certified ext faultless 2 3 sources closed_case (item ∷ []) "u" (λ b. "e3b0") 1 4 ""
      (λ name. refl) (λ name. refl) (λ key. refl) refl refl refl refl
      ((7 ∷ 8 ∷ [], (refl, refl)), tt)

-- The storage gives nothing.
abbrev no_object : Faults
no_object = record faultless { get_fails = λ key. true }

export_case-closed_example : (export_case ext no_object 1 2 3 4 "" "u" sources).1.0.closed ≡ true
unfolding find_by_id list_by_case_for_export sort_by
export_case-closed_example =
    export_case-closed ext no_object 1 2 3 4 "" "u" sources closed_case (item ∷ []) refl refl refl
      refl

abbrev admin : Caller
admin = record { user_id = "u"; system_role = role_case_admin }
