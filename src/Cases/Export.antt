-- ===== src/Cases/Export.antt =====
-- export.go and export_handler.go: the export of a case, and its route.
use mathlib.Core.Option.{get_or}
use vault_keeper.Prelude.{
  ℕ, String, Bool, true, false, List, [], ◌∷◌, Option, none, some, Result, ok, err, nat_eq,
  if◌then◌else◌, length,
}
use vault_keeper.Custody.{Event, Uuid, Time}
use vault_keeper.Custody.Log.{list_all_by_case, record_case_event}
use vault_keeper.Evidence.Model.{Bytes, EvidenceItem}
use vault_keeper.Evidence.Listing.{Disclosure, list_by_case_for_export}
use vault_keeper.Access.Roles.{role_case_admin}
use vault_keeper.Access.Gates.{Caller, pass, refuse, deny, require_system_role}
use vault_keeper.Cases.Model.{Case, find_by_id}
use vault_keeper.Cases.Archive.{
  Error, Archive, Ext, Faults, build_archive, load_case, list_evidence, list_events, close_zip,
}

-- What an export reads, and the log that it writes to.
pub record Sources : Type 0 where
  pub cases : List Case
  pub items : List EvidenceItem
  pub disclosures : List Disclosure
  pub objects : List (String × Bytes)
  pub events : List Event

module _ (ext : Ext) where
  open ext use {decimal}

  -- The deferred `Close` runs on each error of the archive too.
  abbrev pub close : Faults → Archive → Archive
  close f a = record a { closed = if f.close_fails then a.closed else true }

  abbrev pub export_detail : List EvidenceItem → String → List (String × String)
  export_detail items role = ("evidence_count", decimal (length items)) ∷ ("user_role", role) ∷ []

  -- The event is recorded after a whole archive, its error dropped.
  abbrev pub finish :
      Faults
      → Uuid
      → Time
      → Uuid
      → String
      → String
      → List EvidenceItem
      → List Event
      → Result Error (Unit {0}) × Archive
      → Result Error (Unit {0}) × (Archive × List Event)
  finish f fresh later case_id role actor items events (err e, a) = (err e, (close f a, events))
  finish f fresh later case_id role actor items events (ok _, a) =
      let logged =
        (record_case_event ext.custody f.recorder fresh later case_id "case_exported" actor
          (export_detail items role) events).1 in
      if f.close_fails then (err close_zip, (a, events)) else (ok tt, (close f a, logged))

  abbrev pub empty_archive : Archive
  empty_archive = record { entries = []; closed = false }

  -- From the three reads on.
  unfoldable pub archive_case :
      Faults
      → Uuid
      → Time
      → Time
      → Uuid
      → String
      → String
      → Sources
      → Case
      → List EvidenceItem
      → Result Error (Unit {0}) × (Archive × List Event)
  archive_case f fresh now later case_id role actor s c items =
      finish f fresh later case_id role actor items s.events (
        build_archive ext f now later s.objects c items (list_all_by_case case_id s.events) actor
          empty_archive)

  -- `ExportCase`, with what it streams and the log as it leaves it.
  unfoldable pub export_case :
      Faults
      → Uuid
      → Time
      → Time
      → Uuid
      → String
      → String
      → Sources
      → Result Error (Unit {0}) × (Archive × List Event)
  export_case f fresh now later case_id role actor s =
      elim (find_by_id f.find_fails case_id s.cases) [
        | err _ ↦ (err load_case, (empty_archive, s.events))
        | ok c ↦ elim (list_by_case_for_export f.list_fails case_id role s.disclosures s.items) [
          | err _ ↦ (err list_evidence, (empty_archive, s.events))
          | ok items ↦
              if f.events_fail
              then (err list_events, (empty_archive, s.events))
              else archive_case f fresh now later case_id role actor s c items
        ]
      ]

  -- What the handler answers: the status, the archive of a 200, and the log.
  pub record Response : Type 0 where
    pub status : ℕ
    pub body : Option Archive
    pub log : List Event

  abbrev pub answered : Archive × List Event → Response
  answered (archive, log) = record { status = 200; body = some archive; log = log }

  -- `ExportCase` of the handler. `case_role` is what a guard put into the context. The headers of a
  -- 200 are out before the export begins, so its error changes nothing.
  unfoldable pub handle_export :
      Faults
      → Bool
      → Uuid
      → Time
      → Time
      → Option String
      → Option Caller
      → Option Uuid
      → Sources
      → Response
  handle_export f code_fails fresh now later case_role none id s = record {
    status = 500;
    body = none;
    log = s.events;
  }
  handle_export f code_fails fresh now later case_role (some u) none s = record {
    status = 400;
    body = none;
    log = s.events;
  }
  handle_export f code_fails fresh now later case_role (some u) (some id) s =
      elim (find_by_id code_fails id s.cases) [
        | err _ ↦ record { status = 404; body = none; log = s.events }
        | ok c ↦ answered (export_case f fresh now later id (get_or case_role "") u.user_id s).1
      ]

  -- The route, behind its guard.
  unfoldable pub export_route :
      Faults → Bool → Uuid → Time → Time → Option Caller → Option Uuid → Sources → Response
  export_route f code_fails fresh now later caller id s =
      elim (require_system_role role_case_admin caller) [
        | pass case_role ↦ handle_export f code_fails fresh now later case_role caller id s
        | refuse status ↦ record { status = status; body = none; log = s.events }
        | deny ↦ record { status = 403; body = none; log = s.events }
      ]
