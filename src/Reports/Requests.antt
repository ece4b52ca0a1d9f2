-- ===== src/Reports/Requests.antt =====
-- handler.go: the two routes of reports.
use Prim.Native.String.{◌++◌ as append}
use vault_keeper.Prelude.{ℕ, Bool, String, Option, none, some, ok, ◌>>=◌}
use vault_keeper.Prelude.Replies.{Reply, refused, read}
use vault_keeper.Custody.{Uuid, Time}
use vault_keeper.Evidence.Model.{Bytes}
use vault_keeper.Access.Roles.{role_case_admin}
use vault_keeper.Access.Gates.{Caller, Outcome, pass, refuse, deny, require_system_role}
use vault_keeper.Reports.Pdf.{
  Ext, Faults, Sources, Error, get_reference_code, generate_custody_pdf,
  generate_evidence_custody_pdf,
}

-- The name of a file that is handed out, and its bytes.
abbrev pub Download : Type 0
Download = String × Bytes

-- Every error is a 500.
abbrev pub status_of : Error → ℕ
status_of e = 500

abbrev pub guarded : Outcome → Reply Download → Reply Download
guarded (pass role) r = r
guarded (refuse status) r = refused status
guarded deny r = refused 403

module _ (ext : Ext) where
  -- The row of the case is read once for the name and once for the report.
  unfoldable pub export_case_custody :
      Bool → Faults → Time → Time → Option Uuid → Sources → Reply Download
  export_case_custody code_fails f now later none s = refused 400
  export_case_custody code_fails f now later (some id) s = read status_of (
      get_reference_code ext (record f { case_fails = code_fails }) id s >>= λ code.
      generate_custody_pdf ext f now later id s >>= λ pdf.
      ok (append "custody-report-" (append code ".pdf"), pdf))

  unfoldable pub export_evidence_custody :
      Faults → Time → Time → Option Uuid → Sources → Reply Download
  export_evidence_custody f now later none s = refused 400
  export_evidence_custody f now later (some id) s = read status_of (
      generate_evidence_custody_pdf ext f now later id s >>= λ pdf.
      ok (append "evidence-custody-" (append (ext.custody.uuid_string id) ".pdf"), pdf))

  unfoldable pub case_route :
      Bool → Faults → Time → Time → Option Caller → Option Uuid → Sources → Reply Download
  case_route code_fails f now later caller id s =
      guarded (require_system_role role_case_admin caller)
        (export_case_custody code_fails f now later id s)

  unfoldable pub evidence_route :
      Faults → Time → Time → Option Caller → Option Uuid → Sources → Reply Download
  evidence_route f now later caller id s =
      guarded (require_system_role role_case_admin caller)
        (export_evidence_custody f now later id s)
