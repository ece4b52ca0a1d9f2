-- ===== src/Evidence/Versions.antt =====
-- `UploadNewVersion` and `GetVersionHistory` of service.go.
use vault_keeper.Prelude.{ℕ, ◌+◌, String, not, List, [], ◌∷◌, Result, is_none, if◌then◌else◌}
use vault_keeper.Prelude.Exec.{raise, ◌>>=◌, ◌>>◌}
use vault_keeper.Custody.{Uuid, Time}
use vault_keeper.Evidence.Model.{EvidenceItem, UploadInput}
use vault_keeper.Evidence.Repository.{
  Error, validation, find_by_id, mark_previous_versions, update_version_fields, root_id,
  find_version_history,
}
use vault_keeper.Evidence.Store.{
  Op, Store, Faults, on_items, reading_items, forgiven, record_custody_event,
}
use vault_keeper.Evidence.Service.{Ext, TsaReply, upload}

-- What follows the upload: the marks, the fields of the new version, the event, and the item again.
unfoldable pub link_version :
    Ext → (Uuid → String) → Faults → EvidenceItem → EvidenceItem → String → Op EvidenceItem
link_version ext uuid_string f parent e by = do
  forgiven (on_items (mark_previous_versions f.mark_fails (root_id parent)))
  forgiven
      (on_items (update_version_fields f.version_fails e.id (root_id parent) (parent.version + 1)))
  record_custody_event f parent.case_id e.id "new_version_uploaded" by (
      ("parent_id", uuid_string parent.id)
      ∷ ("previous_version", ext.decimal parent.version)
      ∷ ("new_version", ext.decimal (parent.version + 1))
      ∷ [])
  reading_items (find_by_id f.find_again_fails e.id)

-- A second set of faults is that of the upload inside.
unfoldable pub upload_new_version :
    Ext
    → (Uuid → String)
    → ℕ
    → Faults
    → Faults
    → Uuid
    → Uuid
    → Time
    → TsaReply
    → Uuid
    → UploadInput
    → Store
    → Result Error EvidenceItem × Store
upload_new_version ext uuid_string max_upload f g fresh row_id now reply parent_id input = do
  parent ← reading_items (find_by_id f.find_fails parent_id)
  if not (is_none parent.destroyed_at)
      then raise (validation "evidence" "cannot version destroyed evidence")
      else do
        e ←
            upload ext max_upload g fresh row_id now reply
              (record input { case_id = parent.case_id })
        link_version ext uuid_string f parent e input.uploaded_by

unfoldable pub get_version_history : Faults → Uuid → Store → Result Error (List EvidenceItem)
get_version_history f id s = find_version_history f.find_fails f.get_fails id s.items
