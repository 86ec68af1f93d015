-- ===== src/FormSync/GoogleSheets/Service.antt =====
-- form-sync/main/src/modules/formsync/google-sheets/index.ts: `run`, `runRespectMetadata` and
-- `updateMetadata` of `GoogleSheetsFormSyncService`. Its errors are as those of Excel.
use starion_sync.Base.{
  Option, none, some, Action, Failure, plain, api, can_not_be_done, data_source_not_found, pure,
  gets, modify, or_raise, catch, ◌>>=◌, ◌>>◌, ◌==◌,
}
use starion_sync.Driver.{Driver}
use starion_sync.Entities.{ObjectId}
use starion_sync.FormSync.{Store, Graph, Google, FormSync, GoogleSheetsDataSource, no_data_exists}
use starion_sync.FormSync.Excel.{from_outcome}
use starion_sync.FormSync.Excel.Service.{
  delete_form_sync, run_failed, respectful_failed, when_ended,
}
use starion_sync.FormSync.GoogleSheets.{perform}

module _ (m : Driver) (g : Graph) (a : Google) where
  -- The `try`.
  unfoldable pub try_perform :
      (Failure → Action (Store m) (Unit {0}))
      → FormSync
      → GoogleSheetsDataSource
      → Action (Store m) (Unit {0})
  try_perform failed f d =
      catch (perform m g a f.type f d >> delete_form_sync m g f.id) (when_ended failed)

  -- `run`.
  unfoldable pub run : FormSync → Action (Store m) (Unit {0})
  run f = do
    found ← gets (λ s. m.find_one (λ d. d.id == f.data_source_id) s.google_sources)
    source ← or_raise found (api no_data_exists data_source_not_found)
    try_perform (run_failed m g f) f source

  -- `runRespectMetadata`.
  unfoldable pub run_respect_metadata : FormSync → Action (Store m) (Unit {0})
  run_respect_metadata f = do
    found ← gets (λ s. m.find_one (λ d. d.id == f.data_source_id) s.google_sources)
    source ← or_raise found (plain can_not_be_done)
    try_perform (respectful_failed m g f) f source

  -- An error of the rebuilding is logged.
  unfoldable pub update_metadata_of :
      ObjectId → Option GoogleSheetsDataSource → Action (Store m) (Unit {0})
  update_metadata_of id none = pure tt
  update_metadata_of id (some d) = from_outcome (a.get_access_token d.refresh_token) >>= λ token.
      catch (from_outcome (a.rebuild_google id d.spreadsheet_id d.sheet_id)) (λ e. pure tt)
      >> modify (λ s. record s {
        google_sources =
            m.update_one (λ d. d.id == id) (λ d. record d { metadata_synced_at = some (g.now) })
              s.google_sources;
      })

  -- `updateMetadata`.
  unfoldable pub update_metadata : ObjectId → Action (Store m) (Unit {0})
  update_metadata id =
      gets (λ s. m.find_one (λ d. d.id == id) s.google_sources) >>= update_metadata_of id
