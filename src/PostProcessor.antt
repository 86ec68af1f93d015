-- ===== src/PostProcessor.antt =====
-- apps/post-processor: what follows a syncflow that succeeded, failed or met a broken data
-- source. The object storage is an argument, as a function of the keys that it is asked to delete.
pub mod Statistics
pub mod Stopping
mod Tests
use starion_sync.Base.{
  ℕ, Bool, true, false, Option, none, some, List, [], ◌∷◌, Action, Outcome, ok, throw, Failure,
  plain, Cause, unknown_provider_type, property_of_undefined, pure, raise, when, catch, ◌>>=◌, ◌>>◌,
}
use starion_sync.Base.Int.{ℤ, ◌+ℤ◌, sub_ℕ}
use starion_sync.Driver.{Driver}
use starion_sync.Entities.{
  ObjectId, Syncflow, DataSource, SyncConnection, ProviderType, google_sheets, microsoft_excel,
  air_table, inactive, is_active, ProviderRef,
}
use starion_sync.Repository.{Db, no_options, deleted_too}
use starion_sync.Repository.Syncflows
use starion_sync.Repository.DataSources
use starion_sync.Repository.SyncConnections
use starion_sync.Events.{
  LoadStatistics, SyncflowSucceedPayload, Event, syncflow_completed, World, emit_event, on_db,
}

-- The keys `data/${id}-${version}.json` and so on.
pub data ObjectKey : Type 0 where
  data_json data_parquet schema_json added_rows deleted_rows : ObjectId → ℕ → ObjectKey
  deleted_fields updated_fields added_fields result_schema : ObjectId → ℕ → ObjectKey
  provider_xlsx : ObjectId → ObjectKey

-- `storageClient.send(new DeleteObjectsCommand(...))`.
pub record Storage : Type 0 where
  pub delete_objects : List ObjectKey → Outcome (Unit {0})

abbrev answer : {S A : Type 0} → Outcome A → Action S A
answer r s = (r, s)

unfoldable pub diff_keys : ObjectId → ℕ → List ObjectKey
diff_keys id v =
    data_json id v
    ∷ data_parquet id v
    ∷ schema_json id v
    ∷ added_rows id v
    ∷ deleted_rows id v
    ∷ deleted_fields id v
    ∷ updated_fields id v
    ∷ added_fields id v
    ∷ result_schema id v
    ∷ []

module _ (m : Driver) (storage : Storage) where
  -- `CleanerFactory.getWorkflowCleaner` and `run` of what it returns: both cleaners delete the
  -- objects of the previous version.
  unfoldable pub clean_workflow : ProviderType → Syncflow → ℕ → Action (World m) (Unit {0})
  unfolding diff_keys
  clean_workflow google_sheets s prev = answer (storage.delete_objects (diff_keys s.source_id prev))
  clean_workflow microsoft_excel s prev =
      answer (storage.delete_objects (diff_keys s.source_id prev))
  clean_workflow air_table s prev = raise (plain unknown_provider_type)

  -- `GoogleSheetsDataProviderCleaner.run`: after an error that it logs it reads `res.Errors`, of an
  -- undefined `res`.
  unfoldable pub clean_spreadsheet_data : ObjectId → Action (World m) (Unit {0})
  clean_spreadsheet_data id =
      catch (answer (storage.delete_objects (provider_xlsx id ∷ [])))
        (λ e. raise (plain property_of_undefined))

  -- `handleProviderDeleted`: `getDataProviderCleaner` returns the cleaner of Google Sheets for
  -- both kinds.
  unfoldable pub handle_provider_deleted : ObjectId → ProviderType → Action (World m) (Unit {0})
  unfolding clean_spreadsheet_data
  handle_provider_deleted id google_sheets = clean_spreadsheet_data id
  handle_provider_deleted id microsoft_excel = clean_spreadsheet_data id
  handle_provider_deleted id air_table = raise (plain unknown_provider_type)

  unfoldable pub stop_found : Option SyncConnection → Action (World m) (Unit {0})
  stop_found none = pure tt
  stop_found (some c) = when (is_active c.state.status) (
      on_db (
        SyncConnections.update_state m
          (record { id = c.id; status = some inactive; health_status = none }) no_options)
      >> pure tt)

  -- `stopSyncConnection`, which `handleDataSourceError` and `handleSyncflowFailed` call.
  unfoldable pub stop_sync_connection : ObjectId → Action (World m) (Unit {0})
  stop_sync_connection id = do
    found ← on_db (SyncConnections.get_by_data_source_id m id no_options)
    stop_found found

  -- `dataSource.statistics.rowsNumber + (addedRowsCount - deletedRowsCount)`.
  unfoldable pub rows_after : DataSource → LoadStatistics → ℤ
  rows_after d s = d.statistics.rows_number +ℤ sub_ℕ s.added_rows_count s.deleted_rows_count

  unfoldable pub record_rows : SyncflowSucceedPayload → DataSource → Action (World m) (Unit {0})
  record_rows p d = do
    on_db (
        DataSources.update_statistics m p.data_source_id
          (record { rows_number = some (rows_after d p.statistics); storage_usage = none })
          no_options)
    emit_event (
        syncflow_completed (record {
          data_source_id = p.data_source_id;
          syncflow_id = p.syncflow_id;
          sync_version = p.sync_version;
          rows_number = rows_after d p.statistics;
        }))

  unfoldable pub succeed_found :
      SyncflowSucceedPayload → Option Syncflow → Option DataSource → Action (World m) (Unit {0})
  succeed_found p none d = pure tt
  succeed_found p (some s) none = pure tt
  succeed_found p (some s) (some d) =
      clean_workflow d.provider.type s p.prev_sync_version >> record_rows p d

  -- `SyncflowService.handleSyncflowSucceed`.
  unfoldable pub handle_syncflow_succeed : SyncflowSucceedPayload → Action (World m) (Unit {0})
  handle_syncflow_succeed p = do
    s ← on_db (Syncflows.get_by_id m p.syncflow_id deleted_too)
    d ← on_db (DataSources.get_by_id m p.data_source_id deleted_too)
    succeed_found p s d
