-- ===== src/Worker/Excel.antt =====
-- apps/worker/src/workflows/microsoft-excel/index.ts
pub mod Runs
pub mod Failures
use starion_sync.Base.{
  ℕ, ◌+◌, Bool, true, false, Option, none, some, Action, Outcome, ok, throw, Failure, plain, Cause,
  ErrorDetail, ErrorData, ErrorType, external_type, internal_type, property_of_undefined, pure,
  raise, catch, ◌>>=◌, ◌>>◌,
}
use starion_sync.Driver.{Driver}
use starion_sync.Entities.{ObjectId, Syncflow, SyncflowStateUpdate, no_state_update, idling}
use starion_sync.Events.{
  SyncflowScheduledPayload, SyncflowSucceedPayload, SyncflowFailedPayload, LoadStatistics, Event,
  syncflow_succeed, syncflow_failed, data_source_error, World, emit_event,
}
use starion_sync.Worker.{
  Services, CompareRequest, LoadRequest, ExcelDownloadRequest, WorkflowResult, workflow_wrapper,
  get_activity_error_detail,
}
use starion_sync.Worker.Activities.{
  ExcelSyncData, check_and_update_status_before_start_syncflow, update_syncflow_status,
  update_syncflow_state, get_sync_data_excel, download_excel, compare_data, load_data,
}

-- What a finished run writes: the next version, and the status that lets it be scheduled again.
unfoldable pub finished : SyncflowScheduledPayload → SyncflowStateUpdate
finished p = record no_state_update {
  status = some idling;
  version = some (p.version + 1);
  prev_version = some p.version;
}

abbrev pub succeed_payload : SyncflowScheduledPayload → LoadStatistics → SyncflowSucceedPayload
succeed_payload p statistics = record {
  data_source_id = p.syncflow.source_id;
  syncflow_id = p.syncflow.id;
  sync_version = p.version;
  prev_sync_version = p.syncflow.state.prev_version;
  statistics = statistics;
}

abbrev pub failed_payload : SyncflowScheduledPayload → ErrorType → ℕ → SyncflowFailedPayload
failed_payload p type code = record {
  data_source_id = p.syncflow.source_id;
  syncflow_id = p.syncflow.id;
  sync_version = p.version;
  error_type = type;
  code = code;
}

-- What the processors are sent.
abbrev pub download_request : SyncflowScheduledPayload → ExcelSyncData → ExcelDownloadRequest
download_request p sync_data = record {
  data_source_id = sync_data.data_source_id;
  sync_version = p.version;
  workbook_id = sync_data.workbook_id;
  worksheet_id = sync_data.worksheet_id;
  timezone = sync_data.timezone;
}

abbrev pub compare_request : SyncflowScheduledPayload → ExcelSyncData → CompareRequest
compare_request p sync_data = record {
  data_source_id = sync_data.data_source_id;
  sync_version = p.version;
  prev_version = p.syncflow.state.prev_version;
}

abbrev pub load_request : SyncflowScheduledPayload → ExcelSyncData → LoadRequest
load_request p sync_data = record {
  data_source_id = sync_data.data_source_id;
  sync_version = p.version;
  prev_version = p.syncflow.state.prev_version;
  table_name = sync_data.dest_table_name;
  metadata = sync_data.metadata;
}

module _ (m : Driver) (ext : Services) where
  unfoldable pub finish :
      SyncflowScheduledPayload → ExcelSyncData → LoadStatistics → Action (World m) (Unit {0})
  finish p sync_data statistics = do
    emit_event (
        syncflow_succeed
          (record (succeed_payload p statistics) { data_source_id = sync_data.data_source_id }))
    update_syncflow_state m ext p.syncflow.id (finished p)

  unfoldable pub compare_and_load :
      SyncflowScheduledPayload → ExcelSyncData → Action (World m) (Unit {0})
  compare_and_load p sync_data = do
    compare_data m ext (compare_request p sync_data)
    statistics ← load_data m ext (load_request p sync_data)
    finish p sync_data statistics

  unfoldable pub transfer : SyncflowScheduledPayload → ExcelSyncData → Action (World m) (Unit {0})
  transfer p sync_data = do
    download_excel m ext sync_data.refresh_token (download_request p sync_data)
    compare_and_load p sync_data

  -- The body of the `try`.
  unfoldable pub run_sync : SyncflowScheduledPayload → Action (World m) (Unit {0})
  run_sync p = do
    check_and_update_status_before_start_syncflow m ext p.syncflow.id
    get_sync_data_excel m ext p.syncflow >>= transfer p

  unfoldable pub by_error_type :
      SyncflowScheduledPayload → Failure → ErrorType → ℕ → Action (World m) (Unit {0})
  by_error_type p e external_type code = do
    update_syncflow_status m ext p.syncflow.id idling
    emit_event (data_source_error p.syncflow.source_id code)
    emit_event (syncflow_failed (failed_payload p external_type code))
    raise e
  by_error_type p e internal_type code = do
    update_syncflow_status m ext p.syncflow.id idling
    emit_event (syncflow_failed (failed_payload p internal_type code))

  unfoldable pub by_error_data :
      SyncflowScheduledPayload → Failure → Option ErrorData → Action (World m) (Unit {0})
  by_error_data p e none = raise e
  by_error_data p e (some d) = by_error_type p e d.type d.code

  -- The `catch`, which reads `errorDetail.errorData` also where there is no detail.
  unfoldable pub handle_error : SyncflowScheduledPayload → Failure → Action (World m) (Unit {0})
  handle_error p e = elim (get_activity_error_detail e) [
    | none ↦ raise (plain property_of_undefined)
    | some d ↦ by_error_data p e d.error_data
  ]

  -- `excelFullSync`.
  unfoldable pub excel_full_sync : SyncflowScheduledPayload → Action (World m) WorkflowResult
  excel_full_sync p = workflow_wrapper (catch (run_sync p) (handle_error p))
