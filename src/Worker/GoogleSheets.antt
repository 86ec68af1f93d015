-- ===== src/Worker/GoogleSheets.antt =====
-- apps/worker/src/workflows/google-sheets/index.ts: a full sync in three workflows, each started
-- by an event of the one before.
pub mod Download
pub mod Failures
use starion_sync.Base.{
  ℕ, ◌+◌, Bool, true, false, ◌&&◌, ◌||◌, Option, none, some, Action, Outcome, ok, throw, Failure,
  plain, Cause, ErrorDetail, ErrorData, ErrorType, external_type, internal_type, pure, raise, catch,
  ltb, ◌>>=◌, ◌>>◌, if◌then◌else◌,
}
use starion_sync.Driver.{Driver}
use starion_sync.Entities.{ObjectId, Syncflow, SyncflowStateUpdate, no_state_update, idling}
use starion_sync.Events.{
  SyncflowScheduledPayload, LoadStatistics, Event, syncflow_succeed, syncflow_failed,
  data_source_error, sheets_download, sheets_proceed_sync, World, emit_event,
}
use starion_sync.Worker.{
  Services, CompareRequest, LoadRequest, SheetsDownloadRequest, SheetsIngestRequest, WorkflowResult,
  workflow_wrapper, get_activity_error_detail, is_within_one_minute_range,
}
use starion_sync.Worker.Activities.{
  SheetsSyncData, SheetsDownloadData, check_and_update_status_before_start_syncflow,
  update_syncflow_state, get_download_data_google_sheets, get_sync_data_google_sheets,
  get_data_source_provider_google_sheets, update_provider_state_google_sheets,
  download_google_sheets, ingest_google_sheets, compare_data, load_data,
}
use starion_sync.Worker.Excel.{finished, succeed_payload, failed_payload}

-- `!ingestedAt && isWithinOneMinuteRange(now, at) || ingestedAt < at`; a comparison with
-- `undefined` is false.
abbrev pub newer : ℕ → Option ℕ → ℕ → Bool
newer now none at = is_within_one_minute_range now at
newer now (some ingested_at) at = ltb ingested_at at

-- Whether the provider's download serves this syncflow too.
unfoldable pub already_downloaded : ℕ → Option ℕ → Option ℕ → Bool
unfolding is_within_one_minute_range
already_downloaded now ingested_at none = false
already_downloaded now ingested_at (some at) = newer now ingested_at at

-- What a failed run writes: the next version, so that a retry is a new one.
unfoldable pub failed : SyncflowScheduledPayload → SyncflowStateUpdate
failed p = record no_state_update { status = some idling; version = some (p.version + 1) }

module _ (m : Driver) (ext : Services) where
  unfoldable pub by_error_type :
      SyncflowScheduledPayload → Failure → ErrorType → ℕ → Action (World m) (Unit {0})
  by_error_type p e external_type code = do
    update_syncflow_state m ext p.syncflow.id (failed p)
    emit_event (data_source_error p.syncflow.source_id code)
    emit_event (syncflow_failed (failed_payload p external_type code))
    raise e
  by_error_type p e internal_type code = do
    update_syncflow_state m ext p.syncflow.id (failed p)
    emit_event (syncflow_failed (failed_payload p internal_type code))
    raise e

  unfoldable pub by_error_data :
      SyncflowScheduledPayload → Failure → Option ErrorData → Action (World m) (Unit {0})
  by_error_data p e none = raise e
  by_error_data p e (some d) = by_error_type p e d.type d.code

  -- `GoogleSheetsFullSyncErrorHandler`.
  unfoldable pub handle_error : SyncflowScheduledPayload → Failure → Action (World m) (Unit {0})
  handle_error p e = elim (get_activity_error_detail e) [
    | none ↦ raise e
    | some d ↦ by_error_data p e d.error_data
  ]

  -- `googleSheetsFullSync`.
  unfoldable pub google_sheets_full_sync :
      SyncflowScheduledPayload → Action (World m) WorkflowResult
  google_sheets_full_sync p = workflow_wrapper (
      catch
        (do
          check_and_update_status_before_start_syncflow m ext p.syncflow.id
          provider ← get_data_source_provider_google_sheets m ext p.syncflow.source_id
          emit_event (sheets_download provider.id p))
        (handle_error p))

  unfoldable pub reuse_download : SyncflowScheduledPayload → Option ℕ → Action (World m) (Unit {0})
  reuse_download p at =
      update_syncflow_state m ext p.syncflow.id (record no_state_update { downloaded_at = at })

  unfoldable pub download_again :
      SyncflowScheduledPayload → SheetsDownloadData → Action (World m) (Unit {0})
  download_again p d = do
    download_google_sheets m ext d.refresh_token
        (record { data_provider_id = d.data_provider_id; spreadsheet_id = d.spreadsheet_id })
    update_provider_state_google_sheets m ext d.data_provider_id ext.later
    update_syncflow_state m ext p.syncflow.id
        (record no_state_update { downloaded_at = some ext.later })

  unfoldable pub fetch : SyncflowScheduledPayload → SheetsDownloadData → Action (World m) (Unit {0})
  unfolding reuse_download download_again already_downloaded
  fetch p d =
      if already_downloaded ext.now d.ingested_at d.provider_downloaded_at
      then reuse_download p d.provider_downloaded_at
      else download_again p d

  -- `googleSheetsDownload`.
  unfoldable pub google_sheets_download : SyncflowScheduledPayload → Action (World m) WorkflowResult
  google_sheets_download p = workflow_wrapper (
      catch
        (do
          d ← get_download_data_google_sheets m ext p.syncflow
          fetch p d
          emit_event (sheets_proceed_sync p))
        (handle_error p))

  -- The body of the `try` of `googleSheetsProceedSync`.
  unfoldable pub run_sync : SyncflowScheduledPayload → Action (World m) (Unit {0})
  unfolding finished
  run_sync p = do
    sync_data ← get_sync_data_google_sheets m ext p.syncflow
    ingest_google_sheets m ext sync_data.refresh_token (record {
      data_source_id = sync_data.data_source_id;
      data_provider_id = sync_data.data_provider_id;
      sync_version = p.version;
      spreadsheet_id = sync_data.spreadsheet_id;
      sheet_id = sync_data.sheet_id;
    })
    update_syncflow_state m ext p.syncflow.id
        (record no_state_update { ingested_at = some ext.later })
    compare_data m ext (record {
      data_source_id = sync_data.data_source_id;
      sync_version = p.version;
      prev_version = p.syncflow.state.prev_version;
    })
    statistics ← load_data m ext (record {
      data_source_id = sync_data.data_source_id;
      sync_version = p.version;
      prev_version = p.syncflow.state.prev_version;
      table_name = sync_data.dest_table_name;
      metadata = sync_data.metadata;
    })
    emit_event (
        syncflow_succeed
          (record (succeed_payload p statistics) { data_source_id = sync_data.data_source_id }))
    update_syncflow_state m ext p.syncflow.id (finished p)

  -- `googleSheetsProceedSync`.
  unfoldable pub google_sheets_proceed_sync :
      SyncflowScheduledPayload → Action (World m) WorkflowResult
  google_sheets_proceed_sync p = workflow_wrapper (catch (run_sync p) (handle_error p))
