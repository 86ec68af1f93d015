-- ===== src/Worker/Activities.antt =====
-- apps/worker/src/activities and modules/workflow/workflow.service.ts.
use starion_sync.Base.{
  ℕ, true, false, Option, none, some, String, Action, Outcome, plain, acceptable, unacceptable,
  ErrorDetail, property_of_undefined, syncflow_already_started, data_source_not_found,
  data_provider_not_found, pure, raise_if, or_raise, ◌>>=◌, ◌>>◌, if◌then◌else◌, ◌==◌,
}
use starion_sync.Driver.{Driver}
use starion_sync.Entities.{
  ObjectId, Metadata, Syncflow, SyncflowStateUpdate, WorkflowStatus, running, is_running,
  ProviderRef, DataSource, DataProvider,
}
use starion_sync.Repository.{no_options}
use starion_sync.Repository.Syncflows
use starion_sync.Repository.DataSources
use starion_sync.Repository.DataProviders
use starion_sync.Events.{LoadStatistics, World, on_db}
use starion_sync.Worker.{
  Services, CompareRequest, LoadRequest, ExcelDownloadRequest, SheetsDownloadRequest,
  SheetsIngestRequest, answer, activity_wrapper, processor_api_wrapper, processor_wrapper, text_or,
}

abbrev pub forgiven : ErrorDetail
forgiven = record {
  should_activity_retry = none;
  should_workflow_fail = some false;
  error_data = none;
}

pub record ExcelSyncData : Type 0 where
  pub data_source_id : ObjectId
  pub workbook_id : String
  pub worksheet_id : String
  pub timezone : String
  pub refresh_token : String
  pub dest_table_name : String
  pub metadata : Option Metadata

pub record SheetsSyncData : Type 0 where
  pub data_provider_id : ObjectId
  pub data_source_id : ObjectId
  pub spreadsheet_id : String
  pub sheet_id : String
  pub refresh_token : String
  pub dest_table_name : String
  pub metadata : Option Metadata

pub record SheetsDownloadData : Type 0 where
  pub data_provider_id : ObjectId
  pub provider_downloaded_at : Option ℕ
  pub ingested_at : Option ℕ
  pub spreadsheet_id : String
  pub refresh_token : String

-- The metadata go along with the first version only.
abbrev pub first_metadata : Syncflow → DataSource → Option Metadata
first_metadata s d = if s.state.prev_version == 0 then some (d.metadata) else none

module _ (m : Driver) (ext : Services) where
  -- `WorkflowService.checkAndUpdateStatusBeforeStartSyncflow`. The message of the error for a
  -- missing syncflow reads `syncflow.id`, which is a TypeError.
  unfoldable pub start_syncflow : ObjectId → Action (World m) (Option Syncflow)
  start_syncflow id = do
    found ← on_db (Syncflows.get_by_id m id no_options)
    syncflow ← or_raise found (plain property_of_undefined)
    raise_if (is_running syncflow.state.status) (acceptable syncflow_already_started)
    on_db (Syncflows.update_status m id running (record no_options { new = true }))

  unfoldable pub check_and_update_status_before_start_syncflow :
      ObjectId → Action (World m) (Unit {0})
  unfolding start_syncflow activity_wrapper
  check_and_update_status_before_start_syncflow id = activity_wrapper (start_syncflow id) >> pure tt

  unfoldable pub update_syncflow_status : ObjectId → WorkflowStatus → Action (World m) (Unit {0})
  update_syncflow_status id status =
      on_db (Syncflows.update_status m id status no_options) >> pure tt

  unfoldable pub update_syncflow_state :
      ObjectId → SyncflowStateUpdate → Action (World m) (Unit {0})
  update_syncflow_state id u = on_db (Syncflows.update_state m id u no_options) >> pure tt

  -- The result of an activity that throws no acceptable error.
  abbrev pub result_of : {A : Type 0} → Action (World m) A → Action (World m) A
  result_of f = do r ← activity_wrapper f; or_raise r (plain property_of_undefined)

  -- No `activityWrapper` stands around this activity.
  unfoldable pub get_sync_data_excel : Syncflow → Action (World m) ExcelSyncData
  get_sync_data_excel s = do
    found ← on_db (DataSources.get_by_id m s.source_id no_options)
    d ← or_raise found (unacceptable data_source_not_found forgiven)
    pure (record {
      data_source_id = s.source_id;
      workbook_id = d.config.workbook_id;
      worksheet_id = d.config.worksheet_id;
      timezone = d.config.timezone;
      refresh_token = d.config.refresh_token;
      dest_table_name = text_or d.config.table_name (ext.id_table_name d.id);
      metadata = first_metadata s d;
    })

  -- The data source of a syncflow and its provider.
  find_source_and_provider : Syncflow → Action (World m) (DataSource × DataProvider)
  find_source_and_provider s = do
    found ← on_db (DataSources.get_by_id m s.source_id no_options)
    d ← or_raise found (unacceptable data_source_not_found forgiven)
    provider ← on_db (DataProviders.get_by_id m d.provider.id no_options)
    p ← or_raise provider (unacceptable data_provider_not_found forgiven)
    pure (d, p)

  unfoldable pub get_download_data_google_sheets : Syncflow → Action (World m) SheetsDownloadData
  unfolding activity_wrapper find_source_and_provider
  get_download_data_google_sheets s = result_of do
    (d, p) ← find_source_and_provider s
    pure (record {
      data_provider_id = d.provider.id;
      provider_downloaded_at = p.downloaded_at;
      ingested_at = s.state.ingested_at;
      spreadsheet_id = d.config.spreadsheet_id;
      refresh_token = d.config.refresh_token;
    })

  unfoldable pub get_sync_data_google_sheets : Syncflow → Action (World m) SheetsSyncData
  unfolding activity_wrapper find_source_and_provider
  get_sync_data_google_sheets s = result_of do
    (d, p) ← find_source_and_provider s
    pure (record {
      data_provider_id = d.provider.id;
      data_source_id = s.source_id;
      spreadsheet_id = d.config.spreadsheet_id;
      sheet_id = d.config.sheet_id;
      refresh_token = d.config.refresh_token;
      dest_table_name = text_or d.config.table_name (ext.id_table_name d.id);
      metadata = first_metadata s d;
    })

  unfoldable pub get_data_source_provider_google_sheets : ObjectId → Action (World m) ProviderRef
  unfolding activity_wrapper
  get_data_source_provider_google_sheets id = result_of do
    found ← on_db (DataSources.get_by_id m id no_options)
    d ← or_raise found (plain property_of_undefined)
    pure d.provider

  unfoldable pub update_provider_state_google_sheets : ObjectId → ℕ → Action (World m) (Unit {0})
  unfolding activity_wrapper
  update_provider_state_google_sheets id downloaded_at = result_of do
    found ← on_db (DataProviders.get_by_id m id no_options)
    or_raise found (unacceptable data_provider_not_found forgiven)
    on_db (DataProviders.update_state m id (some downloaded_at) no_options)
    pure tt

  -- `activityWrapper`, `processorWrapper` and `processorApiWrapper` around a processor's reply.
  abbrev with_token : {A : Type 0} → String → (String → Outcome A) → Action (World m) A
  with_token refresh_token call =
      result_of
        (processor_wrapper do token ← answer (ext.access_token refresh_token); answer (call token))

  unfoldable pub download_excel : String → ExcelDownloadRequest → Action (World m) (Unit {0})
  unfolding activity_wrapper processor_wrapper processor_api_wrapper
  download_excel refresh_token r =
      with_token refresh_token (λ token. processor_api_wrapper (ext.download_excel r token))

  unfoldable pub download_google_sheets :
      String → SheetsDownloadRequest → Action (World m) (Unit {0})
  unfolding activity_wrapper processor_wrapper processor_api_wrapper
  download_google_sheets refresh_token r =
      with_token refresh_token (λ token. processor_api_wrapper (ext.download_sheets r token))

  unfoldable pub ingest_google_sheets : String → SheetsIngestRequest → Action (World m) (Unit {0})
  unfolding activity_wrapper processor_wrapper processor_api_wrapper
  ingest_google_sheets refresh_token r =
      with_token refresh_token (λ token. processor_api_wrapper (ext.ingest_sheets r token))

  -- `compareExcel` and `compareGoogleSheets`, which differ in the URL.
  unfoldable pub compare_data : CompareRequest → Action (World m) (Unit {0})
  unfolding activity_wrapper processor_wrapper processor_api_wrapper
  compare_data r =
      result_of (processor_wrapper (answer (processor_api_wrapper (ext.compare_data r))))

  -- `loadExcel` and `loadGoogleSheets`.
  unfoldable pub load_data : LoadRequest → Action (World m) LoadStatistics
  unfolding activity_wrapper processor_wrapper processor_api_wrapper
  load_data r = result_of (processor_wrapper (answer (processor_api_wrapper (ext.load_data r))))
