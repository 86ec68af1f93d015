-- ===== src/Worker/Tests.antt =====
-- The worker's theorems at a concrete database, with processors that answer, that report an error,
-- or that cannot be given what they need.
use starion_sync.Base.{
  first, modify_first, ◌≡◌, refl, true, none, some, [], ◌∷◌, ok, throw, plain, unacceptable,
  data_source_not_found, property_of_undefined, internal_type, ErrorDetail, application,
}
use starion_sync.Driver.Memory.{memory}
use starion_sync.Entities.{idling, scheduled}
use starion_sync.Repository.Syncflows
use starion_sync.Repository.Syncflows.{update_live, set_state}
use starion_sync.Repository.DataSources
use starion_sync.Events.{World, LoadStatistics, SyncflowScheduledPayload, syncflow_succeed}
use starion_sync.Worker.{
  Services, Reply, replied, error_response, CompareRequest, LoadRequest, completed,
  get_activity_error_detail, activity_wrapper, processor_wrapper, processor_api_wrapper,
  application_failure,
}
use starion_sync.Worker.Activities.{
  load_data, compare_data, check_and_update_status_before_start_syncflow, start_syncflow,
  get_sync_data_excel, download_excel, forgiven, get_sync_data_google_sheets, ingest_google_sheets,
}
use starion_sync.Repository.DataProviders
use starion_sync.Worker.Errors.{ended, typed_error, load_data_lem}
use starion_sync.Worker.Excel.{
  succeed_payload, run_sync, transfer, compare_and_load, excel_full_sync,
}
use starion_sync.Worker.Excel.Runs.{start, with_syncflow, excel_full_sync-Succeeds}
use starion_sync.Worker.Excel.Failures.{handled, excel_full_sync_fails, excel_full_sync_breaks}
use starion_sync.Worker.GoogleSheets
use starion_sync.Worker.GoogleSheets.{google_sheets_proceed_sync}
use starion_sync.Worker.GoogleSheets.Failures
use starion_sync.Worker.GoogleSheets.Failures.{google_sheets_proceed_sync_fails}
use starion_sync.Worker.GoogleSheets.Download.{reused, google_sheets_download_reuses}
use starion_sync.Worker.GoogleSheets.{google_sheets_download}
use starion_sync.Worker.Activities.{SheetsDownloadData, get_download_data_google_sheets}
use starion_sync.Base.{arith}
use starion_sync.Events.{sheets_proceed_sync}
use starion_sync.Scenario.{provider, db_with, world, source, syncflow_in}

abbrev loaded : LoadStatistics
loaded = record { added_rows_count = 12; deleted_rows_count = 0; is_schema_changed = true }

-- Services all of which answer but the comparer and the ingester, whose answers are given.
abbrev services : Reply (Unit {0}) → Services
services reply = record {
  access_token = λ token. ok "access";
  download_excel = λ r token. replied tt;
  download_sheets = λ r token. replied tt;
  ingest_sheets = λ r token. reply;
  compare_data = λ r. reply;
  load_data = λ r. replied loaded;
  id_table_name = λ id. "_1";
  now = 100;
  later = 200;
}

abbrev good : Services
good = services (replied tt)

abbrev broken : Services
broken = services (error_response (some internal_type) 1009)

abbrev payload : SyncflowScheduledPayload
payload = record { syncflow = syncflow_in scheduled; version = 4 }

abbrev scheduled_world : World memory
scheduled_world = record { db = db_with scheduled; events = [] }

-- Without its data source.
abbrev no_source : World memory
no_source = record { db = record (db_with scheduled) { sources = [] }; events = [] }

abbrev load_request : LoadRequest
load_request = record {
  data_source_id = 1;
  sync_version = 4;
  prev_version = 3;
  table_name = "_1";
  metadata = none;
}

abbrev compare_request : CompareRequest
compare_request = record { data_source_id = 1; sync_version = 4; prev_version = 3 }

abbrev internal_detail : ErrorDetail
internal_detail = record {
  should_activity_retry = none;
  should_workflow_fail = some true;
  error_data = some (record { type = internal_type; code = 1009 });
}

load_data_lem_example :
    (load_data memory broken load_request world ≡ (ok loaded, world))
    × (compare_data memory broken compare_request world
        ≡ (throw (typed_error internal_type 1009), world))
unfolding first modify_first
load_data_lem_example = load_data_lem memory broken load_request compare_request world

excel_full_sync-Succeeds_example :
    ((excel_full_sync memory good payload scheduled_world).0 ≡ ok completed)
    × ((excel_full_sync memory good payload scheduled_world).1.events
        ≡ syncflow_succeed (succeed_payload payload loaded) ∷ [])
    × (memory.find_one
          (Syncflows.live 3)
          (excel_full_sync memory good payload scheduled_world).1.db.syncflows
        ≡ some (record (syncflow_in scheduled) {
          state = record ((syncflow_in scheduled).state) {
            status = idling;
            version = 5;
            prev_version = 4;
          };
        }))
unfolding first modify_first
excel_full_sync-Succeeds_example =
    excel_full_sync-Succeeds memory good payload (syncflow_in scheduled) source loaded
      scheduled_world refl refl refl (("access", refl, refl), refl, refl)

excel_full_sync_fails_example :
    excel_full_sync memory broken payload scheduled_world
    ≡ ended (
        handled memory broken payload
          (application true internal_detail)
          internal_detail.error_data
          (with_syncflow memory broken 3 start scheduled_world))
unfolding run_sync transfer compare_and_load check_and_update_status_before_start_syncflow
    start_syncflow activity_wrapper processor_wrapper processor_api_wrapper application_failure
    get_sync_data_excel download_excel compare_data Syncflows.get_by_id Syncflows.update_status
    DataSources.get_by_id start set_state first modify_first
excel_full_sync_fails_example =
    excel_full_sync_fails memory broken payload true internal_detail scheduled_world
      (with_syncflow memory broken 3 start scheduled_world) refl

excel_full_sync_breaks_example :
    excel_full_sync memory good payload no_source
    ≡ (throw (plain property_of_undefined), with_syncflow memory good 3 start no_source)
unfolding run_sync check_and_update_status_before_start_syncflow start_syncflow activity_wrapper
    get_sync_data_excel get_activity_error_detail Syncflows.get_by_id Syncflows.update_status
    DataSources.get_by_id start set_state first modify_first
excel_full_sync_breaks_example =
    excel_full_sync_breaks memory good payload (unacceptable data_source_not_found forgiven)
      no_source (with_syncflow memory good 3 start no_source) refl refl

google_sheets_proceed_sync_fails_example :
    google_sheets_proceed_sync memory broken payload scheduled_world
    ≡ ended (
        Failures.handled memory broken payload
          (application true internal_detail)
          internal_detail.error_data
          scheduled_world)
unfolding GoogleSheets.run_sync activity_wrapper processor_wrapper processor_api_wrapper
    application_failure get_sync_data_google_sheets ingest_google_sheets DataSources.get_by_id
    DataProviders.get_by_id first modify_first
google_sheets_proceed_sync_fails_example =
    google_sheets_proceed_sync_fails memory broken payload true internal_detail scheduled_world
      scheduled_world refl

-- With a provider that was downloaded ten milliseconds ago.
abbrev downloaded : World memory
downloaded = record {
  db = record (db_with scheduled) { providers = record provider { downloaded_at = some 90 } ∷ [] };
  events = [];
}

abbrev download_data : SheetsDownloadData
download_data = record {
  data_provider_id = 2;
  provider_downloaded_at = some 90;
  ingested_at = none;
  spreadsheet_id = "";
  refresh_token = "token";
}

google_sheets_download_reuses_example : google_sheets_download memory broken payload downloaded ≡ (
  ok completed,
  record (reused memory broken payload (some 90) downloaded) {
    events = sheets_proceed_sync payload ∷ [];
  },
)
unfolding get_download_data_google_sheets activity_wrapper DataSources.get_by_id
    DataProviders.get_by_id first modify_first
google_sheets_download_reuses_example =
    google_sheets_download_reuses memory broken payload download_data 90 downloaded refl refl
      (omega arith, omega arith)
