-- ===== src/Scenario.antt =====
-- One Excel data source with its connection, its syncflow and its trigger, in a database that is
-- kept in memory: what the tests run on.
use starion_sync.Base.{false, none, [], ◌∷◌}
use starion_sync.Driver.Memory.{memory}
use starion_sync.Entities.{
  Syncflow, TriggerRef, Trigger, SyncConnection, DataSource, DataProvider, SourceConfig,
  WorkflowStatus, idling, default_sync_connection_state, default_data_source_statistics,
  default_data_source_limitation, microsoft_excel, forward, refresh, full_method, full_target,
  full_type, excel_full, excel_cron, cron_trigger, syncflow_workflow,
}
use starion_sync.Repository.{Db}
use starion_sync.Events.{World}

abbrev pub trigger_ref : TriggerRef
trigger_ref = record { id = none; name = excel_cron; type = cron_trigger }

abbrev pub syncflow_in : WorkflowStatus → Syncflow
syncflow_in status = record {
  id = 3;
  name = excel_full;
  attributes = record {
    direction = forward;
    sync_mode = refresh;
    provider_type = microsoft_excel;
    sync_method = full_method;
    sync_target = full_target;
    sync_type = full_type;
  };
  source_id = 1;
  state = record {
    status = status;
    version = 4;
    prev_version = 3;
    cursor = none;
    downloaded_at = none;
    ingested_at = none;
  };
  trigger = trigger_ref;
  is_deleted = false;
}

abbrev pub trigger : Trigger
trigger = record {
  id = 5;
  name = excel_cron;
  type = cron_trigger;
  workflow = record { id = 3; name = excel_full; type = syncflow_workflow };
  source_id = 1;
  config = none;
  is_deleted = false;
}

abbrev pub connection : SyncConnection
connection = record {
  id = 7;
  state = default_sync_connection_state;
  source_id = 1;
  syncflows = record { id = 3; name = excel_full; trigger = trigger_ref } ∷ [];
  is_deleted = false;
}

abbrev pub config : SourceConfig
config = record {
  refresh_token = "token";
  table_name = none;
  spreadsheet_id = "";
  sheet_id = "";
  drive_id = none;
  workbook_id = "book";
  worksheet_id = "sheet";
  timezone = "UTC";
}

abbrev pub source : DataSource
source = record {
  id = 1;
  external_id = "book";
  external_local_id = "sheet";
  provider = record { id = 2; type = microsoft_excel };
  config = config;
  statistics = default_data_source_statistics;
  limits = default_data_source_limitation;
  metadata = [];
  is_deleted = false;
}

abbrev pub provider : DataProvider
provider = record {
  id = 2;
  external_id = "book";
  type = microsoft_excel;
  config = config;
  downloaded_at = none;
  metadata = [];
  is_deleted = false;
}

abbrev pub db_with : WorkflowStatus → Db memory
db_with status = record {
  sources = source ∷ [];
  providers = provider ∷ [];
  connections = connection ∷ [];
  syncflows = syncflow_in status ∷ [];
  triggers = trigger ∷ [];
  operations = [];
  webhooks = [];
}

abbrev pub db : Db memory
db = db_with idling

abbrev pub world : World memory
world = record { db = db; events = [] }
