-- ===== src/Entities.antt =====
-- libs/core/src/entities and the document schemas of
-- libs/modules/src/repository/mongodb/models: the data that the services keep. An id is the
-- number that an ObjectId's digits write; a date is its milliseconds. Names of the enumerated
-- string constants are data types. `createdAt`, `updatedAt` and display names are left out.
pub mod Names
pub mod Registry
use starion_sync.Base.{ℕ, Bool, false, Option, none, List, [], String}
use starion_sync.Base.Int.{ℤ, pos}
pub use Names.*

abbrev pub ObjectId : Type 0
ObjectId = ℕ

-- A map from strings to strings, as its entries.
abbrev pub Metadata : Type 0
Metadata = List (String × String)

pub record SyncflowState : Type 0 where
  pub status : WorkflowStatus
  pub version : ℕ
  pub prev_version : ℕ
  -- `cursor.ctag`, of an Excel syncflow.
  pub cursor : Option String
  -- Of a Google Sheets syncflow.
  pub downloaded_at : Option ℕ
  pub ingested_at : Option ℕ

-- `defaultSyncflowState`.
abbrev pub default_syncflow_state : SyncflowState
default_syncflow_state = record {
  status = idling;
  version = 1;
  prev_version = 0;
  cursor = none;
  downloaded_at = none;
  ingested_at = none;
}

-- `Partial<SyncflowState>`: an absent key is `none`.
pub record SyncflowStateUpdate : Type 0 where
  pub status : Option WorkflowStatus
  pub version : Option ℕ
  pub prev_version : Option ℕ
  pub cursor : Option String
  pub downloaded_at : Option ℕ
  pub ingested_at : Option ℕ

abbrev pub no_state_update : SyncflowStateUpdate
no_state_update = record {
  status = none;
  version = none;
  prev_version = none;
  cursor = none;
  downloaded_at = none;
  ingested_at = none;
}

pub record SyncflowAttributes : Type 0 where
  pub direction : Direction
  pub sync_mode : SyncMode
  pub provider_type : ProviderType
  pub sync_method : SyncMethod
  pub sync_target : SyncTarget
  pub sync_type : SyncType

-- `Partial<Trigger>`, as a syncflow and a connection keep it.
pub record TriggerRef : Type 0 where
  pub id : Option ObjectId
  pub name : TriggerName
  pub type : TriggerType

pub record Syncflow : Type 0 where
  pub id : ObjectId
  pub name : SyncflowName
  pub attributes : SyncflowAttributes
  pub source_id : ObjectId
  pub state : SyncflowState
  pub trigger : TriggerRef
  pub is_deleted : Bool

-- The text `${seconds} ${start}/${every} * * * *`, by its numbers.
pub record CronExpression : Type 0 where
  pub seconds : ℕ
  pub start : ℕ
  pub every : ℕ

-- The keys that the services read and write in a trigger's config.
pub record TriggerConfig : Type 0 where
  pub cron : Option CronExpression
  pub job_id : Option String
  pub frequency : Option ℕ
  pub webhook_id : Option String
  pub resource_id : Option String
  pub refresh_interval : Option ℕ

pub record WorkflowRef : Type 0 where
  pub id : ObjectId
  pub name : SyncflowName
  pub type : WorkflowType

pub record Trigger : Type 0 where
  pub id : ObjectId
  pub name : TriggerName
  pub type : TriggerType
  pub workflow : WorkflowRef
  pub source_id : ObjectId
  pub config : Option TriggerConfig
  pub is_deleted : Bool

pub record SyncConnectionState : Type 0 where
  pub status : SyncConnectionStatus
  pub health_status : HealthStatus

-- `defaultSyncConnectionState`; no operation writes its `runningSyncflows`.
abbrev pub default_sync_connection_state : SyncConnectionState
default_sync_connection_state = record { status = active; health_status = healthy }

-- An entry of a connection's `syncflows`.
pub record SyncflowRef : Type 0 where
  pub id : ObjectId
  pub name : SyncflowName
  pub trigger : TriggerRef

pub record SyncConnection : Type 0 where
  pub id : ObjectId
  pub state : SyncConnectionState
  pub source_id : ObjectId
  pub syncflows : List SyncflowRef
  pub is_deleted : Bool

-- The keys of a data source's or a provider's config. Those that a config of its kind lacks
-- stand as empty texts, which no operation on that kind reads.
pub record SourceConfig : Type 0 where
  pub refresh_token : String
  pub table_name : Option String
  pub spreadsheet_id : String
  pub sheet_id : String
  pub drive_id : Option String
  pub workbook_id : String
  pub worksheet_id : String
  pub timezone : String

pub record ProviderRef : Type 0 where
  pub id : ObjectId
  pub type : ProviderType

pub record DataSourceStatistics : Type 0 where
  pub rows_number : ℤ
  pub storage_usage : ℕ

-- `defaultDataSourceStatistics`.
abbrev pub default_data_source_statistics : DataSourceStatistics
default_data_source_statistics = record { rows_number = pos 0; storage_usage = 0 }

pub record LimitationValue : Type 0 where
  pub soft : ℕ
  pub hard : ℕ

pub record DataSourceLimitation : Type 0 where
  pub rows_number : LimitationValue
  pub storage_usage : LimitationValue

-- `defaultDataSourceLimitation`.
abbrev pub default_data_source_limitation : DataSourceLimitation
default_data_source_limitation = record {
  rows_number = record { soft = 5000; hard = 10000 };
  storage_usage = record { soft = 2147483648; hard = 4294967296 };
}

pub record DataSource : Type 0 where
  pub id : ObjectId
  pub external_id : String
  pub external_local_id : String
  pub provider : ProviderRef
  pub config : SourceConfig
  pub statistics : DataSourceStatistics
  pub limits : DataSourceLimitation
  pub metadata : Metadata
  pub is_deleted : Bool

pub record DataProvider : Type 0 where
  pub id : ObjectId
  pub external_id : String
  pub type : ProviderType
  pub config : SourceConfig
  -- `state?.downloadedAt`.
  pub downloaded_at : Option ℕ
  pub metadata : Metadata
  pub is_deleted : Bool

pub record Operation : Type 0 where
  pub id : ObjectId
  pub name : String

pub record Webhook : Type 0 where
  pub id : ObjectId
  pub status : WebhookStatus
  pub scope : WebhookScope
  pub url : String
  pub type : WebhookType
  pub assure : Bool
  pub data_source_id : Option ObjectId
  pub metadata : Option Metadata
  pub is_deleted : Bool
