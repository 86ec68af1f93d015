-- ===== src/Entities/Names.antt =====
-- The enumerations and the tables of string constants of libs/core/src/entities.
use starion_sync.Base.{ℕ, Bool, true, false}

-- workflow/workFlow.entity.ts
pub data WorkflowStatus : Type 0 where
  idling scheduled running : WorkflowStatus

-- workflow/workflow.type.ts; `other_workflow` is any other string that an event may carry.
pub data WorkflowType : Type 0 where
  syncflow_workflow other_workflow : WorkflowType

-- data-source/dataProvider.entity.ts
pub data ProviderType : Type 0 where
  google_sheets microsoft_excel air_table : ProviderType

-- trigger/trigger.entity.ts
pub data TriggerType : Type 0 where
  manual schedule cron_trigger event_webhook : TriggerType

-- trigger/triggerNames.ts
pub data TriggerName : Type 0 where
  manual_name excel_cron sheets_cron sheets_webhook air_table_webhook : TriggerName

-- syncflow/syncflowNames.ts
pub data SyncflowName : Type 0 where
  excel_full sheets_full air_table_initial air_table_incremental : SyncflowName

-- sync-connection/sync-connection.entity.ts
pub data SyncConnectionStatus : Type 0 where
  active inactive : SyncConnectionStatus

pub data HealthStatus : Type 0 where
  healthy unhealthy : HealthStatus

-- webhook/webhook.entity.ts
pub data WebhookStatus : Type 0 where
  webhook_active webhook_inactive : WebhookStatus

pub data WebhookType : Type 0 where
  data_source_deleted_type data_source_error_type sync_connection_created_type : WebhookType
  syncflow_scheduled_type syncflow_succeed_type syncflow_completed_type : WebhookType
  syncflow_failed_type : WebhookType

pub data WebhookScope : Type 0 where
  global_scope data_source_scope : WebhookScope

-- syncflow/syncflow.attributes.ts
pub data Direction : Type 0 where
  forward backward : Direction

pub data SyncMode : Type 0 where
  refresh incremental : SyncMode

pub data SyncMethod : Type 0 where
  full_method partial_method micro_method : SyncMethod

pub data SyncTarget : Type 0 where
  data_target schema_target full_target : SyncTarget

pub data SyncType : Type 0 where
  full_type schema_type full_partial_type data_full_type data_partial_type : SyncType
  data_micro_type : SyncType

-- Equality of the string constants.
abbrev pub is_idling : WorkflowStatus → Bool
is_idling idling = true
is_idling _ = false

abbrev pub is_scheduled : WorkflowStatus → Bool
is_scheduled scheduled = true
is_scheduled _ = false

abbrev pub is_running : WorkflowStatus → Bool
is_running running = true
is_running _ = false

abbrev pub is_active : SyncConnectionStatus → Bool
is_active active = true
is_active inactive = false

abbrev pub is_syncflow_workflow : WorkflowType → Bool
is_syncflow_workflow syncflow_workflow = true
is_syncflow_workflow other_workflow = false

abbrev pub is_cron : TriggerType → Bool
is_cron cron_trigger = true
is_cron _ = false

abbrev pub is_event_webhook : TriggerType → Bool
is_event_webhook event_webhook = true
is_event_webhook _ = false

-- A number for each constant, by which maps compare their keys.
abbrev pub syncflow_name_index : SyncflowName → ℕ
syncflow_name_index excel_full = 0
syncflow_name_index sheets_full = 1
syncflow_name_index air_table_initial = 2
syncflow_name_index air_table_incremental = 3

abbrev pub trigger_name_index : TriggerName → ℕ
trigger_name_index manual_name = 0
trigger_name_index excel_cron = 1
trigger_name_index sheets_cron = 2
trigger_name_index sheets_webhook = 3
trigger_name_index air_table_webhook = 4

abbrev pub provider_type_index : ProviderType → ℕ
provider_type_index google_sheets = 0
provider_type_index microsoft_excel = 1
provider_type_index air_table = 2

abbrev pub webhook_type_index : WebhookType → ℕ
webhook_type_index data_source_deleted_type = 0
webhook_type_index data_source_error_type = 1
webhook_type_index sync_connection_created_type = 2
webhook_type_index syncflow_scheduled_type = 3
webhook_type_index syncflow_succeed_type = 4
webhook_type_index syncflow_completed_type = 5
webhook_type_index syncflow_failed_type = 6

abbrev pub is_webhook_active : WebhookStatus → Bool
is_webhook_active webhook_active = true
is_webhook_active webhook_inactive = false

abbrev pub is_global : WebhookScope → Bool
is_global global_scope = true
is_global data_source_scope = false
