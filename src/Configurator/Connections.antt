-- ===== src/Configurator/Connections.antt =====
-- apps/configurator/src/modules/sync-connection/syncConection.service.ts and
-- modules/trigger/trigger.service.ts.
pub mod Cron
use starion_sync.Base.{
  ℕ, true, false, Option, none, some, List, [], ◌∷◌, Action, plain, api, sync_connection_not_found,
  data_source_not_found, no_syncflow_for_provider, trigger_not_found, property_of_undefined,
  unsupported_trigger_type, unsupported_provider_type, pure, raise, or_raise, map_each, ◌>>=◌, ◌>>◌,
  if◌then◌else◌, ◌==◌,
}
use starion_sync.Driver.{Driver}
use starion_sync.Entities.{
  ObjectId, SyncConnection, SyncConnectionStatus, TriggerConfig, CronExpression, TriggerType,
  cron_trigger, event_webhook, Trigger, DataSource, ProviderType, air_table, SyncflowName, is_cron,
}
use starion_sync.Entities.Registry.{get_syncflow, get_trigger, get_provider_syncflows}
use starion_sync.Repository.{no_options}
use starion_sync.Repository.Triggers
use starion_sync.Repository.Triggers.{empty_config}
use starion_sync.Repository.DataSources
use starion_sync.Repository.SyncConnections
use starion_sync.Repository.SyncConnections.{
  CreateSyncflowData, CreateSyncConnectionData, UpdateSyncConnectionStateData,
}
use starion_sync.Events.{workflow_triggered, World, emit_event, on_db}
use starion_sync.Configurator.{Random, floor_times, CreationResult, DeleteResult, no_data_exists}

-- `DEFAULT_CRON_TRIGGER_FREQUENCY`, in minutes.
abbrev pub default_cron_trigger_frequency : ℕ
default_cron_trigger_frequency = 4

-- `config?.frequency || DEFAULT_CRON_TRIGGER_FREQUENCY`, where 0 is replaced too.
unfoldable pub frequency_or_default : Option ℕ → ℕ
frequency_or_default none = default_cron_trigger_frequency
frequency_or_default (some n) = if n == 0 then default_cron_trigger_frequency else n

-- `createCronExpressionFromFrequency`.
unfoldable pub create_cron_expression_from_frequency : Random → ℕ → CronExpression
create_cron_expression_from_frequency r n = record {
  seconds = floor_times r.first_draw 60;
  start = floor_times r.second_draw n;
  every = n;
}

-- The `config` that `buildTriggerData` makes: a trigger of another type has none.
unfoldable pub build_trigger_data : Random → TriggerType → Option ℕ → Option TriggerConfig
unfolding frequency_or_default create_cron_expression_from_frequency
build_trigger_data r type frequency =
    let n = frequency_or_default frequency in
    if is_cron type
    then some (record empty_config {
      cron = some (create_cron_expression_from_frequency r n);
      job_id = some r.uuid;
      frequency = some n;
    })
    else none

module _ {S : Type 0} (r : Random) (frequency : Option ℕ) where
  unfoldable pub build_syncflow : SyncflowName → Action S CreateSyncflowData
  build_syncflow name = do
    syncflow ← or_raise (get_syncflow name) (plain property_of_undefined)
    trigger ← or_raise (get_trigger syncflow.trigger_name) (plain property_of_undefined)
    pure (record {
      name = syncflow.name;
      trigger_name = trigger.name;
      trigger_config = build_trigger_data r trigger.type frequency;
    })

  abbrev require_names : List SyncflowName → Action S (List SyncflowName)
  require_names [] = raise (api no_data_exists no_syncflow_for_provider)
  require_names (n ∷ ns) = pure (n ∷ ns)

  -- `buildSyncflowData`; a provider that is not registered has no `length`.
  unfoldable pub build_syncflow_data : ProviderType → Action S (List CreateSyncflowData)
  unfolding build_syncflow
  build_syncflow_data p = do
    registered ← or_raise (get_provider_syncflows p) (plain property_of_undefined)
    names ← require_names registered
    map_each build_syncflow names

-- `CreateSyncConnectionDto`; of its config the frequency is read.
pub record CreateSyncConnectionDto : Type 0 where
  pub source_id : ObjectId
  pub frequency : Option ℕ

module _ (m : Driver) where
  -- `SyncConnectionService.getById`.
  unfoldable pub get_by_id : ObjectId → Action (World m) SyncConnection
  get_by_id id = do
    found ← on_db (SyncConnections.get_by_id m id no_options)
    or_raise found (api no_data_exists sync_connection_not_found)

  unfoldable pub create_for :
      Random
      → CreateSyncConnectionDto
      → DataSource
      → Action (World m) (CreationResult SyncConnection)
  create_for r dto source = do
    syncflows ← build_syncflow_data r dto.frequency source.provider.type
    created ← on_db (
        SyncConnections.create m (record { source_id = dto.source_id; syncflows = syncflows })
          no_options)
    pure (record { item = created; is_already_created = false })

  unfoldable pub create_new :
      Random → CreateSyncConnectionDto → Action (World m) (CreationResult SyncConnection)
  create_new r dto = do
    found ← on_db (DataSources.get_by_id m dto.source_id no_options)
    source ← or_raise found (api no_data_exists data_source_not_found)
    create_for r dto source

  unfoldable pub create_unless :
      Option SyncConnection
      → Random
      → CreateSyncConnectionDto
      → Action (World m) (CreationResult SyncConnection)
  create_unless none r dto = create_new r dto
  create_unless (some c) r dto = pure (record { item = c; is_already_created = true })

  -- `SyncConnectionService.create`.
  unfoldable pub create :
      Random → CreateSyncConnectionDto → Action (World m) (CreationResult SyncConnection)
  create r dto = do
    existing ← on_db (SyncConnections.get_by_data_source_id m dto.source_id no_options)
    create_unless existing r dto

  -- `updateStateWithDataSourceId`.
  unfoldable pub update_state_with_data_source_id :
      ObjectId → Option SyncConnectionStatus → Action (World m) (Unit {0})
  update_state_with_data_source_id id status = do
    found ← on_db (SyncConnections.get_by_data_source_id m id no_options)
    c ← or_raise found (api no_data_exists sync_connection_not_found)
    on_db (
        SyncConnections.update_state m (record { id = c.id; status = status; health_status = none })
          no_options)
    pure tt

  unfoldable pub delete_existing :
      ObjectId → Option SyncConnection → Action (World m) (DeleteResult SyncConnection)
  delete_existing id none = pure (record { item = none; is_already_deleted = true })
  delete_existing id (some c) = do
    old ← on_db (SyncConnections.delete m id (record no_options { old = true }))
    pure (record { item = old; is_already_deleted = false })

  -- `SyncConnectionService.delete`.
  unfoldable pub delete : ObjectId → Action (World m) (DeleteResult SyncConnection)
  delete id = do
    existing ← on_db (SyncConnections.get_by_id m id no_options)
    delete_existing id existing

  abbrev first_of_triggers : List Trigger → Action (World m) ObjectId
  first_of_triggers [] = raise (plain property_of_undefined)
  first_of_triggers (t ∷ ts) = pure t.id

  trigger_of_source : ProviderType → ObjectId → Action (World m) (Option Trigger)
  trigger_of_source air_table id = raise (plain unsupported_provider_type)
  trigger_of_source _ id = do
    ts ← on_db (Triggers.get_by_data_source_id m id no_options)
    trigger_id ← first_of_triggers ts
    on_db (Triggers.get_by_id m trigger_id no_options)

  -- `TriggerService.getTriggerOfDataSource`.
  unfoldable pub get_trigger_of_data_source : DataSource → Action (World m) (Option Trigger)
  unfolding trigger_of_source
  get_trigger_of_data_source d = trigger_of_source d.provider.type d.id

  abbrev emit_triggered : TriggerType → Trigger → Action (World m) (Unit {0})
  emit_triggered cron_trigger t = emit_event (workflow_triggered t)
  emit_triggered event_webhook t = emit_event (workflow_triggered t)
  emit_triggered _ t = raise (plain unsupported_trigger_type)

  -- `TriggerService.manualTrigger`.
  unfoldable pub manual_trigger : ObjectId → Action (World m) (Unit {0})
  manual_trigger id = do
    found ← on_db (Triggers.get_by_id m id no_options)
    t ← or_raise found (api no_data_exists trigger_not_found)
    emit_triggered t.type t
