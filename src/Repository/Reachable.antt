-- ===== src/Repository/Reachable.antt =====
-- libs/modules/src/repository/mongodb: the operations of all the repositories in any order, as the
-- services call them, in the caller's transaction or in one of their own.
mod Tests
use starion_sync.Base.{ℕ, Option, none, String, List, Action, Outcome, ◌≡◌, refl}
use starion_sync.Base.Effects.Keeps.{Keeps}
use starion_sync.Driver.{Driver}
use starion_sync.Entities.{ObjectId, WorkflowStatus, SyncflowStateUpdate, TriggerConfig}
use starion_sync.Repository.{Db, QueryOptions}
use starion_sync.Repository.Keyed.{HasIds}
use starion_sync.Repository.Syncflows
use starion_sync.Repository.Triggers
use starion_sync.Repository.SyncConnections
use starion_sync.Repository.SyncConnections.{
  CreateSyncConnectionData, UpdateSyncConnectionStateData,
}
use starion_sync.Repository.DataSources
use starion_sync.Repository.DataSources.{
  CreateDataSourceData, UpdateDataSourceData, StatisticsUpdate,
}
use starion_sync.Repository.DataProviders
use starion_sync.Repository.DataProviders.{CreateDataProviderData, UpdateDataProviderData}
use starion_sync.Repository.Operations
use starion_sync.Repository.Webhooks
use starion_sync.Repository.Webhooks.{CreateWebhookData}

module _ (m : Driver) where
  -- What one call of an operation makes of the database, whether it returns or throws.
  pub data Step (db : Db m) : Db m → Type 0 where
    syncflow_created : Step db (Syncflows.create m db).1
    syncflow_updated : (o : QueryOptions) → Step db (Syncflows.update m o db).1
    syncflow_state_updated :
        (id : ObjectId) (u : SyncflowStateUpdate) (o : QueryOptions)
        → Step db (Syncflows.update_state m id u o db).1
    syncflow_status_updated :
        (id : ObjectId) (status : WorkflowStatus) (o : QueryOptions)
        → Step db (Syncflows.update_status m id status o db).1
    syncflow_version_increased :
        (id : ObjectId) (o : QueryOptions) → Step db (Syncflows.increase_version m id o db).1
    syncflow_deleted : (id : ObjectId) (o : QueryOptions) → Step db (Syncflows.delete m id o db).1
    trigger_created : Step db (Triggers.create m db).1
    trigger_updated : (o : QueryOptions) → Step db (Triggers.update m o db).1
    trigger_config_updated :
        (id : ObjectId) (u : TriggerConfig) (o : QueryOptions)
        → Step db (Triggers.update_config m id u o db).1
    trigger_deleted : (id : ObjectId) (o : QueryOptions) → Step db (Triggers.delete m id o db).1
    connection_made :
        (given : CreateSyncConnectionData) (o : QueryOptions)
        → Step db (SyncConnections.create m given o db).1
    connection_updated :
        (id : ObjectId) (o : QueryOptions) → Step db (SyncConnections.update m id o db).1
    connection_state_updated :
        (u : UpdateSyncConnectionStateData) (o : QueryOptions)
        → Step db (SyncConnections.update_state m u o db).1
    connection_removed :
        (id : ObjectId) (o : QueryOptions) → Step db (SyncConnections.delete m id o db).1
    source_created : (given : CreateDataSourceData) → Step db (DataSources.create m given db).1
    source_updated :
        (u : UpdateDataSourceData) (o : QueryOptions) → Step db (DataSources.update m u o db).1
    source_statistics_updated :
        (id : ObjectId) (u : StatisticsUpdate) (o : QueryOptions)
        → Step db (DataSources.update_statistics m id u o db).1
    source_removed : (id : ObjectId) (o : QueryOptions) → Step db (DataSources.delete m id o db).1
    provider_created :
        (given : CreateDataProviderData) → Step db (DataProviders.create m given db).1
    provider_updated :
        (u : UpdateDataProviderData) (o : QueryOptions) → Step db (DataProviders.update m u o db).1
    provider_state_updated :
        (id : ObjectId) (downloaded : Option ℕ) (o : QueryOptions)
        → Step db (DataProviders.update_state m id downloaded o db).1
    provider_removed :
        (id : ObjectId) (o : QueryOptions) → Step db (DataProviders.delete m id o db).1
    operation_saved : (name : String) → Step db (Operations.save_operation m name db).1
    operation_removed :
        (name : String) (o : QueryOptions) → Step db (Operations.delete_by_name m name o db).1
    webhook_created : (given : CreateWebhookData) → Step db (Webhooks.create m given db).1
    webhooks_created :
        (given : List CreateWebhookData) → Step db (Webhooks.bulk_create m given db).1
    webhook_updated : Step db (Webhooks.update m db).1
    webhook_removed : (id : ObjectId) (o : QueryOptions) → Step db (Webhooks.delete m id o db).1

  -- A database that is left by calls one after the other.
  pub data Reach (db : Db m) : Db m → Type 0 where
    here : Reach db db
    next : {before after : Db m} → Reach db before → Step before after → Reach db after

  Step-HasIds : {db after : Db m} → Step db after → HasIds m db → HasIds m after
  Step-HasIds syncflow_created h = (Syncflows.Keyed.create-HasIds m).at _ h
  Step-HasIds (syncflow_updated o) h = (Syncflows.Keyed.update-HasIds m o).at _ h
  Step-HasIds (syncflow_state_updated id u o) h =
      (Syncflows.Keyed.update_state-HasIds m id u o).at _ h
  Step-HasIds (syncflow_status_updated id status o) h =
      (Syncflows.Keyed.update_status-HasIds m id status o).at _ h
  Step-HasIds (syncflow_version_increased id o) h =
      (Syncflows.Keyed.increase_version-HasIds m id o).at _ h
  Step-HasIds (syncflow_deleted id o) h = (Syncflows.Keyed.delete-HasIds m id o).at _ h
  Step-HasIds trigger_created h = (Triggers.Keyed.create-HasIds m).at _ h
  Step-HasIds (trigger_updated o) h = (Triggers.Keyed.update-HasIds m o).at _ h
  Step-HasIds (trigger_config_updated id u o) h =
      (Triggers.Keyed.update_config-HasIds m id u o).at _ h
  Step-HasIds (trigger_deleted id o) h = (Triggers.Keyed.delete-HasIds m id o).at _ h
  Step-HasIds (connection_made given o) h = (SyncConnections.Keyed.create-HasIds m given o).at _ h
  Step-HasIds (connection_updated id o) h = (SyncConnections.Keyed.update-HasIds m id o).at _ h
  Step-HasIds (connection_state_updated u o) h =
      (SyncConnections.Keyed.update_state-HasIds m u o).at _ h
  Step-HasIds (connection_removed id o) h = (SyncConnections.Keyed.delete-HasIds m id o).at _ h
  Step-HasIds (source_created given) h = (DataSources.Keyed.create-HasIds m given).at _ h
  Step-HasIds (source_updated u o) h = (DataSources.Keyed.update-HasIds m u o).at _ h
  Step-HasIds (source_statistics_updated id u o) h =
      (DataSources.Keyed.update_statistics-HasIds m id u o).at _ h
  Step-HasIds (source_removed id o) h = (DataSources.Keyed.delete-HasIds m id o).at _ h
  Step-HasIds (provider_created given) h = (DataProviders.Keyed.create-HasIds m given).at _ h
  Step-HasIds (provider_updated u o) h = (DataProviders.Keyed.update-HasIds m u o).at _ h
  Step-HasIds (provider_state_updated id downloaded o) h =
      (DataProviders.Keyed.update_state-HasIds m id downloaded o).at _ h
  Step-HasIds (provider_removed id o) h = (DataProviders.Keyed.delete-HasIds m id o).at _ h
  Step-HasIds (operation_saved name) h = (Operations.Keyed.save_operation-HasIds m name).at _ h
  Step-HasIds (operation_removed name o) h =
      (Operations.Keyed.delete_by_name-HasIds m name o).at _ h
  Step-HasIds (webhook_created given) h = (Webhooks.Keyed.create-HasIds m given).at _ h
  Step-HasIds (webhooks_created given) h = (Webhooks.Keyed.bulk_create-HasIds m given).at _ h
  Step-HasIds webhook_updated h = (Webhooks.Keyed.update-HasIds m).at _ h
  Step-HasIds (webhook_removed id o) h = (Webhooks.Keyed.delete-HasIds m id o).at _ h

  -- Where the ids in each collection are unique, they are still unique after any sequence of calls
  -- of the repositories' operations, whichever of them return and whichever throw.
  pub Reach-HasIds : {db after : Db m} → Reach db after → HasIds m db → HasIds m after
  Reach-HasIds here h = h
  Reach-HasIds (next r st) h = Step-HasIds st (Reach-HasIds r h)
