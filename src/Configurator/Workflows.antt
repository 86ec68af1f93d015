-- ===== src/Configurator/Workflows.antt =====
-- apps/configurator/src/workflows. The orchestrator's listing and terminating of workflows
-- changes no state of the model.
use starion_sync.Base.{not, Option, none, some, Action, pure, when, ◌>>=◌, ◌>>◌}
use starion_sync.Driver.{Driver}
use starion_sync.Entities.{ObjectId, SyncConnection}
use starion_sync.Events.{
  connection_created, connection_deleted, data_source_deleted, data_provider_deleted, World,
  emit_event,
}
use starion_sync.Configurator.{Random, CreationResult, DeleteResult}
use starion_sync.Configurator.Connections
use starion_sync.Configurator.Connections.{CreateSyncConnectionDto}
use starion_sync.Configurator.Sources
use starion_sync.Configurator.Sources.{DeletedDataSource}

module _ (m : Driver) where
  -- `createSyncConnectionWf`.
  unfoldable pub create_sync_connection_wf :
      Random → CreateSyncConnectionDto → Action (World m) (CreationResult SyncConnection)
  create_sync_connection_wf r dto = do
    result ← Connections.create m r dto
    when (not result.is_already_created) (emit_event (connection_created result.item))
    pure result

  -- `deleteSyncConnectionWf`, whose test reads `!result.isAlreadyDeleted === false`.
  unfoldable pub delete_sync_connection_wf :
      ObjectId → Action (World m) (DeleteResult SyncConnection)
  delete_sync_connection_wf id = do
    result ← Connections.delete m id
    when (not (not result.is_already_deleted)) (emit_event (connection_deleted result.item))
    pure result

  abbrev connection_id : Option SyncConnection → Option ObjectId
  connection_id none = none
  connection_id (some c) = some c.id

  abbrev emit_connection_deleted : Option SyncConnection → Action (World m) (Unit {0})
  emit_connection_deleted none = pure tt
  emit_connection_deleted (some c) = emit_event (connection_deleted (some c))

  emit_deleted : ObjectId → Option DeletedDataSource → Action (World m) (Unit {0})
  emit_deleted id none = emit_event (data_source_deleted id none)
  emit_deleted id (some d) = do
    emit_connection_deleted d.sync_connection
    emit_event (data_source_deleted id (connection_id d.sync_connection))
    when d.is_provider_deleted
        (emit_event (data_provider_deleted d.data_source.provider.id d.data_source.provider.type))

  -- `deleteDataSourceWf`.
  unfoldable pub delete_data_source_wf :
      ObjectId → Action (World m) (DeleteResult DeletedDataSource)
  unfolding emit_deleted
  delete_data_source_wf id = do
    result ← Sources.delete m id
    when (not result.is_already_deleted) (emit_deleted id result.item)
    pure result
