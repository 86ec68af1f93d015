-- ===== src/PostProcessor/Tests.antt =====
-- The post-processor's theorems at a concrete database.
use starion_sync.Base.{first, modify_first, ◌≡◌, refl, some, [], ok, false}
use starion_sync.Driver.Memory.{memory}
use starion_sync.Repository.{no_options}
use starion_sync.Repository.DataSources
use starion_sync.Repository.SyncConnections
use starion_sync.Events.{LoadStatistics, SyncflowSucceedPayload}
use starion_sync.PostProcessor.{Storage, stop_sync_connection}
use starion_sync.PostProcessor.Stopping.{stopped, stop_sync_connection_lem}
use starion_sync.Scenario.{world, connection}

-- A storage that deletes what it is asked to.
abbrev storage : Storage
storage = record { delete_objects = λ keys. ok tt }

abbrev loaded : LoadStatistics
loaded = record { added_rows_count = 12; deleted_rows_count = 20; is_schema_changed = false }

abbrev payload : SyncflowSucceedPayload
payload = record {
  data_source_id = 1;
  syncflow_id = 3;
  sync_version = 4;
  prev_sync_version = 3;
  statistics = loaded;
}

stop_sync_connection_lem_example :
    ((stop_sync_connection memory storage 1 world).0 ≡ ok tt)
    × ((stop_sync_connection memory storage 1 world).1.events ≡ [])
    × (memory.find_one
          (SyncConnections.by_source_id 1 no_options)
          (stop_sync_connection memory storage 1 world).1.db.connections
        ≡ some (stopped connection))
unfolding first modify_first
stop_sync_connection_lem_example =
    stop_sync_connection_lem memory storage 1 world connection (refl, tt) refl
