-- ===== src/PostProcessor/Statistics.antt =====
-- apps/post-processor/src/modules/syncflow/syncflow.service.ts: the rows of a data source are
-- counted on when a syncflow succeeded.
use starion_sync.Base.{none, some, ◌∷◌, ◌==◌}
use starion_sync.Driver.{Driver}
use starion_sync.Entities.{DataSource}
use starion_sync.Repository.Syncflows
use starion_sync.Repository.DataSources
use starion_sync.Repository.DataSources.{StatisticsUpdate, set_statistics}
use starion_sync.Events.{LoadStatistics, SyncflowSucceedPayload, syncflow_completed, World}
use starion_sync.PostProcessor.{Storage, rows_after}

module _ (m : Driver) (storage : Storage) where
  abbrev rows_update : DataSource → LoadStatistics → StatisticsUpdate
  rows_update d s = record { rows_number = some (rows_after m storage d s); storage_usage = none }

  abbrev pub with_rows : SyncflowSucceedPayload → DataSource → World m → World m
  with_rows p d w = record {
    db = record (w.db) {
      sources =
          m.update_one (λ e. e.id == d.id) (set_statistics (rows_update d p.statistics))
            w.db.sources;
    };
    events =
        syncflow_completed (record {
          data_source_id = d.id;
          syncflow_id = p.syncflow_id;
          sync_version = p.sync_version;
          rows_number = rows_after m storage d p.statistics;
        })
        ∷ w.events;
  }
