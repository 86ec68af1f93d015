-- ===== src/Repository/DataSources/Keyed.antt =====
-- libs/modules/src/repository/mongodb/repositories/dataSource.repository.ts: every operation
-- leaves the ids of the documents unique.
use starion_sync.Base.{◌≡◌, refl, Option}
use starion_sync.Base.Effects.Keeps.{Keeps, keeps_rules}
use starion_sync.Driver.{Driver}
use starion_sync.Driver.Laws.{save-IsKeyed}
use starion_sync.Entities.{ObjectId, Metadata, SyncConnection, DataSource}
use starion_sync.Repository.{QueryOptions}
use starion_sync.Repository.Keyed.{HasIds, run_process-Keeps, sources-Keeps}
use starion_sync.Base.{none, some}
use starion_sync.Repository.SyncConnections
use starion_sync.Repository.DataSources.{
  CreateDataSourceData, UpdateDataSourceData, StatisticsUpdate, set_metadata, create, save_source,
  reload, update, update_found, update_statistics, update_statistics_found, delete_connection,
  delete, delete_found,
}

module _ (m : Driver) where
  pub create-HasIds : (given : CreateDataSourceData) → Keeps (HasIds m) (create m given)
  unfolding create save_source
  create-HasIds given = record {
    at = λ s (a, b, c, d, e, f, g).
        (save-IsKeyed m (λ d. d.id) _ s.sources refl a, b, c, d, e, f, g);
  }

  reload-HasIds : (id : ObjectId) → Keeps (HasIds m) (reload m id)
  unfolding reload
  reload-HasIds id = search keeps_rules

  -- The id stays, with metadata or without.
  set_metadata-id : (u : Option Metadata) (d : DataSource) → (set_metadata u d).id ≡ d.id
  set_metadata-id none d = refl
  set_metadata-id (some u) d = refl

  pub update-HasIds :
      (u : UpdateDataSourceData) (o : QueryOptions) → Keeps (HasIds m) (update m u o)
  unfolding update update_found
  update-HasIds u o =
      search (keeps_rules, run_process-Keeps, reload-HasIds, sources-Keeps, set_metadata-id) depth
        12

  pub update_statistics-HasIds :
      (id : ObjectId) (u : StatisticsUpdate) (o : QueryOptions)
      → Keeps (HasIds m) (update_statistics m id u o)
  unfolding update_statistics update_statistics_found
  update_statistics-HasIds id u o =
      search (keeps_rules, run_process-Keeps, reload-HasIds, sources-Keeps) depth 12

  delete_connection-HasIds : (c : Option SyncConnection) → Keeps (HasIds m) (delete_connection m c)
  unfolding delete_connection
  delete_connection-HasIds none = search keeps_rules
  delete_connection-HasIds (some c) = search (keeps_rules, SyncConnections.Keyed.delete-HasIds)

  pub delete-HasIds : (id : ObjectId) (o : QueryOptions) → Keeps (HasIds m) (delete m id o)
  unfolding delete delete_found SyncConnections.get_by_data_source_id
  delete-HasIds id o =
      search (keeps_rules, run_process-Keeps, delete_connection-HasIds, sources-Keeps) depth 12
