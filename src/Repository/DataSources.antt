-- ===== src/Repository/DataSources.antt =====
-- libs/modules/src/repository/mongodb/repositories/dataSource.repository.ts
pub mod Keyed
pub mod Statistics
pub mod Deletion
use starion_sync.Base.{
  ℕ, Bool, true, false, not, ◌&&◌, Option, none, some, List, String, Action, Outcome, ok, throw,
  Failure, plain, Cause, data_source_not_found, property_of_undefined, pure, raise, gets, modify,
  or_raise, ◌>>=◌, ◌>>◌, ◌==◌, if◌then◌else◌, overwrite,
}
use starion_sync.Base.Int.{ℤ}
use text.Mathlib.Text.{◌==◌ as str_eq}
use starion_sync.Driver.{Driver}
use starion_sync.Entities.{
  ObjectId, Metadata, DataSource, SourceConfig, ProviderRef, ProviderType, SyncConnection,
  default_data_source_statistics, default_data_source_limitation,
}
use starion_sync.Repository.{Db, QueryOptions, is_visible, run_process, in_session, set_keys}
use starion_sync.Repository.SyncConnections

pub record CreateDataSourceData : Type 0 where
  pub provider_type : ProviderType
  pub provider_id : ObjectId
  pub external_id : String
  pub external_local_id : String
  pub config : SourceConfig
  pub metadata : Metadata

pub record UpdateDataSourceData : Type 0 where
  pub id : ObjectId
  pub metadata : Option Metadata

-- `Partial<DataSourceStatistics>`.
pub record StatisticsUpdate : Type 0 where
  pub rows_number : Option ℤ
  pub storage_usage : Option ℕ

-- What `delete` returns under `old`.
pub record DeletedSource : Type 0 where
  pub data_source : DataSource
  pub sync_connection : Option SyncConnection

abbrev pub set_metadata : Option Metadata → DataSource → DataSource
set_metadata none d = d
set_metadata (some u) d = record d { metadata = set_keys u d.metadata }

abbrev pub set_statistics : StatisticsUpdate → DataSource → DataSource
set_statistics u d = record d {
  statistics = record {
    rows_number = overwrite u.rows_number d.statistics.rows_number;
    storage_usage = overwrite u.storage_usage d.statistics.storage_usage;
  };
}

abbrev pub mark_deleted : DataSource → DataSource
mark_deleted d = record d { is_deleted = true }

abbrev pub by_id : ObjectId → QueryOptions → DataSource → Bool
by_id id o d = (d.id == id) && is_visible o d.is_deleted

abbrev pub live : ObjectId → DataSource → Bool
live id d = (d.id == id) && not d.is_deleted

abbrev pub by_provider_id : ObjectId → QueryOptions → DataSource → Bool
by_provider_id id o d = (d.provider.id == id) && is_visible o d.is_deleted

abbrev pub by_external_id : String → QueryOptions → DataSource → Bool
by_external_id external_id o d = str_eq d.external_id external_id && is_visible o d.is_deleted

module _ (m : Driver) where
  unfoldable pub get_by_id : ObjectId → QueryOptions → Action (Db m) (Option DataSource)
  get_by_id id o = gets (λ db. m.find_one (by_id id o) db.sources)

  unfoldable pub get_by_provider_id : ObjectId → QueryOptions → Action (Db m) (List DataSource)
  get_by_provider_id id o = gets (λ db. m.find (by_provider_id id o) db.sources)

  unfoldable pub get_by_external_id : String → QueryOptions → Action (Db m) (Option DataSource)
  get_by_external_id external_id o =
      gets (λ db. m.find_one (by_external_id external_id o) db.sources)

  save_source : DataSource → Action (Db m) DataSource
  save_source d db = (ok d, record db { sources = m.save d db.sources })

  unfoldable pub create : CreateDataSourceData → Action (Db m) DataSource
  unfolding save_source
  create data' = do
    id ← gets (λ db. m.new_id (λ d. d.id) db.sources)
    save_source (record {
      id = id;
      external_id = data'.external_id;
      external_local_id = data'.external_local_id;
      provider = record { id = data'.provider_id; type = data'.provider_type };
      config = data'.config;
      statistics = default_data_source_statistics;
      limits = default_data_source_limitation;
      metadata = data'.metadata;
      is_deleted = false;
    })

  -- `(await this.dataSourceModel.findOne({ _id: id })).toObject()`.
  reload : ObjectId → Action (Db m) (Option DataSource)
  reload id = do
    found ← gets (λ db. m.find_one (λ d. d.id == id) db.sources)
    source ← or_raise found (plain property_of_undefined)
    pure (some source)

  update_found : UpdateDataSourceData → QueryOptions → Action (Db m) (Option DataSource)
  unfolding reload
  update_found u o = do
    found ← gets (λ db. m.find_one (λ d. d.id == u.id) db.sources)
    or_raise found (plain data_source_not_found)
    modify (λ db. record db {
      sources = m.update_one (λ d. d.id == u.id) (set_metadata u.metadata) db.sources;
    })
    if o.new then reload u.id else pure none

  unfoldable pub update : UpdateDataSourceData → QueryOptions → Action (Db m) (Option DataSource)
  unfolding update_found
  update u o = run_process m o (update_found u o)

  -- `if (syncConnection) await this.syncConnectionRepository.delete(...)`.
  unfoldable pub delete_connection : Option SyncConnection → Action (Db m) (Unit {0})
  delete_connection none = pure tt
  delete_connection (some c) = SyncConnections.delete m c.id in_session >> pure tt

  unfoldable pub delete_found : ObjectId → QueryOptions → Action (Db m) (Option DeletedSource)
  unfolding delete_connection
  delete_found id o = do
    found ← gets (λ db. m.find_one (live id) db.sources)
    source ← or_raise found (plain data_source_not_found)
    modify (λ db. record db { sources = m.update_one (λ d. d.id == id) mark_deleted db.sources })
    connection ← SyncConnections.get_by_data_source_id m id in_session
    delete_connection connection
    pure (
        if o.old
        then some (record { data_source = source; sync_connection = connection })
        else none)

  unfoldable pub delete : ObjectId → QueryOptions → Action (Db m) (Option DeletedSource)
  delete id o = run_process m o (delete_found id o)

  update_statistics_found :
      ObjectId → StatisticsUpdate → QueryOptions → Action (Db m) (Option DataSource)
  unfolding reload
  update_statistics_found id u o = do
    found ← gets (λ db. m.find_one (λ d. d.id == id) db.sources)
    or_raise found (plain data_source_not_found)
    modify
        (λ db. record db { sources = m.update_one (λ d. d.id == id) (set_statistics u) db.sources })
    if o.new then reload id else pure none

  unfoldable pub update_statistics :
      ObjectId → StatisticsUpdate → QueryOptions → Action (Db m) (Option DataSource)
  unfolding update_statistics_found
  update_statistics id u o = run_process m o (update_statistics_found id u o)
