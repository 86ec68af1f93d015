-- ===== src/Repository/DataSources/Deletion.antt =====
-- libs/modules/src/repository/mongodb/repositories/dataSource.repository.ts, `delete`: a data source
-- goes with its connection.
use starion_sync.Base.{
  ◌≡◌, refl, ap, ◌∙◌, true, not, Option, none, some, ok, ◌==◌, if◌then◌else◌, bind_ok, pure,
}
use starion_sync.Driver.{Driver}
use starion_sync.Driver.Laws.{IsKeyed, find_one-own_key, find_one-update_key_gone}
use starion_sync.Entities.{ObjectId, DataSource, SyncConnection}
use starion_sync.Repository.{Db, QueryOptions, no_options, in_session}
use starion_sync.Repository.Transactions.{run_process_commits}
use starion_sync.Repository.SyncConnections
use starion_sync.Repository.SyncConnections.Entries.{
  all_have_documents, AllGone, HasKeys, sources-delete_syncflow,
}
use starion_sync.Repository.SyncConnections.Deletion.{delete-AllGone, delete_present, without}
use starion_sync.Repository.DataSources.{
  live, mark_deleted, get_by_id, delete, delete_found, delete_connection, DeletedSource,
}

module _ (m : Driver) where
  abbrev hidden : ObjectId → Db m → Db m
  hidden id db = record db { sources = m.update_one (λ d. d.id == id) mark_deleted db.sources }

  abbrev result : QueryOptions → DataSource → SyncConnection → Option DeletedSource
  result o d c = if o.old then some (record { data_source = d; sync_connection = some c }) else none

  abbrev after_connection : ObjectId → SyncConnection → Db m → Db m
  after_connection id c db = (SyncConnections.delete m c.id in_session (hidden id db)).1

  delete_connection_lem :
      (id : ObjectId) (c : SyncConnection) (db : Db m)
      → (SyncConnections.delete m c.id in_session (hidden id db)).0 ≡ ok none
      → delete_connection m (some c) (hidden id db) ≡ (ok tt, after_connection id c db)
  unfolding delete_connection
  delete_connection_lem id c db h =
      bind_ok (SyncConnections.delete m c.id in_session) (λ _. pure tt) (hidden id db)
        (after_connection id c db) none (ap (λ r. (r, after_connection id c db)) h)

  found_lem :
      (id : ObjectId) (o : QueryOptions) (db : Db m) (d : DataSource) (c : SyncConnection)
      → m.find_one (live id) db.sources ≡ some d
      → m.find_one (SyncConnections.by_source_id id no_options) db.connections ≡ some c
      → (SyncConnections.delete m c.id in_session (hidden id db)).0 ≡ ok none
      → delete_found m id o db ≡ (ok (result o d c), after_connection id c db)
  unfolding delete_found SyncConnections.get_by_data_source_id
  found_lem id o db d c h g e =
      rw (h, g)
        (bind_ok (delete_connection m (some c)) (λ _. pure (result o d c)) (hidden id db)
          (after_connection id c db) tt (delete_connection_lem id c db e))

  sources_after :
      (id : ObjectId) (c : SyncConnection) (db : Db m)
      → m.find_one (λ e. e.id == c.id) db.connections ≡ some c
      → all_have_documents m db c.syncflows ≡ true
      → (after_connection id c db).sources ≡ (hidden id db).sources
  sources_after id c db h all =
      ap (λ r. r.1.sources) (delete_present m c.id in_session (hidden id db) c h all)
      ∙ sources-delete_syncflow m c.syncflows (without m c.id (hidden id db)) all

  -- Where ids are unique and each syncflow has one trigger, `delete` of a data source with a
  -- connection whose documents exist returns, with both under `old`. Afterwards no lookup of
  -- their ids sees the data source or the connection, and none of the connection's syncflows and
  -- their triggers is left undeleted.
  pub delete_source-AllGone :
      (id : ObjectId) (o : QueryOptions) (db : Db m) (d : DataSource) (c : SyncConnection)
      → IsKeyed m (λ e. e.id) db.sources
      → IsKeyed m (λ e. e.id) db.connections
      → HasKeys m db
      → m.find_one (live id) db.sources ≡ some d
      → m.find_one (SyncConnections.by_source_id id no_options) db.connections ≡ some c
      → all_have_documents m db c.syncflows ≡ true
      → ((delete m id o db).0 ≡ ok (result o d c))
        × ((get_by_id m id no_options (delete m id o db).1).0 ≡ ok none)
        × ((SyncConnections.get_by_id m c.id no_options (delete m id o db).1).0 ≡ ok none)
        × AllGone m (delete m id o db).1 c.syncflows
  unfolding delete get_by_id
  delete_source-AllGone id o db d c us uc keys h g all =
      let own =
        find_one-own_key m (λ e. e.id) (SyncConnections.by_source_id id no_options) db.connections c
          uc g in
      let gone = delete-AllGone m c.id in_session (hidden id db) c uc keys own all in
      rw
        (run_process_commits m o (delete_found m id o) db (after_connection id c db) (result o d c)
          (found_lem id o db d c h g gone.0))
        (
          refl,
          ap ok (
              rw (sources_after id c db own all) (
                find_one-update_key_gone m (λ e. e.id) id (λ e. not e.is_deleted) mark_deleted
                  db.sources us (λ e. refl))),
          gone.1,
          gone.2,
        )
