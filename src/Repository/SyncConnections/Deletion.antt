-- ===== src/Repository/SyncConnections/Deletion.antt =====
-- libs/modules/src/repository/mongodb/repositories/syncConnection.repository.ts, `delete`: a
-- connection goes with its syncflows and their triggers.
use starion_sync.Base.{
  ◌≡◌, refl, ap, ◌∙◌, true, not, none, some, ok, throw, plain, property_of_undefined, ◌==◌,
  if◌then◌else◌, pure, raise, for_each, bind_ok, catch_ok, ◌>>◌,
}
use starion_sync.Driver.{Driver}
use starion_sync.Driver.Laws.{IsKeyed, find_one-update_key_gone}
use starion_sync.Entities.{ObjectId, SyncConnection}
use starion_sync.Repository.{Db, QueryOptions, no_options, run_process}
use starion_sync.Repository.Transactions.{run_process_commits}
use starion_sync.Repository.SyncConnections.{
  mark_deleted, get_by_id, delete_syncflow, delete_found, left_running, run_on, delete,
}
use starion_sync.Repository.SyncConnections.Entries.{
  all_have_documents, AllGone, HasKeys, for_each-delete_syncflow, connections-delete_syncflow,
  delete_syncflow-AllGone,
}

module _ (m : Driver) where
  -- What the work of `delete` comes to, when the connection is there.
  abbrev pub without : ObjectId → Db m → Db m
  without id db = record db {
    connections = m.update_one (λ d. d.id == id) mark_deleted db.connections;
  }

  delete_found_lem :
      (id : ObjectId) (o : QueryOptions) (db : Db m) (c : SyncConnection)
      → m.find_one (λ d. d.id == id) db.connections ≡ some c
      → all_have_documents m db c.syncflows ≡ true
      → delete_found m id o db ≡ (
        ok (if o.old then some c else none),
        (for_each (c.syncflows) (delete_syncflow m) (without id db)).1,
      )
  unfolding delete_found
  delete_found_lem id o db c h all =
      let run = for_each (c.syncflows) (delete_syncflow m) (without id db) in
      rw h (
        bind_ok (for_each (c.syncflows) (delete_syncflow m))
          (λ _. pure (if o.old then some c else none)) (without id db) _ tt
          (ap (λ r. (r, run.1))
            (for_each-delete_syncflow m c.syncflows (without id db)
              ∙ ap (λ b. if b then ok tt else throw (plain property_of_undefined)) all)))

  pub delete_present :
      (id : ObjectId) (o : QueryOptions) (db : Db m) (c : SyncConnection)
      → m.find_one (λ d. d.id == id) db.connections ≡ some c
      → all_have_documents m db c.syncflows ≡ true
      → delete m id o db ≡ (
        ok (if o.old then some c else none),
        (for_each (c.syncflows) (delete_syncflow m) (without id db)).1,
      )
  unfolding delete
  delete_present id o db c h all =
      catch_ok (run_process m o (delete_found m id o))
        (λ e. for_each (left_running m id db) (run_on m) >> raise e) db _ _
        (run_process_commits m o (delete_found m id o) db _ _ (delete_found_lem id o db c h all))

  -- Where ids are unique and each syncflow has one trigger, `delete` of a connection whose
  -- syncflows and triggers exist returns, with the connection under `old` and undefined else.
  -- Afterwards no lookup of the id sees the connection, and for none of the syncflows that it
  -- names is there one, or a trigger of one, that is not deleted.
  pub delete-AllGone :
      (id : ObjectId) (o : QueryOptions) (db : Db m) (c : SyncConnection)
      → IsKeyed m (λ d. d.id) db.connections
      → HasKeys m db
      → m.find_one (λ d. d.id == id) db.connections ≡ some c
      → all_have_documents m db c.syncflows ≡ true
      → ((delete m id o db).0 ≡ ok (if o.old then some c else none))
        × ((get_by_id m id no_options (delete m id o db).1).0 ≡ ok none)
        × AllGone m (delete m id o db).1 c.syncflows
  unfolding get_by_id
  delete-AllGone id o db c u keys h all = rw (delete_present id o db c h all) (
    refl,
    ap ok (
        rw (connections-delete_syncflow m c.syncflows (without id db) all) (
          find_one-update_key_gone m (λ d. d.id) id (λ d. not d.is_deleted) mark_deleted
            db.connections u (λ d. refl))),
    delete_syncflow-AllGone m c.syncflows (without id db) keys all,
  )
