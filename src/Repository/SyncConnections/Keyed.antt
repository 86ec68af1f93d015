-- ===== src/Repository/SyncConnections/Keyed.antt =====
-- libs/modules/src/repository/mongodb/repositories/syncConnection.repository.ts: every operation
-- leaves the ids of the documents unique.
use starion_sync.Base.{◌≡◌, refl, ◌>>=◌, gets}
use starion_sync.Base.Effects.Keeps.{Keeps, keeps_rules, Keeps-map_each, Keeps-for_each}
use starion_sync.Driver.{Driver}
use starion_sync.Driver.Laws.{save-IsKeyed}
use starion_sync.Entities.{ObjectId, Syncflow, SyncConnection, SyncflowRef}
use starion_sync.Repository.{QueryOptions}
use starion_sync.Repository.Keyed.{
  HasIds, run_process-Keeps, connections-Keeps, syncflows-Keeps, triggers-Keeps,
}
use starion_sync.Repository.SyncConnections.{
  CreateSyncflowData, CreateSyncConnectionData, UpdateSyncConnectionStateData, create_syncflow,
  save_syncflow, create_trigger, save_trigger, create, create_documents, save_connection, update,
  update_found, update_state, update_state_found, delete_syncflow, delete, delete_found, run_on,
}

module _ (m : Driver) where
  new_syncflow-Keeps :
      (d : ObjectId → Syncflow)
      → ((id : ObjectId) → (d id).id ≡ id)
      → Keeps
          (HasIds m)
          (gets (λ db. m.new_id (λ d. d.id) db.syncflows) >>= λ id. save_syncflow m (d id))
  unfolding save_syncflow
  new_syncflow-Keeps d own = record {
    at = λ db (a, b, c, h, e, f, g).
        (a, b, c, save-IsKeyed m (λ d. d.id) _ db.syncflows (own _) h, e, f, g);
  }

  new_connection-Keeps :
      (d : ObjectId → SyncConnection)
      → ((id : ObjectId) → (d id).id ≡ id)
      → Keeps
          (HasIds m)
          (gets (λ db. m.new_id (λ d. d.id) db.connections) >>= λ id. save_connection m (d id))
  unfolding save_connection
  new_connection-Keeps d own = record {
    at = λ db (a, b, h, c, e, f, g).
        (a, b, save-IsKeyed m (λ d. d.id) _ db.connections (own _) h, c, e, f, g);
  }

  create_syncflow-HasIds :
      (id : ObjectId) (given : CreateSyncflowData) → Keeps (HasIds m) (create_syncflow m id given)
  unfolding create_syncflow
  create_syncflow-HasIds id given = search (keeps_rules, new_syncflow-Keeps, refl)

  create_trigger-HasIds :
      (id : ObjectId) (p : CreateSyncflowData × Syncflow) → Keeps (HasIds m) (create_trigger m id p)
  unfolding create_trigger save_trigger
  create_trigger-HasIds id (given, s) = record {
    at = λ db (a, b, c, d, e, f, g).
        (a, b, c, d, save-IsKeyed m (λ d. d.id) _ db.triggers refl e, f, g);
  }

  pub create-HasIds :
      (given : CreateSyncConnectionData) (o : QueryOptions) → Keeps (HasIds m) (create m given o)
  unfolding create create_documents
  create-HasIds given o =
      search
        (
          keeps_rules, run_process-Keeps, Keeps-map_each, create_syncflow-HasIds,
          create_trigger-HasIds, new_connection-Keeps, refl,
        )
        depth 12

  pub update-HasIds : (id : ObjectId) (o : QueryOptions) → Keeps (HasIds m) (update m id o)
  unfolding update update_found
  update-HasIds id o = search (keeps_rules, run_process-Keeps)

  pub update_state-HasIds :
      (u : UpdateSyncConnectionStateData) (o : QueryOptions) → Keeps (HasIds m) (update_state m u o)
  unfolding update_state update_state_found
  update_state-HasIds u o = search (keeps_rules, run_process-Keeps, connections-Keeps) depth 12

  delete_syncflow-HasIds : (s : SyncflowRef) → Keeps (HasIds m) (delete_syncflow m s)
  unfolding delete_syncflow
  delete_syncflow-HasIds s = search (keeps_rules, syncflows-Keeps, triggers-Keeps) depth 12

  run_on-HasIds : (s : SyncflowRef) → Keeps (HasIds m) (run_on m s)
  unfolding run_on
  run_on-HasIds s = search (keeps_rules, delete_syncflow-HasIds)

  delete_found-HasIds : (id : ObjectId) (o : QueryOptions) → Keeps (HasIds m) (delete_found m id o)
  unfolding delete_found
  delete_found-HasIds id o =
      search (keeps_rules, Keeps-for_each, delete_syncflow-HasIds, connections-Keeps) depth 12

  pub delete-HasIds : (id : ObjectId) (o : QueryOptions) → Keeps (HasIds m) (delete m id o)
  unfolding delete
  delete-HasIds id o =
      search (keeps_rules, run_process-Keeps, Keeps-for_each, run_on-HasIds, delete_found-HasIds)
        depth 12
