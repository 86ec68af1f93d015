-- ===== src/Repository/Syncflows/Keyed.antt =====
-- libs/modules/src/repository/mongodb/repositories/syncflow.repository.ts: every operation
-- leaves the ids of the documents unique.
use starion_sync.Base.{◌≡◌, modify}
use starion_sync.Base.Effects.Keeps.{Keeps, keeps_rules}
use starion_sync.Driver.{Driver}
use starion_sync.Entities.{ObjectId, Syncflow, WorkflowStatus, SyncflowStateUpdate}
use starion_sync.Repository.{QueryOptions}
use starion_sync.Repository.Keyed.{HasIds, transaction-Keeps, run_process-Keeps, syncflows-Keeps}
use starion_sync.Repository.Syncflows.{
  create, update, update_live, live, update_state, set_state, update_status, increase_version,
  get_by_id, delete, delete_found,
}

module _ (m : Driver) where
  pub create-HasIds : Keeps (HasIds m) (create m)
  unfolding create
  create-HasIds = search (keeps_rules, transaction-Keeps)

  pub update-HasIds : (o : QueryOptions) → Keeps (HasIds m) (update m o)
  unfolding update
  update-HasIds o = search (keeps_rules, transaction-Keeps)

  live-Keeps :
      (id : ObjectId) (f : Syncflow → Syncflow)
      → ((d : Syncflow) → (f d).id ≡ d.id)
      → Keeps (HasIds m) (modify (update_live m id f))
  live-Keeps id f keep = syncflows-Keeps m (live id) f keep

  pub update_state-HasIds :
      (id : ObjectId) (u : SyncflowStateUpdate) (o : QueryOptions)
      → Keeps (HasIds m) (update_state m id u o)
  unfolding update_state set_state get_by_id
  update_state-HasIds id u o = search (keeps_rules, live-Keeps)

  pub update_status-HasIds :
      (id : ObjectId) (status : WorkflowStatus) (o : QueryOptions)
      → Keeps (HasIds m) (update_status m id status o)
  unfolding update_status set_state get_by_id
  update_status-HasIds id status o = search (keeps_rules, live-Keeps)

  pub increase_version-HasIds :
      (id : ObjectId) (o : QueryOptions) → Keeps (HasIds m) (increase_version m id o)
  unfolding increase_version get_by_id
  increase_version-HasIds id o = search (keeps_rules, live-Keeps)

  pub delete-HasIds : (id : ObjectId) (o : QueryOptions) → Keeps (HasIds m) (delete m id o)
  unfolding delete delete_found
  delete-HasIds id o = search (keeps_rules, run_process-Keeps, syncflows-Keeps)
