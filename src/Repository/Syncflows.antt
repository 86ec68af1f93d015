-- ===== src/Repository/Syncflows.antt =====
-- libs/modules/src/repository/mongodb/repositories/syncflow.repository.ts
pub mod Keyed
pub mod State
pub mod Deletion
use starion_sync.Base.{
  ℕ, ◌+◌, Bool, true, false, not, ◌&&◌, Option, none, some, Action, Outcome, ok, throw, Failure,
  plain, Cause, trigger_not_found, pure, raise, gets, modify, or_raise, ◌>>=◌, ◌>>◌, ◌==◌,
  if◌then◌else◌, overwrite, overwrite_opt,
}
use starion_sync.Driver.{Driver}
use starion_sync.Entities.{
  ObjectId, Syncflow, SyncflowState, SyncflowStateUpdate, WorkflowStatus, no_state_update,
}
use starion_sync.Repository.{equals_id, no_options, Db, QueryOptions, is_visible, run_process}

-- What the schema `SyncflowStateModel` declares; mongoose stores no other path of an update,
-- and the schema has no `cursor`.
unfoldable pub declared_state : SyncflowStateUpdate → SyncflowStateUpdate
declared_state u = record u { cursor = none }

-- `$set` of the keys `state.${key}` that an update has.
unfoldable pub set_state : SyncflowStateUpdate → Syncflow → Syncflow
set_state u d = record d {
  state = record {
    status = overwrite u.status d.state.status;
    version = overwrite u.version d.state.version;
    prev_version = overwrite u.prev_version d.state.prev_version;
    cursor = overwrite_opt u.cursor d.state.cursor;
    downloaded_at = overwrite_opt u.downloaded_at d.state.downloaded_at;
    ingested_at = overwrite_opt u.ingested_at d.state.ingested_at;
  };
}

abbrev pub mark_deleted : Syncflow → Syncflow
mark_deleted d = record d { is_deleted = true }

abbrev pub by_id : ObjectId → QueryOptions → Syncflow → Bool
by_id id o d = (d.id == id) && is_visible o d.is_deleted

abbrev pub by_trigger_id : ObjectId → QueryOptions → Syncflow → Bool
by_trigger_id id o d = equals_id d.trigger.id id && is_visible o d.is_deleted

-- `{ _id: id, isDeleted: false }`.
abbrev pub live : ObjectId → Syncflow → Bool
live id d = (d.id == id) && not d.is_deleted

module _ (m : Driver) where
  unfoldable pub get_by_id : ObjectId → QueryOptions → Action (Db m) (Option Syncflow)
  get_by_id id o = gets (λ db. m.find_one (by_id id o) db.syncflows)

  unfoldable pub get_by_trigger_id : ObjectId → QueryOptions → Action (Db m) (Option Syncflow)
  get_by_trigger_id id o = gets (λ db. m.find_one (by_trigger_id id o) db.syncflows)

  -- `create` and `update` open an empty transaction.
  unfoldable pub create : Action (Db m) (Option Syncflow)
  create = m.with_transaction (pure tt) >> pure none

  unfoldable pub update : QueryOptions → Action (Db m) (Option Syncflow)
  update o = m.with_transaction (pure tt) >> pure none

  abbrev pub update_live : ObjectId → (Syncflow → Syncflow) → Db m → Db m
  update_live id f db = record db { syncflows = m.update_one (live id) f db.syncflows }

  -- `if (options?.new) return this.getById(id)`.
  abbrev pub return_new : ObjectId → QueryOptions → Action (Db m) (Option Syncflow)
  return_new id o = if o.new then get_by_id id no_options else pure none

  -- The three updates below pass no session on: they write at once, inside a transaction too.
  unfoldable pub update_state :
      ObjectId → SyncflowStateUpdate → QueryOptions → Action (Db m) (Option Syncflow)
  unfolding set_state declared_state get_by_id
  update_state id u o = do modify (update_live id (set_state (declared_state u))); return_new id o

  unfoldable pub update_status :
      ObjectId → WorkflowStatus → QueryOptions → Action (Db m) (Option Syncflow)
  unfolding set_state get_by_id
  update_status id status o = do
    modify (update_live id (set_state (record no_state_update { status = some status })))
    return_new id o

  unfoldable pub increase_version : ObjectId → QueryOptions → Action (Db m) (Option Syncflow)
  unfolding get_by_id
  increase_version id o = do
    modify (
        update_live id
          (λ d. record d { state = record (d.state) { version = d.state.version + 1 } }))
    return_new id o

  -- The document that was found is updated by its id.
  delete_found : ObjectId → Action (Db m) (Unit {0})
  delete_found id = do
    found ← gets (λ db. m.find_one (live id) db.syncflows)
    or_raise found (plain trigger_not_found)
    modify
        (λ db. record db { syncflows = m.update_one (λ d. d.id == id) mark_deleted db.syncflows })

  unfoldable pub delete : ObjectId → QueryOptions → Action (Db m) (Unit {0})
  unfolding delete_found
  delete id o = run_process m o (delete_found id)
