-- ===== src/Repository/SyncConnections.antt =====
-- libs/modules/src/repository/mongodb/repositories/syncConnection.repository.ts. The opaque
-- `config` of a connection and of its syncflows, which is only stored, is left out. The calls
-- under a `Promise.all` are taken in order; when one of a deletion throws, those after it run on.
pub mod Keyed
pub mod State
pub mod Entries
pub mod Rejection
pub mod Deletion
pub mod Creation
use starion_sync.Base.{
  ℕ, Bool, true, false, not, ◌&&◌, Option, none, some, List, [], ◌∷◌, map, Action, Outcome, ok,
  throw, Failure, plain, Cause, sync_connection_not_found, data_source_not_found,
  property_of_undefined, pure, raise, gets, modify, or_raise, catch, for_each, map_each, ◌>>=◌,
  ◌>>◌, ◌==◌, if◌then◌else◌, overwrite, first,
}
use starion_sync.Driver.{Driver}
use starion_sync.Entities.{
  ObjectId, Syncflow, Trigger, TriggerConfig, TriggerRef, WorkflowRef, SyncConnection, SyncflowRef,
  SyncflowName, TriggerName, SyncConnectionStatus, HealthStatus, default_syncflow_state,
  default_sync_connection_state, syncflow_workflow,
}
use starion_sync.Entities.Registry.{get_syncflow, get_trigger}
use starion_sync.Repository.{Db, QueryOptions, is_visible, run_process}
use starion_sync.Repository.Syncflows
use starion_sync.Repository.Triggers

-- An entry of `CreateSyncConnectionData.syncflows`.
pub record CreateSyncflowData : Type 0 where
  pub name : SyncflowName
  pub trigger_name : TriggerName
  pub trigger_config : Option TriggerConfig

pub record CreateSyncConnectionData : Type 0 where
  pub source_id : ObjectId
  pub syncflows : List CreateSyncflowData

pub record UpdateSyncConnectionStateData : Type 0 where
  pub id : ObjectId
  pub status : Option SyncConnectionStatus
  pub health_status : Option HealthStatus

-- An ObjectId is an object: the `_id` of a document, or what one call of `toObjectId` made.
-- `===` on objects tells whether they are the same object.
pub data ObjectRef : Type 0 where
  own_id converted : ObjectId → ObjectRef

abbrev pub same_object : ObjectRef → ObjectRef → Bool
same_object (own_id a) (own_id b) = a == b
same_object (own_id a) (converted b) = false
same_object (converted a) _ = false

-- A trigger document in memory, with the object that its `workflow.id` is.
abbrev TriggerDocument : Type 0
TriggerDocument = ObjectRef × Trigger

abbrev pub set_state : UpdateSyncConnectionStateData → SyncConnection → SyncConnection
set_state u d = record d {
  state = record {
    status = overwrite u.status d.state.status;
    health_status = overwrite u.health_status d.state.health_status;
  };
}

abbrev pub mark_deleted : SyncConnection → SyncConnection
mark_deleted d = record d { is_deleted = true }

abbrev pub by_id : ObjectId → QueryOptions → SyncConnection → Bool
by_id id o d = (d.id == id) && is_visible o d.is_deleted

abbrev pub by_source_id : ObjectId → QueryOptions → SyncConnection → Bool
by_source_id id o d = (d.source_id == id) && is_visible o d.is_deleted

-- `triggerDocuments.find((trigger) => trigger.workflow.id === syncflow._id)?._id`.
abbrev trigger_id_of : Syncflow → List TriggerDocument → Option ObjectId
trigger_id_of s ts = elim (first (λ t. same_object t.0 (own_id s.id)) ts) [
  | none ↦ none
  | some t ↦ some (t.1.id)
]

abbrev syncflow_ref : List TriggerDocument → Syncflow → SyncflowRef
syncflow_ref ts s = record {
  id = s.id;
  name = s.name;
  trigger = record { id = trigger_id_of s ts; name = s.trigger.name; type = s.trigger.type };
}

-- `data.syncflows[index]`, beside the document made of it.
abbrev zip_data : List CreateSyncflowData → List Syncflow → List (CreateSyncflowData × Syncflow)
zip_data (c ∷ cs) (s ∷ ss) = (c, s) ∷ zip_data cs ss
zip_data _ _ = []

module _ (m : Driver) where
  unfoldable pub get_by_id : ObjectId → QueryOptions → Action (Db m) (Option SyncConnection)
  get_by_id id o = gets (λ db. m.find_one (by_id id o) db.connections)

  unfoldable pub get_by_data_source_id :
      ObjectId → QueryOptions → Action (Db m) (Option SyncConnection)
  get_by_data_source_id id o = gets (λ db. m.find_one (by_source_id id o) db.connections)

  save_syncflow : Syncflow → Action (Db m) Syncflow
  save_syncflow d db = (ok d, record db { syncflows = m.save d db.syncflows })

  save_trigger : Trigger → Action (Db m) Trigger
  save_trigger d db = (ok d, record db { triggers = m.save d db.triggers })

  save_connection : SyncConnection → Action (Db m) SyncConnection
  save_connection d db = (ok d, record db { connections = m.save d db.connections })

  create_syncflow : ObjectId → CreateSyncflowData → Action (Db m) Syncflow
  unfolding save_syncflow
  create_syncflow source_id data' = do
    from_registry ← or_raise (get_syncflow data'.name) (plain property_of_undefined)
    trigger ← or_raise (get_trigger data'.trigger_name) (plain property_of_undefined)
    id ← gets (λ db. m.new_id (λ d. d.id) db.syncflows)
    save_syncflow (record {
      id = id;
      name = from_registry.name;
      attributes = from_registry.attributes;
      source_id = source_id;
      state = default_syncflow_state;
      trigger = record { id = none; name = trigger.name; type = trigger.type };
      is_deleted = false;
    })

  create_trigger : ObjectId → CreateSyncflowData × Syncflow → Action (Db m) TriggerDocument
  unfolding save_trigger
  create_trigger source_id (data', syncflow) = do
    id ← gets (λ db. m.new_id (λ d. d.id) db.triggers)
    saved ← save_trigger (record {
      id = id;
      name = syncflow.trigger.name;
      type = syncflow.trigger.type;
      workflow = record { id = syncflow.id; name = syncflow.name; type = syncflow_workflow };
      source_id = source_id;
      config = data'.trigger_config;
      is_deleted = false;
    })
    pure (converted syncflow.id, saved)

  create_documents : CreateSyncConnectionData → Action (Db m) SyncConnection
  unfolding create_syncflow create_trigger save_connection
  create_documents data' = do
    syncflows ← map_each (create_syncflow data'.source_id) data'.syncflows
    triggers ← map_each (create_trigger data'.source_id) (zip_data data'.syncflows syncflows)
    id ← gets (λ db. m.new_id (λ d. d.id) db.connections)
    save_connection (record {
      id = id;
      state = default_sync_connection_state;
      source_id = data'.source_id;
      syncflows = map (syncflow_ref triggers) syncflows;
      is_deleted = false;
    })

  unfoldable pub create : CreateSyncConnectionData → QueryOptions → Action (Db m) SyncConnection
  unfolding create_documents
  create data' o = run_process m o (create_documents data')

  -- The update sets nothing.
  update_found : ObjectId → QueryOptions → Action (Db m) (Option SyncConnection)
  update_found id o = do
    found ← gets (λ db. m.find_one (λ d. d.id == id) db.connections)
    or_raise found (plain data_source_not_found)
    if o.new then gets (λ db. m.find_one (λ d. d.id == id) db.connections) else pure none

  unfoldable pub update : ObjectId → QueryOptions → Action (Db m) (Option SyncConnection)
  unfolding update_found
  update id o = run_process m o (update_found id o)

  update_state_found :
      UpdateSyncConnectionStateData → QueryOptions → Action (Db m) (Option SyncConnection)
  update_state_found u o = do
    found ← gets (λ db. m.find_one (λ d. d.id == u.id) db.connections)
    or_raise found (plain sync_connection_not_found)
    modify (λ db. record db {
      connections = m.update_one (λ d. d.id == u.id) (set_state u) db.connections;
    })
    if o.new then gets (λ db. m.find_one (λ d. d.id == u.id) db.connections) else pure none

  unfoldable pub update_state :
      UpdateSyncConnectionStateData → QueryOptions → Action (Db m) (Option SyncConnection)
  unfolding update_state_found
  update_state u o = run_process m o (update_state_found u o)

  -- A syncflow of a deleted connection goes with its trigger; a missing document is a TypeError.
  unfoldable pub delete_syncflow : SyncflowRef → Action (Db m) (Unit {0})
  delete_syncflow s = do
    syncflow ← gets (λ db. m.find_one (λ d. d.id == s.id) db.syncflows)
    or_raise syncflow (plain property_of_undefined)
    modify (λ db. record db {
      syncflows = m.update_one (λ d. d.id == s.id) Syncflows.mark_deleted db.syncflows;
    })
    trigger ← gets (λ db. m.find_one (λ d. d.workflow.id == s.id) db.triggers)
    found ← or_raise trigger (plain property_of_undefined)
    modify (λ db. record db {
      triggers = m.update_one (λ d. d.id == found.id) Triggers.mark_deleted db.triggers;
    })

  unfoldable pub delete_found : ObjectId → QueryOptions → Action (Db m) (Option SyncConnection)
  unfolding delete_syncflow
  delete_found id o = do
    found ← gets (λ db. m.find_one (λ d. d.id == id) db.connections)
    connection ← or_raise found (plain sync_connection_not_found)
    modify (λ db. record db {
      connections = m.update_one (λ d. d.id == id) mark_deleted db.connections;
    })
    for_each (connection.syncflows) delete_syncflow
    pure (if o.old then some connection else none)

  -- The entries after the first whose documents are missing.
  unfoldable pub after_missing : List SyncflowRef → Db m → List SyncflowRef
  after_missing [] db = []
  after_missing (s ∷ ss) db = elim ((delete_syncflow s db).0) [
    | ok a ↦ after_missing ss (delete_syncflow s db).1
    | throw e ↦ ss
  ]

  unfoldable pub left_running : ObjectId → Db m → List SyncflowRef
  left_running id db = elim (m.find_one (λ d. d.id == id) db.connections) [
    | none ↦ []
    | some c ↦
        after_missing c.syncflows
          (record db { connections = m.update_one (λ d. d.id == id) mark_deleted db.connections })
  ]

  -- An entry whose rejection nobody awaits any more.
  unfoldable pub run_on : SyncflowRef → Action (Db m) (Unit {0})
  run_on s = catch (delete_syncflow s) (λ e. pure tt)

  -- The first rejection ends the `Promise.all`, and with it the transaction, but not the entries
  -- that it has started: here those after the rejected one run on after the end, in order, outside
  -- of the transaction that was undone. In the source they may also come before that end.
  unfoldable pub delete : ObjectId → QueryOptions → Action (Db m) (Option SyncConnection)
  delete id o = do
    rest ← gets (left_running id)
    catch (run_process m o (delete_found id o)) (λ e. for_each rest run_on >> raise e)
