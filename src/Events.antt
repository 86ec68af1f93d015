-- ===== src/Events.antt =====
-- libs/core/src/events, and the world that a service acts on: the database, and the events that
-- it has emitted to the broker, the last one first.
use starion_sync.Base.{ℕ, Bool, Option, List, ◌∷◌, Action, ok, ErrorType}
use starion_sync.Base.Int.{ℤ}
use starion_sync.Driver.{Driver}
use starion_sync.Entities.{ObjectId, Syncflow, Trigger, SyncConnection, ProviderType}
use starion_sync.Repository.{Db}

-- What the loader reports.
pub record LoadStatistics : Type 0 where
  pub added_rows_count : ℕ
  pub deleted_rows_count : ℕ
  pub is_schema_changed : Bool

pub record SyncflowScheduledPayload : Type 0 where
  pub syncflow : Syncflow
  pub version : ℕ

pub record SyncflowSucceedPayload : Type 0 where
  pub data_source_id : ObjectId
  pub syncflow_id : ObjectId
  pub sync_version : ℕ
  pub prev_sync_version : ℕ
  pub statistics : LoadStatistics

pub record SyncflowFailedPayload : Type 0 where
  pub data_source_id : ObjectId
  pub syncflow_id : ObjectId
  pub sync_version : ℕ
  pub error_type : ErrorType
  pub code : ℕ

pub record SyncflowCompletedPayload : Type 0 where
  pub data_source_id : ObjectId
  pub syncflow_id : ObjectId
  pub sync_version : ℕ
  pub rows_number : ℤ

-- `EventNames` and the workflow events of apps/worker, each with its payload. A payload that is
-- `undefined` is `none`.
pub data Event : Type 0 where
  workflow_triggered : Trigger → Event
  syncflow_scheduled : SyncflowScheduledPayload → Event
  syncflow_succeed : SyncflowSucceedPayload → Event
  syncflow_completed : SyncflowCompletedPayload → Event
  syncflow_failed : SyncflowFailedPayload → Event
  data_source_error : ObjectId → ℕ → Event
  connection_created : SyncConnection → Event
  connection_deleted : Option SyncConnection → Event
  data_source_deleted : ObjectId → Option ObjectId → Event
  data_provider_deleted : ObjectId → ProviderType → Event
  sheets_download : ObjectId → SyncflowScheduledPayload → Event
  sheets_proceed_sync : SyncflowScheduledPayload → Event

pub record World (m : Driver) : Type 0 where
  pub db : Db m
  pub events : List Event

module _ {m : Driver} where
  -- `brokerService.emitEvent(name, { payload })`.
  abbrev pub emit_event : Event → Action (World m) (Unit {0})
  emit_event e w = (ok tt, record w { events = e ∷ w.events })

  -- A repository's method, called by a service.
  abbrev pub on_db : {A : Type 0} → Action (Db m) A → Action (World m) A
  on_db f w = let (r, db) = f w.db in (r, record w { db = db })
