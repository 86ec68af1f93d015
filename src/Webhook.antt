-- ===== src/Webhook.antt =====
-- apps/webhook: what is sent to the webhooks that other programs have registered. The queue of the
-- executions is the list of the jobs that are in it, waiting or running; one that is done is
-- removed. A request is what was posted where. The
-- signature that goes with a request, and the options of a job but its attempts, are left out.
pub mod Payloads
pub mod Queue
pub mod Subscribers
mod Tests
use starion_sync.Base.{
  ℕ, ◌≡◌, Bool, true, false, not, ◌||◌, Option, select, IsUnique, none, some, List, [], ◌∷◌, ◌++◌,
  map, String, Action, Outcome, ok, throw, Failure, plain, Cause, unsupported_event, ErrorType,
  pure, raise, ◌>>=◌, ◌>>◌, ◌==◌, if◌then◌else◌,
}
use starion_sync.Base.Int.{ℤ}
use starion_sync.Driver.{Driver}
use starion_sync.Entities.{
  ObjectId, Webhook, WebhookType, WebhookScope, global_scope, data_source_scope, ProviderType,
  SourceConfig, Metadata, DataSource, SyncConnection, data_source_deleted_type,
  data_source_error_type, sync_connection_created_type, syncflow_scheduled_type,
  syncflow_succeed_type, syncflow_completed_type, syncflow_failed_type, is_webhook_active,
}
use starion_sync.Repository.{Db, QueryOptions, no_options, deleted_too}
use starion_sync.Repository.Webhooks
use starion_sync.Repository.DataSources
use starion_sync.Events.{
  Event, LoadStatistics, syncflow_scheduled, syncflow_succeed, syncflow_completed, syncflow_failed,
  connection_created, data_source_deleted, data_source_error,
}

-- apps/webhook/src/modules/webhook/webhook.payload.ts: of each kind of event, the keys in its order.
pub data WebhookPayload : Type 0 where
  sync_connection_created : ProviderType → ObjectId → SourceConfig → WebhookPayload
  webhook_scheduled : ObjectId → ObjectId → ℕ → Bool → WebhookPayload
  webhook_succeed : ObjectId → ObjectId → ℕ → Bool → LoadStatistics → WebhookPayload
  webhook_completed : ObjectId → ObjectId → ℤ → ℕ → Bool → WebhookPayload
  webhook_failed : ObjectId → ObjectId → ℕ → Bool → ErrorType → ℕ → WebhookPayload
  source_deleted : Option ObjectId → ObjectId → WebhookPayload
  source_error : ObjectId → ℕ → WebhookPayload

-- `WebhookExecutionData`, with the `jobId` and the attempts of its job.
pub record Job : Type 0 where
  pub job_id : ObjectId
  pub webhook_id : ObjectId
  pub payload : WebhookPayload
  pub attempts : ℕ

-- A request that was posted: its time, and the webhook's metadata.
pub record Request : Type 0 where
  pub url : String
  pub payload : WebhookPayload
  pub timestamp : ℕ
  pub metadata : Option Metadata

pub record Outbox (m : Driver) : Type 0 where
  pub db : Db m
  pub jobs : List Job
  pub requests : List Request

-- `isInitialSyncVersion`, of a version that may be undefined.
abbrev pub is_initial_sync_version : Option ℕ → Bool
is_initial_sync_version none = false
is_initial_sync_version (some prev) = prev == 0

-- What an event is sent as: the type, the data source and the payload.
pub record Announcement : Type 0 where
  pub type : WebhookType
  pub source_id : ObjectId
  pub payload : WebhookPayload

abbrev pub announce : WebhookType → ObjectId → WebhookPayload → Option Announcement
announce t id p = some (record { type = t; source_id = id; payload = p })

abbrev pub announce_created : ObjectId → Option DataSource → Option Announcement
announce_created id none = none
announce_created id (some d) =
    announce sync_connection_created_type id (sync_connection_created d.provider.type id d.config)

-- Whether a job of the id is in the queue.
unfoldable pub is_queued : List Job → ObjectId → Bool
is_queued [] id = false
is_queued (j ∷ js) id = (j.job_id == id) || is_queued js id

-- What `addBulk` of Bull makes of a queue. The law is its documented behaviour: jobs of different
-- ids are added in order, and one whose id is in the queue already is ignored.
pub record Bull : Type 0 where
  pub add_bulk : List Job → List Job → List Job
  pub add_bulk_new :
      (q js : List Job)
      → IsUnique (λ j. j.job_id) js
      → add_bulk q js ≡ q ++ select (λ j. not (is_queued q j.job_id)) js

-- The options of a webhook's job: `options?.assure ? 100000 : 5`.
abbrev pub job_of : WebhookPayload → Bool → Webhook → Job
job_of payload assure w = record {
  job_id = w.id;
  webhook_id = w.id;
  payload = payload;
  attempts = if assure then 100000 else 5;
}

module _ {m : Driver} where
  -- A repository's method.
  abbrev pub query : {A : Type 0} → Action (Db m) A → Action (Outbox m) A
  query f w = let (r, db) = f w.db in (r, record w { db = db })

  -- `addBulk`.
  abbrev pub call_add_bulk : Bull → List Job → Action (Outbox m) (Unit {0})
  call_add_bulk bull jobs w = (ok tt, record w { jobs = bull.add_bulk w.jobs jobs })

module _ (m : Driver) where
  -- The payloads of SYNCFLOW_COMPLETED and SYNCFLOW_FAILED have no `prevSyncVersion`.
  -- The `switch` on the event's name; `none` where the data source of a connection is missing.
  unfoldable pub announcement : Event → Action (Outbox m) (Option Announcement)
  announcement (connection_created c) =
      query (DataSources.get_by_id m c.source_id deleted_too) >>= λ found.
      pure (announce_created c.source_id found)
  announcement (syncflow_scheduled p) = pure (
      announce syncflow_scheduled_type p.syncflow.source_id (
        webhook_scheduled p.syncflow.id p.syncflow.source_id p.syncflow.state.version
          (is_initial_sync_version (some (p.syncflow.state.prev_version)))))
  announcement (syncflow_succeed p) = pure (
      announce syncflow_succeed_type p.data_source_id (
        webhook_succeed p.syncflow_id p.data_source_id p.sync_version
          (is_initial_sync_version (some (p.prev_sync_version))) p.statistics))
  announcement (syncflow_completed p) = pure (
      announce syncflow_completed_type p.data_source_id (
        webhook_completed p.syncflow_id p.data_source_id p.rows_number p.sync_version
          (is_initial_sync_version none)))
  announcement (syncflow_failed p) = pure (
      announce syncflow_failed_type p.data_source_id (
        webhook_failed p.syncflow_id p.data_source_id p.sync_version (is_initial_sync_version none)
          p.error_type p.code))
  announcement (data_source_deleted id connection_id) =
      pure (announce data_source_deleted_type id (source_deleted connection_id id))
  announcement (data_source_error id code) =
      pure (announce data_source_error_type id (source_error id code))
  announcement _ = raise (plain unsupported_event)

  -- The jobs of the webhooks that were found; `addBulk` is not called for none.
  unfoldable pub add_jobs : Bull → Announcement → Bool → List Webhook → Action (Outbox m) (Unit {0})
  add_jobs bull a assure [] = pure tt
  add_jobs bull a assure (w ∷ ws) = call_add_bulk bull (map (job_of a.payload assure) (w ∷ ws))

  unfoldable pub add_announced : Bull → Bool → Option Announcement → Action (Outbox m) (Unit {0})
  add_announced bull assure none = pure tt
  add_announced bull assure (some a) = do
    global ←
        query (Webhooks.get_active_webhooks_by_type m a.type (some global_scope) none no_options)
    of_source ← query (
        Webhooks.get_active_webhooks_by_type m a.type (some data_source_scope) (some (a.source_id))
          no_options)
    add_jobs bull a assure (global ++ of_source)

  -- `addWebhookExecution`.
  unfoldable pub add_webhook_execution : Bull → Event → Bool → Action (Outbox m) (Unit {0})
  add_webhook_execution bull event assure = announcement event >>= add_announced bull assure

  module _ (post : Request → Outcome (Unit {0})) (now : ℕ) where
    -- `axios.post`; a request counts as posted where its answer is an error, too.
    unfoldable pub deliver : WebhookPayload → Webhook → Action (Outbox m) (Unit {0})
    deliver payload w o =
        let request : Request = record {
          url = w.url;
          payload = payload;
          timestamp = now;
          metadata = w.metadata;
        } in
        (post request, record o { requests = request ∷ o.requests })

    abbrev deliver_found : WebhookPayload → Option Webhook → Action (Outbox m) (Unit {0})
    deliver_found payload none = pure tt
    deliver_found payload (some w) =
        if is_webhook_active w.status then deliver payload w else pure tt

    -- `executeWebhook`.
    unfoldable pub execute_webhook : ObjectId → WebhookPayload → Action (Outbox m) (Unit {0})
    execute_webhook id payload =
        query (Webhooks.get_by_id m id no_options) >>= deliver_found payload
