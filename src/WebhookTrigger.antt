-- ===== src/WebhookTrigger.antt =====
-- apps/triggers/webhook: the channels by which Google Drive tells of a file's changes, registered
-- for the webhook triggers of Google Sheets and renewed by a repeated job. The calls of the queue of
-- those jobs and the calls of Google are listed, the last one first.
pub mod GoogleSheets
use starion_sync.Base.{
  ℕ, Bool, true, false, ◌&&◌, Option, none, some, List, [], ◌∷◌, String, Action, Outcome, ok, throw,
  Failure, plain, external, Cause, property_of_undefined, unknown_webhook, pure, raise, or_raise,
  for_each, catch, ◌>>=◌, ◌>>◌, if◌then◌else◌, Bool, not,
}
use starion_sync.Driver.{Driver}
use starion_sync.Entities.{
  ObjectId, Trigger, TriggerName, sheets_webhook, SyncConnection, SyncflowRef, DataSource,
  is_event_webhook,
}
use starion_sync.Repository.{Db, QueryOptions, no_options, deleted_too}
use starion_sync.Repository.Triggers
use starion_sync.Repository.Triggers.{empty_config}
use starion_sync.Repository.DataSources
use starion_sync.Events.{World, Event, workflow_triggered, data_source_error, emit_event}
use starion_sync.WebhookTrigger.GoogleSheets.{
  Google, ChannelWorld, in_world, query, create_webhook, stop_webhook,
}

module _ (m : Driver) (google : Google) where
  -- `processTrigger`.
  unfoldable pub process_trigger : Trigger → Action (ChannelWorld m) (Unit {0})
  process_trigger t = in_world (emit_event (workflow_triggered t))

  -- `getByWebhookId`.
  unfoldable pub get_by_webhook_id : String → Action (ChannelWorld m) (Option Trigger)
  get_by_webhook_id webhook_id =
      query
        (Triggers.get_by_config m (record empty_config { webhook_id = some webhook_id }) no_options)

  -- `WebhookServiceFactory.get`, and then the creation by the service that it gives.
  unfoldable pub create_by_name :
      TriggerName → Trigger → DataSource → Action (ChannelWorld m) (Unit {0})
  create_by_name sheets_webhook t d = create_webhook m google t d
  create_by_name _ t d = raise (plain unknown_webhook)

  unfoldable pub stop_by_name :
      TriggerName → Trigger → DataSource → Action (ChannelWorld m) (Unit {0})
  stop_by_name sheets_webhook t d = stop_webhook m google t d
  stop_by_name _ t d = raise (plain unknown_webhook)

  unfoldable pub create_found :
      Option Trigger → Option DataSource → Action (ChannelWorld m) (Unit {0})
  create_found (some t) (some d) = create_by_name t.name t d >> process_trigger t
  create_found _ _ = pure tt

  unfoldable pub create_for : ObjectId → SyncflowRef → Action (ChannelWorld m) (Unit {0})
  create_for source_id s =
      if is_event_webhook s.trigger.type
      then (query (Triggers.get_by_workflow_id m s.id no_options) >>= λ t.
          query (DataSources.get_by_id m source_id no_options) >>= λ d. create_found t d)
      else pure tt

  -- `createTriggerFromSyncConnection`.
  unfoldable pub create_trigger_from_sync_connection :
      SyncConnection → Action (ChannelWorld m) (Unit {0})
  create_trigger_from_sync_connection c = for_each (c.syncflows) (create_for c.source_id)

  unfoldable pub stop_found :
      Option Trigger → Option DataSource → Action (ChannelWorld m) (Unit {0})
  stop_found (some t) (some d) = stop_by_name t.name t d
  stop_found _ _ = pure tt

  unfoldable pub delete_for : ObjectId → SyncflowRef → Action (ChannelWorld m) (Unit {0})
  delete_for source_id s =
      if is_event_webhook s.trigger.type
      then (query (Triggers.get_by_workflow_id m s.id deleted_too) >>= λ t.
          query (DataSources.get_by_id m source_id deleted_too) >>= λ d. stop_found t d)
      else pure tt

  -- `deleteTriggerFromSyncConnection`.
  unfoldable pub delete_trigger_from_sync_connection :
      SyncConnection → Action (ChannelWorld m) (Unit {0})
  delete_trigger_from_sync_connection c = for_each (c.syncflows) (delete_for c.source_id)

  abbrev process_found : Option Trigger → Action (ChannelWorld m) (Unit {0})
  process_found none = pure tt
  process_found (some t) = process_trigger t

  -- `handleReceivedWebhook`.
  unfoldable pub handle_received_webhook : ObjectId → Action (ChannelWorld m) (Unit {0})
  handle_received_webhook id = query (Triggers.get_by_id m id no_options) >>= process_found

  abbrev known_webhook : ObjectId → Option Trigger → Action (ChannelWorld m) (Unit {0})
  known_webhook id none = pure tt
  known_webhook id (some t) = handle_received_webhook id

  -- `triggerWebhookGoogleSheets`: whether the state is 'update', and what `x-goog-changed` says.
  unfoldable pub trigger_webhook_google_sheets :
      ObjectId → String → Bool → Option Bool → Action (ChannelWorld m) (Unit {0})
  trigger_webhook_google_sheets id webhook_id false changed = pure tt
  trigger_webhook_google_sheets id webhook_id true none = raise (plain property_of_undefined)
  trigger_webhook_google_sheets id webhook_id true (some false) = pure tt
  trigger_webhook_google_sheets id webhook_id true (some true) =
      get_by_webhook_id webhook_id >>= known_webhook id

  -- The `catch` of the broker's handlers: an error that is not external is dropped.
  abbrev report : ObjectId → Failure → Action (ChannelWorld m) (Unit {0})
  report source_id (external code) = in_world (emit_event (data_source_error source_id code))
  report source_id _ = pure tt

  -- `onConnectionCreated`.
  unfoldable pub on_connection_created : SyncConnection → Action (ChannelWorld m) (Unit {0})
  on_connection_created c = catch (create_trigger_from_sync_connection c) (report c.source_id)

  -- `onConnectionDeleted`.
  unfoldable pub on_connection_deleted : SyncConnection → Action (ChannelWorld m) (Unit {0})
  on_connection_deleted c = catch (delete_trigger_from_sync_connection c) (report c.source_id)
