-- ===== src/Webhook/Payloads.antt =====
-- apps/webhook/src/modules/webhook/webhook.service.ts: what is said to webhooks of each kind of event.
use starion_sync.Base.{
  ◌≡◌, refl, false, Option, none, some, Outcome, ok, throw, plain, unsupported_event, ◌==◌,
}
use starion_sync.Driver.{Driver}
use starion_sync.Entities.{
  DataSource, SyncConnection, data_source_deleted_type, data_source_error_type,
  sync_connection_created_type, syncflow_scheduled_type, syncflow_succeed_type,
  syncflow_completed_type, syncflow_failed_type,
}
use starion_sync.Repository.{deleted_too}
use starion_sync.Repository.DataSources
use starion_sync.Events.{
  Event, connection_created, syncflow_scheduled, syncflow_succeed, syncflow_completed,
  syncflow_failed, data_source_deleted, data_source_error,
}
use starion_sync.Webhook.{
  Announcement, Outbox, announcement, sync_connection_created, webhook_scheduled, webhook_succeed,
  webhook_completed, webhook_failed, source_deleted, source_error,
}

-- What is to be said of an event, where `found` is the data source of a connection, deleted or not:
-- nothing of one whose data source is missing, and an error of an event of another kind.
abbrev pub said_of : Option DataSource → Event → Outcome (Option Announcement)
said_of none (connection_created c) = ok none
said_of (some d) (connection_created c) = ok (
    some (record {
      type = sync_connection_created_type;
      source_id = c.source_id;
      payload = sync_connection_created d.provider.type c.source_id d.config;
    }))
said_of found (syncflow_scheduled p) = ok (
    some (record {
      type = syncflow_scheduled_type;
      source_id = p.syncflow.source_id;
      payload =
          webhook_scheduled p.syncflow.id p.syncflow.source_id p.syncflow.state.version
            (p.syncflow.state.prev_version == 0);
    }))
said_of found (syncflow_succeed p) = ok (
    some (record {
      type = syncflow_succeed_type;
      source_id = p.data_source_id;
      payload =
          webhook_succeed p.syncflow_id p.data_source_id p.sync_version (p.prev_sync_version == 0)
            p.statistics;
    }))
said_of found (syncflow_completed p) = ok (
    some (record {
      type = syncflow_completed_type;
      source_id = p.data_source_id;
      payload = webhook_completed p.syncflow_id p.data_source_id p.rows_number p.sync_version false;
    }))
said_of found (syncflow_failed p) = ok (
    some (record {
      type = syncflow_failed_type;
      source_id = p.data_source_id;
      payload =
          webhook_failed p.syncflow_id p.data_source_id p.sync_version false p.error_type p.code;
    }))
said_of found (data_source_deleted id c) = ok (
    some
      (record { type = data_source_deleted_type; source_id = id; payload = source_deleted c id }))
said_of found (data_source_error id code) = ok (
    some (record { type = data_source_error_type; source_id = id; payload = source_error id code }))
said_of found _ = throw (plain unsupported_event)

-- The data source that a new connection names.
abbrev pub named_source : (m : Driver) → Event → Outbox m → Option DataSource
named_source m (connection_created c) o =
    m.find_one (DataSources.by_id c.source_id deleted_too) o.db.sources
named_source m _ o = none

created_lem :
    (m : Driver) (c : SyncConnection) (o : Outbox m) (found : Option DataSource)
    → m.find_one (DataSources.by_id c.source_id deleted_too) o.db.sources ≡ found
    → announcement m (connection_created c) o ≡ (said_of found (connection_created c), o)
unfolding announcement DataSources.get_by_id
created_lem m c o none h = rw h refl
created_lem m c o (some d) h = rw h refl

pub announcement_lem :
    (m : Driver) (event : Event) (o : Outbox m)
    → announcement m event o ≡ (said_of (named_source m event o) event, o)
unfolding announcement
announcement_lem m (connection_created c) o = created_lem m c o _ refl
announcement_lem m (syncflow_scheduled p) o = refl
announcement_lem m (syncflow_succeed p) o = refl
announcement_lem m (syncflow_completed p) o = refl
announcement_lem m (syncflow_failed p) o = refl
announcement_lem m (data_source_deleted id c) o = refl
announcement_lem m (data_source_error id c) o = refl
announcement_lem m _ o = refl
