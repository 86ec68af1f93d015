-- ===== src/Webhook/Tests.antt =====
-- Three webhooks for the errors of data sources: one for all, one for the source 1, and one for 2.
use starion_sync.Base.{◌≡◌, refl, false, none, some, [], ◌∷◌, Option, ok, first}
use starion_sync.Driver.Memory.{memory}
use starion_sync.Driver.Laws.{IsKeyed}
use starion_sync.Entities.{
  Webhook, WebhookScope, webhook_active, global_scope, data_source_scope, data_source_error_type,
  ObjectId,
}
use starion_sync.Events.{data_source_error}
use starion_sync.Webhook.{Outbox, Announcement, source_error, add_webhook_execution}
use starion_sync.Webhook.Queue.{list_queue}
use starion_sync.Webhook.Subscribers.{Sends, add_webhook_execution_lem}
use starion_sync.Scenario.{db}

abbrev webhook : ObjectId → WebhookScope → Option ObjectId → Webhook
webhook id scope source_id = record {
  id = id;
  status = webhook_active;
  scope = scope;
  url = "https://example.org";
  type = data_source_error_type;
  assure = false;
  data_source_id = source_id;
  metadata = none;
  is_deleted = false;
}

abbrev outbox : Outbox memory
outbox = record {
  db = record db {
    webhooks =
        webhook 1 data_source_scope (some 1)
        ∷ webhook 2 global_scope none
        ∷ webhook 3 data_source_scope (some 2)
        ∷ [];
  };
  jobs = [];
  requests = [];
}

abbrev source_failed : Announcement
source_failed = record { type = data_source_error_type; source_id = 1; payload = source_error 1 7 }

unique : IsKeyed memory (λ w. w.id) outbox.db.webhooks
unfolding first
unique = (refl, (refl, (refl, tt)))

add_webhook_execution_lem_example :
    Sends memory list_queue (data_source_error 1 7) false outbox (ok (some source_failed))
add_webhook_execution_lem_example =
    add_webhook_execution_lem memory list_queue (data_source_error 1 7) false outbox unique

-- A second error, before the webhooks have been called of the first, adds nothing.
sent_once :
    (add_webhook_execution memory list_queue
      (data_source_error 1 8)
      false
      (add_webhook_execution memory list_queue (data_source_error 1 7) false outbox).1).1.jobs
    ≡ (add_webhook_execution memory list_queue (data_source_error 1 7) false outbox).1.jobs
unfolding add_webhook_execution starion_sync.Webhook.announcement starion_sync.Webhook.add_announced
    starion_sync.Repository.Webhooks.get_active_webhooks_by_type starion_sync.Webhook.add_jobs
    starion_sync.Webhook.Queue.enqueue starion_sync.Base.select starion_sync.Webhook.is_queued
sent_once = refl
