-- ===== src/Repository/Webhooks/Keyed.antt =====
-- libs/modules/src/repository/mongodb/repositories/webhook.repository.ts: every operation
-- leaves the ids of the documents unique.
use starion_sync.Base.{refl, List}
use starion_sync.Base.Effects.Keeps.{Keeps, keeps_rules, Keeps-for_each}
use starion_sync.Driver.{Driver}
use starion_sync.Driver.Laws.{save-IsKeyed}
use starion_sync.Entities.{ObjectId}
use starion_sync.Repository.{QueryOptions}
use starion_sync.Repository.Keyed.{HasIds, transaction-Keeps, run_process-Keeps, webhooks-Keeps}
use starion_sync.Repository.Webhooks.{
  CreateWebhookData, create, save_webhook, bulk_create, update, delete, delete_found,
}

module _ (m : Driver) where
  pub create-HasIds : (given : CreateWebhookData) → Keeps (HasIds m) (create m given)
  unfolding create save_webhook
  create-HasIds given = record {
    at = λ s (a, b, c, d, e, f, g).
        (a, b, c, d, e, f, save-IsKeyed m (λ d. d.id) _ s.webhooks refl g);
  }

  pub bulk_create-HasIds : (given : List CreateWebhookData) → Keeps (HasIds m) (bulk_create m given)
  unfolding bulk_create
  bulk_create-HasIds given = search (keeps_rules, Keeps-for_each, create-HasIds)

  pub update-HasIds : Keeps (HasIds m) (update m)
  unfolding update
  update-HasIds = search (keeps_rules, transaction-Keeps)

  pub delete-HasIds : (id : ObjectId) (o : QueryOptions) → Keeps (HasIds m) (delete m id o)
  unfolding delete delete_found
  delete-HasIds id o = search (keeps_rules, run_process-Keeps, webhooks-Keeps)
