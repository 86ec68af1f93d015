-- ===== src/Repository/Webhooks.antt =====
-- libs/modules/src/repository/mongodb/repositories/webhook.repository.ts
pub mod Keyed
use starion_sync.Base.{
  ℕ, Bool, true, false, not, ◌&&◌, Option, none, some, List, [], ◌∷◌, String, Action, Outcome, ok,
  throw, Failure, plain, Cause, trigger_not_found, pure, gets, modify, or_raise, or_else, for_each,
  ◌>>=◌, ◌>>◌, ◌==◌,
}
use starion_sync.Driver.{Driver}
use starion_sync.Entities.{
  ObjectId, Webhook, WebhookType, WebhookScope, WebhookStatus, webhook_active, global_scope,
  data_source_scope, webhook_type_index, is_webhook_active, is_global, Metadata,
}
use starion_sync.Repository.{Db, QueryOptions, is_visible, run_process}

-- A key that is not given has its default.
pub record CreateWebhookData : Type 0 where
  pub type : WebhookType
  pub url : String
  pub scope : Option WebhookScope
  pub data_source_id : Option ObjectId
  pub assure : Option Bool
  pub metadata : Option Metadata

abbrev pub by_id : ObjectId → QueryOptions → Webhook → Bool
by_id id o d = (d.id == id) && is_visible o d.is_deleted

abbrev pub live : ObjectId → Webhook → Bool
live id d = (d.id == id) && not d.is_deleted

-- A condition `{ dataSourceId }`: of an undefined id, that the document has none.
abbrev pub same_source : Option ObjectId → Option ObjectId → Bool
same_source none none = true
same_source (some a) (some b) = b == a
same_source _ _ = false

abbrev pub in_scope : Option WebhookScope → Option ObjectId → Webhook → Bool
in_scope none id d = true
in_scope (some data_source_scope) id d = not (is_global d.scope) && same_source id d.data_source_id
in_scope (some global_scope) id d = is_global d.scope

-- The conditions of `getActiveWebhooksByType`.
abbrev pub is_active_webhook :
    WebhookType → Option WebhookScope → Option ObjectId → QueryOptions → Webhook → Bool
is_active_webhook type scope id o d =
    (webhook_type_index d.type == webhook_type_index type)
    && (is_webhook_active d.status && (is_visible o d.is_deleted && in_scope scope id d))

abbrev pub mark_deleted : Webhook → Webhook
mark_deleted d = record d { is_deleted = true }

abbrev new_webhook : ObjectId → CreateWebhookData → Webhook
new_webhook id given = record {
  id = id;
  status = webhook_active;
  scope = or_else given.scope global_scope;
  url = given.url;
  type = given.type;
  assure = or_else given.assure false;
  data_source_id = given.data_source_id;
  metadata = given.metadata;
  is_deleted = false;
}

module _ (m : Driver) where
  unfoldable pub get_by_id : ObjectId → QueryOptions → Action (Db m) (Option Webhook)
  get_by_id id o = gets (λ db. m.find_one (by_id id o) db.webhooks)

  unfoldable pub get_active_webhooks_by_type :
      WebhookType
      → Option WebhookScope
      → Option ObjectId
      → QueryOptions
      → Action (Db m) (List Webhook)
  get_active_webhooks_by_type type scope id o =
      gets (λ db. m.find (is_active_webhook type scope id o) db.webhooks)

  save_webhook : Webhook → Action (Db m) Webhook
  save_webhook d db = (ok d, record db { webhooks = m.save d db.webhooks })

  unfoldable pub create : CreateWebhookData → Action (Db m) Webhook
  unfolding save_webhook
  create given = do
    id ← gets (λ db. m.new_id (λ d. d.id) db.webhooks)
    save_webhook (new_webhook id given)

  unfoldable pub bulk_create : List CreateWebhookData → Action (Db m) (Unit {0})
  bulk_create given = for_each given (λ x. create x >> pure tt)

  -- `update` opens an empty transaction, and returns undefined with `new` and without.
  unfoldable pub update : Action (Db m) (Option Webhook)
  update = m.with_transaction (pure tt) >> pure none

  delete_found : ObjectId → Action (Db m) (Unit {0})
  delete_found id = do
    found ← gets (λ db. m.find_one (live id) db.webhooks)
    or_raise found (plain trigger_not_found)
    modify (λ db. record db { webhooks = m.update_one (λ d. d.id == id) mark_deleted db.webhooks })

  unfoldable pub delete : ObjectId → QueryOptions → Action (Db m) (Unit {0})
  unfolding delete_found
  delete id o = run_process m o (delete_found id)
