-- ===== src/WebhookTrigger/GoogleSheets.antt =====
-- apps/triggers/webhook/src/modules/webhook/google-sheets/index.ts: `GoogleSheetsWebhookService`.
use starion_sync.Base.{
  ℕ, ◌+◌, ◌*◌, Option, none, some, List, ◌∷◌, String, Action, Outcome, ok, plain,
  property_of_undefined, pure, or_raise, catch, ◌>>=◌, ◌>>◌,
}
use starion_sync.Driver.{Driver}
use starion_sync.Entities.{ObjectId, Trigger, DataSource}
use starion_sync.Repository.{Db, no_options}
use starion_sync.Repository.Triggers
use starion_sync.Repository.Triggers.{empty_config}
use starion_sync.Repository.DataSources
use starion_sync.Events.{World, on_db}

-- What a channel is registered with: its id, the file, the trigger of its URL, and when it expires.
pub record Registration : Type 0 where
  pub webhook_id : String
  pub file_id : String
  pub trigger_id : ObjectId
  pub expiration : ℕ

pub record Channel : Type 0 where
  pub channel_id : String
  pub resource_id : String

-- Google's services, and what the code reads of the world.
pub record Google : Type 0 where
  -- `createAuthClient`: the client, which the other calls use, is its token.
  pub create_auth_client : String → Outcome String
  pub register : Registration → String → Outcome Channel
  pub stop : Option String → Option String → String → Outcome (Unit {0})
  pub uuid : String
  -- `Date.now()`.
  pub now : ℕ

-- A call of the queue of renewals: a job's id, which is its trigger's, and its period.
pub data RefreshCall : Type 0 where
  added removed : ObjectId → Option ℕ → RefreshCall

pub record ChannelWorld (m : Driver) : Type 0 where
  pub world : World m
  pub refreshment : List RefreshCall

module _ {m : Driver} where
  abbrev pub in_world : {A : Type 0} → Action (World m) A → Action (ChannelWorld m) A
  in_world f c = let (r, w) = f c.world in (r, record c { world = w })

  abbrev pub query : {A : Type 0} → Action (Db m) A → Action (ChannelWorld m) A
  query f = in_world (on_db f)

  abbrev pub call_queue : RefreshCall → Action (ChannelWorld m) (Unit {0})
  call_queue q c = (ok tt, record c { refreshment = q ∷ c.refreshment })

abbrev pub answer : {S A : Type 0} → Outcome A → Action S A
answer r s = (r, s)

-- `GOOGLE_SHEETS_WEBHOOK_EXPIRATION`, in seconds.
abbrev pub webhook_expiration : ℕ
webhook_expiration = 86400

-- `(GOOGLE_SHEETS_WEBHOOK_EXPIRATION - 3600) * 1000`.
abbrev pub refresh_interval : ℕ
refresh_interval = 82800000

module _ (m : Driver) (google : Google) where
  -- `create`.
  unfoldable pub create : Trigger → DataSource → Action (ChannelWorld m) (Unit {0})
  create t d = do
    client ← answer (google.create_auth_client d.config.refresh_token)
    channel ← answer (
        google.register
          (record {
            webhook_id = google.uuid;
            file_id = d.config.spreadsheet_id;
            trigger_id = t.id;
            expiration = google.now + webhook_expiration * 1000;
          })
          client)
    updated ← query (
        Triggers.update_config m t.id
          (record empty_config {
            webhook_id = some (channel.channel_id);
            resource_id = some (channel.resource_id);
          })
          no_options)
    pure tt

  -- `createWebhook`.
  unfoldable pub create_webhook : Trigger → DataSource → Action (ChannelWorld m) (Unit {0})
  create_webhook t d = do
    create t d
    call_queue (added t.id (some refresh_interval))
    updated ← query (
        Triggers.update_config m t.id
          (record empty_config { refresh_interval = some refresh_interval }) no_options)
    pure tt

  -- `stop`.
  unfoldable pub stop : Trigger → DataSource → Action (ChannelWorld m) (Unit {0})
  stop t d = do
    client ← answer (google.create_auth_client d.config.refresh_token)
    config ← or_raise t.config (plain property_of_undefined)
    answer (google.stop config.webhook_id config.resource_id client)

  -- `stopWebhook`.
  unfoldable pub stop_webhook : Trigger → DataSource → Action (ChannelWorld m) (Unit {0})
  stop_webhook t d = do
    catch (stop t d) (λ e. pure tt)
    config ← or_raise t.config (plain property_of_undefined)
    call_queue (removed t.id config.refresh_interval)

  -- A missing data source is a TypeError of what reads it.
  abbrev with_source :
      Option DataSource
      → (DataSource → Action (ChannelWorld m) (Unit {0}))
      → Action (ChannelWorld m) (Unit {0})
  with_source found f = or_raise found (plain property_of_undefined) >>= f

  unfoldable pub refresh : Trigger → Option DataSource → Action (ChannelWorld m) (Unit {0})
  refresh t found =
      catch (with_source found (stop t)) (λ e. pure tt)
      >> catch (with_source found (create t)) (λ e. pure tt)

  abbrev refresh_found : Option Trigger → Action (ChannelWorld m) (Unit {0})
  refresh_found none = pure tt
  refresh_found (some t) = query (DataSources.get_by_id m t.source_id no_options) >>= refresh t

  -- `refreshWebhook`.
  unfoldable pub refresh_webhook : ObjectId → Action (ChannelWorld m) (Unit {0})
  refresh_webhook id = query (Triggers.get_by_id m id no_options) >>= refresh_found
