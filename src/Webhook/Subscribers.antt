-- ===== src/Webhook/Subscribers.antt =====
-- Which webhooks an event is sent to, against a description of who has subscribed.
use mathlib.Core.List.{Perm, append-nil}
use mathlib.Core.List.Perm
use starion_sync.Base.{
  ◌≡◌, refl, ap, sym, subst, ◌∙◌, Bool, true, false, not, ◌&&◌, ◌||◌, Option, none, some, List, [],
  ◌∷◌, ◌++◌, map, Outcome, ok, throw, bind_ok, bind_throw, select, IsUnique, ◌==◌, if◌then◌else◌,
  arith,
}
use starion_sync.Driver.{Driver}
use starion_sync.Driver.Laws.{IsKeyed}
use starion_sync.Entities.{
  Webhook, global_scope, data_source_scope, webhook_type_index, is_webhook_active, is_global,
}
use starion_sync.Repository.{no_options}
use starion_sync.Repository.Webhooks.{is_active_webhook, get_active_webhooks_by_type, same_source}
use starion_sync.Events.{Event}
use starion_sync.Webhook.{
  Announcement, Job, Outbox, is_queued, Bull, announcement, add_announced, add_jobs,
  add_webhook_execution,
}
use starion_sync.Webhook.Payloads.{said_of, named_source, announcement_lem}
use starion_sync.Webhook.Queue.{
  select-chosen, chosen-IsUnique, select_perm, select-map, map-IsUnique,
}

-- A webhook has subscribed to what is said of a data source: it is active, not deleted, of the type,
-- and global or for the source.
abbrev pub has_subscribed : Announcement → Webhook → Bool
has_subscribed a w =
    (webhook_type_index w.type == webhook_type_index a.type)
    && (is_webhook_active w.status
        && (not w.is_deleted
            && (is_global w.scope || same_source (some (a.source_id)) w.data_source_id)))

abbrev globals : Announcement → Webhook → Bool
globals a = is_active_webhook a.type (some global_scope) none no_options

abbrev of_source : Announcement → Webhook → Bool
of_source a = is_active_webhook a.type (some data_source_scope) (some (a.source_id)) no_options

split_or :
    (a b c d e : Bool)
    → a && (b && (c && (d || e))) ≡ a && (b && (c && d)) || a && (b && (c && (not d && e)))
split_or true true true true e = refl
split_or true true true false e = refl
split_or true true false d e = refl
split_or true false c d e = refl
split_or false b c d e = refl

split_apart :
    (a b c d e : Bool) → (a && (b && (c && d))) && (a && (b && (c && (not d && e)))) ≡ false
split_apart true true true true e = refl
split_apart true true true false e = refl
split_apart true true false d e = refl
split_apart true false c d e = refl
split_apart false b c d e = refl

subscribed_union :
    (a : Announcement) (w : Webhook) → has_subscribed a w ≡ globals a w || of_source a w
subscribed_union a w =
    split_or (webhook_type_index w.type == webhook_type_index a.type) (is_webhook_active w.status)
      (not w.is_deleted) (is_global w.scope) (same_source (some (a.source_id)) w.data_source_id)

subscribed_apart : (a : Announcement) (w : Webhook) → globals a w && of_source a w ≡ false
subscribed_apart a w =
    split_apart (webhook_type_index w.type == webhook_type_index a.type)
      (is_webhook_active w.status) (not w.is_deleted) (is_global w.scope)
      (same_source (some (a.source_id)) w.data_source_id)

and_or : (a b c n : Bool) → a ≡ b || c → a && n ≡ b && n || c && n
and_or a b c n h = ground arith

and_apart : (b c n : Bool) → b && c ≡ false → (b && n) && (c && n) ≡ false
and_apart b c n h = ground arith

module _ (m : Driver) (bull : Bull) (event : Event) (assure : Bool) (o : Outbox m) where
  abbrev pub job_for : Announcement → Webhook → Job
  job_for a w = record {
    job_id = w.id;
    webhook_id = w.id;
    payload = a.payload;
    attempts = if assure then 100000 else 5;
  }

  -- A job, with the payload and the attempts, for each of the subscribers that has none in the
  -- queue, in some order.
  abbrev SendsAll : Announcement → Outcome (Unit {0}) × Outbox m → Type 0
  SendsAll a r =
      (jobs : List Job) × (r ≡ (ok tt, record o { jobs = o.jobs ++ jobs }))
      × Perm jobs (
          map (job_for a) (
            select (λ w. has_subscribed a w && not (is_queued o.jobs w.id)) (m.docs o.db.webhooks)))

  -- What is sent, by what is to be said of the event.
  abbrev pub Sends : Outcome (Option Announcement) → Type 0
  Sends (throw e) = add_webhook_execution m bull event assure o ≡ (throw e, o)
  Sends (ok none) = add_webhook_execution m bull event assure o ≡ (ok tt, o)
  Sends (ok (some a)) = SendsAll a (add_webhook_execution m bull event assure o)

  add_jobs_lem :
      (a : Announcement) (ws : List Webhook)
      → add_jobs m bull a assure ws o
        ≡ (ok tt, record o { jobs = bull.add_bulk o.jobs (map (job_for a) ws) })
  unfolding add_jobs select
  add_jobs_lem a [] =
      ap (λ js. (ok tt, record o { jobs = js }))
        (sym (append-nil o.jobs) ∙ sym (bull.add_bulk_new o.jobs [] tt))
  add_jobs_lem a (w ∷ ws) = refl

  abbrev chosen : Announcement → List Webhook
  chosen a = m.find (globals a) o.db.webhooks ++ m.find (of_source a) o.db.webhooks

  abbrev is_new : Webhook → Bool
  is_new w = not (is_queued o.jobs w.id)

  find-IsUnique :
      (a : Announcement) → IsKeyed m (λ w. w.id) o.db.webhooks → IsUnique (λ w. w.id) (chosen a)
  find-IsUnique a u =
      rw (m.find-docs (globals a) o.db.webhooks, m.find-docs (of_source a) o.db.webhooks)
        (chosen-IsUnique (λ w. w.id) (globals a) (of_source a) (m.docs o.db.webhooks)
          (subscribed_apart a) u)

  chosen_perm :
      (a : Announcement)
      → Perm
          (select is_new (chosen a))
          (select (λ w. has_subscribed a w && is_new w) (m.docs o.db.webhooks))
  chosen_perm a =
      rw
        (
          m.find-docs (globals a) o.db.webhooks,
          m.find-docs (of_source a) o.db.webhooks,
          select-chosen is_new (globals a) (of_source a) (m.docs o.db.webhooks),
        )
        (select_perm (λ w. globals a w && is_new w) (λ w. of_source a w && is_new w)
          (λ w. has_subscribed a w && is_new w) (m.docs o.db.webhooks)
          (λ w.
            and_or (has_subscribed a w) (globals a w) (of_source a w) (is_new w)
              (subscribed_union a w))
          (λ w. and_apart (globals a w) (of_source a w) (is_new w) (subscribed_apart a w)))

  add_announced_lem :
      (a : Announcement)
      → IsKeyed m (λ w. w.id) o.db.webhooks
      → SendsAll a (add_announced m bull assure (some a) o)
  unfolding add_announced get_active_webhooks_by_type
  add_announced_lem a u = (
    map (job_for a) (select is_new (chosen a)),
    add_jobs_lem a (chosen a)
        ∙ ap (λ js. (ok tt, record o { jobs = js }))
            (bull.add_bulk_new o.jobs (map (job_for a) (chosen a))
                (map-IsUnique a.payload assure (chosen a) (find-IsUnique a u))
              ∙ ap (λ js. o.jobs ++ js) (select-map o.jobs a.payload assure (chosen a))),
    Perm.map (job_for a) (chosen_perm a),
  )

  by_announcement :
      (r : Outcome (Option Announcement))
      → IsKeyed m (λ w. w.id) o.db.webhooks
      → announcement m event o ≡ (r, o)
      → Sends r
  unfolding add_webhook_execution add_announced
  by_announcement (throw e) u h =
      bind_throw (announcement m event) (add_announced m bull assure) o o e h
  by_announcement (ok none) u h =
      bind_ok (announcement m event) (add_announced m bull assure) o o none h
  by_announcement (ok (some a)) u h =
      subst (SendsAll a)
        (sym (bind_ok (announcement m event) (add_announced m bull assure) o o (some a) h))
        (add_announced_lem a u)

-- Where the ids of the webhooks are unique: an event of a kind that `said_of` has nothing to say of
-- throws, and one of a connection whose data source is missing returns, and neither sends
-- anything. Any other returns, and adds to the queue, in some order, one job for each webhook of
-- the collection that has subscribed to what `said_of` says and has no job in the queue, and no
-- other job; a subscriber whose last job is still in the queue gets none. Each job has the payload
-- that `said_of` says, and its attempts are as asked for.
pub add_webhook_execution_lem :
    (m : Driver) (bull : Bull) (event : Event) (assure : Bool) (o : Outbox m)
    → IsKeyed m (λ w. w.id) o.db.webhooks
    → Sends m bull event assure o (said_of (named_source m event o) event)
add_webhook_execution_lem m bull event assure o u =
    by_announcement m bull event assure o (said_of (named_source m event o) event) u
      (announcement_lem m event o)
