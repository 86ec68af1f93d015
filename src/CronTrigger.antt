-- ===== src/CronTrigger.antt =====
-- apps/triggers/cron: the queue of repeated jobs that fire the cron triggers. The queue is what was
-- added to it and removed from it, the last call first; its running of jobs is not modelled.
use starion_sync.Base.{
  Option, none, some, List, ◌∷◌, String, Action, ok, plain, property_of_undefined, pure, or_raise,
  for_each, ◌>>=◌, ◌>>◌, if◌then◌else◌,
}
use starion_sync.Driver.{Driver}
use starion_sync.Entities.{
  ObjectId, Trigger, TriggerConfig, SyncConnection, SyncflowRef, CronExpression, is_cron,
}
use starion_sync.Repository.{no_options, deleted_too}
use starion_sync.Repository.Triggers
use starion_sync.Events.{World, workflow_triggered, emit_event, on_db}

-- A call of the queue, with the key of the repeated job: its cron expression and its `jobId`.
pub data QueueCall : Type 0 where
  added : Trigger → Option CronExpression → Option String → QueueCall
  removed : Option CronExpression → Option String → QueueCall

pub record CronWorld (m : Driver) : Type 0 where
  pub world : World m
  pub queue : List QueueCall

module _ {m : Driver} where
  abbrev pub in_world : {A : Type 0} → Action (World m) A → Action (CronWorld m) A
  in_world f c = let (r, w) = f c.world in (r, record c { world = w })

  abbrev pub call_queue : QueueCall → Action (CronWorld m) (Unit {0})
  call_queue q c = (ok tt, record c { queue = q ∷ c.queue })

-- `${jobId}`.
abbrev pub job_id_text : Option String → Option String
job_id_text none = some "undefined"
job_id_text (some id) = some id

module _ (m : Driver) where
  -- `processTrigger`.
  unfoldable pub process_trigger : Trigger → Action (CronWorld m) (Unit {0})
  process_trigger t = in_world (emit_event (workflow_triggered t))

  -- A trigger without a config is a TypeError.
  unfoldable pub add_trigger : Trigger → TriggerConfig → Action (CronWorld m) (Unit {0})
  add_trigger t c = call_queue (added t c.cron (job_id_text c.job_id)) >> process_trigger t

  unfoldable pub add_found : Option Trigger → Action (CronWorld m) (Unit {0})
  add_found none = pure tt
  add_found (some t) = or_raise t.config (plain property_of_undefined) >>= add_trigger t

  unfoldable pub create_for : SyncflowRef → Action (CronWorld m) (Unit {0})
  create_for s =
      if is_cron s.trigger.type
      then in_world (on_db (Triggers.get_by_workflow_id m s.id no_options)) >>= add_found
      else pure tt

  -- `createTriggerFromSyncConnection`.
  unfoldable pub create_trigger_from_sync_connection :
      SyncConnection → Action (CronWorld m) (Unit {0})
  create_trigger_from_sync_connection c = for_each (c.syncflows) create_for

  unfoldable pub remove_found : Option Trigger → Action (CronWorld m) (Unit {0})
  remove_found none = pure tt
  remove_found (some t) =
      or_raise t.config (plain property_of_undefined) >>= λ c. call_queue (removed c.cron c.job_id)

  unfoldable pub delete_for : SyncflowRef → Action (CronWorld m) (Unit {0})
  delete_for s =
      if is_cron s.trigger.type
      then in_world (on_db (Triggers.get_by_workflow_id m s.id deleted_too)) >>= remove_found
      else pure tt

  -- `deleteTriggerFromSyncConnection`.
  unfoldable pub delete_trigger_from_sync_connection :
      SyncConnection → Action (CronWorld m) (Unit {0})
  delete_trigger_from_sync_connection c = for_each (c.syncflows) delete_for

  -- `deleteTrigger`.
  unfoldable pub delete_trigger : CronExpression → String → Action (CronWorld m) (Unit {0})
  delete_trigger cron job_id = call_queue (removed (some cron) (some job_id))

  abbrev process_found : Option Trigger → Action (CronWorld m) (Unit {0})
  process_found none = pure tt
  process_found (some t) = process_trigger t

  -- `CronTriggerProcessor.process`, of a job whose trigger has the id.
  unfoldable pub process : ObjectId → Action (CronWorld m) (Unit {0})
  process id = in_world (on_db (Triggers.get_by_id m id no_options)) >>= process_found
