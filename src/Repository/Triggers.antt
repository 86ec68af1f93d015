-- ===== src/Repository/Triggers.antt =====
-- libs/modules/src/repository/mongodb/repositories/trigger.repository.ts
pub mod Keyed
pub mod Deletion
pub mod Config
use starion_sync.Base.{
  ℕ, Bool, true, false, not, ◌&&◌, ◌||◌, Option, none, some, List, [], ◌∷◌, Action, Outcome, ok,
  throw, Failure, plain, Cause, trigger_not_found, property_of_undefined, pure, raise, gets, modify,
  or_raise, ◌>>=◌, ◌>>◌, ◌==◌, if◌then◌else◌, overwrite_opt,
}
use starion_sync.Driver.{Driver}
use starion_sync.Entities.{ObjectId, Trigger, TriggerConfig, CronExpression}
use starion_sync.Repository.{Db, QueryOptions, is_visible, run_process, equals_key, equals_number}

abbrev pub empty_config : TriggerConfig
empty_config = record {
  cron = none;
  job_id = none;
  frequency = none;
  webhook_id = none;
  resource_id = none;
  refresh_interval = none;
}

abbrev pub config_of : Option TriggerConfig → TriggerConfig
config_of none = empty_config
config_of (some c) = c

-- `$set` of the keys `config.${key}` that an update has.
abbrev pub merge_config : TriggerConfig → TriggerConfig → TriggerConfig
merge_config u c = record {
  cron = overwrite_opt u.cron c.cron;
  job_id = overwrite_opt u.job_id c.job_id;
  frequency = overwrite_opt u.frequency c.frequency;
  webhook_id = overwrite_opt u.webhook_id c.webhook_id;
  resource_id = overwrite_opt u.resource_id c.resource_id;
  refresh_interval = overwrite_opt u.refresh_interval c.refresh_interval;
}

unfoldable pub set_config : TriggerConfig → Trigger → Trigger
set_config u d = record d { config = some (merge_config u (config_of d.config)) }

abbrev pub mark_deleted : Trigger → Trigger
mark_deleted d = record d { is_deleted = true }

abbrev pub by_id : ObjectId → QueryOptions → Trigger → Bool
by_id id o d = (d.id == id) && is_visible o d.is_deleted

abbrev pub live : ObjectId → Trigger → Bool
live id d = (d.id == id) && not d.is_deleted

abbrev pub by_workflow_id : ObjectId → QueryOptions → Trigger → Bool
by_workflow_id id o d = (d.workflow.id == id) && is_visible o d.is_deleted

abbrev pub by_source_id : ObjectId → QueryOptions → Trigger → Bool
by_source_id id o d = (d.source_id == id) && is_visible o d.is_deleted

-- `$in`.
abbrev pub one_of : List ObjectId → ObjectId → Bool
one_of [] k = false
one_of (id ∷ ids) k = (k == id) || one_of ids k

abbrev pub equals_cron : Option CronExpression → Option CronExpression → Bool
equals_cron none actual = true
equals_cron (some k) none = false
equals_cron (some k) (some c) =
    (k.seconds == c.seconds) && ((k.start == c.start) && (k.every == c.every))

-- The conditions of a partial config.
abbrev pub by_config : TriggerConfig → QueryOptions → Trigger → Bool
by_config c o d =
    equals_cron c.cron (config_of d.config).cron
    && (equals_key c.job_id (config_of d.config).job_id
        && (equals_key c.webhook_id (config_of d.config).webhook_id
            && (equals_key c.resource_id (config_of d.config).resource_id
                && (equals_number c.frequency (config_of d.config).frequency
                    && (equals_number c.refresh_interval (config_of d.config).refresh_interval
                        && is_visible o d.is_deleted)))))

module _ (m : Driver) where
  unfoldable pub get_by_id : ObjectId → QueryOptions → Action (Db m) (Option Trigger)
  get_by_id id o = gets (λ db. m.find_one (by_id id o) db.triggers)

  unfoldable pub get_by_data_source_id : ObjectId → QueryOptions → Action (Db m) (List Trigger)
  get_by_data_source_id id o = gets (λ db. m.find (by_source_id id o) db.triggers)

  unfoldable pub get_by_workflow_id : ObjectId → QueryOptions → Action (Db m) (Option Trigger)
  get_by_workflow_id id o = gets (λ db. m.find_one (by_workflow_id id o) db.triggers)

  -- Deleted triggers are among the results.
  unfoldable pub get_by_workflow_ids : List ObjectId → Action (Db m) (List Trigger)
  get_by_workflow_ids ids = gets (λ db. m.find (λ d. one_of ids d.workflow.id) db.triggers)

  unfoldable pub get_by_config : TriggerConfig → QueryOptions → Action (Db m) (Option Trigger)
  get_by_config c o = gets (λ db. m.find_one (by_config c o) db.triggers)

  -- `create` and `update` open an empty transaction.
  unfoldable pub create : Action (Db m) (Option Trigger)
  create = m.with_transaction (pure tt) >> pure none

  unfoldable pub update : QueryOptions → Action (Db m) (Option Trigger)
  update o = m.with_transaction (pure tt) >> pure none

  -- `toObjectId(data.id)` of a config, which has no `id`, is a new id.
  find_new : Action (Db m) (Option Trigger)
  find_new = do
    found ← gets (λ db. m.find_one (λ d. d.id == m.new_id (λ e. e.id) db.triggers) db.triggers)
    trigger ← or_raise found (plain property_of_undefined)
    pure (some trigger)

  update_config_found : ObjectId → TriggerConfig → QueryOptions → Action (Db m) (Option Trigger)
  unfolding find_new
  update_config_found id u o = do
    found ← gets (λ db. m.find_one (live id) db.triggers)
    or_raise found (plain trigger_not_found)
    modify
        (λ db. record db { triggers = m.update_one (λ d. d.id == id) (set_config u) db.triggers })
    if o.new then find_new else pure none

  unfoldable pub update_config :
      ObjectId → TriggerConfig → QueryOptions → Action (Db m) (Option Trigger)
  unfolding update_config_found
  update_config id u o = run_process m o (update_config_found id u o)

  delete_found : ObjectId → Action (Db m) (Unit {0})
  delete_found id = do
    found ← gets (λ db. m.find_one (live id) db.triggers)
    or_raise found (plain trigger_not_found)
    modify (λ db. record db { triggers = m.update_one (λ d. d.id == id) mark_deleted db.triggers })

  unfoldable pub delete : ObjectId → QueryOptions → Action (Db m) (Unit {0})
  unfolding delete_found
  delete id o = run_process m o (delete_found id)
