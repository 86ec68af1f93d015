-- ===== src/Repository/Triggers/Config.antt =====
-- libs/modules/src/repository/mongodb/repositories/trigger.repository.ts, `updateConfig`.
use starion_sync.Base.{
  ◌≡◌, refl, ap, overwrite_opt, inl, inr, true, false, Option, none, some, Outcome, ok, throw,
  plain, trigger_not_found, property_of_undefined, Option-cases, ◌==◌, ◌∙◌,
}
use starion_sync.Driver.{Driver}
use starion_sync.Driver.Laws.{find_one-update_one}
use starion_sync.Entities.{ObjectId, Trigger, TriggerConfig}
use starion_sync.Repository.{Db, QueryOptions}
use starion_sync.Repository.Transactions.{run_process_aborts, run_process_commits}
use starion_sync.Repository.Triggers.{
  live, set_config, config_of, find_new, update_config, update_config_found,
}

-- A trigger with the keys that are given written to its config; a config that was missing had no
-- key.
abbrev pub with_config : TriggerConfig → Trigger → Trigger
with_config u d = record d {
  config =
      let c = config_of d.config in
      some (record {
        cron = overwrite_opt u.cron c.cron;
        job_id = overwrite_opt u.job_id c.job_id;
        frequency = overwrite_opt u.frequency c.frequency;
        webhook_id = overwrite_opt u.webhook_id c.webhook_id;
        resource_id = overwrite_opt u.resource_id c.resource_id;
        refresh_interval = overwrite_opt u.refresh_interval c.refresh_interval;
      });
}

module _ (m : Driver) where
  abbrev written : ObjectId → TriggerConfig → Db m → Db m
  written id u db = record db {
    triggers = m.update_one (λ d. d.id == id) (set_config u) db.triggers;
  }

  find_new_lem : (db : Db m) → find_new m db ≡ (throw (plain property_of_undefined), db)
  unfolding find_new
  find_new_lem db =
      rw
        (m.find_one-docs (λ d. d.id == m.new_id (λ e. e.id) db.triggers) db.triggers
          ∙ m.new_id_fresh (λ d. d.id) db.triggers)
        refl

  -- `updateConfig` under `new`, in a transaction of its own, throws whatever the database holds and
  -- leaves it as it was: where the trigger exists it looks for the result under a new id, finds
  -- none, and the transaction undoes the update.
  pub update_config_new :
      (id : ObjectId) (u : TriggerConfig) (o : QueryOptions) (db : Db m)
      → o.session ≡ false
      → o.new ≡ true
      → update_config m id u o db ≡ (
        throw (elim (m.find_one (live id) db.triggers) [
          | none ↦ plain trigger_not_found
          | some d ↦ plain property_of_undefined
        ]),
        db,
      )
  unfolding update_config update_config_found
  update_config_new id u o db own new' = elim (Option-cases (m.find_one (live id) db.triggers)) [
    | inl h ↦ rw h (run_process_aborts m o (update_config_found m id u o) db db _ own (rw h refl))
    | inr (d, h) ↦ rw h (
        run_process_aborts m o (update_config_found m id u o) db (written id u db) _ own
          (rw (h, new') (find_new_lem (written id u db))))
  ]

  -- What an update does, by the trigger that is found: it throws and changes nothing where there is
  -- none, and else returns undefined and writes the given keys of the config.
  abbrev pub Updates :
      ObjectId → TriggerConfig → Db m → Option Trigger → Outcome (Option Trigger) × Db m → Type 0
  Updates id u db none r = r ≡ (throw (plain trigger_not_found), db)
  Updates id u db (some d) r =
      (r.0 ≡ ok none)
      × (m.find_one (λ e. e.id == id) r.1.triggers
          ≡ elim (m.find_one (λ e. e.id == id) db.triggers) [
            | none ↦ none
            | some e ↦ some (with_config u e)
          ])

  -- Without `new`, in a transaction of its own: where no trigger of the id is undeleted,
  -- `updateConfig` throws and changes nothing. Where there is one, it returns undefined, and a
  -- later query of the id finds what it found before with each of the given keys of the config
  -- written, and every other key as it was.
  pub update_config_present :
      (id : ObjectId) (u : TriggerConfig) (o : QueryOptions) (db : Db m)
      → o.new ≡ false
      → o.session ≡ false
      → Updates id u db (m.find_one (live id) db.triggers) (update_config m id u o db)
  unfolding update_config update_config_found set_config
  update_config_present id u o db old own = elim (Option-cases (m.find_one (live id) db.triggers)) [
    | inl h ↦ rw h (run_process_aborts m o (update_config_found m id u o) db db _ own (rw h refl))
    | inr (d, h) ↦
        let e =
          run_process_commits m o (update_config_found m id u o) db (written id u db) none
            (rw (h, old) refl) in
        rw h (
          ap (λ r. r.0) e,
          ap (λ r. m.find_one (λ e. e.id == id) r.1.triggers) e
              ∙ find_one-update_one m (λ x. x.id == id) (with_config u) db.triggers (λ x. refl),
        )
  ]
