-- ===== src/Repository/Triggers/Keyed.antt =====
-- libs/modules/src/repository/mongodb/repositories/trigger.repository.ts: every operation
-- leaves the ids of the documents unique.
use starion_sync.Base.Effects.Keeps.{Keeps, keeps_rules}
use starion_sync.Driver.{Driver}
use starion_sync.Entities.{ObjectId, TriggerConfig}
use starion_sync.Repository.{QueryOptions}
use starion_sync.Repository.Keyed.{HasIds, transaction-Keeps, run_process-Keeps, triggers-Keeps}
use starion_sync.Repository.Triggers.{
  create, update, find_new, update_config, update_config_found, set_config, delete, delete_found,
}

module _ (m : Driver) where
  pub create-HasIds : Keeps (HasIds m) (create m)
  unfolding create
  create-HasIds = search (keeps_rules, transaction-Keeps)

  pub update-HasIds : (o : QueryOptions) → Keeps (HasIds m) (update m o)
  unfolding update
  update-HasIds o = search (keeps_rules, transaction-Keeps)

  find_new-HasIds : Keeps (HasIds m) (find_new m)
  unfolding find_new
  find_new-HasIds = search keeps_rules

  pub update_config-HasIds :
      (id : ObjectId) (u : TriggerConfig) (o : QueryOptions)
      → Keeps (HasIds m) (update_config m id u o)
  unfolding update_config update_config_found set_config
  update_config-HasIds id u o =
      search (keeps_rules, run_process-Keeps, find_new-HasIds, triggers-Keeps) depth 12

  pub delete-HasIds : (id : ObjectId) (o : QueryOptions) → Keeps (HasIds m) (delete m id o)
  unfolding delete delete_found
  delete-HasIds id o = search (keeps_rules, run_process-Keeps, triggers-Keeps)
