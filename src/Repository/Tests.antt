-- ===== src/Repository/Tests.antt =====
-- The repositories' theorems at a concrete database.
use starion_sync.Base.{
  first, modify_first, ◌≡◌, refl, true, none, some, [], ◌∷◌, map, ok, throw, plain,
  property_of_undefined, arith, ◌==◌, for_each,
}
use starion_sync.Driver.Memory.{memory}
use starion_sync.Entities.{
  Syncflow, SyncflowStateUpdate, TriggerConfig, no_state_update, idling, running, excel_full,
  excel_cron, default_sync_connection_state, SyncConnection, SyncflowRef, cron_trigger,
}
use starion_sync.Entities.Registry.{
  get_syncflow, get_trigger, map_get, map_set, registries, register_provider, register_definitions,
}
use starion_sync.Repository.{Db, QueryOptions, no_options, deleted_too}
use starion_sync.Repository.Syncflows
use starion_sync.Repository.Triggers
use starion_sync.Repository.SyncConnections
use starion_sync.Repository.SyncConnections.{CreateSyncConnectionData}
use starion_sync.Repository.Syncflows.State.{
  next_version, get_by_id-update_state, get_by_id-update_status, get_by_id-update_other,
}
use starion_sync.Repository.Syncflows.Deletion.{get_by_id-delete}
use starion_sync.Repository.Triggers.Deletion.{get_trigger-delete}
use starion_sync.Repository.Triggers.Config.{update_config_new, update_config_present}
use starion_sync.Repository.SyncConnections.Entries.{AllGone}
use starion_sync.Repository.SyncConnections.Deletion.{delete-AllGone}
use starion_sync.Repository.SyncConnections.Creation.{NoTriggerIds, create_lem}
use starion_sync.Repository.DataSources
use starion_sync.Repository.DataProviders
use starion_sync.Repository.DataProviders.Deletion.{delete_provider}
use starion_sync.Repository.DataSources.Deletion.{delete_source-AllGone}
use starion_sync.Scenario.{db, source, provider, syncflow_in, trigger, connection}

abbrev update : SyncflowStateUpdate
update = record no_state_update { version = some 5; cursor = some "tag" }

abbrev new_too : QueryOptions
new_too = record no_options { new = true }

abbrev version_five : Syncflow
version_five = record (syncflow_in idling) {
  state = record ((syncflow_in idling).state) { version = 5 };
}

get_by_id-update_state_example :
    ((Syncflows.update_state memory 3 update new_too db).0 ≡ ok (some version_five))
    × ((Syncflows.get_by_id memory 3 no_options
          (Syncflows.update_state memory 3 update new_too db).1).0
        ≡ ok (some version_five))
unfolding first modify_first
get_by_id-update_state_example = get_by_id-update_state memory 3 update new_too db

get_by_id-update_status_example :
    ((Syncflows.get_by_id memory 3 no_options
        (Syncflows.update_status memory 3 running no_options db).1).0
      ≡ ok (
          some (
            Syncflows.set_state
              (record no_state_update { status = some running })
              (syncflow_in idling))))
    × ((Syncflows.get_by_id memory 3 no_options
          (Syncflows.increase_version memory 3 no_options db).1).0
        ≡ ok (some (next_version (syncflow_in idling))))
unfolding first modify_first
get_by_id-update_status_example = get_by_id-update_status memory 3 running no_options db

get_by_id-update_other_example :
    ((Syncflows.get_by_id memory 3 deleted_too
        (Syncflows.update_state memory 4 update no_options db).1).0
      ≡ (Syncflows.get_by_id memory 3 deleted_too db).0)
    × ((Syncflows.get_by_id memory 3 deleted_too
          (Syncflows.update_status memory 4 running no_options db).1).0
        ≡ (Syncflows.get_by_id memory 3 deleted_too db).0)
    × ((Syncflows.get_by_id memory 3 deleted_too
          (Syncflows.increase_version memory 4 no_options db).1).0
        ≡ (Syncflows.get_by_id memory 3 deleted_too db).0)
unfolding first modify_first
get_by_id-update_other_example =
    get_by_id-update_other memory 3 4 update running no_options deleted_too db (omega arith)

get_by_id-delete_example :
    ((Syncflows.delete memory 3 no_options db).0 ≡ ok tt)
    × ((Syncflows.get_by_id memory 3 no_options (Syncflows.delete memory 3 no_options db).1).0
        ≡ ok none)
    × ((Syncflows.get_by_id memory 3 deleted_too (Syncflows.delete memory 3 no_options db).1).0
        ≡ ok (some (Syncflows.mark_deleted (syncflow_in idling))))
unfolding first modify_first
get_by_id-delete_example = get_by_id-delete memory 3 no_options db (refl, tt)

get_trigger-delete_example :
    ((Triggers.delete memory 5 no_options db).0 ≡ ok tt)
    × ((Triggers.get_by_id memory 5 no_options (Triggers.delete memory 5 no_options db).1).0
        ≡ ok none)
    × ((Triggers.get_by_id memory 5 deleted_too (Triggers.delete memory 5 no_options db).1).0
        ≡ ok (some (Triggers.mark_deleted trigger)))
unfolding first modify_first
get_trigger-delete_example = get_trigger-delete memory 5 no_options db (refl, tt)

delete-AllGone_example :
    ((SyncConnections.delete memory 7 no_options db).0 ≡ ok none)
    × ((SyncConnections.get_by_id memory 7 no_options
          (SyncConnections.delete memory 7 no_options db).1).0
        ≡ ok none)
    × AllGone memory (SyncConnections.delete memory 7 no_options db).1 connection.syncflows
unfolding first modify_first
delete-AllGone_example =
    delete-AllGone memory 7 no_options db connection (refl, tt) ((refl, tt), (refl, tt), (refl, tt))
      refl refl

-- The same connection with an entry before the one of Scenario whose syncflow is missing.
abbrev missing_entry : SyncflowRef
missing_entry = record {
  id = 8;
  name = excel_full;
  trigger = record { id = none; name = excel_cron; type = cron_trigger };
}

abbrev half_missing : SyncConnection
half_missing = record connection { syncflows = missing_entry ∷ connection.syncflows }

abbrev with_missing : Db memory
with_missing = record db { connections = half_missing ∷ [] }

-- The syncflow of the entry that is there is deleted, and the connection is not.
ran_on :
    memory.find_one
      (Syncflows.live 3)
      (SyncConnections.delete memory 7 no_options with_missing).1.syncflows
    ≡ none
unfolding first SyncConnections.delete SyncConnections.delete_found for_each
    SyncConnections.left_running SyncConnections.after_missing SyncConnections.run_on modify_first
ran_on = refl

abbrev data_of_connection : CreateSyncConnectionData
data_of_connection = record {
  source_id = 9;
  syncflows = record { name = excel_full; trigger_name = excel_cron; trigger_config = none } ∷ [];
}

create_lem_example :
    (d : SyncConnection) × ((SyncConnections.create memory data_of_connection no_options db).0
      ≡ ok d)
    × ((SyncConnections.get_by_data_source_id memory 9 no_options
          (SyncConnections.create memory data_of_connection no_options db).1).0
        ≡ ok (some d))
    × (d.state ≡ default_sync_connection_state)
    × (map (λ s. s.name) d.syncflows ≡ map (λ s. s.name) data_of_connection.syncflows)
    × NoTriggerIds d.syncflows
unfolding get_syncflow get_trigger map_get map_set registries register_provider register_definitions
    SyncConnections.get_by_data_source_id first modify_first
create_lem_example = create_lem memory data_of_connection no_options db ((refl, refl), tt) refl

abbrev config_update : TriggerConfig
config_update = record Triggers.empty_config { frequency = some 8 }

update_config_new_example :
    Triggers.update_config memory 5 config_update new_too db
    ≡ (throw (plain property_of_undefined), db)
unfolding first modify_first
update_config_new_example = update_config_new memory 5 config_update new_too db refl refl

update_config_present_example :
    ((Triggers.update_config memory 5 config_update no_options db).0 ≡ ok none)
    × (memory.find_one
          (λ e. e.id == 5)
          (Triggers.update_config memory 5 config_update no_options db).1.triggers
        ≡ some (record trigger { config = some config_update }))
unfolding first modify_first
update_config_present_example = update_config_present memory 5 config_update no_options db refl refl

delete_provider_example :
    ((DataProviders.delete memory 2 no_options db).0 ≡ ok tt)
    × ((DataProviders.get_by_id memory 2 no_options
          (DataProviders.delete memory 2 no_options db).1).0
        ≡ ok none)
    × ((DataSources.get_by_provider_id memory 2 no_options
          (DataProviders.delete memory 2 no_options db).1).0
        ≡ ok [])
unfolding first modify_first
delete_provider_example = delete_provider memory 2 no_options db provider (refl, tt) refl

delete_source-AllGone_example :
    ((DataSources.delete memory 1 no_options db).0 ≡ ok none)
    × ((DataSources.get_by_id memory 1 no_options (DataSources.delete memory 1 no_options db).1).0
        ≡ ok none)
    × ((SyncConnections.get_by_id memory 7 no_options
          (DataSources.delete memory 1 no_options db).1).0
        ≡ ok none)
    × AllGone memory (DataSources.delete memory 1 no_options db).1 connection.syncflows
unfolding first modify_first
delete_source-AllGone_example =
    delete_source-AllGone memory 1 no_options db source connection (refl, tt) (refl, tt)
      ((refl, tt), (refl, tt), (refl, tt)) refl refl refl
