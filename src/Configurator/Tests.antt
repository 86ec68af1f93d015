-- ===== src/Configurator/Tests.antt =====
-- The configurator's theorems at a concrete database.
use starion_sync.Base.{first, modify_first, ◌≡◌, refl, true, false, none, some, [], ◌∷◌, ok}
use starion_sync.Driver.Memory.{memory}
use starion_sync.Entities.{SyncConnection}
use starion_sync.Events.{World, connection_created, connection_deleted}
use starion_sync.Configurator.{Random}
use starion_sync.Configurator.Connections.{CreateSyncConnectionDto}
use starion_sync.Configurator.Workflows.{create_sync_connection_wf, delete_sync_connection_wf}
use starion_sync.Configurator.Lifecycle.{create_sync_connection_wf_twice}
use starion_sync.Configurator.Removal.{
  delete_sync_connection_wf_silent, delete_sync_connection_wf_absent,
}
use starion_sync.Repository.Triggers.{empty_config}
use starion_sync.Entities.{cron_trigger}
use starion_sync.Configurator.Connections.{build_trigger_data}
use starion_sync.Scenario.{db, world, connection, source}

abbrev random : Random
random = record { first_draw = 2600000000000000; second_draw = 9007199254740991; uuid = "job" }

abbrev dto : CreateSyncConnectionDto
dto = record { source_id = 1; frequency = some 5 }

abbrev no_connection : World memory
no_connection = record { db = record db { connections = [] }; events = [] }

create_sync_connection_wf_twice_example :
    (c : SyncConnection) × ((create_sync_connection_wf memory random dto no_connection).0
      ≡ ok (record { item = c; is_already_created = false }))
    × ((create_sync_connection_wf memory random dto no_connection).1.events
        ≡ connection_created c ∷ [])
    × (create_sync_connection_wf memory random dto
          (create_sync_connection_wf memory random dto no_connection).1
        ≡ (
          ok (record { item = c; is_already_created = true }),
          (create_sync_connection_wf memory random dto no_connection).1,
        ))
unfolding first modify_first
create_sync_connection_wf_twice_example =
    create_sync_connection_wf_twice memory random dto no_connection source refl refl refl

delete_sync_connection_wf_silent_example :
    ((delete_sync_connection_wf memory 7 world).0
      ≡ ok (record { item = some connection; is_already_deleted = false }))
    × ((delete_sync_connection_wf memory 7 world).1.events ≡ [])
unfolding first modify_first
delete_sync_connection_wf_silent_example =
    delete_sync_connection_wf_silent memory 7 world connection (refl, tt) refl refl

delete_sync_connection_wf_absent_example : delete_sync_connection_wf memory 8 world ≡ (
  ok (record { item = none; is_already_deleted = true }),
  record world { events = connection_deleted none ∷ [] },
)
unfolding first modify_first
delete_sync_connection_wf_absent_example = delete_sync_connection_wf_absent memory 8 world refl

-- Draws of 0.29 and of nearly 1, for a period of four minutes.
drawn :
    build_trigger_data random cron_trigger (some 0)
    ≡ some (record empty_config {
      cron = some (record { seconds = 17; start = 3; every = 4 });
      job_id = some "job";
      frequency = some 4;
    })
unfolding build_trigger_data starion_sync.Configurator.floor_times
drawn = refl
