-- ===== src/Controller/Tests.antt =====
-- The controller's theorems at a concrete database.
use starion_sync.Base.{first, modify_first, ◌≡◌, refl, some, [], ◌∷◌, ok}
use starion_sync.Driver.Memory.{memory}
use starion_sync.Entities.{DataSource, running, idling, google_sheets}
use starion_sync.Repository.Syncflows
use starion_sync.Repository.Syncflows.{update_live, set_state, declared_state}
use starion_sync.Events.{World, syncflow_scheduled}
use starion_sync.Controller.{Microsoft, handle_workflow_triggered, run_controller}
use starion_sync.Controller.Scheduling.{
  schedule, handle_workflow_triggered_busy, handle_workflow_triggered_ready,
  handle_workflow_triggered_twice,
}
use starion_sync.Scenario.{db, db_with, syncflow_in, trigger, source, connection}

abbrev microsoft : Microsoft
microsoft = record { access_token = ok "access"; file_ctag = ok (some "tag") }

abbrev running_world : World memory
running_world = record { db = db_with running; events = [] }

-- The data source, were it a Google Sheet.
abbrev sheet : DataSource
sheet = record source { provider = record (source.provider) { type = google_sheets } }

abbrev sheets_world : World memory
sheets_world = record { db = record db { sources = sheet ∷ [] }; events = [] }

handle_workflow_triggered_busy_example :
    handle_workflow_triggered memory microsoft trigger running_world ≡ (ok tt, running_world)
unfolding first modify_first
handle_workflow_triggered_busy_example =
    handle_workflow_triggered_busy memory microsoft trigger running_world refl

handle_workflow_triggered_ready_example :
    handle_workflow_triggered memory microsoft trigger sheets_world ≡ (
      ok tt,
      record {
        db = update_live memory 3 schedule sheets_world.db;
        events =
            syncflow_scheduled (record { syncflow = schedule (syncflow_in idling); version = 4 })
            ∷ [];
      },
    )
unfolding run_controller first modify_first
handle_workflow_triggered_ready_example =
    handle_workflow_triggered_ready memory microsoft trigger (syncflow_in idling)
      (syncflow_in idling) sheet connection sheets_world sheets_world
      (refl, refl, (trigger, refl), refl, refl, refl, refl) refl refl

handle_workflow_triggered_twice_example :
    (handle_workflow_triggered memory microsoft trigger sheets_world ≡ (
      ok tt,
      record {
        db = update_live memory 3 schedule sheets_world.db;
        events =
            syncflow_scheduled (record { syncflow = schedule (syncflow_in idling); version = 4 })
            ∷ [];
      },
    ))
    × (handle_workflow_triggered memory microsoft trigger
          (handle_workflow_triggered memory microsoft trigger sheets_world).1
        ≡ handle_workflow_triggered memory microsoft trigger sheets_world)
unfolding first modify_first
handle_workflow_triggered_twice_example =
    handle_workflow_triggered_twice memory microsoft trigger (syncflow_in idling) sheet connection
      sheets_world (refl, refl, (trigger, refl), refl, refl, refl, refl) refl
