-- ===== src/Controller/Scheduling.antt =====
-- apps/controller/src/modules/workflow/workflow.service.ts: when a triggered workflow is
-- scheduled, and when nothing happens.
use starion_sync.Base.{
  ◌≡◌, refl, ap, ◌∙◌, inl, inr, Bool, true, false, Option, none, some, List, [], ◌∷◌, Failure, ok,
  throw, arith, bind_ok, catch_ok, catch, Option-cases, for_each,
}
use starion_sync.Driver.{Driver}
use starion_sync.Driver.Laws.{find_one_sound}
use starion_sync.Entities.{
  ObjectId, WorkflowStatus, Syncflow, Trigger, DataSource, SyncConnection, google_sheets,
  no_state_update, scheduled, is_idling, is_active, is_scheduled, syncflow_workflow,
}
use starion_sync.Repository.{Db, no_options, in_session}
use starion_sync.Repository.Syncflows
use starion_sync.Repository.Syncflows.{set_state, declared_state, live, update_live}
use starion_sync.Repository.Syncflows.State.{find_one-update_live, rewritten}
use starion_sync.Repository.Triggers
use starion_sync.Repository.DataSources
use starion_sync.Repository.SyncConnections
use starion_sync.Events.{Event, syncflow_scheduled, World, emit_event, on_db}
use starion_sync.Controller.{
  Microsoft, handle_workflow_triggered, trigger_workflow, check_workflow_already_scheduled,
  handle_syncflow_triggered, run_controller, is_activity_error, mark_scheduled, handle_found,
  events_for, trigger_found, checked, swallow,
}

-- A workflow that may be scheduled is one that exists and idles.
abbrev pub is_ready : Option Syncflow → Bool
is_ready none = false
is_ready (some s) = is_idling s.state.status

-- What scheduling writes.
unfoldable pub schedule : Syncflow → Syncflow
unfolding set_state
schedule = set_state (record no_state_update { status = some scheduled })

module _ (m : Driver) (ms : Microsoft) where
  check_busy :
      (t : Trigger) (w : World m)
      → is_ready (m.find_one (live t.workflow.id) w.db.syncflows) ≡ false
      → (e : Failure) × (check_workflow_already_scheduled m ms t w ≡ (throw e, w))
        × (is_activity_error e ≡ true)
  unfolding check_workflow_already_scheduled Syncflows.get_by_id
  check_busy t w h = elim (Option-cases (m.find_one (live t.workflow.id) w.db.syncflows)) [
    | inl g ↦ rw g (_, refl, refl)
    | inr (s, g) ↦ rw (g, rw g at h) (_, refl, refl)
  ]

  -- A trigger of a workflow that is missing or deleted, or that does not idle, does nothing: the
  -- handler returns, nothing is written and no event is emitted.
  pub handle_workflow_triggered_busy :
      (t : Trigger) (w : World m)
      → is_ready (m.find_one (live t.workflow.id) w.db.syncflows) ≡ false
      → handle_workflow_triggered m ms t w ≡ (ok tt, w)
  unfolding handle_workflow_triggered trigger_workflow for_each
  handle_workflow_triggered_busy t w h = let (e, g, k) = check_busy t w h in cc

  -- The documents that the handler reads are there, and the connection is active.
  abbrev pub CanSchedule : Trigger → Syncflow → DataSource → SyncConnection → World m → Type 0
  CanSchedule t s d c w =
      (m.find_one (live t.workflow.id) w.db.syncflows ≡ some s)
      × (is_idling s.state.status ≡ true)
      × ((u : Trigger) × (m.find_one (Triggers.by_id t.id no_options) w.db.triggers ≡ some u))
      × (m.find_one (DataSources.by_id t.source_id no_options) w.db.sources ≡ some d)
      × (m.find_one (SyncConnections.by_source_id t.source_id no_options) w.db.connections ≡ some c)
      × (t.workflow.type ≡ syncflow_workflow)
      × (is_active c.state.status ≡ true)

  abbrev pub scheduled_world : ObjectId → Syncflow → World m → World m
  scheduled_world id s w = record {
    db = update_live m id schedule w.db;
    events =
        syncflow_scheduled (record { syncflow = schedule s; version = s.state.version }) ∷ w.events;
  }

  check_ready :
      (t : Trigger) (s : Syncflow) (w : World m)
      → m.find_one (live t.workflow.id) w.db.syncflows ≡ some s
      → is_idling s.state.status ≡ true
      → check_workflow_already_scheduled m ms t w ≡ (ok tt, w)
  unfolding check_workflow_already_scheduled Syncflows.get_by_id
  check_ready t s w hs hi = rw (hs, hi) refl

  idling-not_scheduled : (x : WorkflowStatus) → is_idling x ≡ true → is_scheduled x ≡ false
  idling-not_scheduled x h = ground arith

  -- What is written and returned, once the kind of the source has nothing against it.
  mark_scheduled_lem :
      (s : Syncflow) (d : DataSource) (w v : World m)
      → run_controller m ms d.provider.type s w ≡ (ok tt, v)
      → mark_scheduled m ms d.provider.type s w ≡ (
        ok (rewritten schedule (m.find_one (live s.id) v.db.syncflows)),
        record v { db = update_live m s.id schedule v.db },
      )
  unfolding mark_scheduled Syncflows.update_state Syncflows.get_by_id declared_state schedule
  mark_scheduled_lem s d w v h =
      bind_ok (run_controller m ms d.provider.type s)
        (λ _. on_db (
          Syncflows.update_state m s.id (record no_state_update { status = some scheduled })
            (record in_session { new = true })))
        w v tt h
      ∙ ap (λ r. (ok r, record v { db = update_live m s.id schedule v.db }))
          (find_one-update_live m s.id schedule v.db (λ e. refl))

  handle_syncflow_lem :
      (t : Trigger) (s : Syncflow) (d : DataSource) (c : SyncConnection) (w v : World m)
      → CanSchedule t s d c w
      → run_controller m ms d.provider.type s w ≡ (ok tt, v)
      → handle_syncflow_triggered m ms t w ≡ (
        ok (rewritten schedule (m.find_one (live s.id) v.db.syncflows)),
        record v { db = update_live m s.id schedule v.db },
      )
  unfolding handle_syncflow_triggered handle_found Syncflows.get_by_id DataSources.get_by_id
      SyncConnections.get_by_data_source_id
  handle_syncflow_lem t s d c w v (hs, hi, ht, hd, hc, hw, ha) hr =
      rw (hs, hd, hc, ha, idling-not_scheduled s.state.status hi) (mark_scheduled_lem s d w v hr)

  abbrev emits : Syncflow → List Event
  emits e = syncflow_scheduled (record { syncflow = schedule e; version = e.state.version }) ∷ []

  checked_lem :
      (t : Trigger) (s e : Syncflow) (d : DataSource) (c : SyncConnection) (w v : World m)
      → CanSchedule t s d c w
      → run_controller m ms d.provider.type s w ≡ (ok tt, v)
      → m.find_one (live s.id) v.db.syncflows ≡ some e
      → checked m ms t w ≡ (ok (emits e), record v { db = update_live m s.id schedule v.db })
  unfolding checked trigger_found events_for Triggers.get_by_id handle_syncflow_triggered schedule
  checked_lem t s e d c w v (hs, hi, (u, ht), hd, hc, hw, ha) hr he =
      simp (ht, hw)
        (bind_ok (handle_syncflow_triggered m ms t) (events_for m ms) w
          (record v { db = update_live m s.id schedule v.db }) (some (schedule e))
          (handle_syncflow_lem t s d c w v (hs, hi, (u, ht), hd, hc, hw, ha) hr
            ∙ ap
                (λ o.
                  (ok (rewritten schedule o), record v { db = update_live m s.id schedule v.db }))
                he))

  -- A trigger of a workflow that idles, whose trigger and data source exist and whose connection
  -- is active, makes the syncflow scheduled and emits one event, with the syncflow as it is then
  -- and its version; here the check of the source's kind has passed, and left `v`.
  pub handle_workflow_triggered_ready :
      (t : Trigger) (s e : Syncflow) (d : DataSource) (c : SyncConnection) (w v : World m)
      → CanSchedule t s d c w
      → run_controller m ms d.provider.type s w ≡ (ok tt, v)
      → m.find_one (live s.id) v.db.syncflows ≡ some e
      → handle_workflow_triggered m ms t w ≡ (
        ok tt,
        record {
          db = update_live m s.id schedule v.db;
          events =
              syncflow_scheduled (record { syncflow = schedule e; version = e.state.version })
              ∷ v.events;
        },
      )
  unfolding handle_workflow_triggered trigger_workflow for_each
  handle_workflow_triggered_ready t s e d c w v can hr he =
      bind_ok (catch (trigger_workflow m ms t) (swallow m ms))
        (λ events. for_each events emit_event) w _ (emits e)
        (catch_ok (trigger_workflow m ms t) (swallow m ms) w _ (emits e) (
          bind_ok (check_workflow_already_scheduled m ms t) (λ _. checked m ms t) w w tt
            (check_ready t s w can.0 can.1)
          ∙ checked_lem t s e d c w v can hr he))

  found_id :
      (k : ObjectId) (s : Syncflow) (db : Db m)
      → m.find_one (live k) db.syncflows ≡ some s
      → s.id ≡ k
  found_id k s db h = same_id k s (find_one_sound m (live k) db.syncflows h)
    where
      same_id : (k : ObjectId) (s : Syncflow) → live k s ≡ true → s.id ≡ k
      same_id k s e = ground (arith, e)

  schedule-not_ready : (e : Option Syncflow) → is_ready (rewritten schedule e) ≡ false
  unfolding schedule
  schedule-not_ready none = refl
  schedule-not_ready (some s) = refl

  -- A trigger of a Google Sheets workflow that idles, whose trigger and data source exist and
  -- whose connection is active, schedules it with one event; and a second trigger of it, before
  -- the worker has taken the first, changes nothing and emits nothing.
  pub handle_workflow_triggered_twice :
      (t : Trigger) (s : Syncflow) (d : DataSource) (c : SyncConnection) (w : World m)
      → CanSchedule t s d c w
      → d.provider.type ≡ google_sheets
      → let first = handle_workflow_triggered m ms t w in
        (first ≡ (
          ok tt,
          record {
            db = update_live m s.id schedule w.db;
            events =
                syncflow_scheduled (record { syncflow = schedule s; version = s.state.version })
                ∷ w.events;
          },
        ))
        × (handle_workflow_triggered m ms t first.1 ≡ first)
  unfolding run_controller schedule
  handle_workflow_triggered_twice t s d c w can hp =
      let hid = found_id t.workflow.id s w.db can.0 in
      let one = handle_workflow_triggered_ready t s s d c w w can (rw hp refl) (simp hid can.0) in
      (
        one,
        rw one (
            handle_workflow_triggered_busy t _ (
              simp hid (
                ap is_ready (find_one-update_live m t.workflow.id schedule w.db (λ x. refl))
                ∙ schedule-not_ready (m.find_one (live t.workflow.id) w.db.syncflows)))),
      )
