-- ===== src/Worker/GoogleSheets/Failures.antt =====
-- apps/worker/src/workflows/google-sheets/index.ts: how a failed run of a Google Sheets syncflow ends.
use starion_sync.Base.{
  ℕ, ◌+◌, ◌≡◌, refl, ◌∙◌, Bool, Option, none, some, ◌∷◌, Outcome, throw, application, ErrorType,
  external_type, internal_type, ErrorData, ErrorDetail, Failure, catch, catch_throw,
}
use starion_sync.Driver.{Driver}
use starion_sync.Entities.{Syncflow, idling}
use starion_sync.Repository.Syncflows
use starion_sync.Repository.Syncflows.{set_state, declared_state, live, update_live}
use starion_sync.Events.{SyncflowScheduledPayload, syncflow_failed, data_source_error, World}
use starion_sync.Worker.{Services, get_activity_error_detail}
use starion_sync.Worker.Activities.{update_syncflow_state}
use starion_sync.Worker.Errors.{workflow_wrapper_lem, ended}
use starion_sync.Worker.Excel.{failed_payload}
use starion_sync.Worker.GoogleSheets.{
  failed, by_error_type, by_error_data, handle_error, run_sync, google_sheets_proceed_sync,
}

-- What a failed run writes.
abbrev pub give_up : SyncflowScheduledPayload → Syncflow → Syncflow
give_up p d = record d { state = record (d.state) { status = idling; version = p.version + 1 } }

module _ (m : Driver) (ext : Services) where
  -- What the error handler does, by the data that the error carries: it always throws it again.
  abbrev pub handled :
      SyncflowScheduledPayload → Failure → Option ErrorData → World m → Outcome (Unit {0}) × World m
  handled p e none w = (throw e, w)
  handled p e (some x) w =
      let idle = update_live m p.syncflow.id (give_up p) w.db in
      elim (x.type) [
        | external_type ↦ (
          throw e,
          record {
            db = idle;
            events =
                syncflow_failed (failed_payload p external_type x.code)
                ∷ data_source_error p.syncflow.source_id x.code
                ∷ w.events;
          },
        )
        | internal_type ↦ (
          throw e,
          record {
            db = idle;
            events = syncflow_failed (failed_payload p internal_type x.code) ∷ w.events;
          },
        )
      ]

  by_error_type_lem :
      (p : SyncflowScheduledPayload) (e : Failure) (t : ErrorType) (code : ℕ) (w : World m)
      → by_error_type m ext p e t code w ≡ handled p e (some (record { type = t; code = code })) w
  unfolding by_error_type update_syncflow_state Syncflows.update_state set_state declared_state
      failed
  by_error_type_lem p e external_type code w = refl
  by_error_type_lem p e internal_type code w = refl

  by_error_data_lem :
      (p : SyncflowScheduledPayload) (e : Failure) (x : Option ErrorData) (w : World m)
      → by_error_data m ext p e x w ≡ handled p e x w
  unfolding by_error_data
  by_error_data_lem p e none w = refl
  by_error_data_lem p e (some x) w = by_error_type_lem p e x.type x.code w

  -- A last part of a run whose body throws an error of a wrapped activity, with what it wrote in
  -- `v`, makes the syncflow idle at the next version and reports the run failed, and the data
  -- source broken where the error is external; without error data it does neither. In each case
  -- the workflow ends as the error says, which fails it unless it says that it should not.
  pub google_sheets_proceed_sync_fails :
      (p : SyncflowScheduledPayload) (final : Bool) (d : ErrorDetail) (w v : World m)
      → run_sync m ext p w ≡ (throw (application final d), v)
      → google_sheets_proceed_sync m ext p w
        ≡ ended (handled p (application final d) d.error_data v)
  unfolding google_sheets_proceed_sync handle_error get_activity_error_detail
  google_sheets_proceed_sync_fails p final d w v h =
      let r = handled p (application final d) d.error_data v in
      workflow_wrapper_lem (catch (run_sync m ext p) (handle_error m ext p)) w r.1 r.0 (
        catch_throw (run_sync m ext p) (handle_error m ext p) w v (application final d) h
        ∙ by_error_data_lem p (application final d) d.error_data v)
