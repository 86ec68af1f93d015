-- ===== src/Worker/Excel/Failures.antt =====
-- apps/worker/src/workflows/microsoft-excel/index.ts: how a failed run of an Excel syncflow ends.
use starion_sync.Base.{
  ℕ, ◌≡◌, refl, ◌∙◌, Bool, Option, none, some, ◌∷◌, Outcome, ok, throw, application, ErrorType,
  external_type, internal_type, ErrorData, ErrorDetail, Failure, plain, property_of_undefined,
  catch_throw, catch,
}
use starion_sync.Driver.{Driver}
use starion_sync.Entities.{idling, no_state_update}
use starion_sync.Repository.Syncflows
use starion_sync.Repository.Syncflows.{set_state, declared_state, live, update_live}
use starion_sync.Events.{SyncflowScheduledPayload, syncflow_failed, data_source_error, World}
use starion_sync.Worker.{Services, get_activity_error_detail}
use starion_sync.Worker.Activities.{update_syncflow_status}
use starion_sync.Worker.Errors.{workflow_wrapper_lem, ended}
use starion_sync.Worker.Excel.{
  failed_payload, run_sync, by_error_type, by_error_data, handle_error, excel_full_sync,
}

module _ (m : Driver) (ext : Services) where
  -- What the handler of a run's error does, by the data that the error carries.
  abbrev pub handled :
      SyncflowScheduledPayload → Failure → Option ErrorData → World m → Outcome (Unit {0}) × World m
  handled p e none w = (throw e, w)
  handled p e (some x) w =
      let idle =
        update_live m p.syncflow.id (set_state (record no_state_update { status = some idling }))
          w.db in
      elim (x.type) [
        | external_type ↦ (
          throw e,
          record {
            db = idle;
            events =
                syncflow_failed (failed_payload p external_type x.code)
                ∷ data_source_error p.syncflow.source_id x.code
                ∷ w.events;
          },
        )
        | internal_type ↦ (
          ok tt,
          record {
            db = idle;
            events = syncflow_failed (failed_payload p internal_type x.code) ∷ w.events;
          },
        )
      ]

  by_error_type_lem :
      (p : SyncflowScheduledPayload) (e : Failure) (t : ErrorType) (code : ℕ) (w : World m)
      → by_error_type m ext p e t code w ≡ handled p e (some (record { type = t; code = code })) w
  unfolding by_error_type update_syncflow_status Syncflows.update_status
  by_error_type_lem p e external_type code w = refl
  by_error_type_lem p e internal_type code w = refl

  by_error_data_lem :
      (p : SyncflowScheduledPayload) (e : Failure) (x : Option ErrorData) (w : World m)
      → by_error_data m ext p e x w ≡ handled p e x w
  unfolding by_error_data
  by_error_data_lem p e none w = refl
  by_error_data_lem p e (some x) w = by_error_type_lem p e x.type x.code w

  -- A run whose body throws an error of a wrapped activity, with what it wrote up to there in `v`,
  -- ends by the error's data. With none, nothing more happens. With an external error the syncflow
  -- is made idle, the data source is reported broken and the run failed, and the error goes on.
  -- With an internal one the syncflow is made idle, the run is reported failed, and the workflow
  -- completes. An error that goes on fails the workflow unless it says that it should not.
  pub excel_full_sync_fails :
      (p : SyncflowScheduledPayload) (final : Bool) (d : ErrorDetail) (w v : World m)
      → run_sync m ext p w ≡ (throw (application final d), v)
      → excel_full_sync m ext p w ≡ ended (handled p (application final d) d.error_data v)
  unfolding excel_full_sync handle_error get_activity_error_detail
  excel_full_sync_fails p final d w v h =
      let r = handled p (application final d) d.error_data v in
      workflow_wrapper_lem (catch (run_sync m ext p) (handle_error m ext p)) w r.1 r.0 (
        catch_throw (run_sync m ext p) (handle_error m ext p) w v (application final d) h
        ∙ by_error_data_lem p (application final d) d.error_data v)

  -- Any other error of the body, such as that of the one activity without a wrapper, is replaced
  -- by a TypeError of the handler: the workflow throws it, no event is emitted, and the syncflow
  -- stays as the body left it.
  pub excel_full_sync_breaks :
      (p : SyncflowScheduledPayload) (e : Failure) (w v : World m)
      → get_activity_error_detail e ≡ none
      → run_sync m ext p w ≡ (throw e, v)
      → excel_full_sync m ext p w ≡ (throw (plain property_of_undefined), v)
  unfolding excel_full_sync handle_error get_activity_error_detail
  excel_full_sync_breaks p e w v k h =
      workflow_wrapper_lem (catch (run_sync m ext p) (handle_error m ext p)) w v
        (throw (plain property_of_undefined))
        (catch_throw (run_sync m ext p) (handle_error m ext p) w v e h ∙ rw (k, handle_error) refl)
