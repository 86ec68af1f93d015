-- ===== src/Controller.antt =====
-- apps/controller: a triggered workflow is checked and scheduled. What Microsoft answers is an
-- argument.
pub mod Scheduling
pub mod ExcelCheck
mod Tests
use starion_sync.Base.{
  ℕ, Bool, true, false, not, Option, none, some, List, [], ◌∷◌, String, Action, Outcome, ok, throw,
  Failure, plain, api, acceptable, unacceptable, external, internal, application, Cause,
  ErrorDetail, workflow_not_found, workflow_already_scheduled, trigger_not_found,
  unknown_workflow_type, data_source_not_found, sync_connection_not_found, syncflow_not_found,
  connection_not_active, syncflow_already_scheduled, data_source_not_changed, unknown_provider_type,
  property_of_undefined, external_type, ltb, other_cause, pure, raise, gets, raise_if, or_raise,
  for_each, catch, ◌>>=◌, ◌>>◌, if◌then◌else◌, ◌||◌,
}
use starion_sync.Base.Int.{exceeds}
use text.Mathlib.Text.{◌==◌ as str_eq}
use starion_sync.Driver.{Driver}
use starion_sync.Entities.{
  ObjectId, Syncflow, Trigger, DataSource, SyncConnection, ProviderType, google_sheets,
  microsoft_excel, air_table, no_state_update, scheduled, is_idling, is_scheduled, is_active,
  is_syncflow_workflow, Syncflow, ProviderRef,
}
use starion_sync.Repository.{Db, in_session, no_options, QueryOptions}
use starion_sync.Repository.Syncflows
use starion_sync.Repository.Triggers
use starion_sync.Repository.DataSources
use starion_sync.Repository.SyncConnections
use starion_sync.Events.{Event, syncflow_scheduled, World, emit_event, on_db}

-- `{ shouldWorkflowFail }` alone.
abbrev pub workflow_fail : Bool → ErrorDetail
workflow_fail b = record {
  should_activity_retry = none;
  should_workflow_fail = some b;
  error_data = none;
}

-- What the Microsoft services answer: an access token, and the file's `cTag`.
pub record Microsoft : Type 0 where
  pub access_token : Outcome String
  pub file_ctag : Outcome (Option String)

-- `DataSourceService.checkLimitation`.
unfoldable pub check_limitation : {S : Type 0} → DataSource → Action S (Unit {0})
check_limitation d = do
  raise_if (exceeds d.statistics.rows_number d.limits.rows_number.hard)
      (unacceptable other_cause (workflow_fail false))
  raise_if (ltb d.limits.storage_usage.hard d.statistics.storage_usage)
      (unacceptable other_cause (workflow_fail false))

-- `externalActivityWrapper`.
unfoldable pub external_error : Failure → Failure
external_error (external code) = unacceptable other_cause (record {
  should_activity_retry = some false;
  should_workflow_fail = none;
  error_data = some (record { type = external_type; code = code });
})
external_error _ =
    unacceptable other_cause
      (record { should_activity_retry = some true; should_workflow_fail = none; error_data = none })

abbrev pub answer : {S A : Type 0} → Outcome A → Action S A
answer r s = (r, s)

-- `===` on values that may be undefined.
abbrev pub same_text : Option String → Option String → Bool
same_text none none = true
same_text none (some b) = false
same_text (some a) none = false
same_text (some a) (some b) = str_eq a b

abbrev is_activity_error : Failure → Bool
is_activity_error (acceptable c) = true
is_activity_error (unacceptable c d) = true
is_activity_error _ = false

module _ (m : Driver) (ms : Microsoft) where
  -- `MicrosoftExcelSyncflowController.run`.
  unfoldable pub run_excel : Syncflow → Action (World m) (Unit {0})
  run_excel s = do
    answer ms.access_token
    ctag ← catch (answer ms.file_ctag) (λ e. raise (external_error e))
    raise_if (same_text ctag s.state.cursor)
        (unacceptable data_source_not_changed (workflow_fail false))
    on_db (Syncflows.update_state m s.id (record no_state_update { cursor = ctag }) no_options)
    pure tt

  -- `SyncflowControllerFactory.get` and `run` of what it returns; for Google Sheets `run` is empty.
  unfoldable pub run_controller : ProviderType → Syncflow → Action (World m) (Unit {0})
  run_controller google_sheets s = pure tt
  run_controller microsoft_excel s = run_excel s
  run_controller air_table s = raise (plain unknown_provider_type)

  unfoldable pub check_workflow_already_scheduled : Trigger → Action (World m) (Unit {0})
  check_workflow_already_scheduled t = do
    found ← on_db (Syncflows.get_by_id m t.workflow.id in_session)
    workflow ← or_raise found (unacceptable workflow_not_found (workflow_fail false))
    raise_if (not (is_idling workflow.state.status))
        (unacceptable workflow_already_scheduled (workflow_fail false))

  -- The message of this error reads `syncflow.sourceId`.
  abbrev source_missing : Option Syncflow → Failure
  source_missing none = plain property_of_undefined
  source_missing (some s) = unacceptable data_source_not_found (workflow_fail false)

  unfoldable pub mark_scheduled : ProviderType → Syncflow → Action (World m) (Option Syncflow)
  mark_scheduled p s =
      run_controller p s
      >> on_db (
          Syncflows.update_state m s.id (record no_state_update { status = some scheduled })
            (record in_session { new = true }))

  unfoldable pub handle_found :
      Option Syncflow
      → Option DataSource
      → Option SyncConnection
      → Action (World m) (Option Syncflow)
  handle_found found source connection = do
    data_source ← or_raise source (source_missing found)
    sync_connection ←
        or_raise connection (unacceptable sync_connection_not_found (workflow_fail false))
    syncflow ← or_raise found (unacceptable syncflow_not_found (workflow_fail false))
    raise_if (not (is_active sync_connection.state.status))
        (unacceptable connection_not_active (workflow_fail false))
    raise_if (is_scheduled syncflow.state.status) (acceptable syncflow_already_scheduled)
    mark_scheduled data_source.provider.type syncflow

  -- `handleSyncflowTriggered`.
  unfoldable pub handle_syncflow_triggered : Trigger → Action (World m) (Option Syncflow)
  handle_syncflow_triggered t = do
    found ← on_db (Syncflows.get_by_id m t.workflow.id in_session)
    source ← on_db (DataSources.get_by_id m t.source_id in_session)
    connection ← on_db (SyncConnections.get_by_data_source_id m t.source_id in_session)
    handle_found found source connection

  unfoldable pub events_for : Option Syncflow → Action (World m) (List Event)
  events_for updated = do
    syncflow ← or_raise updated (plain property_of_undefined)
    pure
        (syncflow_scheduled (record { syncflow = syncflow; version = syncflow.state.version }) ∷ [])

  unfoldable pub trigger_found : Trigger → Option Trigger → Action (World m) (List Event)
  trigger_found t in_db = do
    or_raise in_db (unacceptable trigger_not_found (workflow_fail false))
    raise_if (not (is_syncflow_workflow t.workflow.type))
        (unacceptable unknown_workflow_type (workflow_fail true))
    handle_syncflow_triggered t >>= events_for

  unfoldable pub checked : Trigger → Action (World m) (List Event)
  checked t = on_db (Triggers.get_by_id m t.id no_options) >>= trigger_found t

  -- The body of the `try`: the events to emit.
  unfoldable pub trigger_workflow : Trigger → Action (World m) (List Event)
  trigger_workflow t = check_workflow_already_scheduled t >> checked t

  abbrev swallow : Failure → Action (World m) (List Event)
  swallow e = if is_activity_error e then pure [] else raise e

  -- `WorkflowService.handleWorkflowTriggered`. The callback's reads are in the transaction and its
  -- writes, by `updateState`, are not, so a callback that throws undoes nothing.
  unfoldable pub handle_workflow_triggered : Trigger → Action (World m) (Unit {0})
  handle_workflow_triggered t =
      catch (trigger_workflow t) swallow >>= λ events. for_each events emit_event
