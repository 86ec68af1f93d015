-- ===== src/Worker.antt =====
-- apps/worker: what its activities and workflows share. The processors, the clock and the
-- authorisation services are arguments; so is the orchestrator's retrying: an activity's outcome
-- is that of its last attempt.
pub mod Activities
pub mod Errors
pub mod Excel
pub mod GoogleSheets
mod Tests
use starion_sync.Base.{
  ℕ, Bool, true, false, Option, none, some, String, Action, Outcome, ok, throw, Failure, plain, api,
  acceptable, unacceptable, external, internal, application, Cause, ErrorDetail, ErrorData,
  ErrorType, external_type, internal_type, processor_failed, other_cause, pure, raise, catch, ◌>>=◌,
  ◌>>◌, if◌then◌else◌, ◌-◌, ◌+◌, leb, ltb,
}
use text.Mathlib.Text.{◌==◌ as str_eq}
use starion_sync.Entities.{ObjectId, Metadata}
use starion_sync.Events.{LoadStatistics}

-- What an HTTP call of a processor gives: its data, an error response with the `type` and the
-- `code` of its body, or no response.
pub data Reply (A : Type 0) : Type 0 where
  replied : A → Reply A
  error_response : Option ErrorType → ℕ → Reply A
  no_response : Reply A

pub record CompareRequest : Type 0 where
  pub data_source_id : ObjectId
  pub sync_version : ℕ
  pub prev_version : ℕ

pub record LoadRequest : Type 0 where
  pub data_source_id : ObjectId
  pub sync_version : ℕ
  pub prev_version : ℕ
  pub table_name : String
  pub metadata : Option Metadata

pub record ExcelDownloadRequest : Type 0 where
  pub data_source_id : ObjectId
  pub sync_version : ℕ
  pub workbook_id : String
  pub worksheet_id : String
  pub timezone : String

pub record SheetsDownloadRequest : Type 0 where
  pub data_provider_id : ObjectId
  pub spreadsheet_id : String

pub record SheetsIngestRequest : Type 0 where
  pub data_source_id : ObjectId
  pub data_provider_id : ObjectId
  pub sync_version : ℕ
  pub spreadsheet_id : String
  pub sheet_id : String

-- The services that the worker calls, as functions of what they are sent.
pub record Services : Type 0 where
  pub access_token : String → Outcome String
  pub download_excel : ExcelDownloadRequest → String → Reply (Unit {0})
  pub download_sheets : SheetsDownloadRequest → String → Reply (Unit {0})
  pub ingest_sheets : SheetsIngestRequest → String → Reply (Unit {0})
  pub compare_data : CompareRequest → Reply (Unit {0})
  pub load_data : LoadRequest → Reply LoadStatistics
  -- `_${id}`, with the hexadecimal digits of an id.
  pub id_table_name : ObjectId → String
  -- `new Date()`, where a workflow reads it first and after its work.
  pub now : ℕ
  pub later : ℕ

abbrev pub answer : {S A : Type 0} → Outcome A → Action S A
answer r s = (r, s)

-- `ApplicationFailure.fromError`, of an error that `activityWrapper` catches.
unfoldable pub application_failure : ErrorDetail → Failure
application_failure d =
    application (not_retried d.should_activity_retry) (record d { should_activity_retry = none })
  where
    not_retried : Option Bool → Bool
    not_retried (some true) = false
    not_retried _ = true

module _ {S A : Type 0} where
  abbrev pub wrapped : Failure → Action S (Option A)
  wrapped (acceptable c) = pure none
  wrapped (unacceptable c d) = raise (application_failure d)
  wrapped e = raise e

  -- `activityWrapper`. The data of an acceptable error stands where a result would: `none`.
  unfoldable pub activity_wrapper : Action S A → Action S (Option A)
  activity_wrapper f = catch (f >>= λ a. pure (some a)) wrapped

module _ {A : Type 0} where
  -- `processorApiWrapper`.
  unfoldable pub processor_api_wrapper : Reply A → Outcome A
  processor_api_wrapper (replied a) = ok a
  processor_api_wrapper (error_response (some external_type) code) = throw (external code)
  processor_api_wrapper (error_response (some internal_type) code) = throw (internal code)
  processor_api_wrapper (error_response none code) = throw (plain processor_failed)
  processor_api_wrapper no_response = throw (plain processor_failed)

-- The `errorData` of a processor's error, which fails the workflow and is not retried.
abbrev pub processor_error : ErrorType → ℕ → ErrorDetail
processor_error t code = record {
  should_activity_retry = some false;
  should_workflow_fail = some true;
  error_data = some (record { type = t; code = code });
}

abbrev pub retry_error : ErrorDetail
retry_error = record {
  should_activity_retry = some true;
  should_workflow_fail = none;
  error_data = none;
}

abbrev pub processor_failure : Failure → Failure
processor_failure (external code) =
    unacceptable processor_failed (processor_error external_type code)
processor_failure (internal code) =
    unacceptable processor_failed (processor_error internal_type code)
processor_failure _ = unacceptable processor_failed retry_error

-- `processorWrapper`.
unfoldable pub processor_wrapper : {S A : Type 0} → Action S A → Action S A
processor_wrapper f = catch f (λ e. raise (processor_failure e))

-- `getActivityErrorDetail`: an error that a wrapped activity threw carries its detail.
unfoldable pub get_activity_error_detail : Failure → Option ErrorDetail
get_activity_error_detail (application not_retried d) = some d
get_activity_error_detail _ = none

pub data WorkflowResult : Type 0 where
  completed error_that_should_not_fail_wf : WorkflowResult

abbrev pub forgives : Option ErrorDetail → Bool
forgives none = false
forgives (some d) = elim (d.should_workflow_fail) [
  | some false ↦ true
  | some true ↦ false
  | none ↦ false
]

-- `workflowWrapper`.
unfoldable pub workflow_wrapper : {S : Type 0} → Action S (Unit {0}) → Action S WorkflowResult
workflow_wrapper f = catch (f >> pure completed) (λ e.
    if forgives (get_activity_error_detail e) then pure error_that_should_not_fail_wf else raise e)

-- `isWithinOneMinuteRange`.
unfoldable pub is_within_one_minute_range : ℕ → ℕ → Bool
is_within_one_minute_range a b = leb ((a - b) + (b - a)) 60000

-- `text || fallback`.
abbrev pub text_or : Option String → String → String
text_or none d = d
text_or (some s) d = if str_eq s "" then d else s
