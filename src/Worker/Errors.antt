-- ===== src/Worker/Errors.antt =====
-- apps/worker/src/activities/wrapper.ts: what becomes of a processor's answer on its way through the
-- wrappers, from the HTTP call to the workflow.
use starion_sync.Base.{
  ℕ, ◌≡◌, refl, true, false, none, some, Outcome, ok, throw, application, ErrorType, external_type,
  internal_type, Failure, Action, pure, ◌>>=◌, bind_ok, bind_throw, catch_ok, catch_throw, ◌>>◌,
  raise, Bool-cases, inl, inr, if◌then◌else◌, ap, ◌∙◌, String,
}
use starion_sync.Driver.{Driver}
use starion_sync.Events.{World}
use starion_sync.Worker.{
  WorkflowResult, completed, error_that_should_not_fail_wf, forgives, workflow_wrapper, Services,
  Reply, replied, error_response, no_response, CompareRequest, LoadRequest, activity_wrapper,
  processor_api_wrapper, processor_wrapper, answer, wrapped, application_failure,
  get_activity_error_detail,
}
use starion_sync.Worker.Activities.{result_of, compare_data, load_data}

-- The error of a processor that names its type: it is not retried, and it fails the workflow.
abbrev pub typed_error : ErrorType → ℕ → Failure
typed_error t code = application true (record {
  should_activity_retry = none;
  should_workflow_fail = some true;
  error_data = some (record { type = t; code = code });
})

-- Any other, which the orchestrator may retry.
abbrev pub untyped_error : Failure
untyped_error =
    application false
      (record { should_activity_retry = none; should_workflow_fail = none; error_data = none })

-- What a workflow sees of a processor's answer.
abbrev pub reported : {A : Type 0} → Reply A → Outcome A
reported (replied a) = ok a
reported (error_response (some t) code) = throw (typed_error t code)
reported (error_response none code) = throw untyped_error
reported no_response = throw untyped_error

module _ {S A : Type 0} where
  pub activity_wrapper_ok :
      (f : Action S A) (s t : S) (a : A) → f s ≡ (ok a, t) → activity_wrapper f s ≡ (ok (some a), t)
  unfolding activity_wrapper
  activity_wrapper_ok f s t a h =
      catch_ok (f >>= λ b. pure (some b)) wrapped s t (some a)
        (bind_ok f (λ b. pure (some b)) s t a h)

module _ (m : Driver) (ext : Services) {A : Type 0} where
  pub wrapped_reply :
      (r : Reply A) (w : World m)
      → result_of m ext (processor_wrapper (answer (processor_api_wrapper r))) w ≡ (reported r, w)
  unfolding activity_wrapper processor_wrapper processor_api_wrapper application_failure
  wrapped_reply (replied a) w = refl
  wrapped_reply (error_response (some external_type) code) w = refl
  wrapped_reply (error_response (some internal_type) code) w = refl
  wrapped_reply (error_response none code) w = refl
  wrapped_reply no_response w = refl

  -- The same after a token was asked for.
  pub wrapped_call :
      (o : Outcome String) (token : String) (call : String → Reply A) (w : World m)
      → o ≡ ok token
      → result_of m ext
          (processor_wrapper (answer o >>= λ t. answer (processor_api_wrapper (call t))))
          w
        ≡ (reported (call token), w)
  unfolding processor_wrapper activity_wrapper
  wrapped_call o token call w h =
      ap
        (λ r.
          result_of m ext
            (processor_wrapper (answer r >>= λ t. answer (processor_api_wrapper (call t)))) w)
        h
      ∙ wrapped_reply (call token) w

module _ (m : Driver) (ext : Services) where
  -- Loading and comparing write nothing, and give the workflow what the processor answered: its
  -- data, its typed error with the code, marked as failing the workflow and as not to be retried,
  -- or else an error without data that may be retried.
  pub load_data_lem :
      (r : LoadRequest) (q : CompareRequest) (w : World m)
      → (load_data m ext r w ≡ (reported (ext.load_data r), w))
        × (compare_data m ext q w ≡ (reported (ext.compare_data q), w))
  unfolding load_data compare_data
  load_data_lem r q w =
      (wrapped_reply m ext (ext.load_data r) w, wrapped_reply m ext (ext.compare_data q) w)

-- What `workflowWrapper` makes of a workflow's end.
abbrev pub ended : {S : Type 0} → Outcome (Unit {0}) × S → Outcome WorkflowResult × S
ended (ok a, t) = (ok completed, t)
ended (throw e, t) = (
  if forgives (get_activity_error_detail e) then ok error_that_should_not_fail_wf else throw e,
  t,
)

abbrev recovers : {S : Type 0} → Failure → Action S WorkflowResult
recovers e =
    if forgives (get_activity_error_detail e) then pure error_that_should_not_fail_wf else raise e

recovers_lem : {S : Type 0} (e : Failure) (t : S) → recovers e t ≡ ended (throw e, t)
recovers_lem e t = elim (Bool-cases (forgives (get_activity_error_detail e))) [
  | inl yes' ↦ rw yes' refl
  | inr no' ↦ rw no' refl
]

pub workflow_wrapper_lem :
    {S : Type 0} (f : Action S (Unit {0})) (w t : S) (r : Outcome (Unit {0}))
    → f w ≡ (r, t)
    → workflow_wrapper f w ≡ ended (r, t)
unfolding workflow_wrapper
workflow_wrapper_lem f w t (ok a) h =
    catch_ok (f >> pure completed) recovers w t completed (bind_ok f (λ _. pure completed) w t a h)
workflow_wrapper_lem f w t (throw e) h =
    catch_throw (f >> pure completed) recovers w t e (bind_throw f (λ _. pure completed) w t e h)
    ∙ recovers_lem e t
