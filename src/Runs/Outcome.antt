-- ===== src/Runs/Outcome.antt =====
-- Run results: their consistency check, the independent validation of a submission, how a validation
-- is attached to a result, and the outcome of a trial.
-- src/artifacts/run-artifacts.ts (validateRunResult, attachValidationResult, classifyTrialOutcome) and
-- src/evaluation/validator.ts (the end of runCheck, validateSubmission).
pub mod Attach
pub mod Trial
use downshift.Base.{
  ℕ, ◌+◌, String, Bool, true, false, not, ◌&&◌, ◌||◌, Option, none, some, List, [], ◌∷◌, ◌++◌, map,
  Result, ok, err, ◌>>=◌, ◌>>◌, throw_if, ltb, ◌==◌, if◌then◌else◌, is_none, is_some, length,
  filter, any, all, str_eq, str_append,
}
use downshift.Decision.{RoutingDecision}
use downshift.Runs.{
  ExecutionStatus, completed, timeout, cancelled, budget_exhausted, CheckStatus, error, not_run,
  ValidationCheckResult, Validation, RunResult, IndependentValidationResult,
}

pub data TrialOutcome : Type 0 where
  pass fail unavailable incomplete : TrialOutcome

abbrev outcome_of_check : CheckStatus → TrialOutcome
outcome_of_check not_run = incomplete
outcome_of_check error = unavailable
outcome_of_check CheckStatus.pass = TrialOutcome.pass
outcome_of_check CheckStatus.fail = TrialOutcome.fail

abbrev outcome_of : ExecutionStatus → CheckStatus → TrialOutcome
outcome_of cancelled v = incomplete
outcome_of timeout v = TrialOutcome.fail
outcome_of budget_exhausted v = TrialOutcome.fail
outcome_of completed v = outcome_of_check v
outcome_of _ v = unavailable

unfoldable pub classify_trial_outcome : {F : Type 0} → RunResult F → TrialOutcome
classify_trial_outcome r = outcome_of r.execution.status r.validation.status

abbrev pub is_check : CheckStatus → CheckStatus → Bool
is_check CheckStatus.pass CheckStatus.pass = true
is_check CheckStatus.fail CheckStatus.fail = true
is_check error error = true
is_check not_run not_run = true
is_check _ _ = false

-- The status that a list of checks amounts to, in `validateRunResult` and in `validateSubmission`.
abbrev pub aggregate_status : List ValidationCheckResult → CheckStatus
aggregate_status checks =
    if any (λ c. is_check c.status error) checks
    then error
    else if all (λ c. is_check c.status CheckStatus.pass) checks
    then CheckStatus.pass
    else CheckStatus.fail

pub data ResultError : Type 0 where
  invalid_shape invalid_decision not_run_with_checks validation_without_checks : ResultError
  wrong_aggregate_status : CheckStatus → ResultError
  incomplete_attempt already_attached cancelled_must_not_run : ResultError

-- The two compiled Ajv schemas that a run result is held to.
pub record Schemas (F : Type 0) : Type 0 where
  pub result_ok : RunResult F → Bool
  pub decision_ok : RoutingDecision F → Bool

check_validation : Validation → Option ℕ → Result ResultError (Unit {0})
check_validation v duration =
    if is_check v.status not_run
    then throw_if (not (length v.checks == 0) || is_some duration) not_run_with_checks
    else if length v.checks == 0 || is_none duration
    then err validation_without_checks
    else throw_if (not (is_check v.status (aggregate_status v.checks)))
        (wrong_aggregate_status (aggregate_status v.checks))

-- The reasons that no longer hold once a validation is attached.
is_pending_reason : String → Bool
is_pending_reason s =
    str_eq s "independent validation has not run for this interactive session"
    || str_eq s "independent validation has not run through the Phase 07 evaluator"
    || str_eq s "independent validation is not available until Phase 07"

abbrev is_cancelled : ExecutionStatus → Bool
is_cancelled cancelled = true
is_cancelled _ = false

module _ {F : Type 0} where
  pub attached : RunResult F → IndependentValidationResult → RunResult F
  unfolding is_pending_reason
  attached r v = record r {
    validation = record { status = v.status; checks = v.checks };
    durations_ms = record (r.durations_ms) { validation = v.duration_ms };
    missing_reasons = filter (λ s. not (is_pending_reason s)) r.missing_reasons;
  }

  module _ (schemas : Schemas F) where
    check_decision : Option (RoutingDecision F) → Result ResultError (Unit {0})
    check_decision none = ok tt
    check_decision (some d) = throw_if (not (schemas.decision_ok d)) invalid_decision

    unfoldable pub validate_run_result : RunResult F → Result ResultError (RunResult F)
    unfolding check_validation check_decision
    validate_run_result r = do
      throw_if (not (schemas.result_ok r)) invalid_shape
      check_validation r.validation r.durations_ms.validation
      check_decision r.decision
      ok r

    attach_to : RunResult F → IndependentValidationResult → Result ResultError (RunResult F)
    attach_to r v = do
      throw_if (not (is_check r.validation.status not_run)) already_attached
      throw_if (is_cancelled r.execution.status && not (is_check v.status not_run))
          cancelled_must_not_run
      validate_run_result (attached r v)

    -- The attempt's result is `none` unless the attempt is finalized. What is returned is also what
    -- is written back to `run.json`.
    pub attach_validation_result :
        Option (RunResult F) → IndependentValidationResult → Result ResultError (RunResult F)
    unfolding attach_to
    attach_validation_result none v = err incomplete_attempt
    attach_validation_result (some r) v = attach_to r v

-- How a check's process ended.
pub record CheckExit : Type 0 where
  pub output_exceeded : Bool
  pub timed_out : Bool
  pub code : Option ℕ
  pub signal : Option String
  pub node_test : Bool
  -- The trusted reporter's completion record says that all assertions completed.
  pub confirmed : Bool

abbrev signal_reason : Option String → Option String
signal_reason none = none
signal_reason (some s) = some (str_append "terminated by " s)

abbrev is_zero : Option ℕ → Bool
is_zero none = false
is_zero (some n) = n == 0

-- The `close` handler of `runCheck`: the check's status, exit code and reason.
pub close_status : CheckExit → CheckStatus × Option ℕ × Option String
close_status e =
    if e.output_exceeded
    then (CheckStatus.fail, none, some "validation output limit exceeded")
    else if e.timed_out
    then (CheckStatus.fail, none, some "validation timeout")
    else if is_zero e.code
    then (if not e.node_test || e.confirmed then (CheckStatus.pass, some 0, none) else (
      CheckStatus.fail,
      some 0,
      some "trusted test runner did not confirm completed assertions",
    ))
    else (CheckStatus.fail, e.code, signal_reason e.signal)

-- What settles `runCheck` first: the error of a process that could not be started or stopped, or the
-- process's end.
pub data CheckEnd : Type 0 where
  failed : String → CheckEnd
  closed : CheckExit → CheckEnd

pub end_status : CheckEnd → CheckStatus × Option ℕ × Option String
unfolding close_status
end_status (failed message) = (error, none, some message)
end_status (closed e) = close_status e

pub data SubmissionStatus : Type 0 where
  accepted rejected : SubmissionStatus

-- `violations.join("; ")`
abbrev join : List String → String
join [] = ""
join (s ∷ []) = s
join (s ∷ t ∷ rest) = str_append s (str_append "; " (join (t ∷ rest)))

-- What the validator does outside the program: it runs a check's command in a fresh workspace. The
-- name is the check's, and the answer is how it ended and after how long.
pub record CheckRun : Type 0 where
  pub name : String
  pub ending : CheckEnd
  pub duration_ms : ℕ

-- The result that `runCheck` resolves to.
abbrev pub check_result : CheckRun → ValidationCheckResult
check_result r =
    let (status, code, reason) = end_status r.ending in
    record {
      name = r.name;
      status = status;
      exit_code = code;
      duration_ms = r.duration_ms;
      stdout_artifact = some (str_append r.name ".stdout.txt");
      stderr_artifact = some (str_append r.name ".stderr.txt");
      reason = reason;
    }

policy_check : List String → ValidationCheckResult
policy_check violations = record {
  name = "submission-policy";
  status = CheckStatus.fail;
  exit_code = none;
  duration_ms = 0;
  stdout_artifact = none;
  stderr_artifact = none;
  reason = some (join violations);
}

-- `validateSubmission`, with the public and the hidden checks as they ran and the time that it took.
pub validate_submission :
    SubmissionStatus
    → List String
    → ExecutionStatus
    → List CheckRun
    → List CheckRun
    → ℕ
    → IndependentValidationResult
unfolding policy_check
validate_submission submission violations cancelled public_checks hidden_checks elapsed = record {
  status = not_run;
  checks = [];
  duration_ms = none;
}
validate_submission rejected violations _ public_checks hidden_checks elapsed = record {
  status = CheckStatus.fail;
  checks = policy_check violations ∷ [];
  duration_ms = some elapsed;
}
validate_submission accepted violations _ public_checks hidden_checks elapsed =
    let results = map check_result (public_checks ++ hidden_checks) in
    record { status = aggregate_status results; checks = results; duration_ms = some elapsed }
