-- ===== src/Runs/Outcome/Trial.antt =====
-- The outcome of a trial whose submission was validated.
use downshift.Base.{
  ◌⊎◌, inl, inr, ℕ, ◌≡◌, ◌≢◌, ◌↔◌, refl, ◌∙◌, String, true, false, some, List, [], ◌∷◌, ◌++◌, map,
  ok, err, arith, any, all, All,
}
use downshift.Runs.{
  ExecutionStatus, completed, cancelled, timeout, provider_error, auth_required, rate_limited,
  harness_error, budget_exhausted, CheckStatus, error, not_run, ValidationCheckResult, RunResult,
  IndependentValidationResult,
}
use downshift.Runs.Outcome.{
  TrialOutcome, classify_trial_outcome, aggregate_status, is_check, Schemas,
  attach_validation_result, attached, validate_run_result, CheckRun, check_result, end_status,
  SubmissionStatus, accepted, rejected, validate_submission, already_attached,
}
use downshift.Runs.Outcome.Attach.{
  DecisionOk, validate_run_result_iff, validate_submission-IsConsistent,
}

aggregate-ne-not_run : (checks : List ValidationCheckResult) → aggregate_status checks ≢ not_run
aggregate-ne-not_run checks h = ground arith

-- A check whose process was started and exited with 0, within its limits, and whose test runner confirmed the
-- assertions where it is a node test.
abbrev pub Passed : CheckRun → Type 0
Passed c = (end_status c.ending).0 ≡ CheckStatus.pass

no_errors :
    (cs : List CheckRun)
    → All Passed cs
    → any (λ c. is_check c.status error) (map check_result cs) ≡ false
no_errors [] h = refl
no_errors (c ∷ cs) h = ground (arith, no_errors cs h.1)

passes :
    (cs : List CheckRun)
    → (all (λ c. is_check c.status CheckStatus.pass) (map check_result cs) ≡ true) ↔ All Passed cs
passes [] = (λ _. tt, λ _. refl)
passes (c ∷ cs) = (λ h. ground (arith, (passes cs).0), λ h. ground (arith, (passes cs).1 h.1))

status_pass :
    (cs : List CheckRun)
    → (aggregate_status (map check_result cs) ≡ CheckStatus.pass) ↔ All Passed cs
status_pass cs =
    (λ h. (passes cs).0 (ground arith), λ h. ground (arith, no_errors cs h, (passes cs).1 h))

stopped_or_not : (e : ExecutionStatus) → (e ≡ cancelled) ⊎ (e ≢ cancelled)
stopped_or_not cancelled = inl refl
stopped_or_not completed = inr (λ p. cc)
stopped_or_not timeout = inr (λ p. cc)
stopped_or_not provider_error = inr (λ p. cc)
stopped_or_not auth_required = inr (λ p. cc)
stopped_or_not rate_limited = inr (λ p. cc)
stopped_or_not harness_error = inr (λ p. cc)
stopped_or_not budget_exhausted = inr (λ p. cc)

cancelled_not_run :
    (s : SubmissionStatus) (violations : List String) (e : ExecutionStatus)
    (publics hidden : List CheckRun) (elapsed : ℕ)
    → let v = validate_submission s violations e publics hidden elapsed in
      (e ≡ cancelled → v.status ≡ not_run) × (e ≢ cancelled → v.status ≢ not_run)
unfolding validate_submission
cancelled_not_run s violations cancelled publics hidden elapsed = (λ _. refl, λ n. absurd (n refl))
cancelled_not_run rejected violations e publics hidden elapsed = (λ p. cc, λ _ p. cc)
cancelled_not_run accepted violations e publics hidden elapsed =
    (λ p. cc, λ _. aggregate-ne-not_run (map check_result (publics ++ hidden)))

module _ {F : Type 0} (schemas : Schemas F) where
  attach_fresh :
      (r : RunResult F) (v : IndependentValidationResult)
      → r.validation.status ≡ not_run
      → (r.execution.status ≡ cancelled → v.status ≡ not_run)
      → attach_validation_result schemas (some r) v ≡ validate_run_result schemas (attached r v)
  unfolding attach_validation_result
  attach_fresh r v fresh stopped = ground arith

  attach_again :
      (r : RunResult F) (v w : IndependentValidationResult)
      → v.status ≢ not_run
      → attach_validation_result schemas (some (attached r v)) w ≡ err already_attached
  unfolding attach_validation_result attached
  attach_again r v w ran = ground arith

  -- A finalized result that has no validation yet takes the one that the validator makes of its
  -- submission, if the schemas accept the outcome; a result of an execution that was not cancelled
  -- then refuses every further validation.
  pub attach_once :
      (r : RunResult F) (s : SubmissionStatus) (violations : List String) (publics : List CheckRun)
      (h : CheckRun) (hidden : List CheckRun) (elapsed : ℕ) (w : IndependentValidationResult)
      → r.validation.status ≡ not_run
      → DecisionOk schemas r.decision
      → let v = validate_submission s violations r.execution.status publics (h ∷ hidden) elapsed in
        schemas.result_ok (attached r v) ≡ true
        → (attach_validation_result schemas (some r) v ≡ ok (attached r v))
          × ((r.execution.status ≡ cancelled)
              ⊎ (attach_validation_result schemas (some (attached r v)) w ≡ err already_attached))
  unfolding attached
  attach_once r s violations publics h hidden elapsed w fresh decided shape =
      let (stopped, ran) =
        cancelled_not_run s violations r.execution.status publics (h ∷ hidden) elapsed in
      (
        attach_fresh r _ fresh stopped
            ∙ (validate_run_result_iff schemas _ _).1 (
              refl,
              shape,
              decided,
              validate_submission-IsConsistent s violations r.execution.status publics h hidden
                  elapsed,
            ),
        elim (stopped_or_not r.execution.status) [
          | inl off ↦ inl off
          | inr live ↦ inr (attach_again r _ w (ran live))
        ],
      )

  attach-eq-attached :
      (r r' : RunResult F) (v : IndependentValidationResult)
      → attach_validation_result schemas (some r) v ≡ ok r'
      → r' ≡ attached r v
  unfolding attach_validation_result
  attach-eq-attached r r' v done =
      ((validate_run_result_iff schemas (attached r v) r').0 (ground arith)).0

  passes_by :
      (r : RunResult F) (s : SubmissionStatus) (violations : List String) (e : ExecutionStatus)
      (publics hidden : List CheckRun) (elapsed : ℕ)
      → r.execution.status ≡ e
      → (classify_trial_outcome
            (attached r (validate_submission s violations e publics hidden elapsed))
          ≡ TrialOutcome.pass)
        ↔ ((e ≡ completed) × (s ≡ accepted) × All Passed (publics ++ hidden))
  unfolding classify_trial_outcome attached validate_submission
  passes_by r accepted violations completed publics hidden elapsed same = (
    λ h. (refl, refl, (status_pass (publics ++ hidden)).0 (ground arith)),
    λ h. ground (arith, (status_pass (publics ++ hidden)).1 h.2),
  )
  passes_by r s violations e publics hidden elapsed same = (λ h. ground arith, λ h. ground arith)

  -- A trial passes exactly when its execution completed, its submission was accepted, and every public
  -- and hidden check passed.
  pub passes_iff :
      (r r' : RunResult F) (s : SubmissionStatus) (violations : List String)
      (publics hidden : List CheckRun) (elapsed : ℕ)
      → attach_validation_result schemas
          (some r)
          (validate_submission s violations r.execution.status publics hidden elapsed)
        ≡ ok r'
      → (classify_trial_outcome r' ≡ TrialOutcome.pass)
        ↔ ((r.execution.status ≡ completed) × (s ≡ accepted) × All Passed (publics ++ hidden))
  passes_iff r r' s violations publics hidden elapsed done =
      rw (attach-eq-attached r r' _ done)
        (passes_by r s violations r.execution.status publics hidden elapsed refl)
