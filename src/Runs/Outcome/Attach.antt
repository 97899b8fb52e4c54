-- ===== src/Runs/Outcome/Attach.antt =====
-- A validation result that the validator produces can be attached, once, and decides the outcome.
use downshift.Base.{
  ℕ, ◌≡◌, ◌≢◌, ◌↔◌, refl, ◌⊎◌, inl, String, true, Option, none, some, List, [], ◌∷◌, ◌++◌, map, ok,
  arith, is_some,
}
use downshift.Decision.{RoutingDecision}
use downshift.Runs.{
  ExecutionStatus, cancelled, CheckStatus, not_run, ValidationCheckResult, Validation, RunResult,
}
use downshift.Runs.Outcome.{
  aggregate_status, Schemas, validate_run_result, CheckRun, check_result, SubmissionStatus,
  accepted, rejected, check_validation, check_decision, validate_submission,
}

-- A validation that passes the consistency check of `validateRunResult`: it has not run, and has
-- neither checks nor a duration; or it has both, and its status is what its checks amount to.
abbrev pub IsConsistent : CheckStatus → List ValidationCheckResult → Option ℕ → Type 0
IsConsistent status checks duration =
    ((status ≡ not_run) × (checks ≡ []) × (duration ≡ none))
    ⊎ ((checks ≢ []) × (status ≡ aggregate_status checks) × (is_some duration ≡ true))

results-ne-nil :
    (publics : List CheckRun) (h : CheckRun) (hidden : List CheckRun)
    → map check_result (publics ++ h ∷ hidden) ≢ []
results-ne-nil [] h hidden e = cc
results-ne-nil (p ∷ ps) h hidden e = cc

pub validate_submission-IsConsistent :
    (s : SubmissionStatus) (violations : List String) (e : ExecutionStatus)
    (publics : List CheckRun) (h : CheckRun) (hidden : List CheckRun) (elapsed : ℕ)
    → let v = validate_submission s violations e publics (h ∷ hidden) elapsed in
      IsConsistent v.status v.checks v.duration_ms
unfolding validate_submission
validate_submission-IsConsistent s violations cancelled publics h hidden elapsed =
    inl (refl, refl, refl)
validate_submission-IsConsistent rejected violations e publics h hidden elapsed = ground arith
validate_submission-IsConsistent accepted violations e publics h hidden elapsed =
    ground (arith, results-ne-nil publics h hidden)

check_validation_iff :
    (v : Validation) (d : Option ℕ)
    → (check_validation v d ≡ ok tt) ↔ IsConsistent v.status v.checks d
unfolding check_validation
check_validation_iff v d = (λ h. ground arith, λ h. ground arith)

module _ {F : Type 0} (schemas : Schemas F) where
  abbrev pub DecisionOk : Option (RoutingDecision F) → Type 0
  DecisionOk none = Unit
  DecisionOk (some d) = schemas.decision_ok d ≡ true

  check_decision_iff :
      (d : Option (RoutingDecision F)) → (check_decision schemas d ≡ ok tt) ↔ DecisionOk d
  unfolding check_decision
  check_decision_iff none = (λ _. tt, λ _. refl)
  check_decision_iff (some d) = (λ h. ground arith, λ h. ground arith)

  -- `validateRunResult` accepts a result exactly when the two schemas accept it and its decision, and its
  -- validation is consistent; it returns what it was given.
  pub validate_run_result_iff :
      (r r' : RunResult F)
      → (validate_run_result schemas r ≡ ok r') ↔ (
          (r' ≡ r)
          × (schemas.result_ok r ≡ true)
          × DecisionOk r.decision
          × IsConsistent r.validation.status r.validation.checks r.durations_ms.validation)
  unfolding validate_run_result
  validate_run_result_iff r r' = (
    λ h. ground (
      arith,
      check_validation_iff r.validation r.durations_ms.validation,
      check_decision_iff r.decision,
    ),
    λ h. ground (
      arith,
      check_validation_iff r.validation r.durations_ms.validation,
      check_decision_iff r.decision,
    ),
  )
