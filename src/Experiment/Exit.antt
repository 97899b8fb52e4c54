-- ===== src/Experiment/Exit.antt =====
-- `validateSmokeReport` and `smokeExitCode` of src/evaluation/smoke.ts. The report's schema is a test.
use downshift.Base.{
  ℕ, ◌+◌, ◌≤◌, ◌≡◌, ◌↔◌, Bool, not, ◌||◌, List, [], ◌∷◌, Result, ok, ◌>>◌, throw_if, if◌then◌else◌,
  ltb, ◌==◌, any, arith,
}

pub record ModeResult : Type 0 where
  pub planned : ℕ
  pub pass : ℕ
  pub fail : ℕ
  pub unavailable : ℕ
  pub incomplete : ℕ

-- `SmokeReport`, as far as it is checked.
pub record SmokeReport : Type 0 where
  pub planned : ℕ
  pub evaluated : ℕ
  pub missing : ℕ
  pub weak_only : ModeResult
  pub strong_only : ModeResult
  pub routed : ModeResult

pub data SmokeReportError : Type 0 where
  invalid_shape planned_mismatch counts_exceed_plan : SmokeReportError

abbrev mode_results : SmokeReport → List ModeResult
mode_results r = r.weak_only ∷ r.strong_only ∷ r.routed ∷ []

abbrev exceeds_plan : ModeResult → Bool
exceeds_plan m = ltb m.planned (m.pass + m.fail + m.unavailable + m.incomplete)

unfoldable pub validate_smoke_report :
    (SmokeReport → Bool) → SmokeReport → Result SmokeReportError SmokeReport
validate_smoke_report shape_ok r = do
  throw_if (not (shape_ok r)) invalid_shape
  throw_if (not (r.planned == r.evaluated + r.missing)) planned_mismatch
  throw_if (any exceeds_plan (mode_results r)) counts_exceed_plan
  ok r

pub smoke_exit_code : SmokeReport → ℕ
smoke_exit_code r =
    if ltb 0 r.missing || any (λ m. ltb 0 (m.unavailable + m.incomplete)) (mode_results r)
    then 3
    else if any (λ m. ltb 0 m.fail) (mode_results r)
    then 1
    else 0

-- A mode of which every evaluated trial passed, and no trial was left without a verdict.
pub record AllPassed (m : ModeResult) : Type 0 where
  pub no_fail : m.fail ≡ 0
  pub no_unavailable : m.unavailable ≡ 0
  pub no_incomplete : m.incomplete ≡ 0
  pub within_plan : m.pass ≤ m.planned

-- For a report that `validateSmokeReport` accepts, the exit code is 0 exactly if every planned trial was
-- evaluated and, in each of the three modes, none failed, was unavailable or was incomplete, and at
-- most the planned trials passed.
pub smoke_exit_code_zero :
    (shape_ok : SmokeReport → Bool) (r accepted : SmokeReport)
    → validate_smoke_report shape_ok r ≡ ok accepted
    → (smoke_exit_code accepted ≡ 0) ↔ (
        (accepted.evaluated ≡ accepted.planned)
        × AllPassed accepted.weak_only
        × AllPassed accepted.strong_only
        × AllPassed accepted.routed)
unfolding validate_smoke_report smoke_exit_code
smoke_exit_code_zero shape_ok r accepted h = (λ e. ground arith, λ k. ground arith)
