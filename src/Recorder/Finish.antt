-- ===== src/Recorder/Finish.antt =====
-- `flush`, `captureWorkspacePatch` and `finalize` of src/artifacts/runtime-recorder.ts.
use downshift.Base.{
  ℕ, ◌+◌, ◌-◌, String, Bool, true, false, ◌&&◌, Option, none, some, List, [], ◌∷◌, ◌++◌, Result, ok,
  err, if◌then◌else◌, is_none,
}
use downshift.Base.Number.{Number}
use downshift.Config.{ByRole, Rates}
use downshift.Decision.{Tier, weak, strong, SessionMode, strong_only}
use downshift.Usage.{UsageRole, summaries, summary_for_roles}
use downshift.Usage.Cost.{RoleCost, calculate_role_cost}
use downshift.Runs.{error, ExecutionStatus, completed, RunResult}
use downshift.Runs.Store.{drain, append_event, write_patch}
use downshift.Runs.Store.Finalize.{FinalizeInput, finalize_attempt}
use downshift.Routing.{LimitError}
use downshift.Recorder.{
  RecorderError, store, write_failed, git_failed, Failure, failed, Setup, Recorder,
  limit_failure_of, or_set, error_status, untagged, Step,
}

-- What `finalize` is called with: nothing, the error of a limit, or another error.
pub data FinalError : Type 0 where
  no_error : FinalError
  limit_error : LimitError → FinalError
  other_error : (message : String) → FinalError

abbrev pub tier_cost : {A : Type 0} → ByRole A → Tier → A
tier_cost roles weak = roles.weak
tier_cost roles strong = roles.strong

abbrev tier_of_mode : SessionMode → Tier
tier_of_mode strong_only = strong
tier_of_mode _ = weak

-- A status or category of the failures, with the first one before the other.
abbrev pub status_of : Option Failure → Option Failure → ExecutionStatus
status_of (some f) last = f.status
status_of none (some f) = f.status
status_of none none = completed

abbrev category_of : Option Failure → Option Failure → Option String
category_of (some f) last = some f.category
category_of none (some f) = some f.category
category_of none none = none

abbrev or_zero : Option ℕ → ℕ
or_zero none = 0
or_zero (some n) = n

module _ {F P : Type 0} where
  -- The time of the agent's run, if it is running, is added up.
  unfoldable pub settle_agent : ℕ → Recorder F P → Recorder F P
  settle_agent ms r = elim r.agent_started_at [
    | none ↦ r
    | some start ↦ record r {
      agent_duration_ms = some (or_zero r.agent_duration_ms + (ms - start));
      agent_started_at = none;
    }
  ]

  -- The pending writes are awaited; a failed one is thrown.
  unfoldable pub flush : Recorder F P → Step F P
  flush r =
      let s = record r { store = drain r.store } in
      if r.write_error then (s, err write_failed) else (s, ok tt)

module _ {F P : Type 0} (num : Number F) (setup : Setup F P) where
  open num use {zero_f, add, same}

  -- `referencePricing`: a model without any price has no reference.
  reference_pricing : Rates F → Option (Rates F)
  reference_pricing rates =
      let free : Option F → Bool = λ p. elim p [ none ↦ false | some x ↦ same x zero_f ] in
      if same rates.input_per_million zero_f
        && (same rates.output_per_million zero_f
            && (free rates.cache_read_per_million && free rates.cache_write_per_million))
      then none
      else some rates

  keep_patch : String → Recorder F P → Step F P
  keep_patch patch r =
      let (after, w) = write_patch setup.codec r.store patch in
      elim w [
        | err e ↦ (record r { store = after }, err (store e))
        | ok u ↦ (record r { store = after; patch_captured = true }, ok tt)
      ]

  -- `diff` is what git printed, or nothing if the project is not a worktree; git may fail otherwise.
  capture_diff : Result (Unit {0}) (Option String) → Recorder F P → Step F P
  unfolding keep_patch
  capture_diff (err e) r = (r, err git_failed)
  capture_diff (ok none) r = (r, ok tt)
  capture_diff (ok (some diff)) r = keep_patch diff r

  unfoldable pub capture_workspace_patch :
      Result (Unit {0}) (Option String) → Recorder F P → Step F P
  unfolding capture_diff
  capture_workspace_patch diff r =
      if is_none r.finalized_result then capture_diff diff r else (r, ok tt)

  -- The failure is noted, and its event appended.
  note : String → String → Recorder F P → Step F P
  note message now r =
      let failure = error_status setup false message in
      let (after, w) =
        append_event setup.codec r.store error (setup.payload (failed failure.category message))
          (untagged now) in
      let s = record r { last_error = some failure; store = after } in
      elim w [ err e ↦ (s, err (store e)) | ok u ↦ (s, ok tt) ]

  unfoldable pub note_error : FinalError → String → Recorder F P → Step F P
  unfolding note
  note_error no_error now r = (r, ok tt)
  note_error (limit_error l) now r =
      note l.message now
        (record r { limit_failure = or_set r.limit_failure (limit_failure_of l.status) })
  note_error (other_error message) now r = note message now r

  abbrev sum_known : Option F → Option F → Option F
  sum_known none b = none
  sum_known (some a) none = none
  sum_known (some a) (some b) = some (add a b)

  abbrev tier : Recorder F P → Tier
  tier r = elim r.decision [ none ↦ tier_of_mode setup.mode | some d ↦ d.selected_tier ]

  classifier_cost : Recorder F P → RoleCost F
  unfolding reference_pricing
  classifier_cost r =
      calculate_role_cost num setup.config.models.classifier (summaries r.usage).classifier
        (reference_pricing setup.model_costs.classifier)

  coding_cost : Recorder F P → RoleCost F
  unfolding reference_pricing
  coding_cost r =
      calculate_role_cost num (tier_cost setup.config.models (tier r))
        (summary_for_roles r.usage (UsageRole.coding ∷ UsageRole.compaction ∷ []))
        (reference_pricing (tier_cost setup.model_costs (tier r)))

  abbrev missing_of : Recorder F P → List String
  missing_of r =
      (if is_none r.served_model
        then "no completed coding model response was observed" ∷ []
        else [])
      ++ (if r.patch_captured
          then []
          else "workspace patch was unavailable because the project is not a Git worktree" ∷ [])

  unfoldable pub input_of : Recorder F P → Option String → FinalizeInput F
  unfolding classifier_cost coding_cost
  input_of r ended_at =
      let c = classifier_cost r in
      let k = coding_cost r in
      record {
        execution_status = status_of r.limit_failure r.last_error;
        ended_at = ended_at;
        error_category = category_of r.limit_failure r.last_error;
        decision = r.decision;
        decision_observation = r.decision_observation;
        served_model = r.served_model;
        routing_duration_ms = r.routing_duration_ms;
        agent_duration_ms = r.agent_duration_ms;
        usage = summaries r.usage;
        costs = record {
          classifier = c;
          coding = k;
          total_estimated_cost_usd = sum_known c.estimated_cost_usd k.estimated_cost_usd;
          total_reference_cost_usd = sum_known c.reference_cost_usd k.reference_cost_usd;
        };
        missing_reasons = missing_of r;
      }

  unfoldable pub close : String → Recorder F P → Recorder F P × Result RecorderError (RunResult F)
  close now r =
      let (after, w) = finalize_attempt setup.codec r.store (input_of r (some now)) now in
      elim w [
        | err e ↦ (record r { store = after }, err (store e))
        | ok result ↦ (record r { store = after; finalized_result = some result }, ok result)
      ]

  abbrev pub after_step :
      Step F P
      → (Recorder F P → Recorder F P × Result RecorderError (RunResult F))
      → Recorder F P × Result RecorderError (RunResult F)
  after_step (r, err e) next = (r, err e)
  after_step (r, ok u) next = next r

  -- `finalize`, on the result that there is already.
  unfoldable pub finalize_over :
      Option (RunResult F)
      → FinalError
      → String
      → ℕ
      → Recorder F P
      → Recorder F P × Result RecorderError (RunResult F)
  finalize_over (some result) e now ms r = (r, ok result)
  finalize_over none e now ms r =
      after_step (note_error e now (settle_agent ms r)) λ s. after_step (flush s) λ t. close now t

  unfoldable pub finalize :
      FinalError → String → ℕ → Recorder F P → Recorder F P × Result RecorderError (RunResult F)
  finalize e now ms r = finalize_over r.finalized_result e now ms r
