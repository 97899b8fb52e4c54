-- ===== src/Experiment/Dispatch.antt =====
-- `jobAt`, `experimentSpend` and `nextEvaluationAction` of src/evaluation/smoke.ts: what an experiment
-- does next, read off the directories of its attempts.
pub mod Due
pub mod Loop
pub mod Next
use downshift.Base.{
  ℕ, zero, suc, ◌+◌, ◌-◌, String, Bool, true, false, not, ◌&&◌, ◌||◌, Option, none, some, List, [],
  ◌∷◌, Result, ok, err, ◌>>=◌, ◌>>◌, throw_if, or_throw, rethrow, ltb, ◌==◌, if◌then◌else◌, is_some,
  is_none, get_elem?, find, str_eq,
}
use downshift.Base.Number.{Number}
use downshift.Config.{LabConfig}
use downshift.Decision.{SessionMode, weak_only, strong_only, routed}
use downshift.Runs.{RunResult, ExecutionStatus, completed, CheckStatus, not_run}
use downshift.Runs.Outcome.{TrialOutcome, classify_trial_outcome, is_check}
use downshift.Runs.Store.{Disk, Codec}
use downshift.Runs.Store.Reading.{ReadError, read_attempt}
use downshift.Experiment.{Trial, ManifestTask, Manifest}
use downshift.Experiment.Budget.{LimitReason, conservative_trial_cost_bound}

-- The directory of an attempt: what `readAttempt` finds there, and whether it has a submission.json.
pub record AttemptDirectory (F P : Type 0) : Type 0 where
  pub disk : Disk F P
  pub torn : Bool
  pub has_submission : Bool

pub data DispatchError : Type 0 where
  index_outside attempt_outside : ℕ → DispatchError
  task_absent identity_mismatch budget_exhausted attempts_exhausted : String → DispatchError
  unreadable : ReadError → DispatchError
  usage_unknown : DispatchError
  bound_unavailable : LimitReason → DispatchError

-- The attempt's ID is that of `trial`, which stands for the scheduled trial with this attempt's ID.
pub record Job : Type 0 where
  pub trial : Trial
  pub task : ManifestTask
  pub attempt_index : ℕ
  pub previous_attempt_id : Option String

pub data Action : Type 0 where
  run validate : Job → Action
  done : Action

-- A missing element and an empty text are both falsy.
abbrev truthy : Option String → Option String
truthy none = none
truthy (some s) = if str_eq s "" then none else some s

abbrev previous : List String → ℕ → Option String
previous ids zero = none
previous ids (suc n) = get_elem? ids n

abbrev is_text : Option String → String → Bool
is_text none s = false
is_text (some t) s = str_eq t s

abbrev is_number : Option ℕ → ℕ → Bool
is_number none n = false
is_number (some k) n = k == n

abbrev pub same_mode : SessionMode → SessionMode → Bool
same_mode weak_only weak_only = true
same_mode strong_only strong_only = true
same_mode routed routed = true
same_mode _ _ = false

module _ {F : Type 0} where
  job_of : Manifest F → Trial → ℕ → Result DispatchError Job
  job_of m trial attempt_index = do
    id ←
        or_throw (truthy (get_elem? trial.attempt_ids attempt_index))
          (attempt_outside attempt_index)
    task ← or_throw (find (λ t. str_eq t.id trial.task_id) m.tasks) (task_absent trial.task_id)
    ok (record {
      trial = record trial { attempt_id = id };
      task = task;
      attempt_index = attempt_index;
      previous_attempt_id = previous trial.attempt_ids attempt_index;
    })

  pub job_at : Manifest F → ℕ → ℕ → Result DispatchError Job
  unfolding job_of
  job_at m index attempt_index = do
    trial ← or_throw (get_elem? m.schedule index) (index_outside index)
    job_of m trial attempt_index

  -- The result belongs to the trial and its attempt.
  unfoldable pub identity_matches : Manifest F → Trial → RunResult F → Bool
  identity_matches m trial r =
      str_eq r.identity.attempt_id trial.attempt_id
      && (is_text r.identity.experiment_id m.experiment_id
          && (is_text r.identity.task_id trial.task_id
              && (is_number r.identity.repetition trial.repetition && same_mode r.mode trial.mode)))

abbrev pub is_evaluated : TrialOutcome → Bool
is_evaluated TrialOutcome.pass = true
is_evaluated TrialOutcome.fail = true
is_evaluated _ = false

abbrev is_completed : ExecutionStatus → Bool
is_completed completed = true
is_completed _ = false

-- What is known of an attempt's job: the experiment acts on it, its trial is settled, or the trial's next
-- attempt is looked at.
pub data Turn : Type 0 where
  act : Action → Turn
  settled next : Turn

-- The sum of the costs, and whether every cost is known.
pub record Spend (F : Type 0) : Type 0 where
  pub known : Bool
  pub total : F

module _ {F P : Type 0} (num : Number F) (codec : Codec F P)
    (attempts : String → Option (AttemptDirectory F P)) where
  open num use {zero_f, add, lt}

  abbrev pub result_in : AttemptDirectory F P → Result DispatchError (Option (RunResult F))
  result_in dir = rethrow unreadable (read_attempt codec dir.disk dir.torn) >>= λ a. ok a.result

  abbrev cost_or_zero : Option F → F
  cost_or_zero none = zero_f
  cost_or_zero (some c) = c

  -- A trial's attempts, up to the first that has no directory.
  spend_attempts : List String → F → Result DispatchError (Spend F)
  spend_attempts [] total = ok (record { known = true; total = total })
  spend_attempts (id ∷ ids) total = elim (attempts id) [
    | none ↦ ok (record { known = true; total = total })
    | some dir ↦ result_in dir >>= λ r. elim r [
      | none ↦ ok (record { known = false; total = total })
      | some result ↦
          let cost = result.costs.total_estimated_cost_usd in
          let rest = spend_attempts ids (add total (cost_or_zero cost)) in
          if is_none cost && ltb 0 result.usage.total.observed_calls
          then ok (record { known = false; total = total })
          else rest
    ]
  ]

  spend_trials : List Trial → F → Result DispatchError (Spend F)
  unfolding spend_attempts
  spend_trials [] total = ok (record { known = true; total = total })
  spend_trials (t ∷ ts) total = spend_attempts t.attempt_ids total >>= λ s.
      let rest = spend_trials ts s.total in if s.known then rest else ok s

  pub experiment_spend : Manifest F → Result DispatchError (Spend F)
  unfolding spend_trials
  experiment_spend m = spend_trials m.schedule zero_f

  pub reserve : Manifest F → Spend F → Job → Result DispatchError (Unit {0})
  reserve m spend job = elim m.max_cost_usd [
    | none ↦ ok tt
    | some cap ↦
        rethrow bound_unavailable (conservative_trial_cost_bound num m.configuration job.trial.mode)
        >>= λ bound. throw_if (lt cap (add spend.total bound)) (budget_exhausted job.trial.trial_id)
  ]

  visit_result : Manifest F → Job → Bool → RunResult F → Result DispatchError Turn
  unfolding identity_matches
  visit_result m job has_submission r =
      if not (identity_matches m job.trial r)
      then err (identity_mismatch job.trial.attempt_id)
      else if is_evaluated (classify_trial_outcome r)
      then ok settled
      else if is_completed r.execution.status
          && is_check r.validation.status not_run
          && has_submission
      then ok (act (validate job))
      else ok next

  -- The body of the loop over a trial's attempts.
  pub visit : Manifest F → Spend F → Job → Result DispatchError Turn
  unfolding reserve visit_result
  visit m spend job = elim (attempts job.trial.attempt_id) [
    | none ↦ reserve m spend job >>= λ _. ok (act (run job))
    | some dir ↦ result_in dir >>= λ r. elim r [
      | none ↦ ok next
      | some result ↦ visit_result m job dir.has_submission result
    ]
  ]

  -- The loop over a trial's attempts; it ends with `next` where no attempt is left.
  pub try_attempts : Manifest F → Spend F → ℕ → ℕ → List String → Result DispatchError Turn
  unfolding visit job_at
  try_attempts m spend trial_index attempt_index [] = ok next
  try_attempts m spend trial_index attempt_index (id ∷ ids) = do
    job ← job_at m trial_index attempt_index
    turn ← visit m spend job
    elim turn [
      | next ↦ try_attempts m spend trial_index (suc attempt_index) ids
      | settled ↦ ok settled
      | act a ↦ ok (act a)
    ]

  try_trials : Manifest F → Spend F → ℕ → List Trial → Result DispatchError Action
  unfolding try_attempts
  try_trials m spend trial_index [] = ok done
  try_trials m spend trial_index (t ∷ ts) = do
    turn ← try_attempts m spend trial_index 0 t.attempt_ids
    elim turn [
      | act a ↦ ok a
      | settled ↦ try_trials m spend (suc trial_index) ts
      | next ↦ err (attempts_exhausted t.trial_id)
    ]

  unfoldable pub next_evaluation_action : Manifest F → Result DispatchError Action
  unfolding experiment_spend try_trials
  next_evaluation_action m = do
    spend ← experiment_spend m
    throw_if (is_some m.max_cost_usd && not spend.known) usage_unknown
    try_trials m spend 0 m.schedule
