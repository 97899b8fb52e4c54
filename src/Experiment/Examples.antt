-- ===== src/Experiment/Examples.antt =====
-- Schedules and experiments at which the theorems on them apply.
use downshift.Base.{
  ℕ, ◌≡◌, ◌↔◌, refl, ◌≤◌, String, true, false, Option, none, some, List, [], ◌∷◌, Result, ok, err,
  count, str_eq, if◌then◌else◌,
}
use downshift.Base.Number.{natural_numbers}
use downshift.Decision.{routed}
use downshift.Runs.Store.Reading.{read_attempt}
use downshift.Experiment.{Trial}
use downshift.Experiment.Samples.{trial, task, manifest, codec}
use downshift.Experiment.Exit.{
  ModeResult, SmokeReport, AllPassed, validate_smoke_report, smoke_exit_code, smoke_exit_code_zero,
}
use downshift.Experiment.Schedule.{evaluation_schedule}
use downshift.Experiment.Schedule.Plan.{
  Test, planned, on, IsPlaced, evaluation_schedule_complete, evaluation_schedule-IsPlaced,
}
use downshift.Experiment.Dispatch.{AttemptDirectory, Job, run, next_evaluation_action}
use downshift.Experiment.Dispatch.Due.{IsDue}
use downshift.Experiment.Dispatch.Next.{next_evaluation_action-IsDue}

abbrev tasks : List String
tasks = "02-create-validation" ∷ "01-null-summary" ∷ []

abbrev scheduled : {E : Type 0} → Result E (List Trial) → List Trial
scheduled (ok ts) = ts
scheduled (err e) = []

abbrev schedule : List Trial
schedule = scheduled (evaluation_schedule tasks 20260905 2)

schedule_made : evaluation_schedule tasks 20260905 2 ≡ ok schedule
unfolding evaluation_schedule
schedule_made = refl

abbrev is_routed : Test
is_routed t repetition routed = str_eq t "01-null-summary"
is_routed t repetition _ = false

evaluation_schedule_complete_example :
    (count (on is_routed) schedule ≡ planned is_routed tasks 2) × (1 ≤ 2) × (2 ≤ 100)
evaluation_schedule_complete_example =
    evaluation_schedule_complete tasks 20260905 2 {schedule = schedule} is_routed schedule_made

evaluation_schedule-IsPlaced_example : IsPlaced 0 schedule
evaluation_schedule-IsPlaced_example =
    evaluation_schedule-IsPlaced tasks 20260905 2 {schedule = schedule} schedule_made

-- The first attempt was interrupted before its result was written.
abbrev interrupted : AttemptDirectory ℕ String
interrupted = record {
  disk = record { events = []; patch = ""; result = none };
  torn = true;
  has_submission = false;
}

abbrev attempts : String → Option (AttemptDirectory ℕ String)
attempts id = if str_eq id "t-a1" then some interrupted else none

abbrev second : Job
second = record {
  trial = record trial { attempt_id = "t-a2" };
  task = task;
  attempt_index = 1;
  previous_attempt_id = some "t-a1";
}

next_evaluation_action-IsDue_example : IsDue natural_numbers codec attempts manifest (run second)
unfolding next_evaluation_action read_attempt
next_evaluation_action-IsDue_example =
    next_evaluation_action-IsDue natural_numbers codec attempts manifest (run second) refl

abbrev passed_mode : ModeResult
passed_mode = record { planned = 3; pass = 3; fail = 0; unavailable = 0; incomplete = 0 }

abbrev report : SmokeReport
report = record {
  planned = 9;
  evaluated = 9;
  missing = 0;
  weak_only = passed_mode;
  strong_only = passed_mode;
  routed = passed_mode;
}

smoke_exit_code_zero_example : (smoke_exit_code report ≡ 0) ↔ (
    (report.evaluated ≡ report.planned)
    × AllPassed passed_mode
    × AllPassed passed_mode
    × AllPassed passed_mode)
unfolding validate_smoke_report
smoke_exit_code_zero_example = smoke_exit_code_zero (λ _. true) report report refl
