-- ===== src/Analysis/Examples.antt =====
-- Trials at which the theorems on the analysis apply.
use downshift.Base.{ℕ, ◌≡◌, refl, true, none, some, List, [], ◌∷◌, arith, count, length, leb}
use downshift.Base.Number.{natural_numbers}
use downshift.Decision.{weak_only, strong_only, routed, SessionMode, Tier}
use downshift.Runs.Samples.{decision, routed_run}
use downshift.Runs.Outcome.{TrialOutcome}
use downshift.Analysis.{ResolvedTrial, Pairs, by_pair}
use downshift.Base.{String, Option, str_eq, if◌then◌else◌, false}
use downshift.Runs.{RunResult}
use downshift.Usage.{summaries, summarize}
use downshift.Runs.Samples.{identity, provenance}
use downshift.Runs.Outcome.{validate_run_result, classify_trial_outcome}
use downshift.Runs.Store.Reading.{read_attempt}
use downshift.Experiment.{Trial, Manifest}
use downshift.Experiment.Samples.{trial as experiment_trial, manifest, codec}
use downshift.Experiment.Dispatch.{AttemptDirectory, next_evaluation_action, identity_matches}
use downshift.Analysis.Records.{load_experiment_records}
use downshift.Analysis.Records.Done.{Resolves, done_records_resolved}
use downshift.Base.{ok, ◌↔◌}
use downshift.Runs.{EvidenceKind}
use downshift.Analysis.Report.{Report, aggregate_report}
use downshift.Analysis.Report.Sums.{AddsUp, IsReportable, aggregate_report_ok}
use downshift.Analysis.Pairs.{in_groups, of_mode, by_pair_counts}
use downshift.Analysis.Categories.{tally_groups, no_tallies}
use downshift.Analysis.Categories.Balance.{IsBalanced, tally_groups-IsBalanced}
use downshift.Analysis.Replay.{replay_row}
use downshift.Analysis.Replay.Rows.{IsComplete, replay_row-IsComplete}
use downshift.Analysis.Replay.Threshold.{IsStricter, replay_row-IsStricter}

abbrev trial : SessionMode → TrialOutcome → ResolvedTrial ℕ
trial mode outcome = record {
  trial_id = "t";
  task_id = "01-null-summary";
  repetition = 0;
  mode = mode;
  outcome = outcome;
  result = none;
  physical_attempts = [];
  incomplete_physical_attempts = 0;
}

abbrev routed_trial : ResolvedTrial ℕ
routed_trial = record (trial routed TrialOutcome.fail) {
  result = some (routed_run (decision Tier.weak 70));
  physical_attempts = routed_run (decision Tier.weak 70) ∷ [];
}

abbrev trials : List (ResolvedTrial ℕ)
trials = trial weak_only TrialOutcome.fail ∷ trial strong_only TrialOutcome.pass ∷ routed_trial ∷ []

abbrev groups : Pairs ℕ
groups =
    (
      ("01-null-summary", 0),
      record {
        weak = some (trial weak_only TrialOutcome.fail);
        strong = some (trial strong_only TrialOutcome.pass);
        routed = some routed_trial;
      },
    )
    ∷ []

by_pair_counts_example :
    in_groups (λ _. true) strong_only groups ≡ count (of_mode (λ _. true) strong_only) trials
unfolding by_pair
by_pair_counts_example = by_pair_counts (λ _. true) strong_only trials {groups = groups} refl

tally_groups-IsBalanced_example : IsBalanced (length groups) (tally_groups groups no_tallies)
tally_groups-IsBalanced_example = tally_groups-IsBalanced groups

replay_row-IsComplete_example : IsComplete natural_numbers (replay_row natural_numbers trials 60)
replay_row-IsComplete_example = replay_row-IsComplete natural_numbers trials 60

leb_trans : (a b c : ℕ) → leb a b ≡ true → leb b c ≡ true → leb a c ≡ true
leb_trans a b c h k = ground arith

replay_row-IsStricter_example :
    IsStricter natural_numbers
      (replay_row natural_numbers trials 80).counts
      (replay_row natural_numbers trials 60).counts
replay_row-IsStricter_example = replay_row-IsStricter natural_numbers trials 60 80 leb_trans refl

-- An experiment of one trial, whose first attempt passed.
abbrev done_trial : Trial
done_trial = record experiment_trial { mode = routed }

abbrev done_manifest : Manifest ℕ
done_manifest = record manifest { schedule = done_trial ∷ [] }

abbrev done_run : RunResult ℕ
done_run = record (routed_run (decision Tier.weak 70)) {
  identity = record identity {
    attempt_id = "t-a1";
    experiment_id = some "e";
    task_id = some "01-null-summary";
    repetition = some 0;
  };
  provenance = record provenance {
    task_hash = some "h";
    source_hash = some "s";
    validator_hash = some "v";
  };
}

abbrev attempts : String → Option (AttemptDirectory ℕ String)
attempts id =
    if str_eq id "t-a1"
    then some (record {
      disk = record { events = []; patch = ""; result = some done_run };
      torn = false;
      has_submission = true;
    })
    else none

abbrev loaded : List (ResolvedTrial ℕ)
loaded =
    record {
      trial_id = "t";
      task_id = "01-null-summary";
      repetition = 0;
      mode = routed;
      outcome = TrialOutcome.pass;
      result = some done_run;
      physical_attempts = done_run ∷ [];
      incomplete_physical_attempts = 0;
    }
    ∷ []

done_records_resolved_example : Resolves natural_numbers codec attempts (done_trial ∷ []) loaded
unfolding next_evaluation_action load_experiment_records read_attempt validate_run_result
    classify_trial_outcome identity_matches summaries summarize
done_records_resolved_example =
    done_records_resolved natural_numbers codec attempts done_manifest loaded refl refl

aggregate_report_ok_example : IsReportable EvidenceKind.mock (λ r. true) 9 1 trials ↔ (
    (r : Report) × (aggregate_report EvidenceKind.mock (λ r. true) 9 1 trials ≡ ok r) × AddsUp 9 r)
aggregate_report_ok_example = aggregate_report_ok EvidenceKind.mock (λ r. true) 9 1 trials
