-- ===== src/Runs/Examples.antt =====
-- Runs at which the theorems on run results, their outcome and the artifact store apply.
use downshift.Base.{
  ℕ, ◌≡◌, ◌≢◌, ◌↔◌, ◌⊎◌, refl, String, Bool, true, false, none, some, [], ◌∷◌, ◌++◌, ok, err, All,
  not, str_eq,
}
use downshift.Usage.{summaries}
use downshift.Runs.{
  completed, cancelled, not_run, RunResult, IndependentValidationResult, lifecycle, tool,
}
use downshift.Runs.Samples.{options, costs}
use downshift.Runs.Outcome.{
  validate_run_result, TrialOutcome, classify_trial_outcome, Schemas, CheckRun, closed, accepted,
  validate_submission, validate_run_result, attach_validation_result, attached, already_attached,
}
use downshift.Runs.Outcome.Attach.{DecisionOk, IsConsistent, validate_run_result_iff}
use downshift.Runs.Outcome.Trial.{Passed, attach_once, passes_iff}
use downshift.Runs.Store.{
  Store, Codec, EventOptions, start_attempt, append_event, drain, already_finalized, invalid_event,
  write_patch, flush,
}
use downshift.Runs.Store.Reading.{AttemptRead, IsNumbered, read_attempt}
use downshift.Runs.Store.Journal.{
  Reach, appends, patches, writes, here, next, journal_readable, start_attempt-IsSound,
}
use downshift.Runs.Store.Gap.{refused_event_breaks_journal}
use downshift.Runs.Store.Finalize.{FinalizeInput, finalize_attempt, result_of}
use downshift.Runs.Store.Finalize.Permanent.{result_permanent}
use downshift.Runs.Store.Finalize.Closed.{IsClosed, Reports, finalize_attempt-IsClosed}

abbrev input : FinalizeInput ℕ
input = record {
  execution_status = completed;
  ended_at = some "00:09";
  error_category = none;
  decision = none;
  decision_observation = none;
  served_model = none;
  routing_duration_ms = none;
  agent_duration_ms = some 4;
  usage = summaries [];
  costs = costs;
  missing_reasons = [];
}

-- The schemas of this example take every result, and every event with a payload.
abbrev schemas : Schemas ℕ
schemas = record { result_ok = λ _. true; decision_ok = λ _. true }

abbrev codec : Codec ℕ String
codec = record {
  event_ok = λ e. not (str_eq e.payload "");
  schemas = schemas;
  redact = λ p. p;
  decision_payload = λ _ d. d.decision_id;
  final_payload = λ _ _. "end";
}

abbrev started : Store ℕ String
started = start_attempt options

abbrev run : RunResult ℕ
run = result_of started input

abbrev a_check : CheckRun
a_check = record {
  name = "tests";
  ending = closed (record {
    output_exceeded = false;
    timed_out = false;
    code = some 0;
    signal = none;
    node_test = true;
    confirmed = true;
  });
  duration_ms = 12;
}

abbrev validation : IndependentValidationResult
validation = validate_submission accepted [] completed [] (a_check ∷ []) 20

run_not_validated : run.validation.status ≡ not_run
unfolding result_of
run_not_validated = refl

run_undecided : DecisionOk schemas run.decision
unfolding result_of
run_undecided = tt

run_completed : run.execution.status ≡ completed
unfolding result_of
run_completed = refl

validate_run_result_iff_example : (validate_run_result schemas run ≡ ok run) ↔ (
    (run ≡ run)
    × (true ≡ true)
    × DecisionOk schemas run.decision
    × IsConsistent run.validation.status run.validation.checks run.durations_ms.validation)
validate_run_result_iff_example = validate_run_result_iff schemas run run

attach_once_example :
    (attach_validation_result schemas
        (some run)
        (validate_submission accepted [] run.execution.status [] (a_check ∷ []) 20)
      ≡ ok (
          attached run (validate_submission accepted [] run.execution.status [] (a_check ∷ []) 20)))
    × ((run.execution.status ≡ cancelled)
        ⊎ (attach_validation_result schemas
              (some (
                attached run
                  (validate_submission accepted [] run.execution.status [] (a_check ∷ []) 20)))
              validation
            ≡ err already_attached))
attach_once_example =
    attach_once schemas run accepted [] [] a_check [] 20 validation run_not_validated run_undecided
      refl

abbrev validated : RunResult ℕ
validated = attached run (validate_submission accepted [] run.execution.status [] (a_check ∷ []) 20)

passes_iff_example :
    (classify_trial_outcome validated ≡ TrialOutcome.pass)
    ↔ ((run.execution.status ≡ completed) × (accepted ≡ accepted) × All Passed (a_check ∷ []))
passes_iff_example =
    passes_iff schemas run validated accepted [] [] (a_check ∷ []) 20 (attach_once_example.0)

abbrev now : EventOptions
now = record { dedupe_key = none; decision_id = none; timestamp = "00:01" }

abbrev after_event : Store ℕ String
after_event = (append_event codec started lifecycle "begin" now).0

event_taken : (append_event codec started lifecycle "begin" now).1 ≢ err invalid_event
unfolding append_event start_attempt
event_taken e = cc

two_steps : Reach codec started (flush after_event)
two_steps = next (next here (appends lifecycle "begin" now event_taken refl)) (writes refl)

journal_readable_example :
    (read_attempt codec (flush after_event).disk true
      ≡ ok (record {
        result = none;
        events = (flush after_event).disk.events;
        truncated_tail = true;
      }))
    × IsNumbered 1 ((flush after_event).disk.events ++ (flush after_event).queue)
journal_readable_example = journal_readable codec options (flush after_event) true two_steps

abbrev after_refusal : Store ℕ String
after_refusal = (append_event codec started tool "" now).0

abbrev guessed : AttemptRead ℕ String
guessed = record { result = none; events = []; truncated_tail = false }

refused_event_breaks_journal_example :
    read_attempt codec (drain (append_event codec after_refusal lifecycle "begin" now).0).disk false
    ≢ ok guessed
unfolding append_event start_attempt
refused_event_breaks_journal_example =
    refused_event_breaks_journal codec started tool lifecycle "" "begin" now now
      (start_attempt-IsSound codec options) refl refl refl false guessed

abbrev finalized_store : Store ℕ String
finalized_store = (finalize_attempt codec started input "00:10").0

finalize_attempt-IsClosed_example : IsClosed codec finalized_store run × Reports input run
unfolding finalize_attempt start_attempt validate_run_result drain result_of append_event
finalize_attempt-IsClosed_example =
    finalize_attempt-IsClosed codec started input "00:10" run (start_attempt-IsSound codec options)
      refl

-- A late event and a late patch.
late_calls : Reach codec finalized_store finalized_store
unfolding finalize_attempt start_attempt validate_run_result drain result_of append_event
    write_patch
late_calls = next (next here (appends lifecycle "late" now (λ e. cc) refl)) (patches "late" refl)

result_permanent_example :
    (finalized_store.disk ≡ finalized_store.disk)
    × ((torn : Bool)
        → read_attempt codec finalized_store.disk torn
          ≡ ok (record {
            result = some run;
            events = finalized_store.disk.events;
            truncated_tail = torn;
          }))
    × ((again : FinalizeInput ℕ) (later : String)
        → finalize_attempt codec finalized_store again later
          ≡ (finalized_store, err already_finalized))
unfolding finalize_attempt start_attempt validate_run_result drain result_of append_event
result_permanent_example =
    result_permanent codec started input "00:10" run (start_attempt-IsSound codec options) refl
      late_calls
