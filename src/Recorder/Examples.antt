-- ===== src/Recorder/Examples.antt =====
-- The recorder's theorems at an attempt that exceeded its time, and at one that is served.
use downshift.Base.{ℕ, String, ◌≡◌, refl, some, Result, ok, err, Bool, true, false, List}
use downshift.Base.Number.{natural_numbers}
use downshift.Decision.{weak, ModelIdentity, RoutingDecision}
use downshift.Usage.{normalize_usage, record_usage}
use downshift.Runs.{RunResult, ExecutionStatus}
use downshift.Runs.Samples.{routed_run, decision}
use downshift.Runs.Outcome.{validate_run_result}
use downshift.Runs.Store.{start_attempt, append_event, drain}
use downshift.Runs.Store.Finalize.{finalize_attempt, result_of}
use downshift.Routing.{role_model}
use downshift.Recorder.{Recorder, RecorderError, track, error_status}
use downshift.Recorder.Messages.{record_assistant_message, accept_message, identity_of}
use downshift.Recorder.Finish.{
  FinalError, no_error, settle_agent, note_error, flush, input_of, close, finalize, finalize_over,
}
use downshift.Recorder.Events.{record_auth_event}
use downshift.Recorder.Extension.{
  State, Happening, handle, run, on_session_shutdown, append_shutdown,
}
use downshift.Recorder.Verdict.{IsServing}
use downshift.Recorder.Conclusion.{first_limit_decides, served_model_fixed, accepted_as_decided}
use downshift.Recorder.Samples.{setup, fresh, message, served, timed_out, in_service, working}

abbrev ended : State ℕ String
ended = run natural_numbers setup working timed_out

concluded : Recorder ℕ String × Result RecorderError (RunResult ℕ)
unfolding finalize
concluded = finalize natural_numbers setup no_error "00:05" 5 ended.recorder

abbrev result_in : Result RecorderError (RunResult ℕ) → RunResult ℕ
result_in (ok r) = r
result_in (err e) = routed_run (decision weak 90)

abbrev is_ok : Result RecorderError (RunResult ℕ) → Bool
is_ok (ok r) = true
is_ok (err e) = false

by_parts :
    (c : Recorder ℕ String × Result RecorderError (RunResult ℕ))
    → is_ok c.1 ≡ true
    → c ≡ (c.0, ok (result_in c.1))
by_parts (r, ok x) h = refl
by_parts (r, err e) h = cc

succeeds : is_ok concluded.1 ≡ true
unfolding concluded finalize finalize_over close input_of flush note_error settle_agent run handle
    on_session_shutdown append_shutdown record_auth_event track append_event
    record_assistant_message accept_message normalize_usage record_usage finalize_attempt result_of
    validate_run_result drain start_attempt error_status
succeeds = refl

concludes :
    finalize natural_numbers setup no_error "00:05" 5 ended.recorder
    ≡ (concluded.0, ok (result_in concluded.1))
unfolding concluded
concludes = by_parts concluded succeeds

abbrev afterwards : State ℕ String
afterwards = record ended { recorder = concluded.0 }

first_limit_decides_example :
    ((result_in concluded.1).execution.status ≡ ExecutionStatus.timeout)
    × ((more : List (Happening ℕ × String × ℕ)) (again : FinalError) (later : String) (at : ℕ)
        → finalize natural_numbers setup again later at
            (run natural_numbers setup more afterwards).recorder
          ≡ ((run natural_numbers setup more afterwards).recorder, ok (result_in concluded.1)))
first_limit_decides_example =
    first_limit_decides natural_numbers setup working timed_out afterwards
      (record { status = ExecutionStatus.timeout; category = "timeout" }) no_error "00:05" 5 refl
      refl concludes

served_model_fixed_example :
    IsServing served (run natural_numbers setup working in_service).recorder.served_model
served_model_fixed_example = served_model_fixed natural_numbers setup working in_service served refl

abbrev decided : Recorder ℕ String
decided = record fresh { decision = some (decision weak 90); served_model = some served }

accepted : Recorder ℕ String
unfolding record_assistant_message
accepted = (record_assistant_message setup message "c1" "00:03" decided).0

accepts : record_assistant_message setup message "c1" "00:03" decided ≡ (accepted, ok tt)
unfolding accepted record_assistant_message accept_message track append_event normalize_usage
    record_usage start_attempt
accepts = refl

accepted_as_decided_example :
    (accepted.served_model ≡ some (identity_of message))
    × ((d : RoutingDecision ℕ)
        → decided.decision ≡ some d
        → (message.provider ≡ (role_model setup.roles d.selected_tier).provider)
          × (message.model ≡ (role_model setup.roles d.selected_tier).id))
    × ((i : ModelIdentity)
        → decided.served_model ≡ some i
        → (message.provider ≡ i.provider) × (message.model ≡ i.model))
accepted_as_decided_example = accepted_as_decided setup message "c1" "00:03" decided accepts
