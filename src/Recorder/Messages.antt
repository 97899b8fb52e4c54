-- ===== src/Recorder/Messages.antt =====
-- `recordAssistantMessage` of src/artifacts/runtime-recorder.ts.
use downshift.Base.{
  String, Bool, true, false, not, ◌&&◌, ◌||◌, Option, none, some, Result, ok, err, ◌>>=◌,
  if◌then◌else◌, str_eq,
}
use downshift.Config.{Model}
use downshift.Decision.{ModelIdentity}
use downshift.Usage.{UsageRole, UsageError, NormalizedUsage, normalize_usage}
use downshift.Runs.{model_call, ExecutionStatus}
use downshift.Routing.{role_model}
use downshift.Recorder.{
  outside_selection, several_identities, Failure, StopReason, other_stop, AssistantMessage,
  call_ends, Setup, Recorder, Step, error_status, track,
}
use downshift.Recorder.Events.{under_decision, then_record}

abbrev is_complete_stop : StopReason → Bool
is_complete_stop other_stop = true
is_complete_stop _ = false

abbrev pub same_identity : ModelIdentity → ModelIdentity → Bool
same_identity a b = str_eq a.provider b.provider && str_eq a.model b.model

abbrev pub identity_of : AssistantMessage → ModelIdentity
identity_of m = record {
  provider = m.provider;
  model = m.model;
  provider_reported_model_id = m.response_model;
}

abbrev identity_mismatch : Failure
identity_mismatch = record {
  status = ExecutionStatus.harness_error;
  category = "model-identity-mismatch";
}

module _ {F P : Type 0} (setup : Setup F P) where
  abbrev pub selected : Recorder F P → Option Model
  selected r = elim r.decision [
    | none ↦ none
    | some d ↦ some (role_model setup.roles d.selected_tier)
  ]

  -- The message was served by another model than the one selected.
  abbrev pub is_outside : Option Model → AssistantMessage → Bool
  is_outside none m = false
  is_outside (some e) m = not (str_eq m.provider e.provider) || not (str_eq m.model e.id)

  abbrev pub is_another : Option ModelIdentity → ModelIdentity → Bool
  is_another none i = false
  is_another (some s) i = not (same_identity s i)

  -- An error message that is empty is falsy.
  abbrev error_of : Option String → Option Failure → Option Failure
  error_of none before = before
  error_of (some text) before =
      if str_eq text "" then before else some (error_status setup true text)

  abbrev normalized : AssistantMessage → Result UsageError (Option NormalizedUsage)
  normalized m = normalize_usage m.usage >>= λ u. ok (some u)

  unfoldable pub accept_message : AssistantMessage → String → String → Recorder F P → Step F P
  accept_message m id now r =
      let done = is_complete_stop m.stop_reason in
      then_record (record r { served_model = some (identity_of m) }) id UsageRole.coding
        (normalized m) done
        λ u s.
          let t = record s {
            last_error = if done then s.last_error else error_of m.error_message s.last_error;
          } in
          track setup model_call
            (call_ends UsageRole.coding id m.stop_reason (some (identity_of m)) u)
            (under_decision t id now) t

  unfoldable pub record_assistant_message :
      AssistantMessage → String → String → Recorder F P → Step F P
  record_assistant_message m id now r =
      if is_outside (selected r) m
      then (record r { last_error = some identity_mismatch }, err outside_selection)
      else if is_another r.served_model (identity_of m)
      then (record r { last_error = some identity_mismatch }, err several_identities)
      else accept_message m id now r
