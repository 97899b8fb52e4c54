-- ===== src/Runs/Store/Finalize.antt =====
-- `finalizeAttempt`: the result is built from the input and the store, checked, and written after the
-- journal's last event.
pub mod Closed
pub mod Permanent
pub mod Reported
use downshift.Base.{
  ℕ, String, Bool, true, false, Option, none, some, List, [], ◌∷◌, ◌++◌, Result, ok, err,
  if◌then◌else◌, str_eq, is_none,
}
use downshift.Decision.{RoutingDecision, ModelIdentity}
use downshift.Usage.{UsageSummaries}
use downshift.Runs.{
  ExecutionStatus, CheckStatus, Observation, persisted, finalization, RunProvenance, RunResult,
  Costs,
}
use downshift.Runs.Outcome.{validate_run_result}
use downshift.Runs.Store.{
  Store, StoreError, already_finalized, invalid_result, Codec, EventOptions, identity_with,
  append_event, record_decision, drain, decision_id_of, or_default,
}

pub record FinalizeInput (F : Type 0) : Type 0 where
  pub execution_status : ExecutionStatus
  pub ended_at : Option String
  pub error_category : Option String
  pub decision : Option (RoutingDecision F)
  pub decision_observation : Option Observation
  pub served_model : Option ModelIdentity
  pub routing_duration_ms : Option ℕ
  pub agent_duration_ms : Option ℕ
  pub usage : UsageSummaries
  pub costs : Costs F
  pub missing_reasons : List String

-- The reasons that `finalizeAttempt` adds by itself.
abbrev own_reasons : RunProvenance → List String
own_reasons p =
    "independent validation has not run for this interactive session"
      ∷ (if is_none p.task_hash then "task hash is unavailable for interactive runs" ∷ [] else [])
    ++ (if is_none p.source_hash
        then "source hash is unavailable for interactive runs" ∷ []
        else [])
    ++ (if is_none p.validator_hash
        then "validator hash is unavailable for interactive runs" ∷ []
        else [])

module _ {F P : Type 0} where
  -- The result of an attempt, which has not been validated yet.
  unfoldable pub result_of : Store F P → FinalizeInput F → RunResult F
  result_of s input = record {
    identity = identity_with s (decision_id_of input.decision);
    evidence_kind = s.options.evidence_kind;
    mode = s.options.mode;
    decision = input.decision;
    decision_observation = input.decision_observation;
    served_model = input.served_model;
    execution = record {
      status = input.execution_status;
      started_at = s.options.started_at;
      ended_at = input.ended_at;
      error_category = input.error_category;
    };
    validation = record { status = CheckStatus.not_run; checks = [] };
    durations_ms = record {
      setup = s.options.setup_duration_ms;
      routing = input.routing_duration_ms;
      agent = input.agent_duration_ms;
      validation = none;
    };
    usage = input.usage;
    costs = input.costs;
    provenance = s.options.provenance;
    missing_reasons = own_reasons s.options.provenance ++ input.missing_reasons;
  }

  -- The result is written, and the store closed.
  finish : Store F P → RunResult F → Store F P
  finish s result = record s { finalized = true; disk = record (s.disk) { result = some result } }

-- `this.decision?.decisionId !== input.decision.decisionId`, negated.
abbrev is_recorded : {F : Type 0} → Option (RoutingDecision F) → RoutingDecision F → Bool
is_recorded none d = false
is_recorded (some c) d = str_eq c.decision_id d.decision_id

abbrev plain : String → EventOptions
plain now = record { dedupe_key = none; decision_id = none; timestamp = now }

module _ {F P : Type 0} (codec : Codec F P) where
  -- The input's decision is recorded, if it is not yet.
  ensure_decision :
      Store F P
      → Option (RoutingDecision F)
      → Option Observation
      → String
      → Store F P × Result StoreError (Unit {0})
  ensure_decision s none observation now = (s, ok tt)
  ensure_decision s (some d) observation now =
      if is_recorded s.decision d
      then (s, ok tt)
      else record_decision codec s d (or_default observation persisted) now

  -- The last event is appended and written, and then the result.
  pub close_attempt : Store F P → RunResult F → String → Store F P × Result StoreError (RunResult F)
  unfolding finish
  close_attempt s result now =
      let (t, done) =
        append_event codec s finalization
          (codec.final_payload result.execution.status result.validation.status) (plain now) in
      elim done [ ok _ ↦ (finish (drain t) result, ok result) | err e ↦ (t, err e) ]

  pub check_and_close :
      Store F P → FinalizeInput F → String → Store F P × Result StoreError (RunResult F)
  unfolding close_attempt
  check_and_close s input now = elim (validate_run_result codec.schemas (result_of s input)) [
    | ok result ↦ close_attempt s result now
    | err e ↦ (s, err (invalid_result e))
  ]

  unfoldable pub finalize_attempt :
      Store F P → FinalizeInput F → String → Store F P × Result StoreError (RunResult F)
  unfolding ensure_decision check_and_close
  finalize_attempt s input now =
      if s.finalized
      then (s, err already_finalized)
      else let (t, done) =
          ensure_decision (drain s) input.decision input.decision_observation now in
        elim done [ ok _ ↦ check_and_close (drain t) input now | err e ↦ (t, err e) ]
