-- ===== src/Recorder/Events.antt =====
-- `recordRoutingEvent` of src/artifacts/runtime-recorder.ts. `now` is the
-- clock's reading as a timestamp, `ms` as milliseconds.
use downshift.Base.{
  ℕ, ◌-◌, String, Bool, true, false, Option, none, some, Result, ok, err, ◌>>=◌, str_append,
}
use downshift.Usage.{
  UsageRole, UsageError, NormalizedUsage, Reported, whole, record_usage, normalize_usage,
}
use downshift.Runs.{routing, model_call, auth, error, Observation, persisted, resumed_selection}
use downshift.Runs.Store.{EventOptions, record_decision}
use downshift.Routing.{
  LimitStatus, DecisionAction, RoutingEvent, execution_start, session_started, decided,
  call_started, call_succeeded, call_failed, auth_status, model_lock, routing_error, CallReport,
}
use downshift.Recorder.{
  Failure, routed, authenticated, failed, Setup, Recorder, Step, limit_failure_of, or_set,
  error_status, track, tracked, untagged, keyed, usage,
}

abbrev whole_or_none : Option ℕ → Option Reported
whole_or_none none = none
whole_or_none (some n) = some (whole n)

-- The usage of a classifier's call, if every count but the reasoning tokens is reported.
unfoldable pub usage_of_counts :
    Option ℕ
    → Option ℕ
    → Option ℕ
    → Option ℕ
    → Option ℕ
    → Option ℕ
    → Result UsageError (Option NormalizedUsage)
usage_of_counts (some i) (some o) (some cr) (some cw) reasoning (some t) =
    normalize_usage (record {
      input = whole i;
      output = whole o;
      cache_read = whole cr;
      cache_write = whole cw;
      reasoning = whole_or_none reasoning;
      total_tokens = whole t;
    })
    >>= λ u. ok (some u)
usage_of_counts _ _ _ _ _ _ = ok none

unfoldable pub bridge_usage : Option CallReport → Result UsageError (Option NormalizedUsage)
bridge_usage none = ok none
bridge_usage (some r) =
    usage_of_counts r.usage.input_tokens r.usage.output_tokens r.usage.cache_read_tokens
      r.usage.cache_write_tokens r.usage.reasoning_tokens r.usage.total_tokens

abbrev elapsed : Option ℕ → ℕ → Option ℕ → Option ℕ
elapsed none ms before = before
elapsed (some start) ms before = some (ms - start)

module _ {F P : Type 0} where
  abbrev pub decision_id : Recorder F P → Option String
  decision_id r = elim r.decision [ none ↦ none | some d ↦ some d.decision_id ]

  -- `decisionId: this.decision?.decisionId ?? null`
  abbrev pub under_decision : Recorder F P → String → String → EventOptions
  under_decision r key now = record {
    dedupe_key = some key;
    decision_id = some (decision_id r);
    timestamp = now;
  }

  -- A call in the ledger, whose usage may have been refused, and what follows it.
  abbrev pub then_record :
      Recorder F P
      → String
      → UsageRole
      → Result UsageError (Option NormalizedUsage)
      → Bool
      → (Option NormalizedUsage → Recorder F P → Step F P)
      → Step F P
  then_record r id role (err e) done next = (r, err (usage e))
  then_record r id role (ok u) done next = elim (record_usage r.usage id role u done) [
    | err e ↦ (r, err (usage e))
    | ok ledger ↦ next u (record r { usage = ledger.0 })
  ]

module _ {F P : Type 0} (setup : Setup F P) where
  -- The end of a classifier's call.
  unfoldable pub end_call :
      RoutingEvent F
      → String
      → Result UsageError (Option NormalizedUsage)
      → Bool
      → String
      → ℕ
      → Recorder F P
      → Step F P
  end_call event id u done now ms r =
      then_record
        (record r { routing_duration_ms = elapsed r.routing_started_at ms r.routing_duration_ms })
        id UsageRole.classifier u done
        (λ v s. track setup model_call (routed event) (keyed (str_append id ":end") now) s)

  abbrev observation_of : DecisionAction → Observation
  observation_of DecisionAction.restored = resumed_selection
  observation_of _ = persisted

  abbrev limit_of : Option LimitStatus → Option Failure → Option Failure
  limit_of none before = before
  limit_of (some s) before = or_set before (limit_failure_of s)

  unfoldable pub record_routing_event : RoutingEvent F → String → ℕ → Recorder F P → Step F P
  record_routing_event (execution_start id) now ms r =
      (record r { agent_started_at = some ms }, ok tt)
  record_routing_event (call_started id) now ms r =
      track setup model_call (routed (call_started id)) (keyed (str_append id ":start") now)
        (record r { routing_started_at = some ms })
  record_routing_event (call_succeeded id report) now ms r =
      end_call (call_succeeded id report) id (bridge_usage report) true now ms r
  record_routing_event (call_failed id) now ms r =
      end_call (call_failed id) id (ok none) false now ms r
  record_routing_event (decided action id (some d)) now ms r =
      let observation = observation_of action in
      let s = record r { decision = some d; decision_observation = some observation } in
      (tracked setup s (record_decision setup.codec s.store d observation now), ok tt)
  record_routing_event (decided action id none) now ms r =
      track setup routing (routed (decided action id none)) (untagged now) r
  record_routing_event (auth_status provider available) now ms r =
      track setup auth (routed (auth_status provider available)) (untagged now) r
  record_routing_event (routing_error id e status) now ms r =
      let failure = error_status setup false (setup.text_of e) in
      track setup error (failed failure.category (setup.text_of e)) (untagged now)
        (record r { limit_failure = limit_of status r.limit_failure; last_error = some failure })
  record_routing_event (session_started id reason) now ms r =
      track setup routing (routed (session_started id reason)) (untagged now) r
  record_routing_event (model_lock action provider model) now ms r =
      track setup routing (routed (model_lock action provider model)) (untagged now) r

  -- `recordAuthEvent`, whose event has the action and whether it succeeded.
  unfoldable pub record_auth_event : String → Bool → String → Recorder F P → Step F P
  record_auth_event action success now r =
      track setup auth (authenticated action success) (untagged now) r
