-- ===== src/Recorder.antt =====
-- `RuntimeArtifactRecorder` of src/artifacts/runtime-recorder.ts: what a session's events put into the
-- attempt's store and the usage ledger. `P` is the type of payloads.
pub mod Start
pub mod Events
pub mod Messages
pub mod Finish
pub mod Extension
pub mod Verdict
pub mod Conclusion
mod Samples
mod Examples
use downshift.Base.{
  ℕ, ◌-◌, String, Bool, true, false, not, ◌&&◌, Option, none, some, List, [], ◌∷◌, Result, ok, err,
  ◌>>=◌, if◌then◌else◌, str_append, str_eq, ◌||◌,
}
use downshift.Base.Exec.{Exec}
use downshift.Config.{Model, ByRole, LabConfig, Rates}
use downshift.Decision.{RoutingDecision, ModelIdentity, SessionMode}
use downshift.Usage.{
  UsageRole, UsageError, UsageLedger, NormalizedUsage, ProviderUsage, Reported, whole, record_usage,
  normalize_usage,
}
use downshift.Runs.{
  RunEventKind, startup, routing, model_call, tool, auth, lifecycle, error, ExecutionStatus,
  RunResult, EvidenceKind, Observation, persisted, resumed_selection,
}
use downshift.Runs.Store.{
  Store, StoreError, invalid_event, Codec, EventOptions, append_event, record_decision,
}
use downshift.Bridge.Messages.{ClassifierUsage}
use downshift.Routing.{
  LimitStatus, timeout, budget_exhausted, RoutingError, DecisionAction, RoutingEvent,
  execution_start, session_started, decided, call_started, call_succeeded, call_failed, auth_status,
  model_lock, routing_error, CallReport, role_model,
}

pub data RecorderError : Type 0 where
  usage : UsageError → RecorderError
  outside_selection several_identities write_failed git_failed : RecorderError
  store : StoreError → RecorderError

-- `{ status, category }`
pub record Failure : Type 0 where
  pub status : ExecutionStatus
  pub category : String

pub data StopReason : Type 0 where
  pending error_stop aborted deferred other_stop : StopReason

-- What is read of Pi's `AssistantMessage`.
pub record AssistantMessage : Type 0 where
  pub provider : String
  pub model : String
  pub response_model : Option String
  pub usage : ProviderUsage
  pub stop_reason : StopReason
  pub error_message : Option String

-- What an event's payload is made of.
pub data Content (F : Type 0) : Type 0 where
  started : SessionMode → EvidenceKind → (auth_profile config_hash : String) → Content F
  settled agent_started : Content F
  routed : RoutingEvent F → Content F
  authenticated : (action : String) (success : Bool) → Content F
  failed : (category message : String) → Content F
  call_begins : UsageRole → (call_id : String) → Option Model → Content F
  call_ends :
      UsageRole
      → (call_id : String) → StopReason
      → Option ModelIdentity
      → Option NormalizedUsage
      → Content F
  tool_begins : (tool_call_id tool_name : String) → Content F
  tool_ends : (tool_call_id tool_name : String) (is_error : Bool) → Content F
  compaction_begins shut_down : (reason : String) → Content F
  compaction_failed : (category reason : String) (message : Option String) → Content F

-- The constant parts of a recorder: its options, the store's codec, how payloads are written, the patterns
-- that `errorStatus` looks for, and the text of a routing error.
pub record Setup (F P : Type 0) : Type 0 where
  pub config : LabConfig F
  pub roles : ByRole Model
  -- `model.cost` of each role.
  pub model_costs : ByRole (Rates F)
  pub mode : SessionMode
  pub codec : Codec F P
  pub payload : Content F → P
  pub is_cancelled : String → Bool
  pub is_timeout : String → Bool
  pub is_auth : String → Bool
  pub is_rate_limit : String → Bool
  pub is_provider : String → Bool
  pub text_of : RoutingError → String

pub record Recorder (F P : Type 0) : Type 0 where
  pub store : Store F P
  pub usage : UsageLedger
  pub decision : Option (RoutingDecision F)
  pub decision_observation : Option Observation
  pub served_model : Option ModelIdentity
  pub routing_started_at : Option ℕ
  pub routing_duration_ms : Option ℕ
  pub agent_started_at : Option ℕ
  pub agent_duration_ms : Option ℕ
  pub last_error : Option Failure
  pub limit_failure : Option Failure
  pub write_error : Bool
  pub patch_captured : Bool
  pub finalized_result : Option (RunResult F)

-- An operation's new state, and what it throws.
abbrev pub Step : Type 0 → Type 0 → Type 0
Step F P = Recorder F P × Result RecorderError (Unit {0})

abbrev limit_status : LimitStatus → ExecutionStatus
limit_status timeout = ExecutionStatus.timeout
limit_status budget_exhausted = ExecutionStatus.budget_exhausted

abbrev limit_category : LimitStatus → String
limit_category timeout = "timeout"
limit_category budget_exhausted = "budget-exhausted"

abbrev pub limit_failure_of : LimitStatus → Failure
limit_failure_of s = record { status = limit_status s; category = limit_category s }

-- `a ??= b`
abbrev pub or_set : {A : Type 0} → Option A → A → Option A
or_set none b = some b
or_set (some a) b = some a

abbrev pub untagged : String → EventOptions
untagged now = record { dedupe_key = none; decision_id = none; timestamp = now }

abbrev pub keyed : String → String → EventOptions
keyed key now = record { dedupe_key = some key; decision_id = none; timestamp = now }

module _ {F P : Type 0} (setup : Setup F P) where
  open setup use {codec, payload}

  -- `errorStatus`; `from_provider` chooses its fallback.
  unfoldable pub error_status : Bool → String → Failure
  error_status from_provider message =
      if setup.is_cancelled message
      then record { status = ExecutionStatus.cancelled; category = "cancelled" }
      else if setup.is_timeout message
      then record { status = ExecutionStatus.timeout; category = "timeout" }
      else if setup.is_auth message
      then record { status = ExecutionStatus.auth_required; category = "authentication" }
      else if setup.is_rate_limit message
      then record { status = ExecutionStatus.rate_limited; category = "rate-limit" }
      else if setup.is_provider message || from_provider
      then record { status = ExecutionStatus.provider_error; category = "provider" }
      else record { status = ExecutionStatus.harness_error; category = "harness" }

  -- An operation of the store whose promise is tracked: that it was rejected is remembered.
  abbrev pub tracked : Recorder F P → Store F P × Result StoreError (Unit {0}) → Recorder F P
  tracked r (after, ok u) = record r { store = after }
  tracked r (after, err e) = record r { store = after; write_error = true }

  -- What `appendEvent` did: an event that the schema refuses is thrown before there is a promise to
  -- track, and every other error is a rejected promise.
  abbrev pub appended : Recorder F P → Store F P × Result StoreError (Unit {0}) → Step F P
  appended r (after, err invalid_event) =
      (record r { store = after }, err (RecorderError.store invalid_event))
  appended r call = (tracked r call, ok tt)

  -- `this.track(this.store.appendEvent(…))`
  unfoldable pub track : RunEventKind → Content F → EventOptions → Recorder F P → Step F P
  track kind content o r = appended r (append_event codec r.store kind (payload content) o)
