-- ===== src/Recorder/Samples.antt =====
-- A recorder of a fixed strong run, whose session has exceeded its time.
use downshift.Base.{ℕ, String, true, false, ok, none, some, List, [], ◌∷◌}
use downshift.Config.{Model, LabModelRole, unknown, Rates}
use downshift.Decision.{strong_only, ModelIdentity}
use downshift.Usage.{ProviderUsage, whole}
use downshift.Runs.Samples.{options, limits}
use downshift.Runs.Store.{start_attempt, Store}
use downshift.Routing.{timeout}
use downshift.Recorder.{Setup, Recorder, AssistantMessage, other_stop, limit_failure_of}
use downshift.Recorder.Extension.{
  State, Happening, before_agent_start, before_provider_request, message_end, agent_settled,
  auth_event, session_shutdown,
}

abbrev pub coder : Model
coder = record { provider = "mock"; id = "coder"; context_window = 1000; max_tokens = 100 }

abbrev role : LabModelRole ℕ
role = record { provider = "mock"; model = "coder"; billing = unknown; pricing = none }

abbrev free : Rates ℕ
free = record {
  input_per_million = 0;
  output_per_million = 0;
  cache_read_per_million = some 0;
  cache_write_per_million = some 0;
}

abbrev pub setup : Setup ℕ String
setup = record {
  config = record {
    auth_profile = "default";
    models = record { classifier = role; weak = role; strong = role };
    routing = record { weak_threshold = 60; weak_capability_description = "small edits" };
    execution = limits;
  };
  roles = record { classifier = coder; weak = coder; strong = coder };
  model_costs = record { classifier = free; weak = free; strong = free };
  mode = strong_only;
  codec = record {
    event_ok = λ e. true;
    schemas = record { result_ok = λ r. true; decision_ok = λ d. true };
    redact = λ p. p;
    decision_payload = λ o d. d.decision_id;
    final_payload = λ s v. "end";
  };
  payload = λ content. "event";
  is_cancelled = λ s. false;
  is_timeout = λ s. false;
  is_auth = λ s. false;
  is_rate_limit = λ s. false;
  is_provider = λ s. false;
  text_of = λ e. "error";
}

abbrev pub served : ModelIdentity
served = record { provider = "mock"; model = "coder"; provider_reported_model_id = none }

abbrev usage : ProviderUsage
usage = record {
  input = whole 3;
  output = whole 2;
  cache_read = whole 0;
  cache_write = whole 0;
  reasoning = none;
  total_tokens = whole 5;
}

abbrev pub message : AssistantMessage
message = record {
  provider = "mock";
  model = "coder";
  response_model = none;
  usage = usage;
  stop_reason = other_stop;
  error_message = none;
}

abbrev pub store : Store ℕ String
store = start_attempt options

abbrev pub fresh : Recorder ℕ String
fresh = record {
  store = store;
  usage = [];
  decision = none;
  decision_observation = none;
  served_model = none;
  routing_started_at = none;
  routing_duration_ms = none;
  agent_started_at = none;
  agent_duration_ms = none;
  last_error = none;
  limit_failure = none;
  write_error = false;
  patch_captured = false;
  finalized_result = none;
}

abbrev pub timed_out : State ℕ String
timed_out = record {
  recorder = record fresh { limit_failure = some (limit_failure_of timeout) };
  pending_calls = [];
  compaction_active = false;
}

abbrev pub in_service : State ℕ String
in_service = record {
  recorder = record fresh { served_model = some served };
  pending_calls = [];
  compaction_active = false;
}

abbrev pub working : List (Happening ℕ × String × ℕ)
working =
    (before_agent_start, "00:01", 1)
    ∷ (before_provider_request "c1" (some coder), "00:02", 2)
    ∷ (message_end "c2" message, "00:03", 3)
    ∷ (agent_settled, "00:04", 4)
    ∷ (auth_event "refresh" true, "00:04", 4)
    ∷ (session_shutdown "quit" (ok none), "00:04", 4)
    ∷ []
