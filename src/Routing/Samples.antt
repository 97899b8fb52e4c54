-- ===== src/Routing/Samples.antt =====
-- A session in the routed mode, with the classifier process of Bridge/Samples.
use downshift.Base.{ℕ, String, true, false, none, some, List, [], ◌∷◌, str_eq}
use downshift.Config.{unknown, LabModelRole, LabConfig, Model}
use downshift.Decision.{routed, weak}
use downshift.Bridge.{BridgeDecision, validated_verdict}
use downshift.Bridge.Messages.{response}
use downshift.Bridge.Samples.{platform, pipe, client, answered}
use downshift.Routing.{new, Controller, Session, LimitError, timeout}
use downshift.Routing.Ask.{Env, Heard}
use downshift.Routing.Handlers.{Event, session_start, input, turn_start, turn_end, model_select}

abbrev role : String → LabModelRole ℕ
role id = record { provider = "acme"; model = id; billing = unknown; pricing = none }

abbrev pub model : String → Model
model id = record { provider = "acme"; id = id; context_window = 1000; max_tokens = 100 }

abbrev config : LabConfig ℕ
config = record {
  auth_profile = "default";
  models = record { classifier = role "judge"; weak = role "small"; strong = role "large" };
  routing = record { weak_threshold = 1; weak_capability_description = "small edits" };
  execution = record {
    max_agent_turns = 2;
    timeout_seconds = 60;
    request_timeout_seconds = 30;
    validation_timeout_seconds = 30;
    context_token_cap = 1000;
    max_output_tokens = 100;
  };
}

abbrev pub controller : Controller ℕ
controller = record {
  options = record {
    config = config;
    auth_profile = "default";
    project_id = "p1";
    run_id = "r1";
    run_id_for_session = none;
    mode = routed;
  };
  roles = record { classifier = model "judge"; weak = model "small"; strong = model "large" };
  fingerprint = record {
    value = "f";
    config_hash = "f1";
    model_metadata_hash = "f2";
    provider_config_hash = "f3";
    capability_card_hash = "f4";
  };
  policy = record {
    weak_threshold = 1;
    weak_capability_description = "small edits";
    max_output_tokens = 100;
  };
  checks = record {
    schema_ok = λ d. true;
    decision_equals = λ d e. str_eq d.decision_id e.decision_id;
    id_ok = λ id. true;
  };
}

-- Pi sets every model, everyone is authenticated, and the classifier answers.
abbrev pub env : Env ℕ
env = record {
  check_auth = λ provider. true;
  set_model = λ before m. (some m, true);
  platform = platform;
  pipe = pipe;
  call_classifier = λ m. some (response answered);
  call_id = "u1";
  bridge_decision_id = "d1";
  new_decision_id = "u2";
  duration_ms = 5;
  elapsed_ms = 10;
  timestamp = "2026-01-01T00:00:00Z";
}

abbrev pub fresh : Session ℕ
fresh = record {
  session_id = "s1";
  files = λ id. none;
  entries = [];
  model = none;
  is_attached = true;
  scoped_model = none;
  last_error = none;
  limit_error = none;
  current = none;
  startup_error = none;
  repairing_model = false;
  turn_count = 0;
  run_timer = false;
  run_abort = none;
  request_timer = none;
  bridge = client;
  context_aborts = 0;
  events = [];
}

abbrev pub verdict : BridgeDecision ℕ
verdict = record { decision_id = "d1"; selected_alias = weak; evidence = validated_verdict 1 }

abbrev pub heard : Heard
heard = record {
  usage = none;
  identity =
      some (record { provider = "acme"; model = "judge"; provider_reported_model_id = none });
}

abbrev pub opening : List (Env ℕ × Event)
opening = (env, session_start new) ∷ (env, input "Rename f.") ∷ []

-- The user selects another model, which the session's guard replaces.
abbrev pub working : List (Env ℕ × Event)
working =
    (env, turn_start)
    ∷ (env, model_select (model "large"))
    ∷ (env, turn_end)
    ∷ (env, turn_start)
    ∷ (env, turn_start)
    ∷ []

abbrev pub exceeded : LimitError
exceeded = record { status = timeout; message = "Session wall-time limit exceeded" }
