-- ===== src/Runs/Samples.antt =====
-- Concrete data of runs, for the modules of examples.
use downshift.Base.{ℕ, false, none, some, [], ◌∷◌}
use downshift.Config.{unknown, ExecutionConfig}
use downshift.Usage.{summaries}
use downshift.Usage.Cost.{RoleCost, billing_not_per_token, no_reference_pricing}
use downshift.Decision.{
  RoutingDecision, strong_only, routed, Tier, DecisionSource, ConfigFingerprint,
}
use downshift.Runs.{
  AttemptIdentity, mock, completed, pass, RunProvenance, ProvenanceModel, RunResult,
  ValidationCheckResult, Costs, persisted,
}
use downshift.Runs.Store.{StartOptions}

abbrev pub identity : AttemptIdentity
identity = record {
  project_id = "demo";
  pi_session_id = "session";
  run_id = "run";
  attempt_id = "attempt";
  decision_id = none;
  experiment_id = none;
  task_id = none;
  repetition = none;
}

abbrev pub limits : ExecutionConfig
limits = record {
  max_agent_turns = 40;
  timeout_seconds = 1800;
  request_timeout_seconds = 300;
  validation_timeout_seconds = 300;
  context_token_cap = 200000;
  max_output_tokens = 32000;
}

abbrev pub served : ProvenanceModel
served = record { provider = "mock"; model = "coder"; metadata_hash = "m" }

abbrev pub provenance : RunProvenance
provenance = record {
  lab_revision = none;
  lab_dirty = none;
  pi_version = "1";
  switchyard_revision = "2";
  agent_image_id = none;
  config_hash = "c";
  capability_card_hash = "d";
  model_metadata_hash = "e";
  provider_config_hash = "f";
  auth_profile = "default";
  mode = strong_only;
  limits = limits;
  models = record { classifier = served; weak = served; strong = served };
  task_hash = none;
  source_hash = none;
  validator_hash = none;
  previous_attempt_id = none;
}

abbrev pub options : StartOptions
options = record {
  identity = identity;
  evidence_kind = mock;
  mode = strong_only;
  provenance = provenance;
  started_at = "00:00";
  setup_duration_ms = 5;
}

abbrev pub no_cost : RoleCost ℕ
no_cost = record {
  billing = unknown;
  in_usd = false;
  pricing_as_of = none;
  estimated_cost_usd = none;
  reference_cost_usd = none;
  missing_reasons = billing_not_per_token unknown ∷ no_reference_pricing ∷ [];
}

abbrev pub costs : Costs ℕ
costs = record {
  classifier = no_cost;
  coding = no_cost;
  total_estimated_cost_usd = none;
  total_reference_cost_usd = none;
}

abbrev pub fingerprint : ConfigFingerprint
fingerprint = record {
  value = "f";
  config_hash = "c";
  model_metadata_hash = "e";
  provider_config_hash = "f";
  capability_card_hash = "d";
}

-- A classifier's verdict on a probability in hundredths.
abbrev pub decision : Tier → ℕ → RoutingDecision ℕ
decision tier probability = record {
  project_id = "demo";
  pi_session_id = "session";
  run_id = "run";
  decision_id = "decision";
  mode = routed;
  selected_tier = tier;
  selected_model = record { provider = "mock"; model = "coder"; provider_reported_model_id = none };
  weak_solve_probability = some probability;
  threshold = 60;
  source = DecisionSource.classifier;
  fallback_reason = none;
  classifier = none;
  fingerprint = fingerprint;
  auth_profile = "default";
  timestamp = "00:02";
  missing_reasons = [];
}

abbrev pub passed_check : ValidationCheckResult
passed_check = record {
  name = "tests";
  status = pass;
  exit_code = some 0;
  duration_ms = 2;
  stdout_artifact = some "tests.stdout.txt";
  stderr_artifact = some "tests.stderr.txt";
  reason = none;
}

-- A routed run that took this decision and passed.
abbrev pub routed_run : RoutingDecision ℕ → RunResult ℕ
routed_run d = record {
  identity = identity;
  evidence_kind = mock;
  mode = routed;
  decision = some d;
  decision_observation = some persisted;
  served_model = none;
  execution = record {
    status = completed;
    started_at = "00:00";
    ended_at = some "00:09";
    error_category = none;
  };
  validation = record { status = pass; checks = passed_check ∷ [] };
  durations_ms = record { setup = 5; routing = some 1; agent = some 4; validation = some 2 };
  usage = summaries [];
  costs = costs;
  provenance = provenance;
  missing_reasons = [];
}
