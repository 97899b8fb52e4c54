-- ===== src/Experiment/Samples.antt =====
-- Concrete data of an experiment, for the modules of examples.
use downshift.Base.{ℕ, String, true, none, some, [], ◌∷◌}
use downshift.Config.{per_token, LabModelRole, LabConfig}
use downshift.Decision.{strong_only}
use downshift.Runs.{mock}
use downshift.Runs.Samples.{fingerprint}
use downshift.Runs.Store.{Codec}
use downshift.Experiment.{Trial, ManifestTask, Manifest}

abbrev pub model : LabModelRole ℕ
model = record {
  provider = "mock";
  model = "coder";
  billing = per_token;
  pricing = some (record {
    rates = record {
      input_per_million = 3;
      output_per_million = 15;
      cache_read_per_million = some 1;
      cache_write_per_million = some 4;
    };
    as_of = "2026-01-01";
  });
}

abbrev pub config : LabConfig ℕ
config = record {
  auth_profile = "default";
  models = record { classifier = model; weak = model; strong = model };
  routing = record { weak_threshold = 60; weak_capability_description = "small edits" };
  execution = record {
    max_agent_turns = 40;
    timeout_seconds = 1800;
    request_timeout_seconds = 300;
    validation_timeout_seconds = 300;
    context_token_cap = 200000;
    max_output_tokens = 32000;
  };
}

abbrev pub trial : Trial
trial = record {
  order = 0;
  trial_id = "t";
  attempt_id = "t-a1";
  attempt_ids = "t-a1" ∷ "t-a2" ∷ [];
  task_id = "01-null-summary";
  repetition = 0;
  mode = strong_only;
  seed = 7;
}

abbrev pub task : ManifestTask
task = record {
  id = "01-null-summary";
  task_hash = "h";
  source_hash = "s";
  validator_hash = "v";
  public_prompt = "p";
}

abbrev pub manifest : Manifest ℕ
manifest = record {
  experiment_id = "e";
  evidence_kind = mock;
  auth_profile = "default";
  fingerprints = fingerprint;
  seed = 7;
  repetitions = 1;
  max_cost_usd = none;
  configuration = config;
  tasks = task ∷ [];
  schedule = trial ∷ [];
}

abbrev pub codec : Codec ℕ String
codec = record {
  event_ok = λ _. true;
  schemas = record { result_ok = λ _. true; decision_ok = λ _. true };
  redact = λ p. p;
  decision_payload = λ _ d. d.decision_id;
  final_payload = λ _ _. "end";
}
