-- ===== src/Recorder/Start.antt =====
-- `RuntimeArtifactRecorder.start` and `provenance` of src/artifacts/runtime-recorder.ts.
use downshift.Base.{
  ℕ, String, Bool, true, false, Option, none, some, Result, ok, err, [], if◌then◌else◌, str_eq,
}
use downshift.Config.{ByRole, Model}
use downshift.Runs.{EvidenceKind, ProvenanceModel, RunProvenance, startup}
use downshift.Runs.Store.{StartOptions, Store, start_attempt, append_event, drain}
use downshift.Recorder.{RecorderError, store, started, Setup, Recorder, untagged}

pub record Fingerprint : Type 0 where
  pub config_hash : String
  pub capability_card_hash : String
  pub model_metadata_hash : String
  pub provider_config_hash : String

-- The variables of the environment that the provenance reads.
pub record Environment : Type 0 where
  pub lab_revision : Option String
  pub lab_dirty : Option String
  pub lab_agent_image_id : Option String
  pub lab_previous_attempt_id : Option String

-- What `metadataHash` hashes of a model.
pub record Metadata : Type 0 where
  pub model : Model
  pub api : String
  pub name : String

pub record RecorderOptions : Type 0 where
  pub project_id : String
  pub pi_session_id : String
  pub run_id : String
  pub evidence_kind : EvidenceKind
  pub auth_profile : String
  pub metadata : ByRole Metadata
  pub fingerprint : Fingerprint
  pub environment : Environment
  pub setup_duration_ms : ℕ
  pub experiment_id : Option String
  pub task_id : Option String
  pub repetition : Option ℕ
  pub task_hash : Option String
  pub source_hash : Option String
  pub validator_hash : Option String

-- A text that is a revision's 40 hexadecimal digits, by the test `is_revision`; an absent one has none.
abbrev revision_of : (String → Bool) → Option String → Option String
revision_of is_revision none = none
revision_of is_revision (some text) = if is_revision text then some text else none

abbrev dirty_of : Option String → Option Bool
dirty_of none = none
dirty_of (some text) =
    if str_eq text "true" then some true else if str_eq text "false" then some false else none

abbrev previous_of : Option String → Option String
previous_of none = none
previous_of (some id) = if str_eq id "" then none else if str_eq id "-" then none else some id

-- `hash` is the SHA-256 of the printed metadata.
abbrev provenance_model : (Metadata → String) → Metadata → ProvenanceModel
provenance_model hash m = record {
  provider = m.model.provider;
  model = m.model.id;
  metadata_hash = hash m;
}

module _ {F P : Type 0} (setup : Setup F P) (is_revision : String → Bool)
    (hash : Metadata → String) where
  unfoldable pub provenance : RecorderOptions → RunProvenance
  provenance o = record {
    lab_revision = revision_of is_revision o.environment.lab_revision;
    lab_dirty = dirty_of o.environment.lab_dirty;
    pi_version = "0.85.0";
    switchyard_revision = "2dd67d76ad12961f92359153e03686773e3e8761";
    agent_image_id = o.environment.lab_agent_image_id;
    config_hash = o.fingerprint.config_hash;
    capability_card_hash = o.fingerprint.capability_card_hash;
    model_metadata_hash = o.fingerprint.model_metadata_hash;
    provider_config_hash = o.fingerprint.provider_config_hash;
    auth_profile = o.auth_profile;
    mode = setup.mode;
    limits = setup.config.execution;
    models = record {
      classifier = provenance_model hash o.metadata.classifier;
      weak = provenance_model hash o.metadata.weak;
      strong = provenance_model hash o.metadata.strong;
    };
    task_hash = o.task_hash;
    source_hash = o.source_hash;
    validator_hash = o.validator_hash;
    previous_attempt_id = previous_of o.environment.lab_previous_attempt_id;
  }

  unfoldable pub start_options : RecorderOptions → String → StartOptions
  start_options o now = record {
    identity = record {
      project_id = o.project_id;
      pi_session_id = o.pi_session_id;
      run_id = o.run_id;
      attempt_id = o.run_id;
      decision_id = none;
      experiment_id = o.experiment_id;
      task_id = o.task_id;
      repetition = o.repetition;
    };
    evidence_kind = o.evidence_kind;
    mode = setup.mode;
    provenance = provenance o;
    started_at = now;
    setup_duration_ms = o.setup_duration_ms;
  }

  -- The fields of the class, as they are initialised.
  abbrev pub recorder_of : Store F P → Recorder F P
  recorder_of s = record {
    store = s;
    usage = [];
    decision = none;
    decision_observation = none;
    served_model = none;
    routing_started_at = none;
    routing_duration_ms = none;
    agent_started_at = none;
    agent_duration_ms = none;
    last_error = none;
    limit_failure = none;
    write_error = false;
    patch_captured = false;
    finalized_result = none;
  }

  -- The startup event is awaited, so it is written when the recorder is given back.
  unfoldable pub start : RecorderOptions → String → Result RecorderError (Recorder F P)
  start o now =
      let (after, w) =
        append_event setup.codec (start_attempt (start_options o now)) startup
          (setup.payload
            (started setup.mode o.evidence_kind o.auth_profile o.fingerprint.config_hash))
          (untagged now) in
      elim w [ err e ↦ err (store e) | ok u ↦ ok (recorder_of (drain after)) ]
