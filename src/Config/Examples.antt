-- ===== src/Config/Examples.antt =====
-- Configurations at which the theorems on the lab configuration apply.
use downshift.Base.{ℕ, ◌≡◌, refl, ◌≤◌, ◌↔◌, none, ok}
use downshift.Config.{
  unknown, ByRole, RawRole, RawConfig, LabConfig, LabModelRole, ExecutionConfig, Model,
  CommonModelEnvelope, resolve_common_model_envelope, validate_coding_compatibility,
}
use downshift.Config.Envelope.{
  FitsContext, FitsOutput, IsCompatible, envelope_greatest, coding_accepted_iff,
}

abbrev limits : ExecutionConfig
limits = record {
  max_agent_turns = 40;
  timeout_seconds = 1800;
  request_timeout_seconds = 300;
  validation_timeout_seconds = 300;
  context_token_cap = 200000;
  max_output_tokens = 32000;
}

abbrev raw_model : RawRole ℕ
raw_model = record { provider = "mock"; model = "weak"; billing = none; pricing = none }

abbrev raw_config : RawConfig ℕ
raw_config = record {
  auth_profile = "default";
  models = record { classifier = raw_model; weak = raw_model; strong = raw_model };
  routing = record { weak_threshold = 60; weak_capability_description = "small edits" };
  execution = limits;
}

abbrev lab_model : LabModelRole ℕ
lab_model = record { provider = "mock"; model = "weak"; billing = unknown; pricing = none }

abbrev lab_config : LabConfig ℕ
lab_config = record {
  auth_profile = "default";
  models = record { classifier = lab_model; weak = lab_model; strong = lab_model };
  routing = record { weak_threshold = 60; weak_capability_description = "small edits" };
  execution = limits;
}

abbrev coding_model : Model
coding_model = record {
  provider = "mock";
  id = "coder";
  context_window = 128000;
  max_tokens = 16000;
}

abbrev small_model : Model
small_model = record { provider = "mock"; id = "judge"; context_window = 8000; max_tokens = 4000 }

abbrev roles : ByRole Model
roles = record { classifier = small_model; weak = coding_model; strong = coding_model }

abbrev envelope : CommonModelEnvelope
envelope = record {
  context_token_cap = 128000;
  max_output_tokens = 16000;
  classifier_max_output_tokens = 4000;
}

envelope_greatest_example :
    ((n : ℕ) → FitsContext limits roles n ↔ (n ≤ 128000))
    × ((n : ℕ) → FitsOutput limits roles 128000 n ↔ (n ≤ 16000))
    × (1 ≤ 128000)
    × (1 ≤ 16000)
    × (1 ≤ 4000)
unfolding resolve_common_model_envelope
envelope_greatest_example = envelope_greatest limits roles {v = envelope} refl

coding_accepted_iff_example :
    ((v : CommonModelEnvelope) × (validate_coding_compatibility limits roles ≡ ok v))
    ↔ IsCompatible limits roles
coding_accepted_iff_example = coding_accepted_iff limits roles
