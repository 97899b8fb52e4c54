-- ===== src/Config.antt =====
-- src/config/lab-config.ts: the lab configuration, and the limits that the configured models share.
-- The JSON schema check is Ajv's: it enters as a test of the raw configuration.
pub mod Validate
pub mod Envelope
mod Examples
use downshift.Base.{
  ℕ, min, String, Bool, true, false, not, ◌||◌, Option, none, some, List, [], ◌∷◌, Result, ok, err,
  ◌>>=◌, ◌>>◌, throw_if, ltb, ◌==◌, if◌then◌else◌, any,
}

pub data Billing : Type 0 where
  unknown subscription per_token : Billing

-- Prices per million tokens.
pub record Rates (F : Type 0) : Type 0 where
  pub input_per_million : F
  pub output_per_million : F
  pub cache_read_per_million : Option F
  pub cache_write_per_million : Option F

-- `ModelPricing`; its currency is always USD.
pub record ModelPricing (F : Type 0) : Type 0 where
  pub rates : Rates F
  pub as_of : String

pub record LabModelRole (F : Type 0) : Type 0 where
  pub provider : String
  pub model : String
  pub billing : Billing
  pub pricing : Option (ModelPricing F)

-- One value for each role of `MODEL_ROLES`.
pub record ByRole (A : Type 0) : Type 0 where
  pub classifier : A
  pub weak : A
  pub strong : A

pub record RoutingConfig (F : Type 0) : Type 0 where
  pub weak_threshold : F
  pub weak_capability_description : String

pub record ExecutionConfig : Type 0 where
  pub max_agent_turns : ℕ
  pub timeout_seconds : ℕ
  pub request_timeout_seconds : ℕ
  pub validation_timeout_seconds : ℕ
  pub context_token_cap : ℕ
  pub max_output_tokens : ℕ

pub record LabConfig (F : Type 0) : Type 0 where
  pub auth_profile : String
  pub models : ByRole (LabModelRole F)
  pub routing : RoutingConfig F
  pub execution : ExecutionConfig

-- A role as it is written in a file: `billing` may be absent.
pub record RawRole (F : Type 0) : Type 0 where
  pub provider : String
  pub model : String
  pub billing : Option Billing
  pub pricing : Option (ModelPricing F)

pub record RawConfig (F : Type 0) : Type 0 where
  pub auth_profile : String
  pub models : ByRole (RawRole F)
  pub routing : RoutingConfig F
  pub execution : ExecutionConfig

pub data ConfigError : Type 0 where
  invalid_shape request_timeout_exceeds_timeout no_positive_limits native_limits_differ :
      ConfigError

abbrev billing_or_unknown : Option Billing → Billing
billing_or_unknown none = unknown
billing_or_unknown (some b) = b

module _ {F : Type 0} where
  normalize_role : RawRole F → LabModelRole F
  normalize_role r = record {
    provider = r.provider;
    model = r.model;
    billing = billing_or_unknown r.billing;
    pricing = r.pricing;
  }

  -- `matches_schema` is the compiled `LAB_CONFIG_SCHEMA`.
  pub validate_config : (RawConfig F → Bool) → RawConfig F → Result ConfigError (LabConfig F)
  unfolding normalize_role
  validate_config matches_schema raw = do
    throw_if (not (matches_schema raw)) invalid_shape
    throw_if (ltb raw.execution.timeout_seconds raw.execution.request_timeout_seconds)
        request_timeout_exceeds_timeout
    ok (record {
      auth_profile = raw.auth_profile;
      models = record {
        classifier = normalize_role raw.models.classifier;
        weak = normalize_role raw.models.weak;
        strong = normalize_role raw.models.strong;
      };
      routing = raw.routing;
      execution = raw.execution;
    })

-- What the program reads of Pi's `Model<Api>`.
pub record Model : Type 0 where
  pub provider : String
  pub id : String
  pub context_window : ℕ
  pub max_tokens : ℕ

pub record CommonModelEnvelope : Type 0 where
  pub context_token_cap : ℕ
  pub max_output_tokens : ℕ
  pub classifier_max_output_tokens : ℕ

pub record LibraryPolicy (F : Type 0) : Type 0 where
  pub weak_threshold : F
  pub weak_capability_description : String
  pub max_output_tokens : ℕ

pub resolve_common_model_envelope :
    ExecutionConfig → ByRole Model → Result ConfigError CommonModelEnvelope
resolve_common_model_envelope execution roles =
    let context =
      min (min execution.context_token_cap roles.weak.context_window) roles.strong.context_window in
    let output =
      min (min (min execution.max_output_tokens roles.weak.max_tokens) roles.strong.max_tokens)
        context in
    let classifier_output =
      min (min execution.max_output_tokens roles.classifier.max_tokens)
        roles.classifier.context_window in
    if ltb context 1 || ltb output 1 || ltb classifier_output 1
    then err no_positive_limits
    else ok (record {
      context_token_cap = context;
      max_output_tokens = output;
      classifier_max_output_tokens = classifier_output;
    })

pub create_library_policy :
    {F : Type 0} → LabConfig F → ByRole Model → Result ConfigError (LibraryPolicy F)
create_library_policy config roles = do
  envelope ← resolve_common_model_envelope config.execution roles
  ok (record {
    weak_threshold = config.routing.weak_threshold;
    weak_capability_description = config.routing.weak_capability_description;
    max_output_tokens = envelope.classifier_max_output_tokens;
  })

differs : CommonModelEnvelope → Model → Bool
differs e m =
    not (m.context_window == e.context_token_cap) || not (m.max_tokens == e.max_output_tokens)

pub validate_coding_compatibility :
    ExecutionConfig → ByRole Model → Result ConfigError CommonModelEnvelope
unfolding differs
validate_coding_compatibility execution roles = do
  envelope ← resolve_common_model_envelope execution roles
  throw_if (any (differs envelope) (roles.weak ∷ roles.strong ∷ [])) native_limits_differ
  ok envelope
