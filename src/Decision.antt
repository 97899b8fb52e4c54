-- ===== src/Decision.antt =====
-- src/pi/session-routing.ts: the data of a routing decision.
use downshift.Base.{ℕ, String, Option, List}

pub data SessionMode : Type 0 where
  weak_only strong_only routed : SessionMode

pub SessionMode-discrete : Discrete SessionMode
SessionMode-discrete = hlevel

pub data Tier : Type 0 where
  weak strong : Tier

pub Tier-discrete : Discrete Tier
Tier-discrete = hlevel

pub data DecisionSource : Type 0 where
  classifier classifier_fallback fixed_baseline : DecisionSource

pub data FallbackReason : Type 0 where
  invalid_verdict : FallbackReason

pub record ModelIdentity : Type 0 where
  pub provider : String
  pub model : String
  pub provider_reported_model_id : Option String

pub record ClassifierTiming : Type 0 where
  pub duration_ms : ℕ
  pub input_tokens : Option ℕ
  pub output_tokens : Option ℕ

-- `ConfigFingerprint` of src/config/lab-config.ts.
pub record ConfigFingerprint : Type 0 where
  pub value : String
  pub config_hash : String
  pub model_metadata_hash : String
  pub provider_config_hash : String
  pub capability_card_hash : String

-- `F` is the type of probabilities and thresholds.
pub record RoutingDecision (F : Type 0) : Type 0 where
  pub project_id : String
  pub pi_session_id : String
  pub run_id : String
  pub decision_id : String
  pub mode : SessionMode
  pub selected_tier : Tier
  pub selected_model : ModelIdentity
  pub weak_solve_probability : Option F
  pub threshold : F
  pub source : DecisionSource
  pub fallback_reason : Option FallbackReason
  pub classifier : Option ClassifierTiming
  pub fingerprint : ConfigFingerprint
  pub auth_profile : String
  pub timestamp : String
  pub missing_reasons : List String
