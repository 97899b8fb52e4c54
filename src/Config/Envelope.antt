-- ===== src/Config/Envelope.antt =====
-- The common limits of the configured models.
use downshift.Base.{ℕ, min, ◌≤◌, ◌≡◌, ◌↔◌, ok, arith}
use downshift.Config.{
  ByRole, Model, ExecutionConfig, CommonModelEnvelope, resolve_common_model_envelope,
  validate_coding_compatibility,
}

-- A context size that the configuration and both coding models allow.
abbrev pub FitsContext : ExecutionConfig → ByRole Model → ℕ → Type 0
FitsContext e roles n =
    (n ≤ e.context_token_cap) × (n ≤ roles.weak.context_window) × (n ≤ roles.strong.context_window)

-- An output size that fits a context.
abbrev pub FitsOutput : ExecutionConfig → ByRole Model → ℕ → ℕ → Type 0
FitsOutput e roles context n =
    (n ≤ e.max_output_tokens)
    × (n ≤ roles.weak.max_tokens)
    × (n ≤ roles.strong.max_tokens)
    × (n ≤ context)

-- The envelope's context and output limits are positive, are allowed by the configuration and both
-- coding models, and are the largest such limits; the classifier's output limit is positive.
pub envelope_greatest :
    (e : ExecutionConfig) (roles : ByRole Model) {v : CommonModelEnvelope}
    → resolve_common_model_envelope e roles ≡ ok v
    → ((n : ℕ) → FitsContext e roles n ↔ (n ≤ v.context_token_cap))
      × ((n : ℕ) → FitsOutput e roles v.context_token_cap n ↔ (n ≤ v.max_output_tokens))
      × (1 ≤ v.context_token_cap)
      × (1 ≤ v.max_output_tokens)
      × (1 ≤ v.classifier_max_output_tokens)
unfolding resolve_common_model_envelope
envelope_greatest e roles h = (
  λ n. (ground arith, ground arith),
  λ n. (ground arith, ground arith),
  ground arith,
  ground arith,
  ground arith,
)

-- Limits of the two coding models and the classifier that Pi can be run with unchanged.
pub record IsCompatible (e : ExecutionConfig) (roles : ByRole Model) : Type 0 where
  pub same_context : roles.weak.context_window ≡ roles.strong.context_window
  pub same_output : roles.weak.max_tokens ≡ roles.strong.max_tokens
  pub context_allowed : roles.weak.context_window ≤ e.context_token_cap
  pub output_allowed : roles.weak.max_tokens ≤ e.max_output_tokens
  pub output_in_context : roles.weak.max_tokens ≤ roles.weak.context_window
  pub context_positive : 1 ≤ roles.weak.context_window
  pub output_positive : 1 ≤ roles.weak.max_tokens
  pub classifier_output : 1 ≤ roles.classifier.max_tokens
  pub classifier_context : 1 ≤ roles.classifier.context_window

-- A configuration is accepted for coding exactly when the two coding models have the same native
-- limits, which are positive, within the configured caps, and with an output no longer than the
-- context, and the classifier's limits are positive.
pub coding_accepted_iff :
    (e : ExecutionConfig) (roles : ByRole Model)
    → ((v : CommonModelEnvelope) × (validate_coding_compatibility e roles ≡ ok v))
      ↔ IsCompatible e roles
unfolding validate_coding_compatibility resolve_common_model_envelope
coding_accepted_iff e roles = (
  λ h. ground arith,
  λ c. (
    record {
      context_token_cap = roles.weak.context_window;
      max_output_tokens = roles.weak.max_tokens;
      classifier_max_output_tokens =
          min (min e.max_output_tokens roles.classifier.max_tokens) roles.classifier.context_window;
    },
    ground arith,
  ),
)
