-- ===== src/Experiment/Budget.antt =====
-- `monetaryLimitReason` and `conservativeTrialCostBound` of src/evaluation/smoke.ts.
use downshift.Base.{
  Option-cases, inl, inr, ◌↔◌, false, ◌≡◌, ◌↔◌, false, ◌||◌, not, Option, none, some, Result, ok,
  err, if◌then◌else◌, is_none, arith,
}
use downshift.Base.Number.{Number}
use downshift.Config.{
  Billing, per_token, Rates, ModelPricing, LabModelRole, LabConfig, ExecutionConfig,
}
use downshift.Usage.Cost.{is_per_token}
use downshift.Decision.{SessionMode, weak_only, strong_only, routed}

pub data Role : Type 0 where
  classifier weak strong : Role

pub data LimitReason : Type 0 where
  uses_billing : Role → Billing → LimitReason
  lacks_cache_pricing : Role → LimitReason

-- The first reason in the order of the roles.
abbrev or_else : Option LimitReason → Option LimitReason → Option LimitReason
or_else none r = r
or_else (some r) _ = some r

module _ {F : Type 0} where
  role_reason : Role → LabModelRole F → Option LimitReason
  role_reason role m = elim m.pricing [
    | none ↦ some (uses_billing role m.billing)
    | some p ↦
        if not (is_per_token m.billing)
        then some (uses_billing role m.billing)
        else if is_none p.rates.cache_read_per_million || is_none p.rates.cache_write_per_million
        then some (lacks_cache_pricing role)
        else none
  ]

  pub monetary_limit_reason : LabConfig F → Option LimitReason
  unfolding role_reason
  monetary_limit_reason config =
      or_else (role_reason classifier config.models.classifier)
        (or_else (role_reason weak config.models.weak) (role_reason strong config.models.strong))

  -- A model that is billed per token with a complete price list.
  pub record IsMetered (m : LabModelRole F) : Type 0 where
    pub billed : m.billing ≡ per_token
    pub prices : ModelPricing F
    pub listed : m.pricing ≡ some prices
    pub cache_read : is_none prices.rates.cache_read_per_million ≡ false
    pub cache_write : is_none prices.rates.cache_write_per_million ≡ false

  role_reason_iff : (role : Role) (m : LabModelRole F) → (role_reason role m ≡ none) ↔ IsMetered m
  unfolding role_reason
  role_reason_iff role m = (
    λ h. elim (Option-cases m.pricing) [
      | inl e ↦ absurd (ground arith)
      | inr (p, e) ↦ record {
        billed = ground arith;
        prices = p;
        listed = e;
        cache_read = ground arith;
        cache_write = ground arith;
      }
    ],
    λ h. ground (arith, h.billed, h.listed, h.cache_read, h.cache_write),
  )

  -- A monetary limit is supported exactly when all three models are billed per token with a complete
  -- price list, both cache prices included.
  pub monetary_limit_iff :
      (config : LabConfig F)
      → (monetary_limit_reason config ≡ none) ↔ (
          IsMetered config.models.classifier
          × IsMetered config.models.weak
          × IsMetered config.models.strong)
  unfolding monetary_limit_reason
  monetary_limit_iff config =
      let c = role_reason_iff classifier config.models.classifier in
      let w = role_reason_iff weak config.models.weak in
      let s = role_reason_iff strong config.models.strong in
      (
        λ h. (c.0 (ground arith), w.0 (ground arith), s.0 (ground arith)),
        λ h. ground (arith, c.1 h.0, w.1 h.1, s.1 h.2),
      )

module _ {F : Type 0} (num : Number F) where
  open num use {zero_f, add, mul, div, of_ℕ, lt}

  abbrev max_f : F → F → F
  max_f a b = if lt a b then b else a

  abbrev price_or_zero : Option F → F
  price_or_zero none = zero_f
  price_or_zero (some p) = p

  -- A price that is absent here has been refused by `monetaryLimitReason`.
  rates_bound : ExecutionConfig → Rates F → F
  rates_bound e p =
      div
        (add
          (mul (of_ℕ e.context_token_cap) (
            max_f (max_f p.input_per_million (price_or_zero p.cache_read_per_million))
              (price_or_zero p.cache_write_per_million)))
          (mul (of_ℕ e.max_output_tokens) p.output_per_million))
        (of_ℕ 1000000)

  request_bound : ExecutionConfig → LabModelRole F → F
  unfolding rates_bound
  request_bound e m = elim m.pricing [ none ↦ zero_f | some p ↦ rates_bound e p.rates ]

  coding_bound : LabConfig F → SessionMode → F
  unfolding request_bound
  coding_bound c weak_only = request_bound c.execution c.models.weak
  coding_bound c strong_only = request_bound c.execution c.models.strong
  coding_bound c routed =
      max_f (request_bound c.execution c.models.weak) (request_bound c.execution c.models.strong)

  classifier_bound : LabConfig F → SessionMode → F
  unfolding request_bound
  classifier_bound c routed = request_bound c.execution c.models.classifier
  classifier_bound c _ = zero_f

  unfoldable pub conservative_trial_cost_bound : LabConfig F → SessionMode → Result LimitReason F
  unfolding monetary_limit_reason coding_bound classifier_bound
  conservative_trial_cost_bound c mode = elim (monetary_limit_reason c) [
    | some reason ↦ err reason
    | none ↦ ok (
        add (mul (coding_bound c mode) (of_ℕ c.execution.max_agent_turns))
          (classifier_bound c mode))
  ]
