-- ===== src/Usage/Cost.antt =====
-- The cost of a role's usage (`calculateWithPricing`, `calculateRoleCost`).
use downshift.Base.{
  ℕ, ◌≡◌, ◌≢◌, String, Bool, true, false, ◌&&◌, Option, none, some, List, [], ◌∷◌, ◌++◌, arith, not,
  if◌then◌else◌, ltb, ◌==◌, is_none, All,
}
use downshift.Base.Number.{Number}
use downshift.Config.{Billing, per_token, Rates, ModelPricing, LabModelRole}
use downshift.Usage.{RecordedUsage, SummaryStatus, complete, UsageSummary, summarize}
use downshift.Usage.Summary.{IsConfirmed, status_complete, summarize_accounts}

pub data MissingCost : Type 0 where
  billing_not_per_token : Billing → MissingCost
  estimate_incomplete reference_incomplete no_reference_pricing : MissingCost

pub record RoleCost (F : Type 0) : Type 0 where
  pub billing : Billing
  pub in_usd : Bool
  pub pricing_as_of : Option String
  pub estimated_cost_usd : Option F
  pub reference_cost_usd : Option F
  pub missing_reasons : List MissingCost

abbrev pub is_per_token : Billing → Bool
is_per_token per_token = true
is_per_token _ = false

abbrev is_complete : SummaryStatus → Bool
is_complete complete = true
is_complete _ = false

module _ {F : Type 0} (num : Number F) where
  open num use {zero_f, add, mul, div, of_ℕ}

  -- `usage.cacheReadTokens > 0 && pricing.cacheReadPerMillion === undefined`
  abbrev unpriced : ℕ → Option F → Bool
  unpriced tokens rate = ltb 0 tokens && is_none rate

  abbrev rate_or_zero : Option F → F
  rate_or_zero none = zero_f
  rate_or_zero (some r) = r

  price : ℕ → ℕ → ℕ → ℕ → Rates F → Option F
  price i o cr cw p =
      if unpriced cr p.cache_read_per_million
      then none
      else if unpriced cw p.cache_write_per_million
      then none
      else some (
          div
            (add
              (add (add (mul (of_ℕ i) p.input_per_million) (mul (of_ℕ o) p.output_per_million))
                (mul (of_ℕ cr) (rate_or_zero p.cache_read_per_million)))
              (mul (of_ℕ cw) (rate_or_zero p.cache_write_per_million)))
            (of_ℕ 1000000))

  price_known : Option ℕ → Option ℕ → Option ℕ → Option ℕ → Rates F → Option F
  unfolding price
  price_known (some i) (some o) (some cr) (some cw) p = price i o cr cw p
  price_known _ _ _ _ _ = none

  unfoldable pub calculate_with_pricing : UsageSummary → Rates F → Option F
  unfolding price_known
  calculate_with_pricing u p =
      if u.observed_calls == 0 && u.missing_calls == 0
      then some zero_f
      else if is_complete u.status
      then price_known u.input_tokens u.output_tokens u.cache_read_tokens u.cache_write_tokens p
      else none

  abbrev priced_at : UsageSummary → Option (Rates F) → Option F
  priced_at u none = none
  priced_at u (some p) = calculate_with_pricing u p

  abbrev rates_of : Option (ModelPricing F) → Option (Rates F)
  rates_of none = none
  rates_of (some p) = some p.rates

  abbrev date_of : Option (ModelPricing F) → Option String
  date_of none = none
  date_of (some p) = some p.as_of

  unfoldable pub calculate_role_cost : LabModelRole F → UsageSummary → Option (Rates F) → RoleCost F
  calculate_role_cost role u reference =
      let metered = is_per_token role.billing in
      let estimated = if metered then priced_at u (rates_of role.pricing) else none in
      let referenced = priced_at u reference in
      record {
        billing = role.billing;
        in_usd = metered;
        pricing_as_of = if metered then date_of role.pricing else none;
        estimated_cost_usd = estimated;
        reference_cost_usd = referenced;
        missing_reasons =
            (if metered
              then (if is_none estimated then estimate_incomplete ∷ [] else [])
              else billing_not_per_token role.billing ∷ [])
            ++ (if not (is_none reference) && is_none referenced
                then reference_incomplete ∷ []
                else [])
            ++ (if is_none reference then no_reference_pricing ∷ [] else []);
      }

  -- If an estimate is given for a group of calls, the role is billed per token with a price list, and
  -- usage was reported and confirmed for every call of the group; so no cost is ever put on a
  -- call whose usage is missing.
  pub estimate_needs_evidence :
      (role : LabModelRole F) (rs : List RecordedUsage) (reference : Option (Rates F)) {cost : F}
      → (calculate_role_cost role (summarize rs) reference).estimated_cost_usd ≡ some cost
      → (role.billing ≡ per_token) × (role.pricing ≢ none) × All IsConfirmed rs
  unfolding calculate_role_cost calculate_with_pricing
  estimate_needs_evidence role [] reference h = (ground arith, ground arith, tt)
  estimate_needs_evidence role (r ∷ rs) reference h = (
    ground arith,
    ground arith,
    (status_complete (r ∷ rs)).0 (ground (arith, summarize_accounts (r ∷ rs))),
  )
