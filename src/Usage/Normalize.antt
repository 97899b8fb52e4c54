-- ===== src/Usage/Normalize.antt =====
-- `normalizeUsage` accepts exactly the usage whose categories add up.
use downshift.Base.{ℕ, ◌+◌, ◌≤◌, ◌≡◌, ◌↔◌, Option, none, some, ok, arith}
use downshift.Usage.{
  NormalizedUsage, ProviderUsage, Reported, whole, max_safe_integer, normalize_usage,
}

abbrev pub Within : Option ℕ → ℕ → Type 0
Within none n = Unit
Within (some r) n = (r ≤ max_safe_integer) × (r ≤ n)

-- The contract of a normalized usage.
pub record IsNormal (n : NormalizedUsage) : Type 0 where
  pub balanced :
      n.input_tokens + n.output_tokens + n.cache_read_tokens + n.cache_write_tokens ≡ n.total_tokens
  pub input_safe : n.input_tokens ≤ max_safe_integer
  pub output_safe : n.output_tokens ≤ max_safe_integer
  pub cache_read_safe : n.cache_read_tokens ≤ max_safe_integer
  pub cache_write_safe : n.cache_write_tokens ≤ max_safe_integer
  pub total_safe : n.total_tokens ≤ max_safe_integer
  pub reasoning_within : Within n.reasoning_tokens n.output_tokens

abbrev whole? : Option ℕ → Option Reported
whole? none = none
whole? (some r) = some (whole r)

-- What a provider reports to give this usage.
abbrev pub reported : NormalizedUsage → ProviderUsage
reported n = record {
  input = whole n.input_tokens;
  output = whole n.output_tokens;
  cache_read = whole n.cache_read_tokens;
  cache_write = whole n.cache_write_tokens;
  reasoning = whole? n.reasoning_tokens;
  total_tokens = whole n.total_tokens;
}

normalize_usage-reported : (n : NormalizedUsage) → IsNormal n → normalize_usage (reported n) ≡ ok n
unfolding normalize_usage
normalize_usage-reported n h = ground arith

pub normalize_usage-IsNormal :
    (u : ProviderUsage) (n : NormalizedUsage)
    → normalize_usage u ≡ ok n
    → (u ≡ reported n) × IsNormal n
unfolding normalize_usage
normalize_usage-IsNormal u n h = ground arith

-- `normalizeUsage` returns `n` for exactly one report, the one with the numbers of `n`, and only when
-- the four categories of `n` add up to its total, its reasoning tokens are at most its output
-- tokens, and every number is a safe integer.
pub normalize_usage_iff :
    (u : ProviderUsage) (n : NormalizedUsage)
    → (normalize_usage u ≡ ok n) ↔ ((u ≡ reported n) × IsNormal n)
normalize_usage_iff u n =
    (normalize_usage-IsNormal u n, λ h. rw (h.0) (normalize_usage-reported n h.1))
