-- ===== src/Usage/Summary.antt =====
-- What a usage summary says of the calls that it summarises.
use downshift.Base.{
  ℕ, ◌+◌, ◌≤◌, ◌≡◌, refl, ◌↔◌, Bool, true, not, Option, none, some, List, [], ◌∷◌, arith, length,
  filter, count, All, is_some, ◌⊎◌, inl, inr, Bool-cases, ◌==◌,
}
use downshift.Usage.{
  UsageRole, RecordedUsage, NormalizedUsage, UsageSummary, complete, observed, summarize, or_zero,
  UsageLedger, calls, summaries, same_role, sum_of,
}
use downshift.Usage.Normalize.{IsNormal}

pub length-observed :
    (rs : List RecordedUsage) → length (observed rs) ≡ count (λ r. is_some r.usage) rs
length-observed [] = refl
length-observed (r ∷ rs) = ground (arith, length-observed rs)

observed-le : (rs : List RecordedUsage) → length (observed rs) ≤ length rs
observed-le [] = omega arith
observed-le (r ∷ rs) = ground (arith, observed-le rs)

-- Every call is either observed or missing.
pub summarize_accounts :
    (rs : List RecordedUsage)
    → ((summarize rs).observed_calls ≡ length (observed rs))
      × ((summarize rs).observed_calls + (summarize rs).missing_calls ≡ length rs)
unfolding summarize
summarize_accounts rs = ground (arith, observed-le rs)

-- A call with usage that was confirmed to be complete.
abbrev pub IsConfirmed : RecordedUsage → Type 0
IsConfirmed r = (is_some r.usage ≡ true) × (r.complete ≡ true)

early : List RecordedUsage → ℕ
early rs = count (λ r. not r.1) (observed rs)

of_all_seen :
    (rs : List RecordedUsage) → length (observed rs) ≡ length rs → early rs ≡ 0 → All IsConfirmed rs
unfolding early
of_all_seen [] h e = tt
of_all_seen (r ∷ rs) h e = ground (arith, observed-le rs, of_all_seen rs)

all_seen :
    (rs : List RecordedUsage)
    → All IsConfirmed rs
    → (length (observed rs) ≡ length rs) × (early rs ≡ 0)
unfolding early
all_seen [] h = (refl, refl)
all_seen (r ∷ rs) h = ground (arith, all_seen rs h.1)

-- A summary is complete exactly when every call of the group has usage that was confirmed to be
-- complete.
pub status_complete :
    (rs : List RecordedUsage) → ((summarize rs).status ≡ complete) ↔ All IsConfirmed rs
unfolding summarize early
status_complete [] = ((λ _. tt), (λ _. refl))
status_complete (r ∷ rs) = (
  (λ h. ground (arith, observed-le rs, observed-le (r ∷ rs), of_all_seen (r ∷ rs))),
  (λ h. ground (arith, all_seen (r ∷ rs) h)),
)

abbrev pub IsNormalUsage : Option NormalizedUsage → Type 0
IsNormalUsage none = Unit
IsNormalUsage (some u) = IsNormal u

sums_balanced :
    (rs : List RecordedUsage)
    → All (λ r. IsNormalUsage r.usage) rs
    → sum_of (λ u. u.input_tokens) (observed rs)
        + sum_of (λ u. u.output_tokens) (observed rs)
        + sum_of (λ u. u.cache_read_tokens) (observed rs)
        + sum_of (λ u. u.cache_write_tokens) (observed rs)
      ≡ sum_of (λ u. u.total_tokens) (observed rs)
sums_balanced [] h = refl
sums_balanced (r ∷ rs) h = ground (arith, sums_balanced rs h.1)

-- The four categories and the total of a summary are known, and add up.
abbrev pub AddsUp : UsageSummary → Type 0
AddsUp s =
    (i : ℕ) × (o : ℕ) × (r : ℕ) × (w : ℕ) × (s.input_tokens ≡ some i)
    × (s.output_tokens ≡ some o)
    × (s.cache_read_tokens ≡ some r)
    × (s.cache_write_tokens ≡ some w)
    × (s.total_tokens ≡ some (i + o + r + w))

abbrev pub IsUnknown : UsageSummary → Type 0
IsUnknown s =
    (s.input_tokens ≡ none)
    × (s.output_tokens ≡ none)
    × (s.cache_read_tokens ≡ none)
    × (s.cache_write_tokens ≡ none)
    × (s.total_tokens ≡ none)

-- If every usage in a group is normalized: where the group has calls and none of them has usage, the
-- four categories of its summary and their total are all unknown, never 0; where a call has usage, or
-- there is no call, all five are known and the categories add up to the total.
pub summarize_balanced :
    (rs : List RecordedUsage)
    → All (λ r. IsNormalUsage r.usage) rs
    → ((1 ≤ length rs) × (count (λ r. is_some r.usage) rs ≡ 0) × IsUnknown (summarize rs))
      ⊎ (((length rs ≡ 0) ⊎ (1 ≤ count (λ r. is_some r.usage) rs)) × AddsUp (summarize rs))
unfolding summarize
summarize_balanced [] h = inr (inl refl, (0, 0, 0, 0, refl, refl, refl, refl, refl))
summarize_balanced (r ∷ rs) h =
    let l = r ∷ rs in
    elim (Bool-cases (length (observed l) == 0)) [
      | inl e ↦
          let zero : count (λ x. is_some x.usage) l ≡ 0 = ground (arith, e, length-observed l) in
          inl (
            omega arith,
            zero,
            (
              ground (arith, e),
              ground (arith, e),
              ground (arith, e),
              ground (arith, e),
              ground (arith, e),
            ),
          )
      | inr e ↦
          let seen : 1 ≤ count (λ x. is_some x.usage) l = ground (arith, e, length-observed l) in
          inr (
            inr seen,
            (
              sum_of (λ u. u.input_tokens) (observed l),
              sum_of (λ u. u.output_tokens) (observed l),
              sum_of (λ u. u.cache_read_tokens) (observed l),
              sum_of (λ u. u.cache_write_tokens) (observed l),
              ground (arith, e),
              ground (arith, e),
              ground (arith, e),
              ground (arith, e),
              ground (arith, e, sums_balanced l h),
            ),
          )
    ]

total_tokens-summarize :
    (rs : List RecordedUsage)
    → or_zero (summarize rs).total_tokens ≡ sum_of (λ u. u.total_tokens) (observed rs)
unfolding summarize
total_tokens-summarize [] = refl
total_tokens-summarize (r ∷ rs) = ground (arith, no_tokens (observed (r ∷ rs)))
  where
    no_tokens :
        (seen : List (NormalizedUsage × Bool))
        → length seen ≡ 0
        → sum_of (λ u. u.total_tokens) seen ≡ 0
    no_tokens [] e = refl
    no_tokens (x ∷ xs) e = absurd (omega arith)

-- One role's share of a ledger's calls.
share : UsageRole → List RecordedUsage → List RecordedUsage
share role rs = filter (λ r. same_role r.role role) rs

tokens : List RecordedUsage → ℕ
tokens rs = sum_of (λ u. u.total_tokens) (observed rs)

shares :
    (rs : List RecordedUsage)
    → (length (share UsageRole.classifier rs)
          + length (share UsageRole.coding rs)
          + length (share UsageRole.compaction rs)
        ≡ length rs)
      × (length (observed (share UsageRole.classifier rs))
            + length (observed (share UsageRole.coding rs))
            + length (observed (share UsageRole.compaction rs))
          ≡ length (observed rs))
      × (tokens (share UsageRole.classifier rs)
            + tokens (share UsageRole.coding rs)
            + tokens (share UsageRole.compaction rs)
          ≡ tokens rs)
unfolding share tokens
shares [] = (refl, refl, refl)
shares (r ∷ rs) = ground (arith, shares rs)

-- The total of a ledger's summaries is the sum of its three roles, in observed calls, in missing
-- calls and in tokens (0 where they are unknown).
pub summaries_partition :
    (l : UsageLedger)
    → let s = summaries l in
      (s.classifier.observed_calls + s.coding.observed_calls + s.compaction.observed_calls
        ≡ s.total.observed_calls)
      × (s.classifier.missing_calls + s.coding.missing_calls + s.compaction.missing_calls
          ≡ s.total.missing_calls)
      × (or_zero s.classifier.total_tokens
            + or_zero s.coding.total_tokens
            + or_zero s.compaction.total_tokens
          ≡ or_zero s.total.total_tokens)
unfolding summaries share tokens
summaries_partition l = omega (
  arith,
  shares (calls l),
  summarize_accounts (calls l),
  summarize_accounts (share UsageRole.classifier (calls l)),
  summarize_accounts (share UsageRole.coding (calls l)),
  summarize_accounts (share UsageRole.compaction (calls l)),
  total_tokens-summarize (calls l),
  total_tokens-summarize (share UsageRole.classifier (calls l)),
  total_tokens-summarize (share UsageRole.coding (calls l)),
  total_tokens-summarize (share UsageRole.compaction (calls l)),
)
