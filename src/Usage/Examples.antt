-- ===== src/Usage/Examples.antt =====
-- Usage and ledgers at which the theorems on them apply.
use downshift.Base.{
  ℕ, ◌+◌, ◌≡◌, ◌≢◌, ◌↔◌, ◌⊎◌, refl, String, true, false, none, some, List, [], ◌∷◌, ◌++◌, ok, err,
  arith, All, if◌then◌else◌, str_eq, ◌≤◌, length, count, is_some,
}
use downshift.Base.Number.{natural_numbers}
use downshift.Config.{per_token, Rates, LabModelRole}
use downshift.Usage.{
  UsageRole, NormalizedUsage, RecordedUsage, UsageError, complete, UsageLedger, normalize_usage,
  lookup, record_usage, summarize, summaries, or_zero,
}
use downshift.Usage.Normalize.{IsNormal, reported, normalize_usage_iff}
use downshift.Usage.Ledger.{
  UniqueIds, entry, lookup-record_usage, record_usage-UniqueIds, record_usage_refuses,
}
use downshift.Usage.Summary.{
  IsConfirmed, AddsUp, IsUnknown, status_complete, summarize_balanced, summaries_partition,
}
use downshift.Usage.Cost.{calculate_role_cost, calculate_with_pricing, estimate_needs_evidence}

abbrev usage : NormalizedUsage
usage = record {
  input_tokens = 10;
  output_tokens = 5;
  cache_read_tokens = 2;
  cache_write_tokens = 1;
  reasoning_tokens = some 3;
  total_tokens = 18;
}

normalize_usage_iff_example :
    (normalize_usage (reported usage) ≡ ok usage)
    ↔ ((reported usage ≡ reported usage) × IsNormal usage)
normalize_usage_iff_example = normalize_usage_iff (reported usage) usage

abbrev coding_call : RecordedUsage
coding_call = record { role = UsageRole.coding; usage = some usage; complete = true }

abbrev silent_call : RecordedUsage
silent_call = record { role = UsageRole.classifier; usage = none; complete = false }

abbrev ledger : UsageLedger
ledger = ("call-1", silent_call) ∷ []

abbrev longer : UsageLedger
longer = ("call-1", silent_call) ∷ ("call-2", coding_call) ∷ []

recorded : record_usage ledger "call-2" UsageRole.coding (some usage) true ≡ ok (longer, true)
unfolding record_usage
recorded = refl

lookup-record_usage_example :
    lookup "call-1" longer
    ≡ (if str_eq "call-2" "call-1" then some coding_call else lookup "call-1" ledger)
lookup-record_usage_example =
    lookup-record_usage ledger "call-2" UsageRole.coding (some usage) true {l' = longer}
      {fresh = true} recorded "call-1"

record_usage-UniqueIds_example :
    UniqueIds longer
    × ((true ≡ true) ↔ (lookup "call-2" ledger ≡ none))
    × (longer ≡ ledger ++ ("call-2", coding_call) ∷ [])
record_usage-UniqueIds_example =
    record_usage-UniqueIds ledger "call-2" UsageRole.coding (some usage) true {l' = longer}
      {fresh = true} (refl, tt) recorded

abbrev call_1 : String
call_1 = "call-1"

record_usage_refuses_example :
    ((e : UsageError) × (record_usage ledger call_1 UsageRole.coding (some usage) true ≡ err e)) ↔ (
      (call_1 ≡ "")
      ⊎ ((r : RecordedUsage) × (lookup call_1 ledger ≡ some r)
          × (r ≢ entry UsageRole.coding (some usage) true)))
record_usage_refuses_example = record_usage_refuses ledger call_1 UsageRole.coding (some usage) true

abbrev two_calls : List RecordedUsage
two_calls = silent_call ∷ coding_call ∷ []

status_complete_example : ((summarize two_calls).status ≡ complete) ↔ All IsConfirmed two_calls
status_complete_example = status_complete two_calls

usage-IsNormal : IsNormal usage
usage-IsNormal = ground arith

summarize_balanced_example :
    ((1 ≤ length two_calls)
      × (count (λ r. is_some r.usage) two_calls ≡ 0)
      × IsUnknown (summarize two_calls))
    ⊎ (((length two_calls ≡ 0) ⊎ (1 ≤ count (λ r. is_some r.usage) two_calls))
        × AddsUp (summarize two_calls))
summarize_balanced_example = summarize_balanced two_calls (tt, (usage-IsNormal, tt))

summaries_partition_example :
    ((summaries longer).classifier.observed_calls
        + (summaries longer).coding.observed_calls
        + (summaries longer).compaction.observed_calls
      ≡ (summaries longer).total.observed_calls)
    × ((summaries longer).classifier.missing_calls
          + (summaries longer).coding.missing_calls
          + (summaries longer).compaction.missing_calls
        ≡ (summaries longer).total.missing_calls)
    × (or_zero (summaries longer).classifier.total_tokens
          + or_zero (summaries longer).coding.total_tokens
          + or_zero (summaries longer).compaction.total_tokens
        ≡ or_zero (summaries longer).total.total_tokens)
summaries_partition_example = summaries_partition longer

abbrev rates : Rates ℕ
rates = record {
  input_per_million = 3000000;
  output_per_million = 15000000;
  cache_read_per_million = some 1000000;
  cache_write_per_million = some 2000000;
}

abbrev metered : LabModelRole ℕ
metered = record {
  provider = "mock";
  model = "coder";
  billing = per_token;
  pricing = some (record { rates = rates; as_of = "2026-01-01" });
}

priced :
    (calculate_role_cost natural_numbers metered
      (summarize (coding_call ∷ []))
      none).estimated_cost_usd
    ≡ some 109
unfolding calculate_role_cost summarize calculate_with_pricing
priced = refl

estimate_needs_evidence_example :
    (per_token ≡ per_token) × (metered.pricing ≢ none) × All IsConfirmed (coding_call ∷ [])
estimate_needs_evidence_example =
    estimate_needs_evidence natural_numbers metered (coding_call ∷ []) none {cost = 109} priced
