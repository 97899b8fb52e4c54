-- ===== src/Usage.antt =====
-- src/artifacts/usage.ts: token usage of provider calls, its ledger, its summaries and their cost.
-- Token counts are exact natural numbers; prices and costs are numbers of the parameter `Number`.
pub mod Normalize
pub mod Ledger
pub mod Summary
pub mod Cost
mod Examples
use downshift.Base.{
  ℕ, zero, suc, ◌+◌, ◌-◌, String, Bool, true, false, not, ◌&&◌, ◌||◌, Option, none, some, List, [],
  ◌∷◌, ◌++◌, ℕ_discrete, Result, ok, err, ◌>>=◌, ◌>>◌, throw_if, ltb, leb, ◌==◌, if◌then◌else◌,
  holds, is_none, is_some, length, filter, count, all, any, sum_by, str_eq, map,
}
use downshift.Base.Number.{Number}

pub data UsageRole : Type 0 where
  classifier coding compaction : UsageRole

pub UsageRole-discrete : Discrete UsageRole
UsageRole-discrete = hlevel

pub record NormalizedUsage : Type 0 where
  pub input_tokens : ℕ
  pub output_tokens : ℕ
  pub cache_read_tokens : ℕ
  pub cache_write_tokens : ℕ
  pub reasoning_tokens : Option ℕ
  pub total_tokens : ℕ

pub data SummaryStatus : Type 0 where
  complete partial unknown : SummaryStatus

-- The texts of `missingReasons`, with the numbers that are put into them.
pub data MissingUsage : Type 0 where
  no_calls absent_everywhere no_reasoning : MissingUsage
  absent ended_early : ℕ → MissingUsage

pub record UsageSummary : Type 0 where
  pub status : SummaryStatus
  pub observed_calls : ℕ
  pub missing_calls : ℕ
  pub input_tokens : Option ℕ
  pub output_tokens : Option ℕ
  pub cache_read_tokens : Option ℕ
  pub cache_write_tokens : Option ℕ
  pub reasoning_tokens : Option ℕ
  pub total_tokens : Option ℕ
  pub missing_reasons : List MissingUsage

pub record RecordedUsage : Type 0 where
  pub role : UsageRole
  pub usage : Option NormalizedUsage
  pub complete : Bool

-- A number that a provider reports: `other` stands for every value that is negative, fractional or
-- not finite.
pub data Reported : Type 0 where
  whole : ℕ → Reported
  other : Reported

-- Pi's `Usage`, without its cost.
pub record ProviderUsage : Type 0 where
  pub input : Reported
  pub output : Reported
  pub cache_read : Reported
  pub cache_write : Reported
  pub reasoning : Option Reported
  pub total_tokens : Reported

pub data UsageError : Type 0 where
  not_a_safe_integer : String → UsageError
  total_mismatch : ℕ → ℕ → UsageError
  reasoning_exceeds_output empty_call_id conflicting_duplicate : UsageError

-- `Number.MAX_SAFE_INTEGER`
abbrev pub max_safe_integer : ℕ
max_safe_integer = 9007199254740991

pub nonnegative_integer : Reported → String → Result UsageError ℕ
nonnegative_integer (whole n) name =
    if leb n max_safe_integer then ok n else err (not_a_safe_integer name)
nonnegative_integer other name = err (not_a_safe_integer name)

optional_integer : Option Reported → String → Result UsageError (Option ℕ)
unfolding nonnegative_integer
optional_integer none name = ok none
optional_integer (some r) name = nonnegative_integer r name >>= λ n. ok (some n)

abbrev exceeds : Option ℕ → ℕ → Bool
exceeds none n = false
exceeds (some r) n = ltb n r

-- A sum of four safe integers that leaves the safe range differs from a safe total in binary64 too,
-- so the exact sum gives the same test.
unfoldable pub normalize_usage : ProviderUsage → Result UsageError NormalizedUsage
unfolding nonnegative_integer optional_integer
normalize_usage u = do
  i ← nonnegative_integer u.input "input"
  o ← nonnegative_integer u.output "output"
  cr ← nonnegative_integer u.cache_read "cacheRead"
  cw ← nonnegative_integer u.cache_write "cacheWrite"
  r ← optional_integer u.reasoning "reasoning"
  t ← nonnegative_integer u.total_tokens "totalTokens"
  throw_if (not (i + o + cr + cw == t)) (total_mismatch t (i + o + cr + cw))
  throw_if (exceeds r o) reasoning_exceeds_output
  ok (record {
    input_tokens = i;
    output_tokens = o;
    cache_read_tokens = cr;
    cache_write_tokens = cw;
    reasoning_tokens = r;
    total_tokens = t;
  })

-- The calls with usage, each with its `complete` flag.
abbrev pub observed : List RecordedUsage → List (NormalizedUsage × Bool)
observed [] = []
observed (r ∷ rs) =
    let rest = observed rs in elim r.usage [ none ↦ rest | some u ↦ (u, r.complete) ∷ rest ]

abbrev pub or_zero : Option ℕ → ℕ
or_zero none = 0
or_zero (some n) = n

-- The summary of a group of calls for none of which usage was reported.
unknown_summary : List RecordedUsage → ℕ → UsageSummary
unknown_summary records missing = record {
  status = unknown;
  observed_calls = 0;
  missing_calls = missing;
  input_tokens = none;
  output_tokens = none;
  cache_read_tokens = none;
  cache_write_tokens = none;
  reasoning_tokens = none;
  total_tokens = none;
  missing_reasons = (if length records == 0 then no_calls else absent_everywhere) ∷ [];
}

empty_summary : UsageSummary
empty_summary = record {
  status = complete;
  observed_calls = 0;
  missing_calls = 0;
  input_tokens = some 0;
  output_tokens = some 0;
  cache_read_tokens = some 0;
  cache_write_tokens = some 0;
  reasoning_tokens = some 0;
  total_tokens = some 0;
  missing_reasons = [];
}

abbrev sum_of : (NormalizedUsage → ℕ) → List (NormalizedUsage × Bool) → ℕ
sum_of field = sum_by (λ r. field r.0)

observed_summary : List (NormalizedUsage × Bool) → ℕ → UsageSummary
observed_summary seen missing =
    let early = count (λ r. not r.1) seen in
    let reasoned = all (λ r. is_some r.0.reasoning_tokens) seen in
    record {
      status = if missing == 0 && early == 0 then complete else partial;
      observed_calls = length seen;
      missing_calls = missing;
      input_tokens = some (sum_of (λ u. u.input_tokens) seen);
      output_tokens = some (sum_of (λ u. u.output_tokens) seen);
      cache_read_tokens = some (sum_of (λ u. u.cache_read_tokens) seen);
      cache_write_tokens = some (sum_of (λ u. u.cache_write_tokens) seen);
      reasoning_tokens =
          if reasoned then some (sum_of (λ u. or_zero u.reasoning_tokens) seen) else none;
      total_tokens = some (sum_of (λ u. u.total_tokens) seen);
      missing_reasons =
          (if ltb 0 missing then absent missing ∷ [] else [])
          ++ (if ltb 0 early then ended_early early ∷ [] else [])
          ++ (if reasoned then [] else no_reasoning ∷ []);
    }

-- The two tests of `summarize` on the number of calls and of calls with usage.
unfoldable pub summarize : List RecordedUsage → UsageSummary
unfolding empty_summary unknown_summary observed_summary
summarize records =
    let seen = observed records in
    let missing = length records - length seen in
    if length records == 0
    then empty_summary
    else if length seen == 0
    then unknown_summary records missing
    else observed_summary seen missing

-- `UsageLedger.calls`: a Map in insertion order.
abbrev pub UsageLedger : Type 0
UsageLedger = List (String × RecordedUsage)

abbrev pub lookup : String → UsageLedger → Option RecordedUsage
lookup k [] = none
lookup k ((j, r) ∷ l) = let rest = lookup k l in if str_eq j k then some r else rest

NormalizedUsage-discrete : Discrete NormalizedUsage
NormalizedUsage-discrete = hlevel ℕ_discrete

pub RecordedUsage-discrete : Discrete RecordedUsage
RecordedUsage-discrete = hlevel (ℕ_discrete, NormalizedUsage-discrete)

-- The comparison of `JSON.stringify(existing)` with `JSON.stringify(next)`: both sides have the same
-- keys in the same order, so it is equality of the values.
pub same_record : RecordedUsage → RecordedUsage → Bool
unfolding RecordedUsage-discrete
same_record r s = holds (RecordedUsage-discrete r s)

-- `UsageLedger.record`, on the entry that the ledger holds under the call's ID.
record_over :
    UsageLedger
    → Option RecordedUsage
    → String
    → RecordedUsage
    → Result UsageError (UsageLedger × Bool)
record_over ledger none id next = ok (ledger ++ (id, next) ∷ [], true)
record_over ledger (some existing) id next =
    if same_record existing next then ok (ledger, false) else err conflicting_duplicate

-- The new ledger, and whether the call was new.
unfoldable pub record_usage :
    UsageLedger
    → String
    → UsageRole
    → Option NormalizedUsage
    → Bool
    → Result UsageError (UsageLedger × Bool)
unfolding record_over
record_usage ledger id role usage done = do
  throw_if (str_eq id "") empty_call_id
  record_over ledger (lookup id ledger) id (record { role = role; usage = usage; complete = done })

abbrev pub calls : UsageLedger → List RecordedUsage
calls = map (λ e. e.1)

abbrev pub same_role : UsageRole → UsageRole → Bool
same_role classifier classifier = true
same_role coding coding = true
same_role compaction compaction = true
same_role _ _ = false

pub record UsageSummaries : Type 0 where
  pub classifier : UsageSummary
  pub coding : UsageSummary
  pub compaction : UsageSummary
  pub total : UsageSummary

abbrev by_role : UsageLedger → UsageRole → UsageSummary
by_role ledger role = summarize (filter (λ r. same_role r.role role) (calls ledger))

unfoldable pub summaries : UsageLedger → UsageSummaries
summaries ledger = record {
  classifier = by_role ledger UsageRole.classifier;
  coding = by_role ledger UsageRole.coding;
  compaction = by_role ledger UsageRole.compaction;
  total = summarize (calls ledger);
}

pub summary_for_roles : UsageLedger → List UsageRole → UsageSummary
summary_for_roles ledger roles =
    summarize (filter (λ r. any (same_role r.role) roles) (calls ledger))
