-- ===== src/Analysis.antt =====
-- src/evaluation/analysis.ts: the trials of an experiment, in groups of one task and repetition.
-- The key of a group is the pair of its task ID and repetition: the text that the source joins them to
-- has a NUL between them, which no task ID holds.
pub mod Pairs
pub mod Records
pub mod Report
pub mod Categories
pub mod Replay
mod Examples
use downshift.Base.{
  ℕ, ◌+◌, String, Bool, true, false, ◌&&◌, not, Option, none, some, List, [], ◌∷◌, Result, ok, err,
  ◌>>=◌, if◌then◌else◌, is_some, ◌==◌, str_eq,
}
use downshift.Decision.{
  SessionMode, weak_only, strong_only, routed, Tier, DecisionSource, classifier,
  classifier_fallback, fixed_baseline, RoutingDecision,
}
use downshift.Runs.{RunResult}
use downshift.Runs.Outcome.{TrialOutcome}

pub record ResolvedTrial (F : Type 0) : Type 0 where
  pub trial_id : String
  pub task_id : String
  pub repetition : ℕ
  pub mode : SessionMode
  pub outcome : TrialOutcome
  pub result : Option (RunResult F)
  pub physical_attempts : List (RunResult F)
  pub incomplete_physical_attempts : ℕ

-- `Partial<Record<EvaluationMode, ResolvedTrial>>`
pub record Group (F : Type 0) : Type 0 where
  pub weak : Option (ResolvedTrial F)
  pub strong : Option (ResolvedTrial F)
  pub routed : Option (ResolvedTrial F)

-- `isEvaluated`, with the outcome: whether the trial passed.
abbrev pub evaluated : TrialOutcome → Option Bool
evaluated TrialOutcome.pass = some true
evaluated TrialOutcome.fail = some false
evaluated _ = none

module _ {F : Type 0} where
  abbrev pub verdict : Option (ResolvedTrial F) → Option Bool
  verdict none = none
  verdict (some t) = evaluated t.outcome

  abbrev pub decision_in : Option (RunResult F) → Option (RoutingDecision F)
  decision_in none = none
  decision_in (some r) = r.decision

  -- `trial?.result?.decision`
  abbrev pub decision_of : Option (ResolvedTrial F) → Option (RoutingDecision F)
  decision_of none = none
  decision_of (some t) = decision_in t.result

-- `byPair`: a Map in insertion order.
abbrev pub Pairs : Type 0 → Type 0
Pairs F = List ((String × ℕ) × Group F)

pub data AnalysisError : Type 0 where
  duplicate_trial : String → AnalysisError

module _ {F : Type 0} where
  abbrev pub empty_group : Group F
  empty_group = record { weak = none; strong = none; routed = none }

  -- `group[mode]`
  abbrev pub slot : SessionMode → Group F → Option (ResolvedTrial F)
  slot weak_only g = g.weak
  slot strong_only g = g.strong
  slot routed g = g.routed

  abbrev pub put : ResolvedTrial F → SessionMode → Group F → Group F
  put t weak_only g = record g { weak = some t }
  put t strong_only g = record g { strong = some t }
  put t routed g = record g { routed = some t }

  abbrev same_key : String × ℕ → ResolvedTrial F → Bool
  same_key k t = str_eq k.0 t.task_id && k.1 == t.repetition

  -- One turn of the loop over the trials.
  add_trial : Pairs F → ResolvedTrial F → Result AnalysisError (Pairs F)
  add_trial [] t = ok (((t.task_id, t.repetition), put t t.mode empty_group) ∷ [])
  add_trial ((k, g) ∷ ps) t =
      let rest = add_trial ps t >>= λ qs. ok ((k, g) ∷ qs) in
      if same_key k t
      then (if is_some (slot t.mode g)
          then err (duplicate_trial t.trial_id)
          else ok ((k, put t t.mode g) ∷ ps))
      else rest

  add_trials : Pairs F → List (ResolvedTrial F) → Result AnalysisError (Pairs F)
  unfolding add_trial
  add_trials ps [] = ok ps
  add_trials ps (t ∷ ts) = add_trial ps t >>= λ qs. add_trials qs ts

  unfoldable pub by_pair : List (ResolvedTrial F) → Result AnalysisError (Pairs F)
  unfolding add_trials
  by_pair trials = add_trials [] trials
