-- ===== src/Analysis/Report.antt =====
-- The counts of an experiment's report: `aggregateExperiment` (its refusals, modes, counts, routing)
-- and the checks of `validateExperimentReport` of src/evaluation/analysis.ts. `shape_ok` is the test
-- of `validateFinite` and the report's schema, save that a negative count is refused by the
-- schema: it reads the counts, and the fields that are not modelled are part of the test.
pub mod Sums
use downshift.Base.{
  ℕ, zero, suc, ◌+◌, ◌-◌, ◌≤◌, ◌≡◌, ◌↔◌, refl, Bool, true, false, ◌&&◌, ◌||◌, not, Option, none,
  some, List, [], ◌∷◌, Result, ok, err, ◌>>=◌, ◌>>◌, throw_if, if◌then◌else◌, is_some, ltb, leb,
  ◌==◌, length, count, filter, tally, arith, any,
}
use downshift.Decision.{
  SessionMode, weak_only, strong_only, routed, Tier, DecisionSource, classifier,
  classifier_fallback, fixed_baseline, RoutingDecision,
}
use downshift.Runs.Outcome.{TrialOutcome, unavailable, incomplete}
use downshift.Experiment.Dispatch.{same_mode, is_evaluated}
use downshift.Runs.{RunResult, EvidenceKind}
use downshift.Analysis.Records.{same_evidence}
use downshift.Analysis.{ResolvedTrial, decision_in, Pairs, AnalysisError, by_pair}

pub record ModeCounts : Type 0 where
  pub planned : ℕ
  pub pass : ℕ
  pub fail : ℕ
  pub unavailable : ℕ
  pub incomplete : ℕ

pub record Counts : Type 0 where
  pub planned : ℕ
  pub evaluated : ℕ
  pub unavailable : ℕ
  pub incomplete : ℕ

pub record Routing : Type 0 where
  pub decisions : ℕ
  pub weak : ℕ
  pub strong : ℕ
  pub normal : ℕ
  pub fallback : ℕ

pub record Report : Type 0 where
  pub counts : Counts
  pub routing : Routing
  pub weak_only : ModeCounts
  pub strong_only : ModeCounts
  pub routed : ModeCounts

pub data ReportError : Type 0 where
  mixed_evidence_kinds unclassified_routed : ReportError
  ungrouped : AnalysisError → ReportError
  negative_count invalid_report inconsistent_counts : ReportError

abbrev is_outcome : TrialOutcome → TrialOutcome → Bool
is_outcome TrialOutcome.pass TrialOutcome.pass = true
is_outcome TrialOutcome.fail TrialOutcome.fail = true
is_outcome unavailable unavailable = true
is_outcome incomplete incomplete = true
is_outcome _ _ = false

abbrev is_weak : Tier → Bool
is_weak Tier.weak = true
is_weak Tier.strong = false

abbrev is_normal : DecisionSource → Bool
is_normal classifier = true
is_normal _ = false

abbrev pub from_classifier : DecisionSource → Bool
from_classifier classifier = true
from_classifier classifier_fallback = true
from_classifier fixed_baseline = false

validate_report : Report → Result ReportError Report
validate_report r = do
  throw_if
      (not (r.counts.evaluated + r.counts.unavailable + r.counts.incomplete == r.counts.planned)
        || (not (r.routing.weak + r.routing.strong == r.routing.decisions)
            || not (r.routing.normal + r.routing.fallback == r.routing.decisions)))
      inconsistent_counts
  ok r

module _ {F : Type 0} where
  abbrev outcomes : TrialOutcome → List (ResolvedTrial F) → ℕ
  outcomes o = count (λ t. is_outcome t.outcome o)

  mode_counts : ℕ → SessionMode → List (ResolvedTrial F) → ModeCounts
  mode_counts planned mode trials =
      let selected = filter (λ t. same_mode t.mode mode) trials in
      record {
        planned = planned;
        pass = outcomes TrialOutcome.pass selected;
        fail = outcomes TrialOutcome.fail selected;
        unavailable = outcomes TrialOutcome.unavailable selected;
        incomplete = outcomes TrialOutcome.incomplete selected;
      }

  abbrev has_decision : ResolvedTrial F → Bool
  has_decision t = same_mode t.mode SessionMode.routed && is_some (decision_in t.result)

  abbrev decided : (RoutingDecision F → Bool) → Option (RoutingDecision F) → Bool
  decided p none = false
  decided p (some d) = p d

  routing : List (ResolvedTrial F) → Routing
  routing trials =
      let decisions = filter has_decision trials in
      let weak =
        count (λ t. decided (λ d. is_weak d.selected_tier) (decision_in t.result)) decisions in
      let normal =
        count (λ t. decided (λ d. is_normal d.source) (decision_in t.result)) decisions in
      record {
        decisions = length decisions;
        weak = weak;
        strong = length decisions - weak;
        normal = normal;
        fallback = length decisions - normal;
      }

  -- The trials that have an outcome other than "incomplete".
  abbrev pub finished : List (ResolvedTrial F) → ℕ
  finished = count (λ t. not (is_outcome t.outcome TrialOutcome.incomplete))

  counts : ℕ → List (ResolvedTrial F) → Counts
  counts planned trials = record {
    planned = planned;
    evaluated = count (λ t. is_evaluated t.outcome) trials;
    unavailable = outcomes TrialOutcome.unavailable trials;
    incomplete = planned - finished trials;
  }

  -- `scheduled` is the length of the schedule, and `planned` the number of trials of a mode.
  pub report_of : ℕ → ℕ → List (ResolvedTrial F) → Report
  unfolding mode_counts routing counts
  report_of scheduled planned trials = record {
    counts = counts scheduled trials;
    routing = routing trials;
    weak_only = mode_counts planned SessionMode.weak_only trials;
    strong_only = mode_counts planned SessionMode.strong_only trials;
    routed = mode_counts planned SessionMode.routed trials;
  }

  -- The evidence is of another kind than the manifest's.
  abbrev pub is_mixed : EvidenceKind → Option (RunResult F) → Bool
  is_mixed kind none = false
  is_mixed kind (some r) = not (same_evidence r.evidence_kind kind)

  -- The trial is routed, and its decision does not come from the classifier.
  abbrev pub is_unclassified : ResolvedTrial F → Bool
  is_unclassified t =
      same_mode t.mode SessionMode.routed
      && decided (λ d. not (from_classifier d.source)) (decision_in t.result)

  abbrev pub grouped : List (ResolvedTrial F) → Result ReportError (Pairs F)
  grouped trials = elim (by_pair trials) [ ok ps ↦ ok ps | err e ↦ err (ungrouped e) ]

  pub aggregate_report :
      EvidenceKind → (Report → Bool) → ℕ → ℕ → List (ResolvedTrial F) → Result ReportError Report
  unfolding report_of validate_report
  aggregate_report kind shape_ok scheduled planned trials = do
    throw_if (any (λ t. is_mixed kind t.result) trials) mixed_evidence_kinds
    throw_if (any is_unclassified trials) unclassified_routed
    groups ← grouped trials
    throw_if (ltb scheduled (finished trials)) negative_count
    throw_if (not (shape_ok (report_of scheduled planned trials))) invalid_report
    validate_report (report_of scheduled planned trials)
