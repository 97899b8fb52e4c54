-- ===== src/Analysis/Categories.antt =====
-- `primaryCategory` and the loop of `aggregateExperiment` that counts the groups.
pub mod Balance
use downshift.Base.{
  ℕ, suc, ◌+◌, Bool, true, false, ◌&&◌, Option, none, some, [], ◌∷◌, is_some, tally,
}
use downshift.Decision.{Tier, classifier_fallback, RoutingDecision}
use downshift.Analysis.{Group, Pairs, verdict, decision_of}

pub data PrimaryCategory : Type 0 where
  incomplete_comparison correct_efficiency under_route unresolved_weak_failure : PrimaryCategory
  correct_capability over_route missed_weak_success unresolved_strong_failure : PrimaryCategory

-- A routed trial that ran on the weak model, and whether it passed; compared with the strong baseline.
weak_category : Bool → Option Bool → PrimaryCategory
weak_category true strong = correct_efficiency
weak_category false none = incomplete_comparison
weak_category false (some true) = under_route
weak_category false (some false) = unresolved_weak_failure

-- A routed trial that ran on the strong model, compared with the weak baseline.
strong_category : Bool → Option Bool → PrimaryCategory
strong_category passed none = incomplete_comparison
strong_category true (some true) = over_route
strong_category true (some false) = correct_capability
strong_category false (some true) = missed_weak_success
strong_category false (some false) = unresolved_strong_failure

tier_category : Tier → Bool → Option Bool → Option Bool → PrimaryCategory
unfolding weak_category strong_category
tier_category Tier.weak passed weak strong = weak_category passed strong
tier_category Tier.strong passed weak strong = strong_category passed weak

abbrev pub tier_of : {F : Type 0} → Option (RoutingDecision F) → Option Tier
tier_of none = none
tier_of (some d) = some d.selected_tier

-- The category of the outcomes of the baselines and of the routed trial with its tier.
category_of : Option Bool → Option Bool → Option Bool → Option Tier → PrimaryCategory
unfolding tier_category
category_of weak strong none tier = incomplete_comparison
category_of weak strong (some passed) none = incomplete_comparison
category_of weak strong (some passed) (some tier) = tier_category tier passed weak strong

pub primary_category : {F : Type 0} → Group F → PrimaryCategory
unfolding category_of
primary_category g =
    category_of (verdict g.weak) (verdict g.strong) (verdict g.routed)
      (tier_of (decision_of g.routed))

pub record CategoryCounts : Type 0 where
  pub incomplete_comparison : ℕ
  pub correct_efficiency : ℕ
  pub under_route : ℕ
  pub unresolved_weak_failure : ℕ
  pub correct_capability : ℕ
  pub over_route : ℕ
  pub missed_weak_success : ℕ
  pub unresolved_strong_failure : ℕ

-- `categories[category]++`
bump : PrimaryCategory → CategoryCounts → CategoryCounts
bump incomplete_comparison c = record c { incomplete_comparison = suc c.incomplete_comparison }
bump correct_efficiency c = record c { correct_efficiency = suc c.correct_efficiency }
bump under_route c = record c { under_route = suc c.under_route }
bump unresolved_weak_failure c = record c {
  unresolved_weak_failure = suc c.unresolved_weak_failure;
}
bump correct_capability c = record c { correct_capability = suc c.correct_capability }
bump over_route c = record c { over_route = suc c.over_route }
bump missed_weak_success c = record c { missed_weak_success = suc c.missed_weak_success }
bump unresolved_strong_failure c = record c {
  unresolved_strong_failure = suc c.unresolved_strong_failure;
}

-- `baselineContingency`
pub record Contingency : Type 0 where
  pub weak_pass_strong_pass : ℕ
  pub weak_pass_strong_fail : ℕ
  pub weak_fail_strong_pass : ℕ
  pub weak_fail_strong_fail : ℕ
  pub incomplete : ℕ

contingent : Option Bool → Option Bool → Contingency → Contingency
contingent (some true) (some true) c = record c {
  weak_pass_strong_pass = suc c.weak_pass_strong_pass;
}
contingent (some true) (some false) c = record c {
  weak_pass_strong_fail = suc c.weak_pass_strong_fail;
}
contingent (some false) (some true) c = record c {
  weak_fail_strong_pass = suc c.weak_fail_strong_pass;
}
contingent (some false) (some false) c = record c {
  weak_fail_strong_fail = suc c.weak_fail_strong_fail;
}
contingent _ _ c = record c { incomplete = suc c.incomplete }

-- The counters of the loop.
pub record Tallies : Type 0 where
  pub categories : CategoryCounts
  pub contingency : Contingency
  pub complete_triplets : ℕ
  pub under_complete : ℕ
  pub over_complete : ℕ
  pub under_denominator : ℕ
  pub over_denominator : ℕ
  pub weak_baseline_pass : ℕ
  pub weak_baseline_fail : ℕ
  pub strong_baseline_pass : ℕ
  pub strong_baseline_fail : ℕ
  pub classifier_fallback : ℕ
  pub selected_model_baseline_disagreement : ℕ
  pub both_baselines_failed : ℕ

pub no_tallies : Tallies
no_tallies = record {
  categories = record {
    incomplete_comparison = 0;
    correct_efficiency = 0;
    under_route = 0;
    unresolved_weak_failure = 0;
    correct_capability = 0;
    over_route = 0;
    missed_weak_success = 0;
    unresolved_strong_failure = 0;
  };
  contingency = record {
    weak_pass_strong_pass = 0;
    weak_pass_strong_fail = 0;
    weak_fail_strong_pass = 0;
    weak_fail_strong_fail = 0;
    incomplete = 0;
  };
  complete_triplets = 0;
  under_complete = 0;
  over_complete = 0;
  under_denominator = 0;
  over_denominator = 0;
  weak_baseline_pass = 0;
  weak_baseline_fail = 0;
  strong_baseline_pass = 0;
  strong_baseline_fail = 0;
  classifier_fallback = 0;
  selected_model_baseline_disagreement = 0;
  both_baselines_failed = 0;
}

abbrev pub is_fallback : {F : Type 0} → Option (RoutingDecision F) → Bool
is_fallback none = false
is_fallback (some d) = elim d.source [ classifier_fallback ↦ true | _ ↦ false ]

abbrev is_category : PrimaryCategory → PrimaryCategory → Bool
is_category under_route under_route = true
is_category over_route over_route = true
is_category _ _ = false

abbrev passed : Option Bool → Bool
passed (some true) = true
passed _ = false

abbrev failed : Option Bool → Bool
failed (some false) = true
failed _ = false

abbrev is_tier : Tier → Option Tier → Bool
is_tier Tier.weak (some Tier.weak) = true
is_tier Tier.strong (some Tier.strong) = true
is_tier _ _ = false

-- The outcome of the baseline on the routed trial's own tier.
abbrev own_baseline : Option Tier → Option Bool → Option Bool → Option Bool
own_baseline (some Tier.weak) weak strong = weak
own_baseline (some Tier.strong) weak strong = strong
own_baseline none weak strong = none

abbrev disagrees : Option Bool → Option Bool → Bool
disagrees (some true) (some false) = true
disagrees (some false) (some true) = true
disagrees _ _ = false

-- One turn of the loop on a group, by the outcomes, the tier and the fallback of the routed decision.
count_group : Option Bool → Option Bool → Option Bool → Option Tier → Bool → Tallies → Tallies
unfolding category_of bump contingent
count_group weak strong routed tier fallback s =
    let category = category_of weak strong routed tier in
    let complete = is_some weak && (is_some strong && (is_some routed && is_some tier)) in
    record {
      categories = bump category s.categories;
      contingency = contingent weak strong s.contingency;
      complete_triplets = tally complete + s.complete_triplets;
      under_complete = tally (complete && is_category category under_route) + s.under_complete;
      over_complete = tally (complete && is_category category over_route) + s.over_complete;
      under_denominator =
          tally (is_some routed && (is_tier Tier.weak tier && is_some strong))
          + s.under_denominator;
      over_denominator =
          tally (is_some routed && (is_tier Tier.strong tier && is_some weak)) + s.over_denominator;
      weak_baseline_pass = tally (passed weak) + s.weak_baseline_pass;
      weak_baseline_fail = tally (failed weak) + s.weak_baseline_fail;
      strong_baseline_pass = tally (passed strong) + s.strong_baseline_pass;
      strong_baseline_fail = tally (failed strong) + s.strong_baseline_fail;
      classifier_fallback = tally fallback + s.classifier_fallback;
      selected_model_baseline_disagreement =
          tally (disagrees (own_baseline tier weak strong) routed)
          + s.selected_model_baseline_disagreement;
      both_baselines_failed = tally (failed weak && failed strong) + s.both_baselines_failed;
    }

pub tally_groups : {F : Type 0} → Pairs F → Tallies → Tallies
unfolding count_group
tally_groups [] s = s
tally_groups ((k, g) ∷ ps) s = tally_groups ps (
    count_group (verdict g.weak) (verdict g.strong) (verdict g.routed)
      (tier_of (decision_of g.routed)) (is_fallback (decision_of g.routed)) s)
