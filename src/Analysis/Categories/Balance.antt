-- ===== src/Analysis/Categories/Balance.antt =====
-- The counts of `aggregateExperiment` add up, and its rates are at most 1.
use downshift.Base.{ℕ, suc, ◌+◌, ◌≤◌, ◌≡◌, Bool, Option, [], ◌∷◌, arith, length, subst}
use downshift.Decision.{Tier}
use downshift.Analysis.{Pairs, verdict, decision_of}
use downshift.Analysis.Categories.{
  CategoryCounts, Contingency, Tallies, no_tallies, count_group, tally_groups, tier_of, is_fallback,
}

abbrev pub categories_total : CategoryCounts → ℕ
categories_total c =
    c.incomplete_comparison + c.correct_efficiency + c.under_route + c.unresolved_weak_failure
    + c.correct_capability + c.over_route + c.missed_weak_success + c.unresolved_strong_failure

abbrev pub contingency_total : Contingency → ℕ
contingency_total c =
    c.weak_pass_strong_pass + c.weak_pass_strong_fail + c.weak_fail_strong_pass
    + c.weak_fail_strong_fail + c.incomplete

-- The tallies of `n` groups.
pub record IsBalanced (n : ℕ) (s : Tallies) : Type 0 where
  pub every_category : categories_total s.categories ≡ n
  pub every_contingency : contingency_total s.contingency ≡ n
  pub under_within : s.categories.under_route ≤ s.under_denominator
  pub over_within : s.categories.over_route ≤ s.over_denominator
  pub compared : s.complete_triplets + s.categories.incomplete_comparison ≤ n
  pub under_complete : s.under_complete ≤ s.categories.under_route
  pub over_complete : s.over_complete ≤ s.categories.over_route
  pub routes_complete : s.under_complete + s.over_complete ≤ s.complete_triplets
  pub baselines_failed : s.both_baselines_failed ≡ s.contingency.weak_fail_strong_fail

no_tallies-IsBalanced : IsBalanced 0 no_tallies
unfolding no_tallies
no_tallies-IsBalanced = ground arith

count_group-IsBalanced :
    (weak strong routed : Option Bool) (tier : Option Tier) (fallback : Bool) (n : ℕ) (s : Tallies)
    → IsBalanced n s
    → IsBalanced (suc n) (count_group weak strong routed tier fallback s)
unfolding count_group
count_group-IsBalanced weak strong routed tier fallback n s h = record {
  every_category = ground (arith, h.every_category);
  every_contingency = ground (arith, h.every_contingency);
  under_within = ground (arith, h.under_within);
  over_within = ground (arith, h.over_within);
  compared = ground (arith, h.compared);
  under_complete = ground (arith, h.under_complete);
  over_complete = ground (arith, h.over_complete);
  routes_complete = ground (arith, h.routes_complete);
  baselines_failed = ground (arith, h.baselines_failed);
}

tally_groups-from :
    {F : Type 0} (groups : Pairs F) (n : ℕ) (s : Tallies)
    → IsBalanced n s
    → IsBalanced (length groups + n) (tally_groups groups s)
unfolding tally_groups
tally_groups-from [] n s h = subst (λ k. IsBalanced k s) (omega arith) h
tally_groups-from ((k', g) ∷ ps) n s h =
    subst (λ k. IsBalanced k (tally_groups ((k', g) ∷ ps) s)) (omega arith)
      (tally_groups-from ps (suc n) _ (
        count_group-IsBalanced (verdict g.weak) (verdict g.strong) (verdict g.routed)
          (tier_of (decision_of g.routed)) (is_fallback (decision_of g.routed)) n s h))

-- Over the groups of an experiment: the categories, and likewise the cells of the contingency table, add
-- up to the number of groups; the numerators of the under-route and over-route rates are at most
-- their denominators; the complete triplets and the incomplete comparisons are disjoint; and the
-- under-routes and over-routes among the complete triplets are some of all, and are distinct triplets.
pub tally_groups-IsBalanced :
    {F : Type 0} (groups : Pairs F) → IsBalanced (length groups) (tally_groups groups no_tallies)
tally_groups-IsBalanced groups =
    subst (λ n. IsBalanced n (tally_groups groups no_tallies)) (omega arith)
      (tally_groups-from groups 0 no_tallies no_tallies-IsBalanced)
