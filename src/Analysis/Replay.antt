-- ===== src/Analysis/Replay.antt =====
-- `replayThresholds` of src/evaluation/analysis.ts, with the costs of trials.
pub mod Rows
pub mod Threshold
use downshift.Base.{
  ℕ, suc, ◌+◌, String, Bool, true, false, ◌&&◌, ◌||◌, not, Option, none, some, List, [], ◌∷◌, ◌++◌,
  map, if◌then◌else◌, is_some, is_none, ltb, ◌==◌, length, count, tally,
}
use downshift.Base.Number.{Number}
use downshift.Decision.{Tier, RoutingDecision}
use downshift.Runs.{RunResult}
use downshift.Analysis.{
  ResolvedTrial, Group, Pairs, verdict, decision_of, put, empty_group, same_key,
}
use downshift.Analysis.Categories.{is_fallback}

module _ {F : Type 0} (num : Number F) where
  open num use {zero_f, add, le}

  -- `costs.every((cost) => cost !== null) ? costs.reduce(...) : null`, with the sum so far.
  sum_known_from : F → List (Option F) → Option F
  sum_known_from total [] = some total
  sum_known_from total (none ∷ cs) = none
  sum_known_from total (some c ∷ cs) = sum_known_from (add total c) cs

  pub sum_known : List (Option F) → Option F
  unfolding sum_known_from
  sum_known = sum_known_from zero_f

  abbrev unknown_spend : ResolvedTrial F → Bool
  unknown_spend t = ltb 0 t.incomplete_physical_attempts || length t.physical_attempts == 0

  pub trial_cost : ResolvedTrial F → Option F
  trial_cost t =
      if unknown_spend t
      then none
      else sum_known (map (λ r. r.costs.total_estimated_cost_usd) t.physical_attempts)

  pub classifier_cost : ResolvedTrial F → Option F
  classifier_cost t =
      if unknown_spend t
      then none
      else sum_known (map (λ r. r.costs.classifier.estimated_cost_usd) t.physical_attempts)

  abbrev cost_of : (ResolvedTrial F → Option F) → Option (ResolvedTrial F) → Option F
  cost_of cost none = none
  cost_of cost (some t) = cost t

  abbrev sum_both : Option F → Option F → Option F
  sum_both (some a) (some b) = some (add a b)
  sum_both _ _ = none

  -- The decision at another threshold: `none` stands for a fallback, which stays strong.
  abbrev pub probability_of : RoutingDecision F → Option F
  probability_of d = if is_fallback (some d) then none else d.weak_solve_probability

  pub choose : F → RoutingDecision F → Tier
  choose threshold d = elim (probability_of d) [
    | none ↦ Tier.strong
    | some p ↦ if le threshold p then Tier.weak else Tier.strong
  ]

  abbrev baseline : Tier → Group F → Option (ResolvedTrial F)
  baseline Tier.weak g = g.weak
  baseline Tier.strong g = g.strong

-- The counters of a row.
pub record ReplayCounts (F : Type 0) : Type 0 where
  pub weak_selections : ℕ
  pub strong_selections : ℕ
  pub fallback_selections : ℕ
  pub pass : ℕ
  pub fail : ℕ
  pub unavailable : ℕ
  pub costs : List (Option F)

abbrev is_weak : Tier → Bool
is_weak Tier.weak = true
is_weak Tier.strong = false

abbrev passed : Option Bool → Bool
passed (some true) = true
passed _ = false

abbrev failed : Option Bool → Bool
failed (some false) = true
failed _ = false

module _ {F : Type 0} (num : Number F) where
  -- A group without a decision.
  pub count_undecided : ReplayCounts F → ReplayCounts F
  count_undecided s = record s { unavailable = suc s.unavailable; costs = s.costs ++ none ∷ [] }

  -- A group with the tier that is selected at the threshold, the outcome of that tier's baseline, and
  -- the cost of both.
  pub count_selected : Tier → Bool → Option Bool → Option F → ReplayCounts F → ReplayCounts F
  count_selected tier fallback outcome cost s = record {
    weak_selections = tally (is_weak tier) + s.weak_selections;
    strong_selections = tally (not (is_weak tier)) + s.strong_selections;
    fallback_selections = tally fallback + s.fallback_selections;
    pass = tally (passed outcome) + s.pass;
    fail = tally (failed outcome) + s.fail;
    unavailable = tally (is_none outcome) + s.unavailable;
    costs = s.costs ++ cost ∷ [];
  }

  -- One turn of the loop.
  pub replay_group : F → Group F → ReplayCounts F → ReplayCounts F
  unfolding count_undecided count_selected choose
  replay_group threshold g s = elim (decision_of g.routed) [
    | none ↦ count_undecided s
    | some d ↦
        let tier = choose num threshold d in
        count_selected tier (is_none (probability_of num d)) (verdict (baseline num tier g))
          (sum_both num (cost_of num (trial_cost num) (baseline num tier g))
            (cost_of num (classifier_cost num) g.routed))
          s
  ]

  replay_groups : F → Pairs F → ReplayCounts F → ReplayCounts F
  unfolding replay_group
  replay_groups threshold [] s = s
  replay_groups threshold ((k, g) ∷ ps) s = replay_groups threshold ps (replay_group threshold g s)

  no_counts : ReplayCounts F
  no_counts = record {
    weak_selections = 0;
    strong_selections = 0;
    fallback_selections = 0;
    pass = 0;
    fail = 0;
    unavailable = 0;
    costs = [];
  }

  pub replay_counts : F → Pairs F → ReplayCounts F
  unfolding replay_groups no_counts
  replay_counts threshold groups = replay_groups threshold groups no_counts

-- A row of the replay, without its ratio.
pub record ReplayRow (F : Type 0) : Type 0 where
  pub threshold : F
  pub planned : ℕ
  pub counts : ReplayCounts F
  pub estimated_cost_usd : Option F
  pub cost_complete_trials : ℕ
  pub omitted_cost_trials : ℕ

module _ {F : Type 0} (num : Number F) where
  -- Here a later trial of a group's mode takes the place of an earlier one.
  replace_trial : Pairs F → ResolvedTrial F → Pairs F
  replace_trial [] t = ((t.task_id, t.repetition), put t t.mode empty_group) ∷ []
  replace_trial ((k, g) ∷ ps) t =
      let rest = replace_trial ps t in
      if same_key k t then (k, put t t.mode g) ∷ ps else (k, g) ∷ rest

  replace_trials : Pairs F → List (ResolvedTrial F) → Pairs F
  unfolding replace_trial
  replace_trials ps [] = ps
  replace_trials ps (t ∷ ts) = replace_trials (replace_trial ps t) ts

  pub replay_row : List (ResolvedTrial F) → F → ReplayRow F
  unfolding replace_trials
  replay_row trials threshold =
      let groups = replace_trials [] trials in
      let counts = replay_counts num threshold groups in
      record {
        threshold = threshold;
        planned = length groups;
        counts = counts;
        estimated_cost_usd = sum_known num counts.costs;
        cost_complete_trials = count is_some counts.costs;
        omitted_cost_trials = count is_none counts.costs;
      }

  pub replay_thresholds : List F → List (ResolvedTrial F) → List (ReplayRow F)
  replay_thresholds thresholds trials = map (replay_row trials) thresholds
