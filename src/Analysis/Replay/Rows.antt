-- ===== src/Analysis/Replay/Rows.antt =====
-- What a row of the threshold replay counts.
use downshift.Base.{
  ℕ, suc, ◌+◌, ◌≤◌, ◌≡◌, ◌↔◌, ◌⊎◌, refl, sym, subst, Bool, false, Option, none, some, List, [], ◌∷◌,
  arith, length, count, length-append, is_some, is_none, Option-cases, inl, inr,
}
use downshift.Base.Number.{Number}
use downshift.Decision.{Tier, RoutingDecision}
use downshift.Analysis.{ResolvedTrial, Group, Pairs, verdict, decision_of}
use downshift.Analysis.Replay.{
  ReplayCounts, ReplayRow, sum_known, sum_known_from, count_undecided, count_selected, replay_group,
  replay_groups, no_counts, replay_counts, replay_row, replace_trials, choose, probability_of,
  baseline, sum_both, cost_of, trial_cost, classifier_cost,
}

module _ {F : Type 0} (num : Number F) where
  open num use {le}

  -- Some cost is unknown.
  sum_known_from-none :
      (total : F) (cs : List (Option F))
      → (sum_known_from num total cs ≡ none) ↔ (1 ≤ count is_none cs)
  unfolding sum_known_from
  sum_known_from-none total [] = (λ h. ground arith, λ h. ground arith)
  sum_known_from-none total (none ∷ cs) = (λ h. ground arith, λ h. refl)
  sum_known_from-none total (some c ∷ cs) =
      let ih = sum_known_from-none (num.add total c) cs in
      (λ h. omega (arith, ih.0 h), λ h. ih.1 (omega arith))

  -- The counts of `n` groups.
  pub record IsCounted (n : ℕ) (s : ReplayCounts F) : Type 0 where
    pub outcomes : s.pass + s.fail + s.unavailable ≡ n
    pub priced : length s.costs ≡ n
    pub selections : s.weak_selections + s.strong_selections ≤ n
    pub fallbacks : s.fallback_selections ≤ s.strong_selections

  undecided-IsCounted :
      (n : ℕ) (s : ReplayCounts F) → IsCounted n s → IsCounted (suc n) (count_undecided num s)
  unfolding count_undecided
  undecided-IsCounted n s h = record {
    outcomes = omega (arith, h.outcomes);
    priced = omega (arith, length-append s.costs (none ∷ []), h.priced);
    selections = omega (arith, h.selections);
    fallbacks = h.fallbacks;
  }

  selected-IsCounted :
      (tier : Tier) (fallback : Bool) (outcome : Option Bool) (cost : Option F) (n : ℕ)
      (s : ReplayCounts F)
      → (tier ≡ Tier.strong) ⊎ (fallback ≡ false)
      → IsCounted n s
      → IsCounted (suc n) (count_selected num tier fallback outcome cost s)
  unfolding count_selected
  selected-IsCounted tier fallback outcome cost n s apart h = record {
    outcomes = ground (arith, h.outcomes);
    priced = omega (arith, length-append s.costs (cost ∷ []), h.priced);
    selections = ground (arith, h.selections);
    fallbacks = ground (arith, h.fallbacks, apart);
  }

  -- A turn of the loop counts the group as undecided, or with the tier that its decision gives.
  pub replay_group_cases :
      (threshold : F) (g : Group F) (s : ReplayCounts F)
      → ((decision_of g.routed ≡ none) × (replay_group num threshold g s ≡ count_undecided num s))
        ⊎ ((d : RoutingDecision F) × (outcome : Option Bool) × (cost : Option F) × (decision_of
                g.routed
              ≡ some d)
            × (replay_group num threshold g s
                ≡ count_selected num
                    (choose num threshold d)
                    (is_none (probability_of num d))
                    outcome
                    cost
                    s))
  unfolding replay_group
  replay_group_cases threshold g s = elim (Option-cases (decision_of g.routed)) [
    | inl e ↦ inl (e, rw (replay_group, e) refl)
    | inr (d, e) ↦
        let tier = choose num threshold d in
        inr (
          d,
          verdict (baseline num tier g),
          sum_both num (cost_of num (trial_cost num) (baseline num tier g))
              (cost_of num (classifier_cost num) g.routed),
          e,
          rw (replay_group, e) refl,
        )
  ]

  choose_fallback :
      (threshold : F) (d : RoutingDecision F)
      → (choose num threshold d ≡ Tier.strong) ⊎ (is_none (probability_of num d) ≡ false)
  unfolding choose
  choose_fallback threshold d = elim (Option-cases (probability_of num d)) [
    | inl e ↦ inl (rw (choose, e) refl)
    | inr (p, e) ↦ inr (rw e refl)
  ]

  replay_group-IsCounted :
      (threshold : F) (g : Group F) (n : ℕ) (s : ReplayCounts F)
      → IsCounted n s
      → IsCounted (suc n) (replay_group num threshold g s)
  replay_group-IsCounted threshold g n s h = elim (replay_group_cases threshold g s) [
    | inl (_, e) ↦ subst (IsCounted (suc n)) (sym e) (undecided-IsCounted n s h)
    | inr (d, outcome, cost, _, e) ↦
        subst (IsCounted (suc n)) (sym e)
          (selected-IsCounted _ _ outcome cost n s (choose_fallback threshold d) h)
  ]

  replay_groups-IsCounted :
      (threshold : F) (groups : Pairs F) (n : ℕ) (s : ReplayCounts F)
      → IsCounted n s
      → IsCounted (length groups + n) (replay_groups num threshold groups s)
  unfolding replay_groups
  replay_groups-IsCounted threshold [] n s h = subst (λ k. IsCounted k s) (omega arith) h
  replay_groups-IsCounted threshold ((k', g) ∷ ps) n s h =
      subst (λ k. IsCounted k (replay_groups num threshold ((k', g) ∷ ps) s)) (omega arith)
        (replay_groups-IsCounted threshold ps (suc n) _ (replay_group-IsCounted threshold g n s h))

  -- What a row of the replay says of the groups that it plans.
  pub record IsComplete (row : ReplayRow F) : Type 0 where
    pub counted : IsCounted row.planned row.counts
    pub costs_counted : row.cost_complete_trials + row.omitted_cost_trials ≡ row.planned
    pub cost_unknown : (row.estimated_cost_usd ≡ none) ↔ (1 ≤ row.omitted_cost_trials)

  count_some_none : (cs : List (Option F)) → count is_some cs + count is_none cs ≡ length cs
  count_some_none [] = refl
  count_some_none (none ∷ cs) = omega (arith, count_some_none cs)
  count_some_none (some c ∷ cs) = omega (arith, count_some_none cs)

  no_counts-IsCounted : IsCounted 0 (no_counts num)
  unfolding no_counts
  no_counts-IsCounted = ground arith

  counts-IsCounted :
      (threshold : F) (groups : Pairs F)
      → IsCounted (length groups) (replay_counts num threshold groups)
  unfolding replay_counts
  counts-IsCounted threshold groups =
      subst (λ n. IsCounted n (replay_counts num threshold groups)) (omega arith)
        (replay_groups-IsCounted threshold groups 0 (no_counts num) no_counts-IsCounted)

  -- In a row of the replay, the outcomes (pass, fail, unavailable) and the costs (known, omitted) each
  -- count every planned group once; fallbacks are among the strong selections, and the selections are
  -- at most the planned groups; and the estimated cost is unknown exactly if a cost was omitted.
  pub replay_row-IsComplete :
      (trials : List (ResolvedTrial F)) (threshold : F)
      → IsComplete (replay_row num trials threshold)
  unfolding replay_row sum_known
  replay_row-IsComplete trials threshold =
      let groups = replace_trials num [] trials in
      let c = counts-IsCounted threshold groups in
      let costs = (replay_counts num threshold groups).costs in
      record {
        counted = c;
        costs_counted = omega (arith, count_some_none costs, c.priced);
        cost_unknown = sum_known_from-none num.zero_f costs;
      }
