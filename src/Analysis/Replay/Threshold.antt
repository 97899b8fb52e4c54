-- ===== src/Analysis/Replay/Threshold.antt =====
-- A higher threshold selects the weak model less often.
use downshift.Base.{
  ◌+◌, ◌≤◌, ◌≡◌, refl, Bool, true, Option, List, [], ◌∷◌, arith, Option-cases, inl, inr,
}
use downshift.Base.Number.{Number}
use downshift.Decision.{Tier, RoutingDecision}
use downshift.Analysis.{ResolvedTrial, Group, Pairs}
use downshift.Analysis.Replay.{
  ReplayCounts, count_undecided, count_selected, replay_group, replay_groups, no_counts,
  replay_counts, replay_row, replace_trials, choose, probability_of,
}
use downshift.Analysis.Replay.Rows.{replay_group_cases}

module _ {F : Type 0} (num : Number F) where
  choose_antitone :
      (low high : F) (d : RoutingDecision F)
      → ((p : F) → num.le high p ≡ true → num.le low p ≡ true)
      → choose num high d ≡ Tier.weak
      → choose num low d ≡ Tier.weak
  unfolding choose
  choose_antitone low high d below h = elim (Option-cases (probability_of num d)) [
    | inl e ↦ absurd (ground arith)
    | inr (p, e) ↦ ground (arith, below p)
  ]

  -- The counts at a higher threshold beside those at a lower one.
  pub record IsStricter (high low : ReplayCounts F) : Type 0 where
    pub fewer_weak : high.weak_selections ≤ low.weak_selections
    pub same_selections :
        high.weak_selections + high.strong_selections ≡ low.weak_selections + low.strong_selections
    pub same_fallbacks : high.fallback_selections ≡ low.fallback_selections

  undecided-IsStricter :
      (t s : ReplayCounts F)
      → IsStricter t s
      → IsStricter (count_undecided num t) (count_undecided num s)
  unfolding count_undecided
  undecided-IsStricter t s h = record {
    fewer_weak = h.fewer_weak;
    same_selections = h.same_selections;
    same_fallbacks = h.same_fallbacks;
  }

  selected-IsStricter :
      (u v : Tier) (fallback : Bool) (o o' : Option Bool) (c c' : Option F) (t s : ReplayCounts F)
      → (u ≡ Tier.weak → v ≡ Tier.weak)
      → IsStricter t s
      → IsStricter (count_selected num u fallback o c t) (count_selected num v fallback o' c' s)
  unfolding count_selected
  selected-IsStricter u v fallback o o' c c' t s stricter h = record {
    fewer_weak = ground (arith, h.fewer_weak);
    same_selections = ground (arith, h.same_selections);
    same_fallbacks = ground (arith, h.same_fallbacks);
  }

  module _ (low high : F) (below : (p : F) → num.le high p ≡ true → num.le low p ≡ true) where
    replay_group-IsStricter :
        (g : Group F) (t s : ReplayCounts F)
        → IsStricter t s
        → IsStricter (replay_group num high g t) (replay_group num low g s)
    replay_group-IsStricter g t s h = elim (replay_group_cases num high g t) [
      | inl (e, et) ↦ elim (replay_group_cases num low g s) [
        | inl (_, es) ↦ rw (et, es) (undecided-IsStricter t s h)
        | inr (d, _, _, e', _) ↦ absurd (ground arith)
      ]
      | inr (d, o, c, e, et) ↦ elim (replay_group_cases num low g s) [
        | inl (e', _) ↦ absurd (ground arith)
        | inr (d', o', c', e', es) ↦
            let same : d' ≡ d = ground arith in
            rw (et, es, same)
              (selected-IsStricter _ _ _ o o' c c' t s (choose_antitone low high d below) h)
      ]
    ]

    replay_groups-IsStricter :
        (groups : Pairs F) (t s : ReplayCounts F)
        → IsStricter t s
        → IsStricter (replay_groups num high groups t) (replay_groups num low groups s)
    unfolding replay_groups
    replay_groups-IsStricter [] t s h = h
    replay_groups-IsStricter ((k', g) ∷ ps) t s h =
        replay_groups-IsStricter ps _ _ (replay_group-IsStricter g t s h)

  -- If `<=` is transitive, a higher threshold selects the weak model for at most as many groups, leaves
  -- the number of selections and of fallbacks as it is, and so gives the strong model at least as many.
  pub replay_row-IsStricter :
      (trials : List (ResolvedTrial F)) (low high : F)
      → ((a b c : F) → num.le a b ≡ true → num.le b c ≡ true → num.le a c ≡ true)
      → num.le low high ≡ true
      → IsStricter (replay_row num trials high).counts (replay_row num trials low).counts
  unfolding replay_row replay_counts
  replay_row-IsStricter trials low high trans h =
      replay_groups-IsStricter low high (λ p. trans low high p h) (replace_trials num [] trials)
        (no_counts num) (no_counts num)
        (record { fewer_weak = omega arith; same_selections = refl; same_fallbacks = refl })
