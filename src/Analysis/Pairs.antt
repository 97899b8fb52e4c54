-- ===== src/Analysis/Pairs.antt =====
-- The groups hold every trial once.
use downshift.Base.{
  ℕ, ◌+◌, ◌≡◌, Bool, false, Option, none, some, List, [], ◌∷◌, ok, arith, count, tally, ◌&&◌,
  Result-cases, inl, inr,
}
use downshift.Decision.{SessionMode}
use downshift.Experiment.Dispatch.{same_mode}
use downshift.Analysis.{
  ResolvedTrial, Group, Pairs, slot, put, empty_group, add_trial, add_trials, by_pair,
}

module _ {F : Type 0} (p : ResolvedTrial F → Bool) (mode : SessionMode) where
  -- How many groups have a trial of the mode that passes the test.
  abbrev holds_in : Option (ResolvedTrial F) → Bool
  holds_in none = false
  holds_in (some t) = p t

  abbrev pub in_groups : Pairs F → ℕ
  in_groups = count (λ e. holds_in (slot mode e.1))

  abbrev pub of_mode : ResolvedTrial F → Bool
  of_mode t = same_mode t.mode mode && p t

  put_fresh :
      (t : ResolvedTrial F) (m : SessionMode) (g : Group F)
      → slot m g ≡ none
      → tally (holds_in (slot mode (put t m g)))
        ≡ tally (same_mode m mode && p t) + tally (holds_in (slot mode g))
  put_fresh t m g h = ground arith

  add_trial_counts :
      (ps : Pairs F) (t : ResolvedTrial F) {qs : Pairs F}
      → add_trial ps t ≡ ok qs
      → in_groups qs ≡ tally (of_mode t) + in_groups ps
  unfolding add_trial
  add_trial_counts [] t h = ground (arith, put_fresh t t.mode empty_group)
  add_trial_counts ((k, g) ∷ ps) t {qs} h = elim (Result-cases (add_trial ps t)) [
    | inl (rest, e) ↦ ground (arith, put_fresh t t.mode g, add_trial_counts ps t e)
    | inr (x, e) ↦ ground (arith, put_fresh t t.mode g)
  ]

  add_trials-count :
      (ps : Pairs F) (ts : List (ResolvedTrial F)) {qs : Pairs F}
      → add_trials ps ts ≡ ok qs
      → in_groups qs ≡ count of_mode ts + in_groups ps
  unfolding add_trials
  add_trials-count ps [] h = ground arith
  add_trials-count ps (t ∷ ts) {qs} h = elim (Result-cases (add_trial ps t)) [
    | inl (rest, e) ↦
        let more : add_trials rest ts ≡ ok qs = ground arith in
        omega (arith, add_trial_counts ps t e, add_trials-count rest ts more)
    | inr (x, e) ↦ absurd (ground arith)
  ]

  -- Grouping loses no trial and repeats none: as many groups have a trial of a mode that passes a test
  -- as there are trials of that mode that pass it, for every mode and every test.
  pub by_pair_counts :
      (trials : List (ResolvedTrial F)) {groups : Pairs F}
      → by_pair trials ≡ ok groups
      → in_groups groups ≡ count of_mode trials
  unfolding by_pair
  by_pair_counts trials h = omega (arith, add_trials-count [] trials h)
