-- ===== src/Experiment/Schedule/Plan.antt =====
-- The schedule has every combination of a task, a repetition and a mode, once, and numbers them.
use downshift.Base.{
  ℕ, suc, ◌+◌, ◌≡◌, refl, sym, ◌∙◌, ap, subst, String, Bool, ◌≤◌, some, List, [], ◌∷◌, ◌++◌, map,
  ok, arith, length, get_elem?, count, count-append,
}
use downshift.Decision.{SessionMode, weak_only, strong_only, routed}
use downshift.Experiment.{Trial, evaluation_modes}
use downshift.Experiment.Shuffle.{mulberry32, shuffle, count-shuffle}
use downshift.Experiment.Schedule.{
  triplets, sort, insert, trials_of, make_trial, all_trials, evaluation_schedule, indices,
  attempt_ids_of, max_attempts_per_trial,
}

-- A test of a trial's task, repetition and mode.
abbrev pub Test : Type 0
Test = String → ℕ → SessionMode → Bool

-- How many of the combinations of one task and repetition with the three modes pass a test.
abbrev of_modes : Test → String × ℕ → ℕ
of_modes p c = count (p c.0 c.1) evaluation_modes

abbrev over : Test → List (String × ℕ) → ℕ
over p [] = 0
over p (c ∷ cs) = of_modes p c + over p cs

-- The plan: how many combinations of a task, a repetition below the given number and a mode pass.
abbrev pub planned : Test → List String → ℕ → ℕ
planned p task_ids repetitions = over p (triplets task_ids repetitions)

abbrev pub on : Test → Trial → Bool
on p t = p t.task_id t.repetition t.mode

count-trials_of :
    (p : Test) (seed order : ℕ) (task : String) (repetition : ℕ) (ms : List SessionMode)
    → count (on p) (trials_of seed order task repetition ms) ≡ count (p task repetition) ms
unfolding trials_of make_trial
count-trials_of p seed order task repetition [] = refl
count-trials_of p seed order task repetition (m ∷ ms) =
    omega (arith, count-trials_of p seed (suc order) task repetition ms)

count-all_trials :
    (p : Test) (seed order : ℕ) (cs : List (String × ℕ)) (state : ℕ)
    → count (on p) (all_trials seed order cs state) ≡ over p cs
unfolding all_trials
count-all_trials p seed order [] state = refl
count-all_trials p seed order ((task, r) ∷ cs) state =
    let modes = (shuffle mulberry32 evaluation_modes state).0 in
    omega (
      arith,
      count-append (on p) (trials_of seed order task r modes)
          (all_trials seed (order + length modes) cs (shuffle mulberry32 evaluation_modes state).1),
      count-trials_of p seed order task r modes,
      count-shuffle (p task r) mulberry32 evaluation_modes state,
      count-all_trials p seed (order + length modes) cs
          (shuffle mulberry32 evaluation_modes state).1,
    )

over-append : (p : Test) (cs ds : List (String × ℕ)) → over p (cs ++ ds) ≡ over p cs + over p ds
over-append p [] ds = omega arith
over-append p (c ∷ cs) ds = omega (arith, over-append p cs ds)

-- The sum over the modes, taken apart.
over_modes :
    (p : Test) (cs : List (String × ℕ))
    → over p cs
      ≡ count (λ c. p c.0 c.1 weak_only) cs
        + count (λ c. p c.0 c.1 strong_only) cs
        + count (λ c. p c.0 c.1 routed) cs
over_modes p [] = refl
over_modes p (c ∷ cs) = omega (arith, over_modes p cs)

over-shuffle :
    (p : Test) (cs : List (String × ℕ)) (state : ℕ)
    → over p (shuffle mulberry32 cs state).0 ≡ over p cs
over-shuffle p cs state = omega (
  arith,
  over_modes p cs,
  over_modes p (shuffle mulberry32 cs state).0,
  count-shuffle (λ c. p c.0 c.1 weak_only) mulberry32 cs state,
  count-shuffle (λ c. p c.0 c.1 strong_only) mulberry32 cs state,
  count-shuffle (λ c. p c.0 c.1 routed) mulberry32 cs state,
)

abbrev of_task : Test → String → ℕ → ℕ
of_task p t repetitions = over p (map (λ r. (t, r)) (indices 0 repetitions))

over-insert :
    (p : Test) (t : String) (ts : List String) (repetitions : ℕ)
    → planned p (insert t ts) repetitions ≡ of_task p t repetitions + planned p ts repetitions
unfolding insert
over-insert p t [] n = over-append p (map (λ r. (t, r)) (indices 0 n)) []
over-insert p t (u ∷ us) n = ground (
  arith,
  over-insert p t us n,
  over-append p (map (λ r. (u, r)) (indices 0 n)) (triplets (insert t us) n),
  over-append p (map (λ r. (u, r)) (indices 0 n)) (triplets us n),
  over-append p (map (λ r. (t, r)) (indices 0 n)) (triplets (u ∷ us) n),
)

over-sort :
    (p : Test) (ts : List String) (repetitions : ℕ)
    → planned p (sort ts) repetitions ≡ planned p ts repetitions
unfolding sort
over-sort p [] n = refl
over-sort p (t ∷ ts) n = omega (
  arith,
  over-insert p t (sort ts) n,
  over-sort p ts n,
  over-append p (map (λ r. (t, r)) (indices 0 n)) (triplets ts n),
)

-- A schedule, and the schedule's own plan.
schedule_ok :
    (task_ids : List String) (seed repetitions : ℕ) {schedule : List Trial}
    → evaluation_schedule task_ids seed repetitions ≡ ok schedule
    → (schedule
        ≡ all_trials seed 0
            (shuffle mulberry32 (triplets (sort task_ids) repetitions) seed).0
            (shuffle mulberry32 (triplets (sort task_ids) repetitions) seed).1)
      × (1 ≤ repetitions)
      × (repetitions ≤ 100)
unfolding evaluation_schedule
schedule_ok task_ids seed repetitions h = (ground arith, ground arith, ground arith)

-- A schedule plans between 1 and 100 repetitions, and whatever a test asks of a trial's task, repetition
-- and mode, as many trials of the schedule pass it as combinations of a task, a repetition below the
-- given number and a mode: the schedule is the plan, reordered.
pub evaluation_schedule_complete :
    (task_ids : List String) (seed repetitions : ℕ) {schedule : List Trial} (p : Test)
    → evaluation_schedule task_ids seed repetitions ≡ ok schedule
    → (count (on p) schedule ≡ planned p task_ids repetitions)
      × (1 ≤ repetitions)
      × (repetitions ≤ 100)
evaluation_schedule_complete task_ids seed repetitions p h =
    let (same, low, high) = schedule_ok task_ids seed repetitions h in
    let cs = triplets (sort task_ids) repetitions in
    (
      ap (count (on p)) same
          ∙ count-all_trials p seed 0 (shuffle mulberry32 cs seed).0 (shuffle mulberry32 cs seed).1
          ∙ over-shuffle p cs seed
          ∙ over-sort p task_ids repetitions,
      low,
      high,
    )

-- The orders count up from a number, and a trial has 16 attempt IDs, of which its own is the first.
abbrev pub IsPlaced : ℕ → List Trial → Type 0
IsPlaced n [] = Unit
IsPlaced n (t ∷ ts) =
    (t.order ≡ n)
    × (length t.attempt_ids ≡ 16)
    × (get_elem? t.attempt_ids 0 ≡ some t.attempt_id)
    × IsPlaced (suc n) ts

trials_of-IsPlaced :
    (seed n : ℕ) (task : String) (r : ℕ) (ms : List SessionMode) (rest : List Trial)
    → IsPlaced (n + length ms) rest
    → IsPlaced n (trials_of seed n task r ms ++ rest)
unfolding trials_of make_trial attempt_ids_of max_attempts_per_trial
trials_of-IsPlaced seed n task r [] rest h = subst (λ k. IsPlaced k rest) (omega arith) h
trials_of-IsPlaced seed n task r (m ∷ ms) rest h = (
  refl,
  refl,
  refl,
  trials_of-IsPlaced seed (suc n) task r ms rest (subst (λ k. IsPlaced k rest) (omega arith) h),
)

all_trials-IsPlaced :
    (seed n : ℕ) (cs : List (String × ℕ)) (state : ℕ) → IsPlaced n (all_trials seed n cs state)
unfolding all_trials
all_trials-IsPlaced seed n [] state = tt
all_trials-IsPlaced seed n ((task, r) ∷ cs) state =
    trials_of-IsPlaced seed n task r _ _
      (all_trials-IsPlaced seed (n + length (shuffle mulberry32 evaluation_modes state).0) cs _)

-- In a schedule every trial's order is its index, and every trial has 16 attempt IDs, the first of which
-- is its attempt's.
pub evaluation_schedule-IsPlaced :
    (task_ids : List String) (seed repetitions : ℕ) {schedule : List Trial}
    → evaluation_schedule task_ids seed repetitions ≡ ok schedule
    → IsPlaced 0 schedule
evaluation_schedule-IsPlaced task_ids seed repetitions h =
    subst (IsPlaced 0) (sym (schedule_ok task_ids seed repetitions h).0)
      (all_trials-IsPlaced seed 0 _ _)
