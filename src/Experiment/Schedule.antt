-- ===== src/Experiment/Schedule.antt =====
-- `evaluationSchedule` of src/evaluation/smoke.ts.
-- Repetitions are a natural number; a repetition that is no safe integer is refused like one out of
-- range. Task IDs are ASCII, for which the order of code points is JavaScript's.
pub mod Plan
use Prim.Native.String.{compare}
use text.Mathlib.Text.{is_lt}
use downshift.Base.{
  ℕ, zero, suc, ◌+◌, ◌*◌, ◌/◌, ◌%◌, ◌≡◌, refl, sym, ◌∙◌, String, Bool, ◌||◌, Option, none, some,
  List, [], ◌∷◌, ◌++◌, map, Result, ok, err, ltb, ◌==◌, if◌then◌else◌, str_append, arith, length,
  get_elem?, count, tally, All, count-append, length-append, length-map, Bool-cases,
}
use downshift.Decision.{SessionMode, weak_only, strong_only, routed}
use downshift.Experiment.{Trial, evaluation_modes}
use downshift.Experiment.Shuffle.{mulberry32, shuffle, count-shuffle}

abbrev digit_in : List String → ℕ → String
digit_in [] n = ""
digit_in (d ∷ ds) zero = d
digit_in (d ∷ ds) (suc n) = digit_in ds n

digit : ℕ → String
digit = digit_in ("0" ∷ "1" ∷ "2" ∷ "3" ∷ "4" ∷ "5" ∷ "6" ∷ "7" ∷ "8" ∷ "9" ∷ [])

decimal_on : ℕ → ℕ → String
unfolding digit
decimal_on zero n = digit n
decimal_on (suc fuel) n =
    let rest = decimal_on fuel (n / 10) in
    if ltb n 10 then digit n else str_append rest (digit (n % 10))

-- A number in a template string; a number has at most as many digits as its value.
decimal : ℕ → String
unfolding decimal_on
decimal n = decimal_on n n

mode_text : SessionMode → String
mode_text weak_only = "weak-only"
mode_text strong_only = "strong-only"
mode_text routed = "routed"

-- `[...taskIds].sort()`
insert : String → List String → List String
insert t [] = t ∷ []
insert t (u ∷ us) = let rest = insert t us in if is_lt (compare u t) then u ∷ rest else t ∷ u ∷ us

sort : List String → List String
unfolding insert
sort [] = []
sort (t ∷ ts) = insert t (sort ts)

-- `Array.from({ length: n }, (_, index) => ...)`, from an index on.
abbrev indices : ℕ → ℕ → List ℕ
indices from zero = []
indices from (suc n) = from ∷ indices (suc from) n

abbrev triplets : List String → ℕ → List (String × ℕ)
triplets [] repetitions = []
triplets (t ∷ ts) repetitions = map (λ r. (t, r)) (indices 0 repetitions) ++ triplets ts repetitions

max_attempts_per_trial : ℕ
max_attempts_per_trial = 16

trial_id_of : String → ℕ → SessionMode → String
unfolding decimal mode_text
trial_id_of task repetition mode =
    str_append task
      (str_append "-r" (str_append (decimal (suc repetition)) (str_append "-" (mode_text mode))))

attempt_id_of : String → ℕ → String
unfolding decimal
attempt_id_of trial_id index = str_append trial_id (str_append "-a" (decimal (suc index)))

attempt_ids_of : String → List String
unfolding attempt_id_of max_attempts_per_trial
attempt_ids_of trial_id = map (attempt_id_of trial_id) (indices 0 max_attempts_per_trial)

make_trial : ℕ → ℕ → String → ℕ → SessionMode → Trial
unfolding trial_id_of attempt_ids_of
make_trial seed order task repetition mode = record {
  order = order;
  trial_id = trial_id_of task repetition mode;
  attempt_id = attempt_id_of (trial_id_of task repetition mode) 0;
  attempt_ids = attempt_ids_of (trial_id_of task repetition mode);
  task_id = task;
  repetition = repetition;
  mode = mode;
  seed = seed;
}

-- The trials of one triplet, in the order of its shuffled modes.
trials_of : ℕ → ℕ → String → ℕ → List SessionMode → List Trial
unfolding make_trial
trials_of seed order task repetition [] = []
trials_of seed order task repetition (m ∷ ms) =
    make_trial seed order task repetition m ∷ trials_of seed (suc order) task repetition ms

-- The trials of all triplets; `state` is the generator's.
all_trials : ℕ → ℕ → List (String × ℕ) → ℕ → List Trial
unfolding trials_of
all_trials seed order [] state = []
all_trials seed order ((task, repetition) ∷ rest) state =
    let (modes, state') = shuffle mulberry32 evaluation_modes state in
    trials_of seed order task repetition modes ++ all_trials seed (order + length modes) rest state'

pub data ScheduleError : Type 0 where
  repetitions_out_of_range : ScheduleError

unfoldable pub evaluation_schedule : List String → ℕ → ℕ → Result ScheduleError (List Trial)
unfolding sort all_trials
evaluation_schedule task_ids seed repetitions =
    let (shuffled, state) = shuffle mulberry32 (triplets (sort task_ids) repetitions) seed in
    if ltb repetitions 1 || ltb 100 repetitions
    then err repetitions_out_of_range
    else ok (all_trials seed 0 shuffled state)
