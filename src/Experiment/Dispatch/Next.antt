-- ===== src/Experiment/Dispatch/Next.antt =====
-- The loop of `nextEvaluationAction` over the trials, and the action that it answers.
use mathlib.Core.List.{append_assoc, append-nil}
use downshift.Base.{
  ℕ, suc, ◌≡◌, inl, inr, refl, sym, subst, ◌∙◌, String, Option, none, some, List, [], ◌∷◌, ◌++◌,
  is_some, false, not, ◌&&◌, err, ok, length, length-append, All, All-append, arith, Result-cases,
}
use downshift.Base.Number.{Number}
use downshift.Runs.Store.{Codec}
use downshift.Experiment.Budget.{conservative_trial_cost_bound}
use downshift.Experiment.{Trial, Manifest}
use downshift.Experiment.Dispatch.{
  Action, try_trials, experiment_spend, next_evaluation_action, attempts_exhausted,
  AttemptDirectory, Job, run, validate, done, Turn, act, settled, next, Spend, reserve,
  try_attempts,
}
use downshift.Experiment.Dispatch.Due.{IsTurn, IsDue, WithinBudget, Settled, Awaits}
use downshift.Experiment.Dispatch.Loop.{get-append-length, Told, try_attempts-Told}

module _ {F P : Type 0} (num : Number F) (codec : Codec F P)
    (attempts : String → Option (AttemptDirectory F P)) where
  -- What the loop over the trials finds, from a trial on.
  abbrev Found : Manifest F → Spend F → Action → Type 0
  Found m spend done = All (Settled num codec attempts m) m.schedule
  Found m spend (run job) =
      IsTurn num codec attempts m job
      × (attempts job.trial.attempt_id ≡ none)
      × (reserve num codec attempts m spend job ≡ ok tt)
  Found m spend (validate job) =
      IsTurn num codec attempts m job × Awaits num codec attempts job.trial.attempt_id

  Told-Found :
      (m : Manifest F) (spend : Spend F) (t : Trial) (earlier later : List Trial) (a : Action)
      → m.schedule ≡ earlier ++ t ∷ later
      → All (Settled num codec attempts m) earlier
      → Told num codec attempts m spend t (act a)
      → Found m spend a
  Told-Found m spend t earlier later (run job) scheduled h (id, reached, own, absent, paid) = (
    record {
      earlier = earlier;
      later = later;
      trial = t;
      id = id;
      scheduled = scheduled;
      settled_before = h;
      reached = reached;
      for_trial = own;
    },
    absent,
    paid,
  )
  Told-Found m spend t earlier later (validate job) scheduled h (id, reached, own, awaits) = (
    record {
      earlier = earlier;
      later = later;
      trial = t;
      id = id;
      scheduled = scheduled;
      settled_before = h;
      reached = reached;
      for_trial = own;
    },
    awaits,
  )
  Told-Found m spend t earlier later done scheduled h told = absurd told

  try_trials-Found :
      (m : Manifest F) (spend : Spend F) (i : ℕ) (earlier ts : List Trial) (a : Action)
      → m.schedule ≡ earlier ++ ts
      → i ≡ length earlier
      → All (Settled num codec attempts m) earlier
      → try_trials num codec attempts m spend i ts ≡ ok a
      → Found m spend a
  unfolding try_trials
  try_trials-Found m spend i earlier [] a scheduled e h done_all =
      subst (Found m spend) {x = done} (ground arith)
        (subst (All (Settled num codec attempts m)) (sym (scheduled ∙ append-nil earlier)) h)
  try_trials-Found m spend i earlier (t ∷ ts) a scheduled e h result =
      elim (Result-cases (try_attempts num codec attempts m spend i 0 t.attempt_ids)) [
        | inl (turn, tried) ↦
            after_turn turn
              (try_attempts-Told num codec attempts m spend i t 0 [] t.attempt_ids turn
                (rw (scheduled, e) (get-append-length earlier t ts)) refl refl tt tried)
              (rw (try_trials, tried) at result)
              (λ more rest.
                try_trials-Found m spend (suc i) (earlier ++ t ∷ []) ts a
                  (scheduled ∙ sym (append_assoc earlier (t ∷ []) ts))
                  (omega (arith, e, length-append earlier (t ∷ []))) more rest)
        | inr (x, bad) ↦ absurd (ground arith)
      ]
    where
      after_turn :
          (turn : Turn)
          → Told num codec attempts m spend t turn
          → elim turn [
            | act b ↦ ok b
            | settled ↦ try_trials num codec attempts m spend (suc i) ts
            | next ↦ err (attempts_exhausted t.trial_id)
          ]
            ≡ ok a
          → (All (Settled num codec attempts m) (earlier ++ t ∷ [])
              → try_trials num codec attempts m spend (suc i) ts ≡ ok a
              → Found m spend a)
          → Found m spend a
      after_turn (act b) told rest continue =
          subst (Found m spend) {x = b} (ground arith)
            (Told-Found m spend t earlier ts b scheduled h told)
      after_turn settled told rest continue =
          continue ((All-append (Settled num codec attempts m) earlier (t ∷ [])).1 (h, (told, tt)))
            rest
      after_turn next told rest continue = absurd (ground arith)

  -- The reserve that `nextEvaluationAction` asks for, where there is a cap.
  reserve-WithinBudget :
      (m : Manifest F) (spend : Spend F) (job : Job)
      → experiment_spend num codec attempts m ≡ ok spend
      → (is_some m.max_cost_usd && not spend.known) ≡ false
      → reserve num codec attempts m spend job ≡ ok tt
      → WithinBudget num codec attempts m job m.max_cost_usd
  unfolding reserve
  reserve-WithinBudget m spend job sum known paid = go m.max_cost_usd refl
    where
      go : (c : Option F) → m.max_cost_usd ≡ c → WithinBudget num codec attempts m job c
      go none e = tt
      go (some cap) e =
          elim (Result-cases (conservative_trial_cost_bound num m.configuration job.trial.mode)) [
            | inl (b, bounded) ↦ record {
              spend = spend;
              sum = sum;
              known = ground arith;
              bound = b;
              bounded = bounded;
              within = ground arith;
            }
            | inr (x, bad) ↦ absurd (ground arith)
          ]

  Found-IsDue :
      (m : Manifest F) (spend : Spend F) (a : Action)
      → experiment_spend num codec attempts m ≡ ok spend
      → (is_some m.max_cost_usd && not spend.known) ≡ false
      → Found m spend a
      → IsDue num codec attempts m a
  Found-IsDue m spend done sum known f = f
  Found-IsDue m spend (run job) sum known (turn, absent, paid) =
      (turn, absent, reserve-WithinBudget m spend job sum known paid)
  Found-IsDue m spend (validate job) sum known f = f

  -- The action that `nextEvaluationAction` answers is due. It answers `done` only if every trial has a
  -- verdict (pass or fail) of an attempt that was made for it, with every earlier attempt of the trial
  -- read without one. It answers `run` only for the first attempt with no directory of the first
  -- trial with no verdict, and, under a cap, only if all costs so far are known and their sum with
  -- the trial's bound does not exceed the cap. It answers `validate` only for an attempt of the first
  -- trial with no verdict whose execution completed, that has a submission, and was not validated.
  pub next_evaluation_action-IsDue :
      (m : Manifest F) (a : Action)
      → next_evaluation_action num codec attempts m ≡ ok a
      → IsDue num codec attempts m a
  unfolding next_evaluation_action
  next_evaluation_action-IsDue m a h = elim (Result-cases (experiment_spend num codec attempts m)) [
    | inl (spend, sum) ↦
        let known : (is_some m.max_cost_usd && not spend.known) ≡ false = ground arith in
        let found : try_trials num codec attempts m spend 0 m.schedule ≡ ok a = ground arith in
        Found-IsDue m spend a sum known
          (try_trials-Found m spend 0 [] m.schedule a refl refl tt found)
    | inr (x, bad) ↦ absurd (ground arith)
  ]
