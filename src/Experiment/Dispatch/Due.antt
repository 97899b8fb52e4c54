-- ===== src/Experiment/Dispatch/Due.antt =====
-- What `nextEvaluationAction` answers is what the experiment is due to do.
use downshift.Base.{
  ◌≡◌, ◌⊎◌, inl, inr, refl, String, Bool, true, false, Option, none, some, List, ◌∷◌, ◌++◌, ok, All,
  arith, Result-cases, Option-cases,
}
use downshift.Base.Number.{Number}
use downshift.Runs.{RunResult, completed, not_run}
use downshift.Runs.Outcome.{classify_trial_outcome}
use downshift.Runs.Store.{Codec}
use downshift.Experiment.{Trial, Manifest}
use downshift.Experiment.Budget.{conservative_trial_cost_bound}
use downshift.Experiment.Dispatch.{
  AttemptDirectory, Job, Action, run, validate, done, is_evaluated, identity_matches, Turn, act,
  settled, next, Spend, result_in, experiment_spend, reserve, visit_result, visit,
}

module _ {F P : Type 0} (num : Number F) (codec : Codec F P)
    (attempts : String → Option (AttemptDirectory F P)) where
  open num use {add, lt}

  -- An attempt with a directory that leaves its trial open: it has no result, or one that is no verdict.
  pub record Skipped (id : String) : Type 0 where
    pub dir : AttemptDirectory F P
    pub found : attempts id ≡ some dir
    pub result : Option (RunResult F)
    pub read : result_in num codec attempts dir ≡ ok result
    pub open_yet :
        (result ≡ none)
        ⊎ ((r : RunResult F) × (result ≡ some r)
            × (is_evaluated (classify_trial_outcome r) ≡ false))

  -- An attempt of a trial that has a verdict, and was made for that trial.
  pub record Settles (m : Manifest F) (t : Trial) (id : String) : Type 0 where
    pub dir : AttemptDirectory F P
    pub found : attempts id ≡ some dir
    pub result : RunResult F
    pub read : result_in num codec attempts dir ≡ ok (some result)
    pub verdict : is_evaluated (classify_trial_outcome result) ≡ true
    pub matches : identity_matches m (record t { attempt_id = id }) result ≡ true

  -- A trial's attempts: those before the given one are skipped.
  pub record Reached (t : Trial) (id : String) : Type 0 where
    pub before : List String
    pub after : List String
    pub listed : t.attempt_ids ≡ before ++ id ∷ after
    pub skipped : All Skipped before

  abbrev pub Settled : Manifest F → Trial → Type 0
  Settled m t = (id : String) × Reached t id × Settles m t id

  -- A job whose turn it is: all earlier trials are settled, and so are skipped the trial's earlier attempts.
  pub record IsTurn (m : Manifest F) (job : Job) : Type 0 where
    pub earlier : List Trial
    pub later : List Trial
    pub trial : Trial
    pub id : String
    pub scheduled : m.schedule ≡ earlier ++ trial ∷ later
    pub settled_before : All (Settled m) earlier
    pub reached : Reached trial id
    pub for_trial : job.trial ≡ record trial { attempt_id = id }

  -- What may still be spent covers the trial's bound.
  pub record Affordable (m : Manifest F) (job : Job) (cap : F) : Type 0 where
    pub spend : Spend F
    pub sum : experiment_spend num codec attempts m ≡ ok spend
    pub known : spend.known ≡ true
    pub bound : F
    pub bounded : conservative_trial_cost_bound num m.configuration job.trial.mode ≡ ok bound
    pub within : lt cap (add spend.total bound) ≡ false

  abbrev pub WithinBudget : Manifest F → Job → Option F → Type 0
  WithinBudget m job none = Unit
  WithinBudget m job (some cap) = Affordable m job cap

  -- A finished execution whose submission was not validated yet.
  pub record Awaits (id : String) : Type 0 where
    pub dir : AttemptDirectory F P
    pub found : attempts id ≡ some dir
    pub submitted : dir.has_submission ≡ true
    pub result : RunResult F
    pub read : result_in num codec attempts dir ≡ ok (some result)
    pub finished : result.execution.status ≡ completed
    pub not_validated : result.validation.status ≡ not_run

  abbrev pub IsDue : Manifest F → Action → Type 0
  IsDue m done = All (Settled m) m.schedule
  IsDue m (run job) =
      IsTurn m job × (attempts job.trial.attempt_id ≡ none) × WithinBudget m job m.max_cost_usd
  IsDue m (validate job) = IsTurn m job × Awaits job.trial.attempt_id

  visit_result_cases :
      (m : Manifest F) (job : Job) (submitted : Bool) (r : RunResult F) (turn : Turn)
      → visit_result num codec attempts m job submitted r ≡ ok turn
      → ((turn ≡ settled)
          × (is_evaluated (classify_trial_outcome r) ≡ true)
          × (identity_matches m job.trial r ≡ true))
        ⊎ ((turn ≡ next) × (is_evaluated (classify_trial_outcome r) ≡ false))
        ⊎ ((turn ≡ act (validate job))
            × (submitted ≡ true)
            × (r.execution.status ≡ completed)
            × (r.validation.status ≡ not_run))
  unfolding visit_result
  visit_result_cases m job submitted r turn h = ground arith

  -- What `visit` learns of a job's attempt.
  abbrev pub Learnt : Manifest F → Spend F → Job → Turn → Type 0
  Learnt m spend job settled = Settles m job.trial job.trial.attempt_id
  Learnt m spend job next = Skipped job.trial.attempt_id
  Learnt m spend job (act (run j)) =
      (j ≡ job)
      × (attempts job.trial.attempt_id ≡ none)
      × (reserve num codec attempts m spend job ≡ ok tt)
  Learnt m spend job (act (validate j)) = (j ≡ job) × Awaits job.trial.attempt_id
  Learnt m spend job (act done) = ⊥

  learn_result :
      (m : Manifest F) (spend : Spend F) (job : Job) (dir : AttemptDirectory F P) (r : RunResult F)
      (turn : Turn)
      → attempts job.trial.attempt_id ≡ some dir
      → result_in num codec attempts dir ≡ ok (some r)
      → visit_result num codec attempts m job dir.has_submission r ≡ ok turn
      → Learnt m spend job turn
  learn_result m spend job dir r turn found read h =
      elim (visit_result_cases m job dir.has_submission r turn h) [
        | inl (e, verdict, same) ↦ rw e (record {
          dir = dir;
          found = found;
          result = r;
          read = read;
          verdict = verdict;
          matches = same;
        })
        | inr (inl (e, open_yet)) ↦ rw e (record {
          dir = dir;
          found = found;
          result = some r;
          read = read;
          open_yet = inr (r, refl, open_yet);
        })
        | inr (inr (e, submitted, finished, unchecked)) ↦ rw e (
          refl,
          record {
            dir = dir;
            found = found;
            submitted = submitted;
            result = r;
            read = read;
            finished = finished;
            not_validated = unchecked;
          },
        )
      ]

  pub visit-Learnt :
      (m : Manifest F) (spend : Spend F) (job : Job) (turn : Turn)
      → visit num codec attempts m spend job ≡ ok turn
      → Learnt m spend job turn
  unfolding visit
  visit-Learnt m spend job turn h = elim (Option-cases (attempts job.trial.attempt_id)) [
    | inl absent ↦ elim (Result-cases (reserve num codec attempts m spend job)) [
      | inl (x, paid) ↦ let e : turn ≡ act (run job) = ground arith in rw e (refl, absent, paid)
      | inr (x, broke) ↦ absurd (ground arith)
    ]
    | inr (dir, found) ↦ elim (Result-cases (result_in num codec attempts dir)) [
      | inl (r, read) ↦ from_result dir found r read (rw (visit, found, read) at h)
      | inr (x, bad) ↦ absurd (ground arith)
    ]
  ]
    where
      from_result :
          (dir : AttemptDirectory F P)
          → attempts job.trial.attempt_id ≡ some dir
          → (r : Option (RunResult F)) → result_in num codec attempts dir ≡ ok r
          → elim r [
            | none ↦ ok next
            | some result ↦ visit_result num codec attempts m job dir.has_submission result
          ]
            ≡ ok turn
          → Learnt m spend job turn
      from_result dir found none read e =
          let same : turn ≡ next = ground arith in
          rw same
            (record { dir = dir; found = found; result = none; read = read; open_yet = inl refl })
      from_result dir found (some r) read e = learn_result m spend job dir r turn found read e
