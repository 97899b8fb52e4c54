-- ===== src/Analysis/Records/Done.antt =====
-- The records of an experiment that has nothing left to do.
use downshift.Base.{
  ◌≡◌, refl, subst, String, true, Option, some, List, [], ◌∷◌, ◌++◌, ok, err, arith, All,
  Result-cases, inl, inr,
}
use downshift.Base.Number.{Number}
use downshift.Runs.{RunResult}
use downshift.Runs.Store.{Codec}
use downshift.Runs.Store.Reading.{read_attempt}
use downshift.Experiment.{Trial, Manifest}
use downshift.Experiment.Dispatch.{
  AttemptDirectory, is_evaluated, result_in, next_evaluation_action, done,
}
use downshift.Experiment.Dispatch.Due.{Skipped, Settles, Settled}
use downshift.Experiment.Dispatch.Next.{next_evaluation_action-IsDue}
use downshift.Analysis.{ResolvedTrial}
use downshift.Analysis.Records.{
  Loaded, load_attempts, load_trials, load_experiment_records, outcome_of, resolved, nothing_loaded,
  result_of_directory, selecting, one_more_incomplete, check_record,
}

module _ {F P : Type 0} (num : Number F) (codec : Codec F P)
    (attempts : String → Option (AttemptDirectory F P)) where
  same_reading :
      (dir : AttemptDirectory F P) (r : Option (RunResult F))
      → result_in num codec attempts dir ≡ ok r
      → result_of_directory codec attempts dir ≡ ok r
  same_reading dir r h = elim (Result-cases (read_attempt codec dir.disk dir.torn)) [
    | inl (a, e) ↦ ground arith
    | inr (x, e) ↦ absurd (ground arith)
  ]

  -- The attempt that settles the trial is the last that is loaded.
  load_settling :
      (m : Manifest F) (t : Trial) (id : String) (after : List String) (s s' : Loaded F)
      → Settles num codec attempts m t id
      → load_attempts codec attempts m t (id ∷ after) s ≡ ok s'
      → is_evaluated (outcome_of codec attempts s'.selected) ≡ true
  unfolding load_attempts
  load_settling m t id after s s' settles h =
      elim (Result-cases (check_record m t id settles.result)) [
        | inl (x, e) ↦
            let ended : ok (selecting codec attempts s settles.result) ≡ ok s' =
              rw
                (
                  load_attempts,
                  settles.found,
                  same_reading settles.dir (some settles.result) settles.read,
                  e,
                  settles.verdict,
                )
                at h in
            let same : s' ≡ selecting codec attempts s settles.result = cc in
            rw same settles.verdict
        | inr (x, e) ↦
            let bad : err x ≡ ok s' =
              rw
                (
                  load_attempts,
                  settles.found,
                  same_reading settles.dir (some settles.result) settles.read,
                  e,
                )
                at h in
            cc
      ]

  -- An attempt that is skipped is passed over.
  load_past :
      (m : Manifest F) (t : Trial) (id : String) (ids : List String) (s s' : Loaded F)
      → Skipped num codec attempts id
      → load_attempts codec attempts m t (id ∷ ids) s ≡ ok s'
      → (u : Loaded F) × (load_attempts codec attempts m t ids u ≡ ok s')
  unfolding load_attempts
  load_past m t id ids s s' skipped h = elim skipped.open_yet [
    | inl unread ↦ (
      one_more_incomplete codec attempts s,
      rw
          (
            load_attempts,
            skipped.found,
            same_reading skipped.dir skipped.result skipped.read,
            unread,
          )
          at h,
    )
    | inr (r, e, open_yet) ↦ elim (Result-cases (check_record m t id r)) [
      | inl (x, checked) ↦ (
        selecting codec attempts s r,
        rw
            (
              load_attempts,
              skipped.found,
              same_reading skipped.dir skipped.result skipped.read,
              e,
              checked,
              open_yet,
            )
            at h,
      )
      | inr (x, refused) ↦
          let bad : err x ≡ ok s' =
            rw
              (
                load_attempts,
                skipped.found,
                same_reading skipped.dir skipped.result skipped.read,
                e,
                refused,
              )
              at h in
          cc
    ]
  ]

  load_settled :
      (m : Manifest F) (t : Trial) (id : String) (before after : List String) (s s' : Loaded F)
      → All (Skipped num codec attempts) before
      → Settles num codec attempts m t id
      → load_attempts codec attempts m t (before ++ id ∷ after) s ≡ ok s'
      → is_evaluated (outcome_of codec attempts s'.selected) ≡ true
  load_settled m t id [] after s s' none_before settles h =
      load_settling m t id after s s' settles h
  load_settled m t id (b ∷ before) after s s' skipped settles h =
      let (u, rest) = load_past m t b (before ++ id ∷ after) s s' skipped.0 h in
      load_settled m t id before after u s' skipped.1 settles rest

  -- Trial by trial: the loaded trial has a verdict, and stands for the scheduled one.
  abbrev pub Resolves : List Trial → List (ResolvedTrial F) → Type 0
  Resolves [] [] = Unit
  Resolves (t ∷ ts) (r ∷ rs) =
      (r.trial_id ≡ t.trial_id)
      × (r.mode ≡ t.mode)
      × (is_evaluated r.outcome ≡ true)
      × Resolves ts rs
  Resolves _ _ = ⊥

  load_trials-Resolves :
      (m : Manifest F) (ts : List Trial) (rs : List (ResolvedTrial F))
      → All (Settled num codec attempts m) ts
      → load_trials codec attempts m ts ≡ ok rs
      → Resolves ts rs
  unfolding load_trials
  load_trials-Resolves m [] rs settled h = let same : rs ≡ [] = cc in rw same tt
  load_trials-Resolves m (t ∷ ts) rs settled h =
      let (id, reached, settles) = settled.0 in
      elim (Result-cases
        (load_attempts codec attempts m t t.attempt_ids (nothing_loaded codec attempts))) [
          | inl (s, e) ↦ elim (Result-cases (load_trials codec attempts m ts)) [
            | inl (rest, e') ↦
                let whole : ok (resolved codec attempts t s ∷ rest) ≡ ok rs =
                  rw (load_trials, e, e') at h in
                let same : rs ≡ resolved codec attempts t s ∷ rest = cc in
                rw same (
                  refl,
                  refl,
                  load_settled m t id reached.before reached.after (nothing_loaded codec attempts) s
                      reached.skipped settles
                      (subst
                        (λ ids.
                          load_attempts codec attempts m t ids (nothing_loaded codec attempts)
                          ≡ ok s)
                        reached.listed e),
                  load_trials-Resolves m ts rest settled.1 e',
                )
            | inr (x, e') ↦ let bad : err x ≡ ok rs = rw (load_trials, e, e') at h in cc
          ]
          | inr (x, e) ↦ let bad : err x ≡ ok rs = rw (load_trials, e) at h in cc
        ]

  -- If `nextEvaluationAction` answers that an experiment is done, and its records load, then exactly the
  -- scheduled trials are loaded, in order, each with the outcome pass or fail.
  pub done_records_resolved :
      (m : Manifest F) (rs : List (ResolvedTrial F))
      → next_evaluation_action num codec attempts m ≡ ok done
      → load_experiment_records codec attempts m ≡ ok rs
      → Resolves m.schedule rs
  unfolding load_experiment_records
  done_records_resolved m rs finished loaded =
      load_trials-Resolves m m.schedule rs
        (next_evaluation_action-IsDue num codec attempts m done finished) loaded
