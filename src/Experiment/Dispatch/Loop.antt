-- ===== src/Experiment/Dispatch/Loop.antt =====
-- The loop of `nextEvaluationAction` over a trial's attempts.
use mathlib.Core.List.{append_assoc}
use downshift.Base.{
  ℕ, suc, ◌≡◌, inl, inr, refl, sym, ap, subst, ◌∙◌, String, Option, none, some, List, [], ◌∷◌, ◌++◌,
  ok, get_elem?, length, length-append, All, All-append, arith, Result-cases,
}
use downshift.Base.Number.{Number}
use downshift.Runs.Store.{Codec}
use downshift.Experiment.{Trial, Manifest}
use downshift.Experiment.Dispatch.{
  AttemptDirectory, Job, run, validate, done, job_at, Turn, act, settled, next, Spend, reserve,
  visit, try_attempts,
}
use downshift.Experiment.Dispatch.Due.{
  Skipped, Settles, Reached, Settled, Awaits, Learnt, visit-Learnt,
}

pub get-append-length :
    {A : Type 0} (xs : List A) (x : A) (ys : List A) → get_elem? (xs ++ x ∷ ys) (length xs) ≡ some x
get-append-length [] x ys = refl
get-append-length (y ∷ xs) x ys = get-append-length xs x ys

job_at_trial :
    {F : Type 0} (m : Manifest F) (i k : ℕ) (t : Trial) (id : String) (job : Job)
    → get_elem? m.schedule i ≡ some t
    → get_elem? t.attempt_ids k ≡ some id
    → job_at m i k ≡ ok job
    → job.trial ≡ record t { attempt_id = id }
unfolding job_at
job_at_trial m i k t id job scheduled listed h = ground arith

module _ {F P : Type 0} (num : Number F) (codec : Codec F P)
    (attempts : String → Option (AttemptDirectory F P)) where
  -- What the loop over a trial's attempts learns.
  abbrev pub Told : Manifest F → Spend F → Trial → Turn → Type 0
  Told m spend t settled = Settled num codec attempts m t
  Told m spend t next = Unit
  Told m spend t (act (run job)) =
      (id : String) × Reached num codec attempts t id
      × (job.trial ≡ record t { attempt_id = id })
      × (attempts job.trial.attempt_id ≡ none)
      × (reserve num codec attempts m spend job ≡ ok tt)
  Told m spend t (act (validate job)) =
      (id : String) × Reached num codec attempts t id
      × (job.trial ≡ record t { attempt_id = id })
      × Awaits num codec attempts job.trial.attempt_id
  Told m spend t (act done) = ⊥

  tell :
      (m : Manifest F) (spend : Spend F) (t : Trial) (id : String) (job : Job) (turn : Turn)
      → Reached num codec attempts t id
      → job.trial ≡ record t { attempt_id = id }
      → Learnt num codec attempts m spend job turn
      → Told m spend t turn
  tell m spend t id job settled reached e l =
      let s = subst (λ u. Settles num codec attempts m u u.attempt_id) e l in
      (
        id,
        reached,
        record {
          dir = s.dir;
          found = s.found;
          result = s.result;
          read = s.read;
          verdict = s.verdict;
          matches = s.matches;
        },
      )
  tell m spend t id job next reached e l = tt
  tell m spend t id job (act (run j)) reached e (same, absent, paid) =
      rw same (id, reached, e, absent, paid)
  tell m spend t id job (act (validate j)) reached e (same, awaits) =
      rw same (id, reached, e, awaits)
  tell m spend t id job (act done) reached e l = absurd l

  pub try_attempts-Told :
      (m : Manifest F) (spend : Spend F) (i : ℕ) (t : Trial) (k : ℕ) (before ids : List String)
      (turn : Turn)
      → get_elem? m.schedule i ≡ some t
      → t.attempt_ids ≡ before ++ ids
      → k ≡ length before
      → All (Skipped num codec attempts) before
      → try_attempts num codec attempts m spend i k ids ≡ ok turn
      → Told m spend t turn
  unfolding try_attempts
  try_attempts-Told m spend i t k before [] turn scheduled listed e skipped h =
      subst (Told m spend t) {x = next} (ground arith) tt
  try_attempts-Told m spend i t k before (id ∷ ids) turn scheduled listed e skipped h =
      let snoc : t.attempt_ids ≡ (before ++ id ∷ []) ++ ids =
        listed ∙ sym (append_assoc before (id ∷ []) ids) in
      let here : get_elem? t.attempt_ids k ≡ some id =
        rw (listed, e) (get-append-length before id ids) in
      elim (Result-cases (job_at m i k)) [
        | inl (job, found) ↦
            let own = job_at_trial m i k t id job scheduled here found in
            elim (Result-cases (visit num codec attempts m spend job)) [
              | inl (seen, visited) ↦
                  after_visit job own seen
                    (visit-Learnt num codec attempts m spend job seen visited)
                    (rw (try_attempts, found, visited) at h)
                    (λ more rest.
                      try_attempts-Told m spend i t (suc k) (before ++ id ∷ []) ids turn scheduled
                        snoc (omega (arith, e, length-append before (id ∷ []))) more rest)
              | inr (x, bad) ↦ absurd (ground arith)
            ]
        | inr (x, bad) ↦ absurd (ground arith)
      ]
    where
      after_visit :
          (job : Job)
          → job.trial ≡ record t { attempt_id = id }
          → (seen : Turn) → Learnt num codec attempts m spend job seen
          → elim seen [
            | next ↦ try_attempts num codec attempts m spend i (suc k) ids
            | settled ↦ ok settled
            | act a ↦ ok (act a)
          ]
            ≡ ok turn
          → (All (Skipped num codec attempts) (before ++ id ∷ [])
              → try_attempts num codec attempts m spend i (suc k) ids ≡ ok turn
              → Told m spend t turn)
          → Told m spend t turn
      after_visit job own next l rest continue =
          continue
            ((All-append (Skipped num codec attempts) before (id ∷ [])).1
              (skipped, (subst (Skipped num codec attempts) (ap (λ u. u.attempt_id) own) l, tt)))
            rest
      after_visit job own settled l rest continue =
          subst (Told m spend t) {x = settled} (ground arith) (
            tell m spend t id job settled
              (record { before = before; after = ids; listed = listed; skipped = skipped }) own l)
      after_visit job own (act a) l rest continue =
          subst (Told m spend t) {x = act a} (ground arith) (
            tell m spend t id job (act a)
              (record { before = before; after = ids; listed = listed; skipped = skipped }) own l)
