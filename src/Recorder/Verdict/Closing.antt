-- ===== src/Recorder/Verdict/Closing.antt =====
-- What the end of an attempt does not take back, and the result that it makes.
use downshift.Base.{
  ℕ, String, ◌≡◌, ◌≢◌, ◌⊎◌, if◌then◌else◌, refl, ◌∙◌, sym, ap, Bool, true, false, Option, none,
  some, Result, ok, err, arith, Result-cases, inl, inr,
}
use downshift.Base.Number.{Number}
use downshift.Runs.{RunResult}
use downshift.Runs.Store.Finalize.{finalize_attempt}
use downshift.Runs.Store.Finalize.Reported.{finalize_attempt-Reports}
use downshift.Recorder.{Setup, Recorder, RecorderError, Step, Failure}
use downshift.Recorder.Finish.{
  FinalError, no_error, limit_error, other_error, settle_agent, note_error, flush, input_of, close,
  capture_workspace_patch, finalize, finalize_over, after_step, status_of,
}
use downshift.Recorder.Extension.{
  and_then, returned, append_shutdown, finish_session, on_session_shutdown,
}
use downshift.Recorder.Verdict.{Same, Follows, of_parts, of_Same, Follows-refl, Follows-trans}

module _ {F P : Type 0} (num : Number F) (setup : Setup F P) where
  pub settle_agent-Same : (ms : ℕ) (r : Recorder F P) → Same r (settle_agent ms r)
  unfolding settle_agent
  settle_agent-Same ms r = (ground arith, ground arith, ground arith)

  pub flush-Same : (r : Recorder F P) → Same r (flush r).0
  unfolding flush
  flush-Same r = (ground arith, ground arith, ground arith)

  pub capture-Same :
      (diff : Result (Unit {0}) (Option String)) (r : Recorder F P)
      → Same r (capture_workspace_patch num setup diff r).0
  unfolding capture_workspace_patch
  capture-Same (err e) r = (ground arith, ground arith, ground arith)
  capture-Same (ok none) r = (ground arith, ground arith, ground arith)
  capture-Same (ok (some patch)) r = (ground arith, ground arith, ground arith)

  note_error-limit :
      (e : FinalError) (now : String) (r : Recorder F P) (f : Failure)
      → r.limit_failure ≡ some f
      → (note_error num setup e now r).0.limit_failure ≡ some f
  unfolding note_error
  note_error-limit no_error now r f h = h
  note_error-limit (limit_error l) now r f h = ground arith
  note_error-limit (other_error m) now r f h = ground arith

  note_error-rest :
      (e : FinalError) (now : String) (r : Recorder F P)
      → ((note_error num setup e now r).0.served_model ≡ r.served_model)
        × ((note_error num setup e now r).0.finalized_result ≡ r.finalized_result)
  unfolding note_error
  note_error-rest no_error now r = (refl, refl)
  note_error-rest (limit_error l) now r = (ground arith, ground arith)
  note_error-rest (other_error m) now r = (ground arith, ground arith)

  note_error-Follows :
      (e : FinalError) (now : String) (r : Recorder F P)
      → Follows r (note_error num setup e now r).0
  note_error-Follows e now r =
      let (served, result) = note_error-rest e now r in
      of_parts (note_error-limit e now r) (λ i h. (i, served ∙ h, refl, refl)) result

  input_of-status :
      (r : Recorder F P) (now : Option String)
      → (input_of num setup r now).execution_status ≡ status_of r.limit_failure r.last_error
  unfolding input_of
  input_of-status r now = refl

  -- `close` fails, or makes the result, whose status is that of the recorder.
  pub close_cases :
      (now : String) (r : Recorder F P)
      → let c = close num setup now r in
        (Same r c.0 × ((x : RunResult F) → c.1 ≢ ok x))
        ⊎ ((x : RunResult F) × (c.1 ≡ ok x)
            × (c.0.finalized_result ≡ some x)
            × (c.0.limit_failure ≡ r.limit_failure)
            × (c.0.served_model ≡ r.served_model)
            × (x.execution.status ≡ status_of r.limit_failure r.last_error))
  unfolding close
  close_cases now r =
      let input = input_of num setup r (some now) in
      elim (Result-cases (finalize_attempt setup.codec r.store input now).1) [
        | inr (e, p) ↦
            inl ((ground (arith, p), ground (arith, p), ground (arith, p)), λ x. ground (arith, p))
        | inl (x, p) ↦
            let reports = finalize_attempt-Reports setup.codec r.store input now x p in
            inr (
              x,
              ground (arith, p),
              ground (arith, p),
              ground (arith, p),
              ground (arith, p),
              reports.0 ∙ input_of-status r (some now),
            )
      ]

  close-Follows :
      (now : String) (r : Recorder F P)
      → r.finalized_result ≡ none
      → Follows r (close num setup now r).0
  close-Follows now r open_yet = elim (close_cases now r) [
    | inl (same, failed) ↦ of_Same same
    | inr (x, made, stored, limit, served, status) ↦ record {
      limit = λ f h. limit ∙ h;
      served = λ i h. (i, served ∙ h, refl, refl);
      kept = λ y h. let clash : none ≡ some y = sym open_yet ∙ h in cc;
      status = λ f y h n e.
          let same : some x ≡ some y = sym stored ∙ e in
          ap (λ o. elim o [ none ↦ x.execution.status | some z ↦ z.execution.status ]) (sym same)
          ∙ status
          ∙ ap (λ l. status_of l r.last_error) h;
    }
  ]

  after_step-Follows :
      (r : Recorder F P) (x : Step F P)
      (next : Recorder F P → Recorder F P × Result RecorderError (RunResult F))
      → Follows r x.0
      → Follows x.0 (next x.0).0
      → Follows r (after_step num setup x next).0
  after_step-Follows r (t, ok u) next a b = Follows-trans a b
  after_step-Follows r (t, err e) next a b = a

  over-Follows :
      (o : Option (RunResult F)) (e : FinalError) (now : String) (ms : ℕ) (r : Recorder F P)
      → r.finalized_result ≡ o
      → Follows r (finalize_over num setup o e now ms r).0
  unfolding finalize_over
  over-Follows (some x) e now ms r h = Follows-refl r
  over-Follows none e now ms r h =
      let s = settle_agent ms r in
      let x = note_error num setup e now s in
      let settled = settle_agent-Same ms r in
      let open_yet = (note_error-rest e now s).1 ∙ settled.2 ∙ h in
      let flushed = flush-Same x.0 in
      after_step-Follows r x _ (Follows-trans (of_Same settled) (note_error-Follows e now s)) (
        after_step-Follows x.0 (flush x.0) _ (of_Same flushed)
          (close-Follows now (flush x.0).0 (flushed.2 ∙ open_yet)))

  pub finalize-Follows :
      (e : FinalError) (now : String) (ms : ℕ) (r : Recorder F P)
      → Follows r (finalize num setup e now ms r).0
  unfolding finalize
  finalize-Follows e now ms r = over-Follows r.finalized_result e now ms r refl

  after_step-ok :
      (u : Step F P) (next : Recorder F P → Recorder F P × Result RecorderError (RunResult F))
      {t : Recorder F P} {result : RunResult F}
      → after_step num setup u next ≡ (t, ok result)
      → next u.0 ≡ (t, ok result)
  after_step-ok (r, ok v) next h = h
  after_step-ok (r, err e) next h = cc

  over-stored :
      (o : Option (RunResult F)) (e : FinalError) (now : String) (ms : ℕ) (r : Recorder F P)
      {t : Recorder F P} {x : RunResult F}
      → r.finalized_result ≡ o
      → finalize_over num setup o e now ms r ≡ (t, ok x)
      → t.finalized_result ≡ some x
  unfolding finalize_over
  over-stored (some y) e now ms r {t = t} {x = x} h done =
      let same : y ≡ x = ap (λ u. elim u.1 [ ok z ↦ z | err e ↦ y ]) done in
      sym (ap (λ u. u.0.finalized_result) done) ∙ h ∙ ap some same
  over-stored none e now ms r {t = t} {x = x} h done =
      let u = note_error num setup e now (settle_agent ms r) in
      let flushed =
        after_step-ok u (λ v. after_step num setup (flush v) λ w. close num setup now w) done in
      let closed = after_step-ok (flush u.0) (λ w. close num setup now w) flushed in
      elim (close_cases now (flush u.0).0) [
        | inl (same, failed) ↦ absurd (failed x (ap (λ c. c.1) closed))
        | inr (y, made, stored, _, _, _) ↦
            let same : y ≡ x =
              ap (λ c. elim c [ ok z ↦ z | err e ↦ y ]) (sym made ∙ ap (λ c. c.1) closed) in
            sym (ap (λ c. c.0.finalized_result) closed) ∙ stored ∙ ap some same
      ]

  -- The result that `finalize` gives back is the recorder's result.
  pub finalize-stored :
      (e : FinalError) (now : String) (ms : ℕ) (r : Recorder F P) {t : Recorder F P}
      {x : RunResult F}
      → finalize num setup e now ms r ≡ (t, ok x)
      → t.finalized_result ≡ some x
  unfolding finalize
  finalize-stored e now ms r done = over-stored r.finalized_result e now ms r refl done

  -- A recorder that has a result gives it back, and stays as it is.
  pub finalize_again :
      (e : FinalError) (now : String) (ms : ℕ) (r : Recorder F P) {x : RunResult F}
      → r.finalized_result ≡ some x
      → finalize num setup e now ms r ≡ (r, ok x)
  unfolding finalize finalize_over
  finalize_again e now ms r h = ap (λ o. finalize_over num setup o e now ms r) h

  pub returned-Follows :
      (r : Recorder F P) (x : Recorder F P × Result RecorderError (RunResult F))
      → Follows r x.0
      → Follows r (returned num setup x).0
  returned-Follows r (t, ok y) h = h
  returned-Follows r (t, err e) h = h

  and_then-Follows :
      (r : Recorder F P) (x : Step F P) (next : Recorder F P → Step F P)
      → Follows r x.0
      → ((t : Recorder F P) → Follows t (next t).0)
      → Follows r (and_then num setup x next).0
  and_then-Follows r (t, ok u) next a b = Follows-trans a (b t)
  and_then-Follows r (t, err e) next a b = a

  finish_session-Follows :
      (diff : Result (Unit {0}) (Option String)) (now : String) (ms : ℕ) (r : Recorder F P)
      → Follows r (finish_session num setup diff now ms r).0
  unfolding finish_session
  finish_session-Follows diff now ms r =
      and_then-Follows r (capture_workspace_patch num setup diff r) _
        (of_Same (capture-Same diff r))
        λ s.
          returned-Follows s (finalize num setup no_error now ms s)
            (finalize-Follows no_error now ms s)

  append_shutdown-Same :
      (reason now : String) (r : Recorder F P) → Same r (append_shutdown num setup reason now r).0
  unfolding append_shutdown
  append_shutdown-Same reason now r = (refl, refl, refl)

  if-Follows :
      (b : Bool) (r : Recorder F P) (x y : Step F P)
      → Follows r x.0
      → Follows r y.0
      → Follows r (if b then x else y).0
  if-Follows true r x y a b = a
  if-Follows false r x y a b = b

  pub shutdown-Follows :
      (reason : String) (diff : Result (Unit {0}) (Option String)) (now : String) (ms : ℕ)
      (r : Recorder F P)
      → Follows r (on_session_shutdown num setup reason diff now ms r).0
  unfolding on_session_shutdown
  shutdown-Follows reason diff now ms r =
      and_then-Follows r (append_shutdown num setup reason now r) _
        (of_Same (append_shutdown-Same reason now r))
        λ s.
          and_then-Follows s (flush s) _ (of_Same (flush-Same s))
            λ t. if-Follows _ t _ (t, ok tt) (finish_session-Follows diff now ms t) (Follows-refl t)
