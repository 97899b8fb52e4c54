-- ===== src/Recorder/Conclusion.antt =====
-- What the recorder concludes of an attempt.
use downshift.Base.{
  ℕ, String, ◌≡◌, sym, ap, ◌∙◌, none, some, List, ok, arith, inl, inr, eq_iff, Bool-cases,
}
use downshift.Base.Number.{Number}
use downshift.Decision.{ModelIdentity, RoutingDecision}
use downshift.Runs.{RunResult}
use downshift.Recorder.{Setup, Recorder, Failure, AssistantMessage}
use downshift.Recorder.Finish.{FinalError, finalize}
use downshift.Recorder.Extension.{State, Happening, run}
use downshift.Recorder.Verdict.{IsServing, Follows, Follows-trans}
use downshift.Recorder.Verdict.Closing.{finalize-Follows, finalize-stored, finalize_again}
use downshift.Recorder.Verdict.Handled.{accept-served, run-Follows}
use downshift.Recorder.Messages.{
  record_assistant_message, identity_of, is_outside, is_another, selected,
}
use downshift.Routing.{role_model}

module _ {F P : Type 0} (num : Number F) (setup : Setup F P) where
  -- Once a model has served a coding call, the attempt's served model keeps its provider and its model,
  -- whichever events and calls of the recorder follow, shutdowns and finalizations included, and
  -- whichever of them throw.
  pub served_model_fixed :
      (steps : List (Happening F × String × ℕ)) (s : State F P) (i : ModelIdentity)
      → s.recorder.served_model ≡ some i
      → IsServing i (run num setup steps s).recorder.served_model
  served_model_fixed steps s i h = Follows.served (run-Follows num setup steps s) i h

  -- After a limit has failed in an attempt without a result, and whichever events and calls of the
  -- recorder follow, shutdowns and finalizations included, the result that `finalize` gives back has the
  -- status of that limit; and whatever follows then, every later `finalize` gives back the same result
  -- and changes nothing.
  pub first_limit_decides :
      (steps : List (Happening F × String × ℕ)) (s u : State F P) (f : Failure) (e : FinalError)
      (now : String) (ms : ℕ) {result : RunResult F}
      → s.recorder.limit_failure ≡ some f
      → s.recorder.finalized_result ≡ none
      → finalize num setup e now ms (run num setup steps s).recorder ≡ (u.recorder, ok result)
      → (result.execution.status ≡ f.status)
        × ((more : List (Happening F × String × ℕ)) (again : FinalError) (later : String) (at : ℕ)
            → finalize num setup again later at (run num setup more u).recorder
              ≡ ((run num setup more u).recorder, ok result))
  first_limit_decides steps s u f e now ms {result = result} h open_yet done =
      let r = (run num setup steps s).recorder in
      let all =
        Follows-trans (run-Follows num setup steps s) (finalize-Follows num setup e now ms r) in
      let stored = finalize-stored num setup e now ms r done in
      let here : (finalize num setup e now ms r).0.finalized_result ≡ some result =
        ap (λ x. x.0.finalized_result) done ∙ stored in
      (
        all.status f result h open_yet here,
        λ more again later at.
            finalize_again num setup again later at (run num setup more u).recorder
              (Follows.kept (run-Follows num setup more u) result stored),
      )

module _ {F P : Type 0} (setup : Setup F P) where
  -- A message of the assistant is recorded without an error only from the provider and the model of the
  -- role that the decision selects, if there is a decision, and from the model that served before, if
  -- one did; it is then the served model.
  pub accepted_as_decided :
      (m : AssistantMessage) (id now : String) (r : Recorder F P) {t : Recorder F P}
      → record_assistant_message setup m id now r ≡ (t, ok tt)
      → (t.served_model ≡ some (identity_of m))
        × ((d : RoutingDecision F)
            → r.decision ≡ some d
            → (m.provider ≡ (role_model setup.roles d.selected_tier).provider)
              × (m.model ≡ (role_model setup.roles d.selected_tier).id))
        × ((i : ModelIdentity)
            → r.served_model ≡ some i
            → (m.provider ≡ i.provider) × (m.model ≡ i.model))
  unfolding record_assistant_message
  accepted_as_decided m id now r {t = t} h =
      elim (Bool-cases (is_outside setup (selected setup r) m)) [
        | inl o ↦ let h1 = rw (record_assistant_message, o) at h in cc
        | inr o ↦ elim (Bool-cases (is_another setup r.served_model (identity_of m))) [
          | inl a ↦ let h1 = rw (record_assistant_message, o, a) at h in cc
          | inr a ↦ (
            sym (ap (λ u. u.0.served_model) (rw (record_assistant_message, o, a) at h))
                ∙ accept-served setup m id now r,
            λ d e.
                let k = role_model setup.roles d.selected_tier in
                (
                  ground (arith, o, e, eq_iff m.provider k.provider),
                  ground (arith, o, e, eq_iff m.provider k.provider, eq_iff m.model k.id),
                ),
            λ i e. (
              ground (arith, a, e, eq_iff i.provider m.provider),
              ground (arith, a, e, eq_iff i.provider m.provider, eq_iff i.model m.model),
            ),
          )
        ]
      ]
