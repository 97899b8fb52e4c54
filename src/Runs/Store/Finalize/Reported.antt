-- ===== src/Runs/Store/Finalize/Reported.antt =====
-- What `finalizeAttempt` reports, whatever the store held.
use downshift.Base.{String, ◌≡◌, refl, sym, ap, ◌∙◌, ok, arith, inl, inr, Bool-cases, Result-cases}
use downshift.Runs.{RunResult}
use downshift.Runs.Outcome.Attach.{validate_run_result_iff}
use downshift.Runs.Store.{Store, Codec, drain}
use downshift.Runs.Store.Finalize.{
  FinalizeInput, result_of, ensure_decision, check_and_close, finalize_attempt,
}
use downshift.Runs.Store.Finalize.Closed.{Reports, check_and_close_cases}

module _ {F P : Type 0} (codec : Codec F P) where
  check_and_close-Reports :
      (s : Store F P) (input : FinalizeInput F) (r : RunResult F) (now : String)
      → (check_and_close codec s input now).1 ≡ ok r
      → Reports input r
  unfolding result_of
  check_and_close-Reports s input r now done =
      let (valid, same) = check_and_close_cases codec s input r now done in
      let (built, _, _, _) =
        (validate_run_result_iff codec.schemas (result_of s input) r).0 valid in
      rw built (refl, refl, refl, refl, refl)

  pub finalize_attempt-Reports :
      (s : Store F P) (input : FinalizeInput F) (now : String) (r : RunResult F)
      → (finalize_attempt codec s input now).1 ≡ ok r
      → Reports input r
  unfolding finalize_attempt
  finalize_attempt-Reports s input now r done =
      let t = ensure_decision codec (drain s) input.decision input.decision_observation now in
      elim (Bool-cases s.finalized) [
        | inl closed ↦ absurd (ground arith)
        | inr still ↦ elim (Result-cases t.1) [
          | inl (x, e) ↦
              let same : finalize_attempt codec s input now
                  ≡ check_and_close codec (drain t.0) input now =
                ground arith in
              check_and_close-Reports (drain t.0) input r now (ap (λ c. c.1) (sym same) ∙ done)
          | inr (x, e) ↦ absurd (ground arith)
        ]
      ]
