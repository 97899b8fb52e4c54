-- ===== src/Runs/Store/Finalize/Closed.antt =====
-- What holds of an attempt once `finalizeAttempt` has returned.
use downshift.Base.{
  ◌≡◌, refl, ap, subst, sym, ◌⊎◌, String, Bool, true, Option, none, some, [], ok, arith, Bool-cases,
  inl, inr, Result-cases, ◌∙◌,
}
use downshift.Decision.{RoutingDecision}
use downshift.Runs.{Observation, persisted, finalization, RunResult, CheckStatus}
use downshift.Runs.Outcome.{validate_run_result}
use downshift.Runs.Outcome.Attach.{validate_run_result_iff}
use downshift.Runs.Store.{Store, Codec, append_event, record_decision, drain, or_default}
use downshift.Runs.Store.Reading.{read_attempt, read_attempt_ok, read_result-some}
use downshift.Runs.Store.Journal.{
  IsSound, append_event-IsSound, record_decision-IsSound, drain-IsSound,
}
use downshift.Runs.Store.Finalize.{
  FinalizeInput, result_of, is_recorded, plain, finish, ensure_decision, close_attempt,
  check_and_close, finalize_attempt,
}

module _ {F : Type 0} where
  -- What a finalized attempt keeps of the input.
  abbrev pub Reports : FinalizeInput F → RunResult F → Type 0
  Reports input r =
      (r.execution.status ≡ input.execution_status)
      × (r.decision ≡ input.decision)
      × (r.validation.status ≡ CheckStatus.not_run)
      × (r.usage ≡ input.usage)
      × (r.costs ≡ input.costs)

module _ {F P : Type 0} (codec : Codec F P) where
  ensure_decision_cases :
      (s : Store F P) (d : Option (RoutingDecision F)) (o : Option Observation) (now : String)
      → ((ensure_decision codec s d o now).0 ≡ s)
        ⊎ ((e : RoutingDecision F) × (ensure_decision codec s d o now
              ≡ record_decision codec s e (or_default o persisted) now))
  unfolding ensure_decision
  ensure_decision_cases s none o now = inl refl
  ensure_decision_cases s (some d) o now = elim (Bool-cases (is_recorded s.decision d)) [
    | inl old ↦ inl (ground arith)
    | inr new ↦ inr (d, ground arith)
  ]

  ensure_decision-IsSound :
      (s : Store F P) (d : Option (RoutingDecision F)) (o : Option Observation) (now : String)
      → (ensure_decision codec s d o now).1 ≡ ok tt
      → IsSound codec s
      → IsSound codec (ensure_decision codec s d o now).0
  ensure_decision-IsSound s d o now fine h = elim (ensure_decision_cases s d o now) [
    | inl same ↦ rw same h
    | inr (e, same) ↦
        rw same
          (record_decision-IsSound codec s e (or_default o persisted) now (λ bad. ground arith) h)
  ]

  -- A finalized attempt: nothing is pending, and its journal and its result can be read back.
  pub record IsClosed (t : Store F P) (r : RunResult F) : Type 0 where
    pub finalized : t.finalized ≡ true
    pub nothing_pending : t.queue ≡ []
    pub readable :
        (torn : Bool)
        → read_attempt codec t.disk torn
          ≡ ok (record { result = some r; events = t.disk.events; truncated_tail = torn })

  finish-IsClosed :
      (s : Store F P) (r : RunResult F)
      → IsSound codec s
      → validate_run_result codec.schemas r ≡ ok r
      → IsClosed (finish (drain s) r) r
  unfolding finish drain
  finish-IsClosed s r h okay = record {
    finalized = refl;
    nothing_pending = refl;
    readable = λ torn.
        read_attempt_ok codec _ torn (some r) (read_result-some codec r refl okay) h.accepted
          h.numbered;
  }

  close_attempt_cases :
      (s : Store F P) (r r' : RunResult F) (now : String)
      → (close_attempt codec s r now).1 ≡ ok r'
      → (r' ≡ r)
        × ((u : Store F P) × ((close_attempt codec s r now).0 ≡ finish (drain u) r)
            × (IsSound codec s → IsSound codec u))
  unfolding close_attempt
  close_attempt_cases s r r' now done =
      let call =
        append_event codec s finalization
          (codec.final_payload r.execution.status r.validation.status) (plain now) in
      elim (Result-cases call.1) [
        | inl (x, e) ↦ (
          ground arith,
          (call.0, ground arith, λ h. append_event-IsSound codec s _ _ _ (λ bad. ground arith) h),
        )
        | inr (e, q) ↦ absurd (ground arith)
      ]

  pub check_and_close_cases :
      (s : Store F P) (input : FinalizeInput F) (r : RunResult F) (now : String)
      → (check_and_close codec s input now).1 ≡ ok r
      → (validate_run_result codec.schemas (result_of s input) ≡ ok r)
        × (check_and_close codec s input now ≡ close_attempt codec s r now)
  unfolding check_and_close
  check_and_close_cases s input r now done =
      elim (Result-cases (validate_run_result codec.schemas (result_of s input))) [
        | inl (x, e) ↦
            let same : check_and_close codec s input now ≡ close_attempt codec s x now =
              rw (e, check_and_close) refl in
            let same_result : r ≡ x =
              (close_attempt_cases s x r now (ap (λ c. c.1) (sym same) ∙ done)).0 in
            (
              e ∙ ap ok (sym same_result),
              subst (λ y. check_and_close codec s input now ≡ close_attempt codec s y now)
                  (sym same_result) same,
            )
        | inr (x, e) ↦ absurd (ground arith)
      ]

  check_and_close-IsClosed :
      (s : Store F P) (input : FinalizeInput F) (r : RunResult F) (now : String)
      → IsSound codec s
      → (check_and_close codec s input now).1 ≡ ok r
      → IsClosed (check_and_close codec s input now).0 r × Reports input r
  unfolding result_of
  check_and_close-IsClosed s input r now h done =
      let (valid, same) = check_and_close_cases s input r now done in
      let (built, _, _, _) =
        (validate_run_result_iff codec.schemas (result_of s input) r).0 valid in
      let (_, (u, e, sound)) = close_attempt_cases s r r now (ap (λ c. c.1) (sym same) ∙ done) in
      (
        subst (λ t. IsClosed t r) (sym (ap (λ c. c.0) same ∙ e))
            (finish-IsClosed u r (sound h)
              (subst (λ y. validate_run_result codec.schemas y ≡ ok r) (sym built) valid)),
        rw built (refl, refl, refl, refl, refl),
      )

  -- If `finalizeAttempt` returns a result on a sound store, then the store is finalized, nothing is
  -- pending, its directory is read back as that result and the written events, also with a torn last
  -- line, and the result reports the input's execution status, decision, usage and costs with a
  -- validation that has not run.
  pub finalize_attempt-IsClosed :
      (s : Store F P) (input : FinalizeInput F) (now : String) (r : RunResult F)
      → IsSound codec s
      → (finalize_attempt codec s input now).1 ≡ ok r
      → IsClosed (finalize_attempt codec s input now).0 r × Reports input r
  unfolding finalize_attempt
  finalize_attempt-IsClosed s input now r h done =
      let t = ensure_decision codec (drain s) input.decision input.decision_observation now in
      elim (Bool-cases s.finalized) [
        | inl closed ↦ absurd (ground arith)
        | inr still ↦ elim (Result-cases t.1) [
          | inl (x, e) ↦
              let same : finalize_attempt codec s input now
                  ≡ check_and_close codec (drain t.0) input now =
                ground arith in
              rw same (
                check_and_close-IsClosed (drain t.0) input r now
                  (drain-IsSound codec t.0 (
                    ensure_decision-IsSound (drain s) input.decision input.decision_observation now
                      e (drain-IsSound codec s h)))
                  (ap (λ c. c.1) (sym same) ∙ done))
          | inr (x, e) ↦ absurd (ground arith)
        ]
      ]
