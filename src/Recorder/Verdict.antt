-- ===== src/Recorder/Verdict.antt =====
-- What an operation does not take back: the limit that failed first, the model that served, and the
-- result.
pub mod Closing
pub mod Handled
use downshift.Base.{
  ℕ, String, ◌≡◌, refl, ◌∙◌, sym, ap, Bool, true, false, Option, none, some, Result, ok, err, arith,
  Option-cases, inl, inr,
}
use downshift.Runs.{RunEventKind, RunResult}
use downshift.Runs.Store.{EventOptions}
use downshift.Recorder.{Content, Setup, Recorder, Step, Failure, track}
use downshift.Recorder.Events.{record_routing_event, end_call, bridge_usage}
use downshift.Routing.{
  RoutingEvent, execution_start, session_started, decided, call_started, call_succeeded,
  call_failed, auth_status, model_lock, routing_error,
}
use downshift.Usage.{UsageError, NormalizedUsage}
use downshift.Decision.{ModelIdentity}

-- The same provider and model.
abbrev pub IsServing : ModelIdentity → Option ModelIdentity → Type 0
IsServing i o = (j : ModelIdentity) × (o ≡ some j) × (j.provider ≡ i.provider) × (j.model ≡ i.model)

module _ {F P : Type 0} where
  -- Nothing of the verdict changes.
  abbrev pub Same : Recorder F P → Recorder F P → Type 0
  Same r t =
      (t.limit_failure ≡ r.limit_failure)
      × (t.served_model ≡ r.served_model)
      × (t.finalized_result ≡ r.finalized_result)

  -- What a later recorder keeps of an earlier one; a result that is made in between has the status of the
  -- limit that had failed before.
  pub record Follows (r t : Recorder F P) : Type 0 where
    pub limit : (f : Failure) → r.limit_failure ≡ some f → t.limit_failure ≡ some f
    pub served : (i : ModelIdentity) → r.served_model ≡ some i → IsServing i t.served_model
    pub kept : (x : RunResult F) → r.finalized_result ≡ some x → t.finalized_result ≡ some x
    pub status :
        (f : Failure) (x : RunResult F)
        → r.limit_failure ≡ some f
        → r.finalized_result ≡ none
        → t.finalized_result ≡ some x
        → x.execution.status ≡ f.status

  pub Same-trans : (r s t : Recorder F P) → Same r s → Same s t → Same r t
  Same-trans r s t (a, b, c) (d, e, f) = (d ∙ a, e ∙ b, f ∙ c)

  -- An operation that makes no result.
  pub of_parts :
      {r t : Recorder F P}
      → ((f : Failure) → r.limit_failure ≡ some f → t.limit_failure ≡ some f)
      → ((i : ModelIdentity) → r.served_model ≡ some i → IsServing i t.served_model)
      → t.finalized_result ≡ r.finalized_result
      → Follows r t
  of_parts {r = r} {t = t} a b c = record {
    limit = a;
    served = b;
    kept = λ x h. c ∙ h;
    status = λ f x h n e. let clash : none ≡ some x = sym n ∙ sym c ∙ e in cc;
  }

  pub of_Same : {r t : Recorder F P} → Same r t → Follows r t
  of_Same (a, b, c) = of_parts (λ f h. a ∙ h) (λ i h. (i, b ∙ h, refl, refl)) c

  pub Follows-refl : (r : Recorder F P) → Follows r r
  Follows-refl r = of_Same (refl, refl, refl)

  pub Follows-trans : {r s t : Recorder F P} → Follows r s → Follows s t → Follows r t
  Follows-trans {r = r} {s = s} {t = t} a b = record {
    limit = λ f h. b.limit f (a.limit f h);
    served = λ i h.
        let (j, at, provider, model) = a.served i h in
        let (k, end, p, m) = b.served j at in (k, end, p ∙ provider, m ∙ model);
    kept = λ x h. b.kept x (a.kept x h);
    status = λ f x h n e. elim (Option-cases s.finalized_result) [
      | inl still ↦ b.status f x (a.limit f h) still e
      | inr (y, made) ↦
          let same : some y ≡ some x = sym (b.kept y made) ∙ e in
          ap (λ o. elim o [ none ↦ y.execution.status | some z ↦ z.execution.status ]) (sym same)
          ∙ a.status f y h n made
    ];
  }

  module _ (setup : Setup F P) where
    pub track-Same :
        (kind : RunEventKind) (content : Content F) (o : EventOptions) (r : Recorder F P)
        → Same r (track setup kind content o r).0
    unfolding track
    track-Same kind content o r = (ground arith, ground arith, ground arith)

    end_call-Same :
        (e : RoutingEvent F) (id : String) (u : Result UsageError (Option NormalizedUsage))
        (done : Bool) (now : String) (ms : ℕ) (r : Recorder F P)
        → Same r (end_call setup e id u done now ms r).0
    unfolding end_call track
    end_call-Same e id u done now ms r = (ground arith, ground arith, ground arith)

    pub routing_event-Follows :
        (e : RoutingEvent F) (now : String) (ms : ℕ) (r : Recorder F P)
        → Follows r (record_routing_event setup e now ms r).0
    unfolding record_routing_event
    routing_event-Follows (execution_start id) now ms r = of_Same (refl, refl, refl)
    routing_event-Follows (call_started id) now ms r = of_Same (track-Same _ _ _ _)
    routing_event-Follows (call_succeeded id report) now ms r =
        of_Same (end_call-Same (call_succeeded id report) id (bridge_usage report) true now ms r)
    routing_event-Follows (call_failed id) now ms r =
        of_Same (end_call-Same (call_failed id) id (ok none) false now ms r)
    routing_event-Follows (decided action id (some d)) now ms r =
        of_Same (ground arith, ground arith, ground arith)
    routing_event-Follows (decided action id none) now ms r = of_Same (track-Same _ _ _ r)
    routing_event-Follows (auth_status p a) now ms r = of_Same (track-Same _ _ _ r)
    routing_event-Follows (routing_error id e none) now ms r = of_Same (track-Same _ _ _ _)
    routing_event-Follows (routing_error id e (some s)) now ms r =
        let (a, b, c) = track-Same _ _ _ _ in
        of_parts (λ f h. a ∙ ground arith) (λ i h. (i, b ∙ h, refl, refl)) c
    routing_event-Follows (session_started id x) now ms r = of_Same (track-Same _ _ _ r)
    routing_event-Follows (model_lock a p m) now ms r = of_Same (track-Same _ _ _ r)
