-- ===== src/Routing/Permanent.antt =====
-- A session's decision is persisted, is never replaced, and is what its requests go to.
use downshift.Base.{
  String, ◌≡◌, refl, sym, ap, ◌∙◌, subst, true, Option, none, some, List, [], ◌∷◌, Result, ok, err,
  arith, str_eq, Option-cases, Result-cases, inl, inr, eq_iff,
}
use downshift.Config.{Model}
use downshift.Decision.{RoutingDecision}
use downshift.Routing.{
  Controller, Session, document, StartReason, RoutingError, session_started, models_match,
  selected_model, role_model, malformed,
}
use downshift.Routing.Durable.{load}
use downshift.Routing.Ask.{Env, emit}
use downshift.Routing.Input.{on_loaded, on_session_start, fail, proceed}
use downshift.Routing.Handlers.{
  Event, session_start, input, before_agent_start, turn_start, message_end, turn_end, agent_settled,
  before_compact, compact_ended, before_provider_request, model_select, session_shutdown,
  run_timer_fires, request_timer_fires, handle, provider_request_reply, run,
}
use downshift.Routing.Keeping.{Kept, Kept-refl, Kept-trans, restore_model-Keeps}
use downshift.Routing.Loading.{load-Found}
use downshift.Routing.Lock.{IsBound, IsLocked, Kept-IsLocked}
use downshift.Routing.Locked.{
  is_quiet, quiet-Kept, on_input-IsLocked, on_input-Kept, locks, unlocked,
}

module _ {F : Type 0} (c : Controller F) where
  abbrev with_current : Session F → RoutingDecision F → Session F
  with_current s d = record s { current = some d }

  restored-Kept :
      (env : Env F) (d : RoutingDecision F) (s : Session F)
      → Kept (with_current s d) (on_loaded c env (ok (some d)) s)
  unfolding on_loaded fail emit
  restored-Kept env d s =
      let k = restore_model-Keeps c env (with_current s d) in
      (ground (arith, k), ground (arith, k), ground (arith, k))

  on_loaded-IsLocked :
      (env : Env F) (reason : StartReason) (s : Session F)
      (r : Result RoutingError (Option (RoutingDecision F)))
      → load c s.files s.session_id s.entries reason ≡ r
      → IsLocked c s
      → IsLocked c (on_loaded c env r s)
  unfolding on_loaded fail emit
  on_loaded-IsLocked env reason s (err e) l h = h
  on_loaded-IsLocked env reason s (ok none) l h = unlocked c (on_loaded c env (ok none) s) refl
  on_loaded-IsLocked env reason s (ok (some d)) l h =
      let (custom, p, q, fresh, found) =
        load-Found c s.files s.session_id s.entries reason (some d) l in
      Kept-IsLocked c (with_current s d) (on_loaded c env (ok (some d)) s) (restored-Kept env d s)
        (locks c (with_current s d) d refl (found.persisted, found.same_session, found.mode))

  on_loaded-Kept :
      (env : Env F) (reason : StartReason) (s : Session F) (d : RoutingDecision F)
      (r : Result RoutingError (Option (RoutingDecision F)))
      → load c s.files s.session_id s.entries reason ≡ r
      → s.current ≡ some d
      → IsLocked c s
      → Kept s (on_loaded c env r s)
  unfolding on_loaded fail emit
  on_loaded-Kept env reason s d (err x) l e h = (refl, refl, refl)
  on_loaded-Kept env reason s d (ok none) l e h =
      let missing = load-Found c s.files s.session_id s.entries reason none l in
      let (file, id, mode) = h d e in cc
  on_loaded-Kept env reason s d (ok (some x)) l e h =
      let (custom, p, q, fresh, found) =
        load-Found c s.files s.session_id s.entries reason (some x) l in
      let (file, id, mode) = h d e in
      let same : x ≡ d =
        ap (λ o. elim o [ none ↦ x | some v ↦ elim v [ malformed ↦ x | document y ↦ y ] ])
          (sym found.persisted ∙ file) in
      Kept-trans s (with_current s x) (on_loaded c env (ok (some x)) s)
        (ap some same ∙ sym e, refl, refl) (restored-Kept env x s)

  event_cases :
      (P : Event → Type 0)
      → ((reason : StartReason) → P (session_start reason))
      → ((text : String) → P (input text))
      → ((e : Event) → is_quiet c e ≡ true → P e)
      → (e : Event) → P e
  event_cases P start told quiet (session_start reason) = start reason
  event_cases P start told quiet (input text) = told text
  event_cases P start told quiet before_agent_start = quiet _ refl
  event_cases P start told quiet turn_start = quiet _ refl
  event_cases P start told quiet (message_end a) = quiet _ refl
  event_cases P start told quiet turn_end = quiet _ refl
  event_cases P start told quiet agent_settled = quiet _ refl
  event_cases P start told quiet before_compact = quiet _ refl
  event_cases P start told quiet compact_ended = quiet _ refl
  event_cases P start told quiet before_provider_request = quiet _ refl
  event_cases P start told quiet (model_select m) = quiet _ refl
  event_cases P start told quiet session_shutdown = quiet _ refl
  event_cases P start told quiet run_timer_fires = quiet _ refl
  event_cases P start told quiet request_timer_fires = quiet _ refl

  handle-IsLocked :
      (env : Env F) (s : Session F) → IsLocked c s → (e : Event) → IsLocked c (handle c env e s).0
  unfolding handle on_session_start emit
  handle-IsLocked env s h =
      event_cases (λ e. IsLocked c (handle c env e s).0)
        (λ reason.
          let t = (emit (session_started s.session_id reason) s).0 in
          on_loaded-IsLocked env reason t (load c t.files t.session_id t.entries reason) refl h)
        (λ text. on_input-IsLocked c env text s h)
        (λ e q. Kept-IsLocked c s (handle c env e s).0 (quiet-Kept c env e s q) h)

  handle-Kept :
      (env : Env F) (s : Session F) (d : RoutingDecision F)
      → s.current ≡ some d
      → IsLocked c s
      → (e : Event) → Kept s (handle c env e s).0
  unfolding handle on_session_start emit
  handle-Kept env s d k h =
      event_cases (λ e. Kept s (handle c env e s).0)
        (λ reason.
          let t = (emit (session_started s.session_id reason) s).0 in
          on_loaded-Kept env reason t d (load c t.files t.session_id t.entries reason) refl k h)
        (λ text. on_input-Kept c env text s k) (λ e q. quiet-Kept c env e s q)

  run-IsLocked :
      (steps : List (Env F × Event)) (s : Session F) → IsLocked c s → IsLocked c (run c steps s)
  unfolding run
  run-IsLocked [] s h = h
  run-IsLocked ((env, e) ∷ steps) s h =
      run-IsLocked steps (handle c env e s).0 (handle-IsLocked env s h e)

  run-Kept :
      (steps : List (Env F × Event)) (s : Session F) (d : RoutingDecision F)
      → s.current ≡ some d
      → IsLocked c s
      → Kept s (run c steps s)
  unfolding run
  run-Kept [] s d k h = Kept-refl s
  run-Kept ((env, e) ∷ steps) s d k h =
      let t = (handle c env e s).0 in
      let kept = handle-Kept env s d k h e in
      Kept-trans s t (run c steps t) kept
        (run-Kept steps t d (kept.0 ∙ k) (handle-IsLocked env s h e))

  -- From a session without a decision, whatever the events: once it has a decision, every later event
  -- leaves it with this decision, which stands in the session's file and was made for the session and the
  -- controller's mode.
  pub decision_permanent :
      (before after : List (Env F × Event)) (s : Session F) {d : RoutingDecision F}
      → s.current ≡ none
      → (run c before s).current ≡ some d
      → let t = run c after (run c before s) in (t.current ≡ some d) × IsBound c t d
  decision_permanent before after s {d = d} n k =
      let locked = run-IsLocked before s (unlocked c s n) in
      let kept = run-Kept after (run c before s) d k locked in
      let current = kept.0 ∙ k in (current, run-IsLocked after (run c before s) locked d current)

  allowed :
      (s : Session F)
      → provider_request_reply c s ≡ proceed
      → (d : RoutingDecision F) × (m : Model) × (s.current ≡ some d)
        × (s.limit_error ≡ none)
        × (selected_model c d ≡ ok m)
        × (models_match s.model m ≡ true)
  unfolding provider_request_reply
  allowed s h = elim (Option-cases s.limit_error) [
    | inr (l, e) ↦ ground arith
    | inl free ↦ elim (Option-cases s.current) [
      | inl n ↦ ground arith
      | inr (d, k) ↦ elim (Result-cases (selected_model c d)) [
        | inr (e, q) ↦ ground arith
        | inl (m, q) ↦ (d, m, k, free, q, ground arith)
      ]
    ]
  ]

  selected_model-role :
      (d : RoutingDecision F) {m : Model}
      → selected_model c d ≡ ok m
      → let r = role_model c.roles d.selected_tier in
        (m ≡ r)
        × (str_eq d.selected_model.provider r.provider ≡ true)
        × (str_eq d.selected_model.model r.id ≡ true)
  unfolding selected_model
  selected_model-role d h = (ground arith, ground arith, ground arith)

  -- A request to a provider passes, in whatever state the events have led to, only when the session has a
  -- decision that is persisted for it, no limit has been exceeded, and Pi's model is the configured model
  -- of the tier that was decided, which the decision names too.
  pub request_follows_decision :
      (steps : List (Env F × Event)) (s : Session F) (env : Env F)
      → s.current ≡ none
      → let t = run c steps s in
        (handle c env before_provider_request t).1 ≡ proceed
        → (d : RoutingDecision F) × (t.current ≡ some d)
          × IsBound c t d
          × (t.limit_error ≡ none)
          × (models_match t.model (role_model c.roles d.selected_tier) ≡ true)
          × (d.selected_model.provider ≡ (role_model c.roles d.selected_tier).provider)
          × (d.selected_model.model ≡ (role_model c.roles d.selected_tier).id)
  unfolding handle
  request_follows_decision steps s env n h =
      let (d, m, k, free, selected, match) = allowed (run c steps s) h in
      let (same, provider, id) = selected_model-role d selected in
      (
        d,
        k,
        run-IsLocked steps s (unlocked c s n) d k,
        free,
        subst (λ x. models_match (run c steps s).model x ≡ true) same match,
        (eq_iff _ _).0 provider,
        (eq_iff _ _).0 id,
      )
