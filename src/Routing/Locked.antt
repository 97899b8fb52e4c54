-- ===== src/Routing/Locked.antt =====
-- The lock under the handlers of an input and of every event but the start of the session.
use downshift.Base.{
  String, ◌≡◌, refl, sym, ap, ◌∙◌, subst, Bool, true, false, none, some, Result, ok, err, arith,
  is_none, is_some, if◌then◌else◌,
}
use downshift.Base.Exec.{continue, ◌>>◌}
use downshift.Decision.{RoutingDecision}
use downshift.Routing.{Controller, Session, RoutingError, LockAction, DecisionAction, decided}
use downshift.Routing.Ask.{Env, Action, emit}
use downshift.Routing.Create.{create}
use downshift.Routing.Input.{
  adopt, decide, decide_or_restore, restore_model, apply_selected_model, check_elapsed, start_run,
  on_failure, on_input, stop_for_limit, finish_input, handled,
}
use downshift.Routing.Handlers.{
  Event, session_start, input, before_agent_start, turn_start, message_end, turn_end, agent_settled,
  before_compact, compact_ended, before_provider_request, model_select, session_shutdown,
  run_timer_fires, request_timer_fires, handle, on_before_compact, on_model_select, guard_model,
  repair_model, on_turn_start, on_before_agent_start, clear_request_timer, on_agent_settled,
  on_session_shutdown, on_run_timer, on_request_timer,
}
use downshift.Routing.Keeping.{
  Kept, Kept-refl, Kept-trans, Keeps, Keeps-bind, emit-Keeps, apply_selected_model-Keeps,
  restore_model-Keeps, on_failure-Kept, check_elapsed-Keeps,
}
use downshift.Routing.Lock.{IsBound, IsLocked, Kept-IsLocked, Created, create-Created}

module _ {F : Type 0} (c : Controller F) where
  -- An event that neither starts a session nor is an input.
  abbrev pub is_quiet : Event → Bool
  is_quiet (session_start reason) = false
  is_quiet (input text) = false
  is_quiet _ = true

  finish_input-Kept : (u : Session F × Result RoutingError (Unit {0})) → Kept u.0 (finish_input u).0
  finish_input-Kept (s, ok u) = Kept-refl s
  finish_input-Kept (s, err e) = on_failure-Kept e s

  on_before_compact-Kept : (env : Env F) (s : Session F) → Kept s (on_before_compact c env s).0
  unfolding on_before_compact
  on_before_compact-Kept env s =
      let k = restore_model-Keeps c env s in
      (ground (arith, k), ground (arith, k), ground (arith, k))

  pub quiet-Kept :
      (env : Env F) (e : Event) (s : Session F) → is_quiet e ≡ true → Kept s (handle c env e s).0
  unfolding handle on_before_agent_start on_turn_start clear_request_timer on_agent_settled
      on_model_select guard_model repair_model on_session_shutdown on_run_timer on_request_timer
      stop_for_limit
  quiet-Kept env (session_start reason) s q = cc
  quiet-Kept env (input text) s q = cc
  quiet-Kept env before_agent_start s q = (ground arith, ground arith, ground arith)
  quiet-Kept env turn_start s q = (ground arith, ground arith, ground arith)
  quiet-Kept env (message_end a) s q = (ground arith, ground arith, ground arith)
  quiet-Kept env turn_end s q = Kept-refl s
  quiet-Kept env agent_settled s q = Kept-refl s
  quiet-Kept env before_compact s q = on_before_compact-Kept env s
  quiet-Kept env compact_ended s q = Kept-refl s
  quiet-Kept env before_provider_request s q = Kept-refl s
  quiet-Kept env (model_select m) s q = (ground arith, ground arith, ground arith)
  quiet-Kept env session_shutdown s q = Kept-refl s
  quiet-Kept env run_timer_fires s q = (ground arith, ground arith, ground arith)
  quiet-Kept env request_timer_fires s q = (ground arith, ground arith, ground arith)

  pub locks :
      (s : Session F) (d : RoutingDecision F) → s.current ≡ some d → IsBound c s d → IsLocked c s
  locks s d e bound x k =
      subst (IsBound c s) (ap (λ o. elim o [ none ↦ d | some y ↦ y ]) (sym e ∙ k)) bound

  pub unlocked : (s : Session F) → s.current ≡ none → IsLocked c s
  unlocked s e d k = cc

  -- What follows `create` in the handler of an input.
  then_lock : Env F → RoutingDecision F → Action F (Unit {0})
  then_lock env d =
      apply_selected_model c env LockAction.selected
      >> emit (decided DecisionAction.persisted d.pi_session_id (some d))

  then_lock-Keeps : (env : Env F) (d : RoutingDecision F) → Keeps (then_lock env d)
  unfolding then_lock
  then_lock-Keeps env d =
      let told = emit (decided DecisionAction.persisted d.pi_session_id (some d)) in
      Keeps-bind (apply_selected_model c env LockAction.selected) (λ u. told)
        (apply_selected_model-Keeps c env LockAction.selected) (λ u. emit-Keeps _)

  adopted :
      (env : Env F) (s t : Session F) (r : Result RoutingError (RoutingDecision F))
      → Created c s (t, r)
      → s.current ≡ none
      → IsLocked c (continue t r λ d u. then_lock env d (adopt d u)).0
  unfolding adopt
  adopted env s t (ok d) (near, bound, ours) e =
      Kept-IsLocked c (adopt d t) (then_lock env d (adopt d t)).0
        (then_lock-Keeps env d (adopt d t)) (locks (adopt d t) d refl bound)
  adopted env s t (err x) near e = unlocked t (near.0 ∙ e)

  decide-IsLocked :
      (env : Env F) (text : String) (s : Session F)
      → s.current ≡ none
      → IsLocked c (decide c env text s).0
  unfolding decide then_lock
  decide-IsLocked env text s e =
      let r = create c env text s in adopted env s r.0 r.1 (create-Created c env text s) e

  if-IsLocked :
      {A : Type 0} (b : Bool) (x y : Session F × A)
      → (b ≡ true → IsLocked c x.0)
      → IsLocked c y.0
      → IsLocked c (if b then x else y).0
  if-IsLocked true x y h k = h refl
  if-IsLocked false x y h k = k

  decide_or_restore-IsLocked :
      (env : Env F) (text : String) (s : Session F)
      → IsLocked c s
      → IsLocked c (decide_or_restore c env text s).0
  unfolding decide_or_restore
  decide_or_restore-IsLocked env text s h =
      if-IsLocked (is_none s.current) (decide c env text s) (restore_model c env s)
        (λ n. decide-IsLocked env text s (ground (arith, n)))
        (Kept-IsLocked c s (restore_model c env s).0 (restore_model-Keeps c env s) h)

  decide_or_restore-Kept :
      (env : Env F) (text : String) (s : Session F) {d : RoutingDecision F}
      → s.current ≡ some d
      → Kept s (decide_or_restore c env text s).0
  unfolding decide_or_restore
  decide_or_restore-Kept env text s e =
      let k = restore_model-Keeps c env s in
      (ground (arith, k), ground (arith, k), ground (arith, k))

  finished :
      (env : Env F) (s : Session F) (u : Session F × Result RoutingError (Unit {0}))
      → Kept s u.0
      → Kept s (finish_input (continue u.0 u.1 λ v. check_elapsed c env)).0
  finished env s (t, ok v) k =
      let w = check_elapsed c env t in
      Kept-trans s t (finish_input w).0 k
        (Kept-trans t w.0 (finish_input w).0 (check_elapsed-Keeps c env t) (finish_input-Kept w))
  finished env s (t, err e) k = Kept-trans s t (on_failure e t) k (on_failure-Kept e t)

  pub on_input-IsLocked :
      (env : Env F) (text : String) (s : Session F)
      → IsLocked c s
      → IsLocked c (on_input c env text s).0
  unfolding on_input start_run
  on_input-IsLocked env text s h =
      let u = decide_or_restore c env text (start_run s) in
      let w = finish_input (continue u.0 u.1 λ v. check_elapsed c env) in
      if-IsLocked (is_some s.startup_error) (s, handled) w (λ e. h)
        (Kept-IsLocked c u.0 w.0 (finished env u.0 u (Kept-refl u.0))
          (decide_or_restore-IsLocked env text (start_run s) h))

  if-Kept :
      {A : Type 0} (b : Bool) (s : Session F) (x y : Session F × A)
      → Kept s x.0
      → Kept s y.0
      → Kept s (if b then x else y).0
  if-Kept true s x y h k = h
  if-Kept false s x y h k = k

  pub on_input-Kept :
      (env : Env F) (text : String) (s : Session F) {d : RoutingDecision F}
      → s.current ≡ some d
      → Kept s (on_input c env text s).0
  unfolding on_input start_run
  on_input-Kept env text s e =
      let u = decide_or_restore c env text (start_run s) in
      if-Kept (is_some s.startup_error) s (s, handled)
        (finish_input (continue u.0 u.1 λ v. check_elapsed c env)) (Kept-refl s)
        (finished env s u (decide_or_restore-Kept env text (start_run s) e))
