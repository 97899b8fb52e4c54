-- ===== src/Routing/Limits.antt =====
-- The limits of a run: how many turns pass, and what a limit that is exceeded blocks.
use downshift.Base.{
  String, ◌≡◌, refl, Bool, true, false, not, ◌&&◌, Option, none, some, List, [], ◌∷◌, Result, ok,
  err, arith, tally, ℕ, ◌+◌, ◌-◌, ◌≤◌, ◌∙◌,
}
use downshift.Decision.{RoutingDecision}
use downshift.Routing.{
  Controller, Session, RoutingError, LockAction, auth_status, limit, LimitError, session_started,
}
use downshift.Routing.Ask.{Env, emit, check_providers, preflight_auth, providers}
use downshift.Routing.Input.{
  ensure_model, scope_model, apply_selected_model, restore_model, fail, on_loaded, Reply, proceed,
  threw, on_session_start, stop_for_limit,
}
use downshift.Routing.Handlers.{
  Event, input, turn_start, on_before_compact, session_start, before_agent_start, message_end,
  turn_end, agent_settled, before_compact, compact_ended, before_provider_request, model_select,
  session_shutdown, run_timer_fires, request_timer_fires, handle, run, on_model_select, guard_model,
  repair_model, on_turn_start, on_before_agent_start, clear_request_timer, on_agent_settled,
  on_session_shutdown, on_run_timer, on_request_timer, provider_request_reply, max_agent_turns,
}
use downshift.Routing.Durable.{load}

abbrev pub is_input : Event → Bool
is_input (input text) = true
is_input _ = false

abbrev is_turn_start : Event → Bool
is_turn_start turn_start = true
is_turn_start _ = false

abbrev is_proceed : Reply → Bool
is_proceed proceed = true
is_proceed _ = false

module _ {F : Type 0} where
  abbrev pub no_input : List (Env F × Event) → Bool
  no_input [] = true
  no_input ((env, e) ∷ steps) = not (is_input e) && no_input steps

  abbrev Steady : Session F → Session F → Type 0
  Steady s t = (t.limit_error ≡ s.limit_error) × (t.turn_count ≡ s.turn_count)

  check_providers-Steady :
      (env : Env F) (ps : List String) (s : Session F) → Steady s (check_providers env ps s).0
  unfolding check_providers emit
  check_providers-Steady env [] s = (refl, refl)
  check_providers-Steady env (p ∷ ps) s =
      let ih = check_providers-Steady env ps in
      let t = (emit (auth_status p (env.check_auth p)) s).0 in
      (ground (arith, ih t), ground (arith, ih t))

  module _ (c : Controller F) (env : Env F) where
    apply-Steady : (s : Session F) → Steady s (apply_selected_model c env LockAction.restored s).0
    unfolding apply_selected_model ensure_model scope_model emit
    apply-Steady s = (ground arith, ground arith)

    restore_model-Steady : (s : Session F) → Steady s (restore_model c env s).0
    unfolding restore_model preflight_auth
    restore_model-Steady s =
        let k = check_providers-Steady env (providers c) s in
        let l = apply-Steady (check_providers env (providers c) s).0 in
        (ground (arith, k, l), ground (arith, k, l))

    on_loaded-Steady :
        (r : Result RoutingError (Option (RoutingDecision F))) (s : Session F)
        → Steady s (on_loaded c env r s)
    unfolding on_loaded fail emit
    on_loaded-Steady (err e) s = (refl, refl)
    on_loaded-Steady (ok none) s = (refl, refl)
    on_loaded-Steady (ok (some d)) s =
        let k = restore_model-Steady (record s { current = some d }) in
        (ground (arith, k), ground (arith, k))

    on_before_compact-Steady : (s : Session F) → Steady s (on_before_compact c env s).0
    unfolding on_before_compact
    on_before_compact-Steady s =
        let k = restore_model-Steady s in (ground (arith, k), ground (arith, k))

  -- How many turns pass.
  abbrev pub turns : Controller F → List (Env F × Event) → Session F → ℕ
  turns c [] s = 0
  turns c ((env, e) ∷ steps) s =
      let (t, reply) = handle c env e s in
      tally (is_turn_start e && is_proceed reply) + turns c steps t

  module _ (c : Controller F) where
    handle-turns :
        (env : Env F) (e : Event) (s : Session F)
        → is_input e ≡ false
        → let x = handle c env e s in
          tally (is_turn_start e && is_proceed x.1) + (max_agent_turns c - x.0.turn_count)
          ≤ max_agent_turns c - s.turn_count
    unfolding handle on_session_start emit on_before_agent_start on_turn_start clear_request_timer
        on_agent_settled on_model_select guard_model repair_model on_session_shutdown on_run_timer
        on_request_timer stop_for_limit
    handle-turns env (session_start reason) s q =
        let t = (emit (session_started s.session_id reason) s).0 in
        let k = on_loaded-Steady c env (load c t.files t.session_id t.entries reason) t in
        omega (arith, k.1)
    handle-turns env (input text) s q = cc
    handle-turns env before_agent_start s q = ground arith
    handle-turns env turn_start s q = ground arith
    handle-turns env (message_end a) s q = ground arith
    handle-turns env turn_end s q = omega arith
    handle-turns env agent_settled s q = omega arith
    handle-turns env before_compact s q = omega (arith, (on_before_compact-Steady c env s).1)
    handle-turns env compact_ended s q = omega arith
    handle-turns env before_provider_request s q = omega arith
    handle-turns env (model_select m) s q = ground arith
    handle-turns env session_shutdown s q = omega arith
    handle-turns env run_timer_fires s q = ground arith
    handle-turns env request_timer_fires s q = ground arith

    handle-limited :
        (env : Env F) (e : Event) (s : Session F) (l : LimitError)
        → is_input e ≡ false
        → s.limit_error ≡ some l
        → (handle c env e s).0.limit_error ≡ some l
    unfolding handle on_session_start emit on_before_agent_start on_turn_start clear_request_timer
        on_agent_settled on_model_select guard_model repair_model on_session_shutdown on_run_timer
        on_request_timer stop_for_limit
    handle-limited env (session_start reason) s l q h =
        let t = (emit (session_started s.session_id reason) s).0 in
        (on_loaded-Steady c env (load c t.files t.session_id t.entries reason) t).0 ∙ h
    handle-limited env (input text) s l q h = cc
    handle-limited env before_agent_start s l q h = ground arith
    handle-limited env turn_start s l q h = ground arith
    handle-limited env (message_end a) s l q h = ground arith
    handle-limited env turn_end s l q h = h
    handle-limited env agent_settled s l q h = h
    handle-limited env before_compact s l q h = (on_before_compact-Steady c env s).0 ∙ h
    handle-limited env compact_ended s l q h = h
    handle-limited env before_provider_request s l q h = h
    handle-limited env (model_select m) s l q h = ground arith
    handle-limited env session_shutdown s l q h = h
    handle-limited env run_timer_fires s l q h = ground arith
    handle-limited env request_timer_fires s l q h = ground arith

    -- Between two inputs, at most as many turns pass as the configuration allows and have not been
    -- started since the last input that was let through; with no turn started, at most `maxAgentTurns`.
    pub turns_bounded :
        (steps : List (Env F × Event)) (s : Session F)
        → no_input steps ≡ true
        → turns c steps s ≤ max_agent_turns c - s.turn_count
    turns_bounded [] s q = omega arith
    turns_bounded ((env, e) ∷ steps) s q =
        let first = handle-turns env e s (ground arith) in
        let rest = turns_bounded steps (handle c env e s).0 (ground arith) in
        ground (arith, first, rest)

    limit-run :
        (steps : List (Env F × Event)) (s : Session F) (l : LimitError)
        → no_input steps ≡ true
        → s.limit_error ≡ some l
        → (run c steps s).limit_error ≡ some l
    unfolding run
    limit-run [] s l q h = h
    limit-run ((env, e) ∷ steps) s l q h =
        limit-run steps (handle c env e s).0 l (ground arith)
          (handle-limited env e s l (ground arith) h)

    -- After a limit has been exceeded, and until the next input, every request to a provider is refused
    -- with the error of that limit, which no later limit replaces.
    pub limit_blocks_requests :
        (steps : List (Env F × Event)) (s : Session F) (env : Env F) (l : LimitError)
        → no_input steps ≡ true
        → s.limit_error ≡ some l
        → (handle c env before_provider_request (run c steps s)).1 ≡ threw (limit l)
    unfolding handle provider_request_reply
    limit_blocks_requests steps s env l q h =
        let kept = limit-run steps s l q h in ground (arith, kept)
