-- ===== src/Routing/Input.antt =====
-- The handlers of session_start and input of `SessionRoutingController.extension` in
-- src/pi/session-routing.ts.
use downshift.Base.{
  ℕ, suc, ◌*◌, String, true, false, Option, none, some, [], ◌∷◌, ◌++◌, Result, ok, err, leb,
  if◌then◌else◌, is_none, is_some,
}
use downshift.Base.Exec.{lift, modify, gets, ◌>>=◌, ◌>>◌}
use downshift.Config.{Model}
use downshift.Decision.{RoutingDecision}
use downshift.Routing.{
  LimitStatus, timeout, LimitError, RoutingError, no_decision, set_model_refused, limit,
  StartReason, document, decision_entry, DecisionAction, LockAction, execution_start,
  session_started, decided, model_lock, routing_error, Controller, Session, models_match,
  selected_model,
}
use downshift.Routing.Durable.{load}
use downshift.Routing.Ask.{Env, Action, emit, preflight_auth}
use downshift.Routing.Create.{create}

-- What a handler answers Pi; `proceed` is no answer.
pub data Reply : Type 0 where
  proceed continue handled cancel : Reply
  threw : RoutingError → Reply

abbrev limit_or : Option LimitError → LimitError → LimitError
limit_or none e = e
limit_or (some l) e = l

abbrev limit_of : RoutingError → Option LimitError
limit_of (limit l) = some l
limit_of e = none

module _ {F : Type 0} where
  -- `stopForLimit`: the first limit error stays.
  unfoldable pub stop_for_limit : LimitStatus → String → Session F → Session F
  stop_for_limit status message s =
      let l = limit_or s.limit_error (record { status = status; message = message }) in
      record s {
        limit_error = some l;
        last_error = some (limit l);
        events = s.events ++ routing_error s.session_id (limit l) (some l.status) ∷ [];
        run_abort = elim s.run_abort [ none ↦ none | some b ↦ some true ];
        context_aborts = suc s.context_aborts;
      }

  -- The model of the session's decision, set where Pi has another one.
  unfoldable pub ensure_model : Env F → Model → Action F (Unit {0})
  ensure_model env m s =
      if models_match s.model m
      then (s, ok tt)
      else let (after, applied) = env.set_model s.model m in
        (record s { model = after }, if applied then ok tt else err set_model_refused)

  unfoldable pub scope_model : Model → Session F → Session F
  scope_model m s = if s.is_attached then record s { scoped_model = some m } else s

  unfoldable pub apply_selected_model : Controller F → Env F → LockAction → Action F (Unit {0})
  apply_selected_model c env action = do
    current ← gets (λ s. s.current)
    d ← lift (elim current [ none ↦ err no_decision | some d ↦ ok d ])
    m ← lift (selected_model c d)
    ensure_model env m
    modify (scope_model m)
    emit (model_lock action m.provider m.id)

  unfoldable pub restore_model : Controller F → Env F → Action F (Unit {0})
  restore_model c env = do preflight_auth c env; apply_selected_model c env LockAction.restored

  unfoldable pub fail : RoutingError → Session F → Session F
  fail e s = record s {
    last_error = some e;
    events = s.events ++ routing_error s.session_id e none ∷ [];
  }

  unfoldable pub on_loaded :
      Controller F
      → Env F
      → Result RoutingError (Option (RoutingDecision F))
      → Session F
      → Session F
  on_loaded c env (err e) s = fail e (record s { startup_error = some e })
  on_loaded c env (ok none) s =
      (emit (decided DecisionAction.pending s.session_id none) (record s { current = none })).0
  on_loaded c env (ok (some d)) s =
      let (t, result) = restore_model c env (record s { current = some d }) in
      elim result [
        | ok u ↦ (emit (decided DecisionAction.restored d.pi_session_id (some d)) t).0
        | err e ↦ fail e t
      ]

  unfoldable pub on_session_start : Controller F → Env F → StartReason → Session F → Session F
  on_session_start c env reason s =
      let t = (emit (session_started s.session_id reason) s).0 in
      on_loaded c env (load c t.files t.session_id t.entries reason) t

  unfoldable pub adopt : RoutingDecision F → Session F → Session F
  adopt d s = record s { current = some d; entries = s.entries ++ decision_entry (document d) ∷ [] }

  unfoldable pub decide : Controller F → Env F → String → Action F (Unit {0})
  decide c env text = do
    d ← create c env text
    modify (adopt d)
    apply_selected_model c env LockAction.selected
    emit (decided DecisionAction.persisted d.pi_session_id (some d))

  unfoldable pub decide_or_restore : Controller F → Env F → String → Action F (Unit {0})
  decide_or_restore c env text s =
      if is_none s.current then decide c env text s else restore_model c env s

  abbrev timeout_ms : Controller F → ℕ
  timeout_ms c = c.options.config.execution.timeout_seconds * 1000

  abbrev throw_limit : Session F → Session F × Result RoutingError (Unit {0})
  throw_limit s = (s, elim s.limit_error [ none ↦ ok tt | some l ↦ err (limit l) ])

  unfoldable pub check_elapsed : Controller F → Env F → Action F (Unit {0})
  check_elapsed c env s =
      if leb (timeout_ms c) env.elapsed_ms
      then throw_limit (stop_for_limit timeout "Session wall-time limit exceeded during routing" s)
      else (s, ok tt)

  unfoldable pub start_run : Session F → Session F
  start_run s = record s {
    last_error = none;
    limit_error = none;
    events = s.events ++ execution_start s.session_id ∷ [];
    run_timer = true;
    run_abort = some false;
  }

  abbrev stop_on : Option LimitError → Session F → Session F
  stop_on none s = s
  stop_on (some l) s = stop_for_limit l.status l.message s

  unfoldable pub on_failure : RoutingError → Session F → Session F
  on_failure e s = record (fail e (stop_on (limit_of e) s)) { run_timer = false; run_abort = none }

  abbrev pub finish_input : Session F × Result RoutingError (Unit {0}) → Session F × Reply
  finish_input (s, ok u) = (record s { turn_count = 0 }, continue)
  finish_input (s, err e) = (on_failure e s, handled)

  unfoldable pub on_input : Controller F → Env F → String → Session F → Session F × Reply
  on_input c env text s =
      if is_some s.startup_error
      then (s, handled)
      else finish_input ((decide_or_restore c env text >> check_elapsed c env) (start_run s))
