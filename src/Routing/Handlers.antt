-- ===== src/Routing/Handlers.antt =====
-- The handlers of `SessionRoutingController.extension` in src/pi/session-routing.ts. Pi awaits each of
-- them, so an event is one step; a timer fires between two of them. What is shown to the user (status
-- lines and notifications) is left out.
use downshift.Base.{
  ℕ, suc, String, Bool, true, false, ◌||◌, Option, none, some, [], ◌∷◌, ◌++◌, Result, ok, err, ltb,
  if◌then◌else◌, is_none, is_some, List,
}
use downshift.Config.{Model}
use downshift.Decision.{RoutingDecision}
use downshift.Routing.{
  timeout, budget_exhausted, LimitError, RoutingError, no_decision, no_active_decision,
  request_before_decision, set_model_refused, request_outside_lock, limit, StartReason, LockAction,
  model_lock, Controller, Session, TimedRequest, coding, compaction, models_match, selected_model,
}
use downshift.Routing.Ask.{Env}
use downshift.Routing.Input.{
  Reply, proceed, cancel, threw, stop_for_limit, restore_model, on_session_start, on_input,
}

pub data Event : Type 0 where
  session_start : StartReason → Event
  input : (text : String) → Event
  before_agent_start turn_start : Event
  message_end : (is_assistant : Bool) → Event
  turn_end agent_settled before_compact compact_ended before_provider_request : Event
  -- Pi has this model when it tells of its selection.
  model_select : Model → Event
  session_shutdown run_timer_fires request_timer_fires : Event

abbrev thrown : RoutingError → Option LimitError → Reply
thrown e none = threw e
thrown e (some l) = threw (limit l)

abbrev request_reply : Option Model → Result RoutingError Model → Reply
request_reply model (err e) = threw e
request_reply model (ok m) = if models_match model m then proceed else threw request_outside_lock

abbrev request_message : TimedRequest → String
request_message coding = "coding provider request exceeded requestTimeoutSeconds"
request_message compaction = "compaction provider request exceeded requestTimeoutSeconds"

module _ {F : Type 0} where
  unfoldable pub on_before_agent_start : Session F → Session F
  on_before_agent_start s =
      if is_none s.current
      then record s { last_error = some no_active_decision; context_aborts = suc s.context_aborts }
      else s

  abbrev pub max_agent_turns : Controller F → ℕ
  max_agent_turns c = c.options.config.execution.max_agent_turns

  unfoldable pub on_turn_start : Controller F → Session F → Session F × Reply
  on_turn_start c s =
      let t = record s { turn_count = suc s.turn_count } in
      let stopped = stop_for_limit budget_exhausted "Pi session exceeded maxAgentTurns" t in
      if ltb (max_agent_turns c) t.turn_count
      then (stopped, thrown no_decision stopped.limit_error)
      else (record t { request_timer = some coding }, proceed)

  unfoldable pub clear_request_timer : Session F → Session F
  clear_request_timer s = record s { request_timer = none }

  unfoldable pub on_agent_settled : Session F → Session F
  on_agent_settled s = record s { request_timer = none; run_timer = false; run_abort = none }

  abbrev finish_compact : Session F × Result RoutingError (Unit {0}) → Session F × Reply
  finish_compact (s, ok u) = (record s { request_timer = some compaction }, proceed)
  finish_compact (s, err e) = (record s { last_error = some e }, cancel)

  unfoldable pub on_before_compact : Controller F → Env F → Session F → Session F × Reply
  on_before_compact c env s =
      if is_some s.startup_error || is_none s.current
      then (s, cancel)
      else finish_compact (restore_model c env s)

  unfoldable pub provider_request_reply : Controller F → Session F → Reply
  provider_request_reply c s = elim s.limit_error [
    | some l ↦ threw (limit l)
    | none ↦ elim s.current [
      | none ↦ threw request_before_decision
      | some d ↦ request_reply s.model (selected_model c d)
    ]
  ]

  -- The model that was rejected is replaced; `repairingModel` is set while it is.
  unfoldable pub repair_model : Env F → Model → Model → Session F → Session F × Reply
  repair_model env rejected m s =
      let (after, applied) = env.set_model s.model m in
      (
        record s {
          repairing_model = false;
          model = after;
          events = s.events ++ model_lock LockAction.rejected rejected.provider rejected.id ∷ [];
        },
        if applied then proceed else threw set_model_refused,
      )

  unfoldable pub guard_model :
      Controller F → Env F → Model → RoutingDecision F → Session F → Session F × Reply
  guard_model c env model d s = elim (selected_model c d) [
    | err e ↦ (s, threw e)
    | ok m ↦ if models_match (some model) m then (s, proceed) else repair_model env model m s
  ]

  unfoldable pub on_model_select : Controller F → Env F → Model → Session F → Session F × Reply
  on_model_select c env model s =
      let t = record s { model = some model } in
      elim s.current [
        | none ↦ (t, proceed)
        | some d ↦ if s.repairing_model then (t, proceed) else guard_model c env model d t
      ]

  unfoldable pub on_session_shutdown : Session F → Session F
  on_session_shutdown s = record s {
    run_timer = false;
    run_abort = elim s.run_abort [ none ↦ none | some b ↦ some true ];
  }

  unfoldable pub on_run_timer : Session F → Session F
  on_run_timer s =
      if s.run_timer
      then stop_for_limit timeout "Session wall-time limit exceeded"
          (record s { run_timer = false })
      else s

  unfoldable pub on_request_timer : Session F → Session F
  on_request_timer s = elim s.request_timer [
    | none ↦ s
    | some r ↦ stop_for_limit timeout (request_message r) (record s { request_timer = none })
  ]

  unfoldable pub handle : Controller F → Env F → Event → Session F → Session F × Reply
  handle c env (session_start reason) s = (on_session_start c env reason s, proceed)
  handle c env (input text) s = on_input c env text s
  handle c env before_agent_start s = (on_before_agent_start s, proceed)
  handle c env turn_start s = on_turn_start c s
  handle c env (message_end is_assistant) s =
      (if is_assistant then clear_request_timer s else s, proceed)
  handle c env turn_end s = (clear_request_timer s, proceed)
  handle c env agent_settled s = (on_agent_settled s, proceed)
  handle c env before_compact s = on_before_compact c env s
  handle c env compact_ended s = (clear_request_timer s, proceed)
  handle c env before_provider_request s = (s, provider_request_reply c s)
  handle c env (model_select model) s = on_model_select c env model s
  handle c env session_shutdown s = (on_session_shutdown s, proceed)
  handle c env run_timer_fires s = (on_run_timer s, proceed)
  handle c env request_timer_fires s = (on_request_timer s, proceed)

  -- The events of a session, one after the other, each with what it finds outside.
  unfoldable pub run : Controller F → List (Env F × Event) → Session F → Session F
  run c [] s = s
  run c ((env, e) ∷ steps) s = run c steps (handle c env e s).0
