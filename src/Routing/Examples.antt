-- ===== src/Routing/Examples.antt =====
-- The session's theorems at a session that is opened, routed and worked in.
use downshift.Base.{ℕ, ◌≡◌, refl, some, ok, ◌-◌, ◌≤◌, true, [], none}
use downshift.Decision.{RoutingDecision}
use downshift.Bridge.{parse_frame, request_ok}
use downshift.Bridge.Messages.{start_frame, reply}
use downshift.Bridge.Client.{exchange, write_frame, resolve_decision, refusal, handle_frame, answer}
use downshift.Routing.{selected_model, Session, limit, resume, role_model, models_match}
use downshift.Routing.Durable.{
  validate_routing_decision, read, write, conflicting, custom_decisions, resume_stored, load,
}
use downshift.Routing.Ask.{emit, check_providers, preflight_auth, ask_bridge}
use downshift.Routing.Create.{decision_of, ask_routed, consult, store_decision, create}
use downshift.Routing.Input.{
  stop_for_limit, ensure_model, scope_model, apply_selected_model, fail, on_loaded,
  on_session_start, adopt, decide, decide_or_restore, check_elapsed, start_run, on_failure,
  on_input, proceed, threw,
}
use downshift.Routing.Handlers.{
  handle, run, provider_request_reply, before_provider_request, max_agent_turns,
}
use downshift.Routing.Samples.{controller, env, fresh, verdict, heard, opening, working, exceeded}
use downshift.Routing.Lock.{IsBound}
use downshift.Routing.Permanent.{decision_permanent, request_follows_decision}
use downshift.Routing.Limits.{turns, turns_bounded, limit_blocks_requests}
use downshift.Routing.Resume.{load-create}
use downshift.Routing.Evidence.{Fits, create-Fits}

decision : RoutingDecision ℕ
unfolding decision_of
decision = decision_of controller env "s1" (some (verdict, heard))

opened : (run controller opening fresh).current ≡ some decision
unfolding decision decision_of run handle on_session_start on_loaded load custom_decisions
    conflicting read resume_stored on_input decide_or_restore decide create preflight_auth
    check_providers emit consult ask_routed ask_bridge resolve_decision refusal exchange write_frame
    start_frame reply handle_frame answer parse_frame request_ok store_decision write
    validate_routing_decision adopt apply_selected_model selected_model ensure_model scope_model
    check_elapsed start_run on_failure fail stop_for_limit
opened = refl

decision_permanent_example :
    ((run controller working (run controller opening fresh)).current ≡ some decision)
    × IsBound controller (run controller working (run controller opening fresh)) decision
decision_permanent_example = decision_permanent controller opening working fresh refl opened

passes : (handle controller env before_provider_request (run controller opening fresh)).1 ≡ proceed
unfolding provider_request_reply decision decision_of run handle on_session_start on_loaded load
    custom_decisions conflicting read resume_stored on_input decide_or_restore decide create
    preflight_auth check_providers emit consult ask_routed ask_bridge resolve_decision refusal
    exchange write_frame start_frame reply handle_frame answer parse_frame request_ok store_decision
    write validate_routing_decision adopt apply_selected_model selected_model ensure_model
    scope_model check_elapsed start_run on_failure fail stop_for_limit
passes = refl

request_follows_decision_example :
    (d : RoutingDecision ℕ) × ((run controller opening fresh).current ≡ some d)
    × IsBound controller (run controller opening fresh) d
    × ((run controller opening fresh).limit_error ≡ none)
    × (models_match
          (run controller opening fresh).model
          (role_model controller.roles d.selected_tier)
        ≡ true)
    × (d.selected_model.provider ≡ (role_model controller.roles d.selected_tier).provider)
    × (d.selected_model.model ≡ (role_model controller.roles d.selected_tier).id)
request_follows_decision_example = request_follows_decision controller opening fresh env refl passes

turns_bounded_example :
    turns controller working (run controller opening fresh)
    ≤ max_agent_turns controller - (run controller opening fresh).turn_count
turns_bounded_example = turns_bounded controller working (run controller opening fresh) refl

abbrev limited : Session ℕ
limited = record fresh { limit_error = some exceeded }

limit_blocks_requests_example :
    (handle controller env before_provider_request (run controller working limited)).1
    ≡ threw (limit exceeded)
limit_blocks_requests_example =
    limit_blocks_requests controller working limited env exceeded refl refl

created : Session ℕ
unfolding create preflight_auth check_providers emit consult ask_routed ask_bridge resolve_decision
    refusal exchange write_frame start_frame reply handle_frame answer parse_frame request_ok
    store_decision write validate_routing_decision decision_of
created = (create controller env "Rename f." fresh).0

creates : create controller env "Rename f." fresh ≡ (created, ok decision)
unfolding created decision create preflight_auth check_providers emit consult ask_routed ask_bridge
    resolve_decision refusal exchange write_frame start_frame reply handle_frame answer parse_frame
    request_ok store_decision write validate_routing_decision decision_of
creates = refl

load-create_example :
    load controller created.files created.session_id (adopt decision created).entries resume
    ≡ ok (some decision)
unfolding decision created create preflight_auth check_providers emit consult ask_routed ask_bridge
    resolve_decision refusal exchange write_frame start_frame reply handle_frame answer parse_frame
    request_ok store_decision write validate_routing_decision decision_of custom_decisions
load-create_example =
    load-create controller env "Rename f." fresh resume [] creates refl refl refl refl

create-Fits_example :
    Fits env decision.source decision.mode decision.selected_tier decision.weak_solve_probability
      decision.fallback_reason
create-Fits_example = create-Fits env controller "Rename f." fresh creates
