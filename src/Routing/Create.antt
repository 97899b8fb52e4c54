-- ===== src/Routing/Create.antt =====
-- `create` of src/pi/session-routing.ts: how a session gets its decision.
use downshift.Base.{
  ℕ, String, Bool, true, false, Option, none, some, List, [], ◌∷◌, ◌++◌, ok, err, if◌then◌else◌,
  is_none, ◌&&◌,
}
use downshift.Base.Exec.{pure, ◌>>=◌, ◌>>◌, gets}
use downshift.Decision.{
  SessionMode, weak_only, strong_only, routed, Tier, weak, strong, DecisionSource, classifier,
  classifier_fallback, fixed_baseline, FallbackReason, ClassifierTiming, RoutingDecision,
}
use downshift.Bridge.{validated_verdict, fallback, BridgeDecision, Evidence}
use downshift.Bridge.Messages.{ClassifierUsage}
use downshift.Routing.{call_started, Controller, RoutingOptions, role_model, model_identity}
use downshift.Routing.Durable.{write}
use downshift.Routing.Ask.{Env, Heard, Action, emit, preflight_auth, ask_bridge}

-- The bridge's decision in the routed mode, and what was heard of the classifier.
abbrev pub Answer : Type 0 → Type 0
Answer F = Option (BridgeDecision F × Heard)

abbrev input_of : Option ClassifierUsage → Option ℕ
input_of none = none
input_of (some u) = u.input_tokens

abbrev output_of : Option ClassifierUsage → Option ℕ
output_of none = none
output_of (some u) = u.output_tokens

abbrev pub is_routed : SessionMode → Bool
is_routed routed = true
is_routed _ = false

module _ {F : Type 0} where
  abbrev pub probability_in : Evidence F → Option F
  probability_in (validated_verdict p) = some p
  probability_in (fallback r) = none

  abbrev pub reason_in : Evidence F → Option FallbackReason
  reason_in (validated_verdict p) = none
  reason_in (fallback r) = some r

  abbrev pub probability : Answer F → Option F
  probability none = none
  probability (some (d, heard)) = probability_in d.evidence

  abbrev pub fallback_of : Answer F → Option FallbackReason
  fallback_of none = none
  fallback_of (some (d, heard)) = reason_in d.evidence

  -- In the routed mode there is an answer.
  abbrev pub tier_of : SessionMode → Answer F → Tier
  tier_of weak_only answer = weak
  tier_of strong_only answer = strong
  tier_of routed none = strong
  tier_of routed (some (d, heard)) = d.selected_alias

  abbrev pub source_of : SessionMode → Answer F → DecisionSource
  source_of routed answer = if is_none (fallback_of answer) then classifier else classifier_fallback
  source_of _ answer = fixed_baseline

  abbrev id_or : String → Answer F → String
  id_or new none = new
  id_or new (some (d, heard)) = d.decision_id

  abbrev usage_of : Answer F → Option ClassifierUsage
  usage_of none = none
  usage_of (some (d, heard)) = heard.usage

  timing_of : Env F → SessionMode → Answer F → Option ClassifierTiming
  timing_of env mode answer =
      if is_routed mode
      then some (record {
        duration_ms = env.duration_ms;
        input_tokens = input_of (usage_of answer);
        output_tokens = output_of (usage_of answer);
      })
      else none

  missing_of : SessionMode → Answer F → List String
  missing_of mode answer =
      "selectedModel.providerReportedModelId is unavailable from the Pi 0.85.0 generic response"
        ∷ (if is_none (probability answer)
            then "weakSolveProbability is unavailable without a validated classifier verdict" ∷ []
            else [])
      ++ (if is_routed mode && is_none (usage_of answer)
          then "classifier token usage was not reported" ∷ []
          else [])

  abbrev run_of : RoutingOptions F → String → String
  run_of o id = elim o.run_id_for_session [ none ↦ o.run_id | some f ↦ f id ]

  unfoldable pub decision_of : Controller F → Env F → String → Answer F → RoutingDecision F
  unfolding timing_of missing_of
  decision_of c env id answer = record {
    project_id = c.options.project_id;
    pi_session_id = id;
    run_id = run_of c.options id;
    decision_id = id_or env.new_decision_id answer;
    mode = c.options.mode;
    selected_tier = tier_of c.options.mode answer;
    selected_model = model_identity (role_model c.roles (tier_of c.options.mode answer));
    weak_solve_probability = probability answer;
    threshold = c.options.config.routing.weak_threshold;
    source = source_of c.options.mode answer;
    fallback_reason = fallback_of answer;
    classifier = timing_of env c.options.mode answer;
    fingerprint = c.fingerprint;
    auth_profile = c.options.auth_profile;
    timestamp = env.timestamp;
    missing_reasons = missing_of c.options.mode answer;
  }

  unfoldable pub ask_routed : Controller F → Env F → String → Action F (Answer F)
  ask_routed c env task = do
    emit (call_started env.call_id)
    answer ← ask_bridge c env task
    pure (some answer)

  -- The classifier is asked in the routed mode only.
  unfoldable pub consult : Controller F → Env F → String → Action F (Answer F)
  consult c env task = if is_routed c.options.mode then ask_routed c env task else pure none

  unfoldable pub store_decision : Controller F → RoutingDecision F → Action F (Unit {0})
  store_decision c d s = elim (write c.checks s.files d) [
    | ok files ↦ (record s { files = files }, ok tt)
    | err e ↦ (s, err e)
  ]

  unfoldable pub create : Controller F → Env F → String → Action F (RoutingDecision F)
  create c env task = do
    preflight_auth c env
    answer ← consult c env task
    id ← gets (λ s. s.session_id)
    store_decision c (decision_of c env id answer)
    pure (decision_of c env id answer)
