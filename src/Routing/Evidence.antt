-- ===== src/Routing/Evidence.antt =====
-- What a new decision rests on.
use downshift.Base.{
  String, ◌≡◌, ◌⊎◌, refl, ap, subst, Bool, true, false, Option, none, some, Result, ok, err,
  Result-cases, if◌then◌else◌, is_none, inl, inr,
}
use downshift.Base.Exec.{continue, pure}
use downshift.Decision.{
  SessionMode, weak_only, strong_only, routed, Tier, weak, strong, DecisionSource, classifier,
  classifier_fallback, fixed_baseline, FallbackReason, invalid_verdict, RoutingDecision,
}
use downshift.Bridge.{Evidence, validated_verdict, fallback, BridgeDecision}
use downshift.Bridge.Frames.{IsAdmissible}
use downshift.Bridge.Client.{resolve_decision}
use downshift.Bridge.Exchange.{resolve_decision-Dialogue}
use downshift.Routing.{Controller, Session, RoutingError, call_started}
use downshift.Routing.Ask.{
  Env, Heard, Action, emit, preflight_auth, ask_bridge, bridge_options, nothing_heard,
}
use downshift.Routing.Create.{
  Answer, is_routed, tier_of, source_of, probability, fallback_of, decision_of, ask_routed, consult,
  store_decision, create, probability_in, reason_in,
}

module _ {F : Type 0} (env : Env F) where
  open env use {platform}
  open platform use {is_finite, le, zero_f, one_f}

  -- The source of a decision goes with its mode, tier, probability and reason.
  abbrev pub Fits : DecisionSource → SessionMode → Tier → Option F → Option FallbackReason → Type 0
  Fits classifier mode tier p reason =
      (mode ≡ routed)
      × (reason ≡ none)
      × ((x : F) × (p ≡ some x) × (is_finite x ≡ true) × (le zero_f x ≡ true) × (le x one_f ≡ true))
  Fits classifier_fallback mode tier p reason =
      (mode ≡ routed) × (tier ≡ strong) × (p ≡ none) × (reason ≡ some invalid_verdict)
  Fits fixed_baseline mode tier p reason =
      (((mode ≡ weak_only) × (tier ≡ weak)) ⊎ ((mode ≡ strong_only) × (tier ≡ strong)))
      × (p ≡ none)
      × (reason ≡ none)

  abbrev Given : SessionMode → Answer F → Type 0
  Given mode none = is_routed mode ≡ false
  Given mode (some (d, heard)) =
      (is_routed mode ≡ true) × IsAdmissible platform d.selected_alias d.evidence

  routed-Fits :
      (e : Evidence F) (tier : Tier)
      → IsAdmissible platform tier e
      → Fits
          (if is_none (reason_in e) then classifier else classifier_fallback)
          routed
          tier
          (probability_in e)
          (reason_in e)
  routed-Fits (validated_verdict p) tier (finite, low, high) =
      (refl, refl, (p, refl, finite, low, high))
  routed-Fits (fallback invalid_verdict) tier s = (refl, s, refl, refl)

  fits :
      (mode : SessionMode) (answer : Answer F)
      → Given mode answer
      → Fits
          (source_of mode answer)
          mode
          (tier_of mode answer)
          (probability answer)
          (fallback_of answer)
  fits weak_only none g = (inl (refl, refl), refl, refl)
  fits strong_only none g = (inr (refl, refl), refl, refl)
  fits routed none g = cc
  fits weak_only (some (d, heard)) g = (let e = g.0 in cc)
  fits strong_only (some (d, heard)) g = (let e = g.0 in cc)
  fits routed (some (d, heard)) g = routed-Fits d.evidence d.selected_alias g.1

  module _ (c : Controller F) where
    -- The answer of an action that returns one is what the mode asks for.
    abbrev Gives : Session F × Result RoutingError (Answer F) → Type 0
    Gives (s, ok answer) = Given c.options.mode answer
    Gives (s, err e) = Unit

    ask_bridge-grounded :
        (task : String) (s : Session F) {t : Session F} {d : BridgeDecision F} {heard : Heard}
        → ask_bridge c env task s ≡ (t, ok (d, heard))
        → IsAdmissible platform d.selected_alias d.evidence
    unfolding ask_bridge
    ask_bridge-grounded task s {t = t} {d = d} {heard = heard} h =
        let x =
          resolve_decision platform env.pipe (bridge_options c env task)
            (s.bridge, nothing_heard) in
        elim (Result-cases x.1) [
          | inr (e, p) ↦ let h1 = rw (ask_bridge, p) at h in cc
          | inl (b, p) ↦
              let (g, closed, active, idle, grounded) =
                resolve_decision-Dialogue platform env.pipe (bridge_options c env task) s.bridge
                  nothing_heard {t = x.0.0} {a = x.0.1} {d = b} (ap (λ z. (x.0, z)) p) in
              let h1 = ap (λ u. u.1) (rw (ask_bridge, p) at h) in
              subst (λ y. IsAdmissible platform y.selected_alias y.evidence)
                (ap (λ r. elim r [ ok a ↦ a.0 | err e ↦ b ]) h1) grounded.1
        ]

    wrapped :
        (t : Session F) (r : Result RoutingError (BridgeDecision F × Heard))
        → is_routed c.options.mode ≡ true
        → ((d : BridgeDecision F) (heard : Heard)
            → r ≡ ok (d, heard)
            → IsAdmissible platform d.selected_alias d.evidence)
        → Gives (continue t r λ a u. (u, ok (some a)))
    wrapped t (ok (d, heard)) m g = (m, g d heard refl)
    wrapped t (err e) m g = tt

    if-Gives :
        (b : Bool) (task : String) (s : Session F)
        → is_routed c.options.mode ≡ b
        → Gives ((if b then ask_routed c env task else pure none) s)
    unfolding ask_routed emit
    if-Gives true task s m =
        let t = (emit (call_started env.call_id) s).0 in
        let x = ask_bridge c env task t in
        wrapped x.0 x.1 m λ d heard e. ask_bridge-grounded task t (ap (λ r. (x.0, r)) e)
    if-Gives false task s m = m

    consult-Gives : (task : String) (s : Session F) → Gives (consult c env task s)
    unfolding consult
    consult-Gives task s = if-Gives (is_routed c.options.mode) task s refl

    abbrev FitsResult : Session F × Result RoutingError (RoutingDecision F) → Type 0
    FitsResult (s, ok d) =
        Fits d.source d.mode d.selected_tier d.weak_solve_probability d.fallback_reason
    FitsResult (s, err e) = Unit

    continue-Fits :
        {A : Type 0} (P : Session F × Result RoutingError A → Type 0)
        (x : Session F × Result RoutingError A) (f : A → Action F (RoutingDecision F))
        → P x
        → ((a : A) (t : Session F) → P (t, ok a) → FitsResult (f a t))
        → FitsResult (continue x.0 x.1 f)
    continue-Fits P (t, ok a) f k g = g a t k
    continue-Fits P (t, err e) f k g = tt

    create-result : (task : String) (s : Session F) → FitsResult (create c env task s)
    unfolding create decision_of
    create-result task s =
        continue-Fits (λ x. Unit) (preflight_auth c env s) _ tt
          λ u t v. continue-Fits Gives (consult c env task t) _ (consult-Gives task t) λ answer w g.
            continue-Fits (λ x. Unit) (store_decision c (decision_of c env w.session_id answer) w) _
              tt λ y z k. fits c.options.mode answer g

    -- A decision that `create` returns names its grounds: the classifier's finite probability between 0
    -- and 1, without a reason, or the fallback of an invalid verdict, which selects the strong tier and
    -- has no probability, both in the routed mode only; otherwise the mode is weak-only and the tier
    -- weak, or the mode is strong-only and the tier strong, with neither a probability nor a reason.
    pub create-Fits :
        (task : String) (s : Session F) {t : Session F} {d : RoutingDecision F}
        → create c env task s ≡ (t, ok d)
        → Fits d.source d.mode d.selected_tier d.weak_solve_probability d.fallback_reason
    create-Fits task s h = subst FitsResult h (create-result task s)
