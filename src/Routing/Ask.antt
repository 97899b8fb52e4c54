-- ===== src/Routing/Ask.antt =====
-- `preflightAuth` and the classifier's call in `create` of src/pi/session-routing.ts.
use downshift.Base.{
  ℕ, String, Bool, false, not, ◌&&◌, Option, none, some, List, [], ◌∷◌, ◌++◌, Result, ok, err,
  if◌then◌else◌, str_eq, any,
}
use downshift.Base.Exec.{Exec, pure, raise, modify, ◌>>◌}
use downshift.Config.{Model}
use downshift.Decision.{ModelIdentity}
use downshift.Bridge.{BridgeError, callback_threw, BridgeDecision, CallModel, Platform}
use downshift.Bridge.Messages.{
  ClassifierUsage, ModelResponse, ClassifierResult, response, failure, ResolveOptions,
}
use downshift.Bridge.Client.{Pipe, resolve_decision}
use downshift.Routing.{
  RoutingError, auth_required, bridge, limit, timeout, RoutingEvent, call_succeeded, call_failed,
  auth_status, CallReport, Controller, Session,
}

-- What one event finds outside the program: who is authenticated, how Pi sets a model (the model it has
-- then, and whether it did), the bridge's platform and pipe, the classifier's answers (none if its time
-- is over), new UUIDs, and the clock's readings.
pub record Env (F : Type 0) : Type 0 where
  pub check_auth : String → Bool
  pub set_model : Option Model → Model → Option Model × Bool
  pub platform : Platform F
  pub pipe : Pipe F
  pub call_classifier : CallModel F → Option ClassifierResult
  pub call_id : String
  pub bridge_decision_id : String
  pub new_decision_id : String
  pub duration_ms : ℕ
  pub elapsed_ms : ℕ
  pub timestamp : String

-- The variables `classifierUsage` and `classifierIdentity`.
pub record Heard : Type 0 where
  pub usage : Option ClassifierUsage
  pub identity : Option ModelIdentity

abbrev pub nothing_heard : Heard
nothing_heard = record { usage = none; identity = none }

abbrev truthy : Option String → Bool
truthy none = false
truthy (some s) = not (str_eq s "")

abbrev text_or_empty : Option String → String
text_or_empty none = ""
text_or_empty (some s) = s

hear : ModelResponse → Heard → Heard
hear r heard = record {
  usage = r.usage;
  identity =
      if truthy r.provider && truthy r.model
      then some (record {
        provider = text_or_empty r.provider;
        model = text_or_empty r.model;
        provider_reported_model_id = r.provider_reported_model_id;
      })
      else heard.identity;
}

-- `callClassifier`: an answer is kept, an error is not, and the end of the time is thrown.
listen : Option ClassifierResult → Heard → Heard × Result (Unit {0}) ClassifierResult
unfolding hear
listen none heard = (heard, err tt)
listen (some (failure kind message)) heard = (heard, ok (failure kind message))
listen (some (response r)) heard = (hear r heard, ok (response r))

-- The elements of a `Set`, in the order of their first insertion.
abbrev distinct : List String → List String → List String
distinct seen [] = []
distinct seen (x ∷ xs) =
    let without = distinct seen xs in
    let rest = distinct (x ∷ seen) xs in if any (str_eq x) seen then without else x ∷ rest

abbrev from_bridge : BridgeError → RoutingError
from_bridge callback_threw =
    limit (record { status = timeout; message = "Classifier provider request timeout exceeded" })
from_bridge e = bridge e

abbrev report : Heard → Option CallReport
report heard = elim heard.usage [
  | none ↦ none
  | some u ↦ some (record { usage = u; identity = heard.identity })
]

abbrev pub Action : Type 0 → Type 0 → Type 0
Action F A = Exec (Session F) RoutingError A

module _ {F : Type 0} where
  unfoldable pub emit : RoutingEvent F → Action F (Unit {0})
  emit e = modify λ s. record s { events = s.events ++ e ∷ [] }

  unfoldable pub check_providers : Env F → List String → Action F (Unit {0})
  check_providers env [] = pure tt
  check_providers env (p ∷ ps) = do
    emit (auth_status p (env.check_auth p))
    if env.check_auth p then check_providers env ps else raise (auth_required p)

  abbrev pub providers : Controller F → List String
  providers c =
      distinct []
        (c.roles.classifier.provider ∷ c.roles.weak.provider ∷ c.roles.strong.provider ∷ [])

  unfoldable pub preflight_auth : Controller F → Env F → Action F (Unit {0})
  preflight_auth c env = check_providers env (providers c)

  unfoldable pub bridge_options : Controller F → Env F → String → ResolveOptions F Heard
  unfolding listen
  bridge_options c env task = record {
    decision_id = env.bridge_decision_id;
    task = task;
    weak_threshold = c.policy.weak_threshold;
    weak_capability_description = some c.policy.weak_capability_description;
    max_output_tokens = c.policy.max_output_tokens;
    is_aborted = false;
    call_classifier = λ heard m. listen (env.call_classifier m) heard;
  }

  -- The bridge's answer, and what was heard of the classifier.
  unfoldable pub ask_bridge : Controller F → Env F → String → Action F (BridgeDecision F × Heard)
  unfolding bridge_options emit
  ask_bridge c env task s =
      let ((after, heard), result) =
        resolve_decision env.platform env.pipe (bridge_options c env task)
          (s.bridge, nothing_heard) in
      let t = record s { bridge = after } in
      elim result [
        | ok d ↦ (emit (call_succeeded env.call_id (report heard)) >> pure (d, heard)) t
        | err e ↦ (emit (call_failed env.call_id) >> raise (from_bridge e)) t
      ]
