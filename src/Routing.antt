-- ===== src/Routing.antt =====
-- src/pi/session-routing.ts: the data of the session extension, and the controller that it belongs to.
-- A decision's file is what it holds: a decision, or something else that is not one.
pub mod Durable
pub mod Ask
pub mod Create
pub mod Input
pub mod Handlers
pub mod Keeping
pub mod Loading
pub mod Lock
pub mod Locked
pub mod Permanent
pub mod Limits
pub mod Resume
pub mod Evidence
mod Samples
mod Examples
use downshift.Base.{
  ℕ, String, Bool, true, false, not, ◌&&◌, ◌||◌, Option, none, some, List, [], ◌∷◌, Result, ok, err,
  ◌>>=◌, ◌>>◌, or_throw, rethrow, throw_if, if◌then◌else◌, str_eq, any,
}
use downshift.Config.{
  LabConfig, ByRole, Model, LabModelRole, LibraryPolicy, ConfigError, validate_coding_compatibility,
  create_library_policy,
}
use downshift.Decision.{
  SessionMode, Tier, weak, strong, RoutingDecision, ModelIdentity, ConfigFingerprint,
}
use downshift.Bridge.{BridgeError}
use downshift.Bridge.Messages.{ClassifierUsage}
use downshift.Bridge.Client.{Client}

pub data LimitStatus : Type 0 where
  timeout budget_exhausted : LimitStatus

-- `ExecutionLimitError` of src/pi/execution-failure.ts.
pub record LimitError : Type 0 where
  pub status : LimitStatus
  pub message : String

pub data RoutingError : Type 0 where
  unknown_model : (role : String) → RoutingError
  configuration : ConfigError → RoutingError
  invalid_decision unsupported_id corrupt wrong_role : RoutingError
  conflicting_entries unexpected_decision missing_decision foreign_decision other_profile
        other_mode :
      RoutingError
  missing_entry durable_conflict no_decision no_active_decision request_before_decision :
      RoutingError
  auth_required : (provider : String) → RoutingError
  set_model_refused request_outside_lock : RoutingError
  bridge : BridgeError → RoutingError
  limit : LimitError → RoutingError

-- Why Pi starts a session.
pub data StartReason : Type 0 where
  startup reload new resume fork : StartReason

pub data Role : Type 0 where
  user assistant other_role : Role

-- What is read where a decision is expected.
pub data Document (F : Type 0) : Type 0 where
  malformed : Document F
  document : RoutingDecision F → Document F

-- The entries of a Pi session.
pub data Entry (F : Type 0) : Type 0 where
  decision_entry : Document F → Entry F
  message_entry : Role → Entry F
  other_entry : Entry F

pub data DecisionAction : Type 0 where
  pending persisted restored : DecisionAction

pub data LockAction : Type 0 where
  selected restored rejected : LockAction

-- What the end of a classifier's call reports, where the classifier's usage is known.
pub record CallReport : Type 0 where
  pub usage : ClassifierUsage
  pub identity : Option ModelIdentity

pub data RoutingEvent (F : Type 0) : Type 0 where
  execution_start : (session_id : String) → RoutingEvent F
  session_started : (session_id : String) (reason : StartReason) → RoutingEvent F
  decided : DecisionAction → (session_id : String) → Option (RoutingDecision F) → RoutingEvent F
  call_started : (call_id : String) → RoutingEvent F
  call_succeeded : (call_id : String) → Option CallReport → RoutingEvent F
  call_failed : (call_id : String) → RoutingEvent F
  auth_status : (provider : String) (available : Bool) → RoutingEvent F
  model_lock : LockAction → (provider model : String) → RoutingEvent F
  routing_error :
      (session_id : String)
      → RoutingError
      → (execution_status : Option LimitStatus) → RoutingEvent F

pub record RoutingOptions (F : Type 0) : Type 0 where
  pub config : LabConfig F
  pub auth_profile : String
  pub project_id : String
  pub run_id : String
  pub run_id_for_session : Option (String → String)
  pub mode : SessionMode

-- The tests that the controller takes from outside: the compiled `ROUTING_DECISION_SCHEMA`, the equality
-- of two decisions as JSON texts, and the pattern of a session's ID.
pub record Checks (F : Type 0) : Type 0 where
  pub schema_ok : RoutingDecision F → Bool
  pub decision_equals : RoutingDecision F → RoutingDecision F → Bool
  pub id_ok : String → Bool

-- The constant fields of `SessionRoutingController`.
pub record Controller (F : Type 0) : Type 0 where
  pub options : RoutingOptions F
  pub roles : ByRole Model
  pub fingerprint : ConfigFingerprint
  pub policy : LibraryPolicy F
  pub checks : Checks F

-- `get_model` is the Pi runtime's catalogue of models.
unfoldable pub resolve_pi_roles :
    {F : Type 0}
    → (get_model : String → String → Option Model) → ByRole (LabModelRole F)
    → Result RoutingError (ByRole Model)
resolve_pi_roles get_model config = do
  classifier_model ←
      or_throw (get_model config.classifier.provider config.classifier.model)
        (unknown_model "classifier")
  weak_model ← or_throw (get_model config.weak.provider config.weak.model) (unknown_model "weak")
  strong_model ←
      or_throw (get_model config.strong.provider config.strong.model) (unknown_model "strong")
  ok (record { classifier = classifier_model; weak = weak_model; strong = strong_model })

-- The constructor; `fingerprint` is `configFingerprint` of what it is given.
unfoldable pub make_controller :
    {F : Type 0}
    → (get_model : String → String → Option Model)
    → (fingerprint : RoutingOptions F → ByRole Model → ConfigFingerprint) → Checks F
    → RoutingOptions F
    → Result RoutingError (Controller F)
make_controller get_model fingerprint checks options = do
  roles ← resolve_pi_roles get_model options.config.models
  envelope ← rethrow configuration (validate_coding_compatibility options.config.execution roles)
  policy ← rethrow configuration (create_library_policy options.config roles)
  ok (record {
    options = options;
    roles = roles;
    fingerprint = fingerprint options roles;
    policy = policy;
    checks = checks;
  })

-- A request to a provider that a timer watches.
pub data TimedRequest : Type 0 where
  coding compaction : TimedRequest

-- What a session's handlers keep: the files of decisions by session ID, what Pi holds of the session
-- (its entries, its model, the models it is scoped to if it is attached), the controller's errors, the
-- variables of the extension, and the bridge.
pub record Session (F : Type 0) : Type 0 where
  pub session_id : String
  pub files : String → Option (Document F)
  pub entries : List (Entry F)
  pub model : Option Model
  pub is_attached : Bool
  pub scoped_model : Option Model
  pub last_error : Option RoutingError
  pub limit_error : Option LimitError
  pub current : Option (RoutingDecision F)
  pub startup_error : Option RoutingError
  pub repairing_model : Bool
  pub turn_count : ℕ
  -- A timer is absent or running; a controller of aborts is absent, or aborted or not.
  pub run_timer : Bool
  pub run_abort : Option Bool
  pub request_timer : Option TimedRequest
  pub bridge : Client F
  -- How often Pi was asked to abort.
  pub context_aborts : ℕ
  pub events : List (RoutingEvent F)

abbrev pub role_model : ByRole Model → Tier → Model
role_model roles weak = roles.weak
role_model roles strong = roles.strong

-- `modelsMatch`
abbrev pub models_match : Option Model → Model → Bool
models_match none right = false
models_match (some left) right = str_eq left.provider right.provider && str_eq left.id right.id

abbrev pub model_identity : Model → ModelIdentity
model_identity m = record { provider = m.provider; model = m.id; provider_reported_model_id = none }

module _ {F : Type 0} where
  abbrev is_coding : Entry F → Bool
  is_coding (message_entry user) = true
  is_coding (message_entry assistant) = true
  is_coding _ = false

  abbrev pub has_coding_history : List (Entry F) → Bool
  has_coding_history entries = any is_coding entries

  unfoldable pub selected_model : Controller F → RoutingDecision F → Result RoutingError Model
  selected_model c d =
      let m = role_model c.roles d.selected_tier in
      if not (str_eq d.selected_model.provider m.provider)
        || not (str_eq d.selected_model.model m.id)
      then err wrong_role
      else ok m
