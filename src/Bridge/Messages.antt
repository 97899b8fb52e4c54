-- ===== src/Bridge/Messages.antt =====
-- src/bridge/protocol.ts: what the program writes to the classifier process, and what the classifier
-- callback returns. The callback may change a state of its caller's, of type `C`; it throws nothing but the
-- error of a time limit.
use downshift.Base.{ℕ, String, Bool, false, not, Option, none, some, Result, str_eq}
use downshift.Bridge.{CallModel, OutputFrame, ready, call_model, decision, error}

pub data FailureKind : Type 0 where
  auth provider quota rate_limit transport cancelled : FailureKind

pub record ClassifierUsage : Type 0 where
  pub input_tokens : Option ℕ
  pub output_tokens : Option ℕ
  pub cache_read_tokens : Option ℕ
  pub cache_write_tokens : Option ℕ
  pub reasoning_tokens : Option ℕ
  pub total_tokens : Option ℕ

-- `BridgeModelResultFrame["response"]`
pub record ModelResponse : Type 0 where
  pub text : String
  pub usage : Option ClassifierUsage
  pub provider : Option String
  pub model : Option String
  pub provider_reported_model_id : Option String

pub data ClassifierResult : Type 0 where
  response : ModelResponse → ClassifierResult
  failure : (kind : FailureKind) (message : String) → ClassifierResult

pub record BridgePolicy (F : Type 0) : Type 0 where
  pub weak_threshold : F
  pub weak_capability_description : String
  pub max_output_tokens : ℕ

pub record ReplyUsage : Type 0 where
  pub input_tokens : Option ℕ
  pub output_tokens : Option ℕ

-- The frames that the program writes.
pub data InputFrame (F : Type 0) : Type 0 where
  start : (decision_id task : String) (policy : BridgePolicy F) → InputFrame F
  cancel : (decision_id : String) → InputFrame F
  model_result : (decision_id call_id text : String) (usage : Option ReplyUsage) → InputFrame F
  model_error :
      (decision_id call_id : String) (kind : FailureKind) (message : String) → InputFrame F

pub record ResolveOptions (F C : Type 0) : Type 0 where
  pub decision_id : String
  pub task : String
  pub weak_threshold : F
  pub weak_capability_description : Option String
  pub max_output_tokens : ℕ
  -- Whether the signal is aborted before the call.
  pub is_aborted : Bool
  pub call_classifier : C → CallModel F → C × Result (Unit {0}) ClassifierResult

abbrev description_or_packaged : Option String → String
description_or_packaged none = "Use Switchyard's packaged efficient-agent capability card."
description_or_packaged (some d) = d

abbrev reply_usage : Option ClassifierUsage → Option ReplyUsage
reply_usage none = none
reply_usage (some u) =
    some (record { input_tokens = u.input_tokens; output_tokens = u.output_tokens })

module _ {F : Type 0} where
  unfoldable pub start_frame : {C : Type 0} → ResolveOptions F C → InputFrame F
  start_frame o = start o.decision_id o.task (record {
    weak_threshold = o.weak_threshold;
    weak_capability_description = description_or_packaged o.weak_capability_description;
    max_output_tokens = o.max_output_tokens;
  })

  unfoldable pub reply : CallModel F → ClassifierResult → InputFrame F
  reply m (failure kind message) = model_error m.decision_id m.call_id kind message
  reply m (response r) = model_result m.decision_id m.call_id r.text (reply_usage r.usage)

  -- The frame has another decision's ID.
  abbrev pub is_mismatched : String → OutputFrame F → Bool
  is_mismatched id ready = false
  is_mismatched id (call_model m) = not (str_eq m.decision_id id)
  is_mismatched id (decision d) = not (str_eq d.decision_id id)
  is_mismatched id (error i kind message) = not (str_eq i id)
