-- ===== src/Bridge.antt =====
-- src/bridge/protocol.ts and `parseFrame` of src/bridge/client.ts: the frames that the program and the
-- classifier process exchange, and which lines of the process are frames.
pub mod Values
pub mod Frames
pub mod Messages
pub mod Client
pub mod Exchange
pub mod Effort
pub mod Answered
pub mod Samples
mod Examples
use downshift.Base.{
  ℕ, ◌^◌, ◌*◌, String, Bool, true, false, not, ◌&&◌, ◌||◌, Option, none, some, Result, ok, err,
  ◌>>=◌, ◌>>◌, throw_if, or_throw, ltb, str_eq, is_some, if◌then◌else◌,
}
use downshift.Decision.{Tier, weak, strong, FallbackReason, invalid_verdict}
use downshift.Bridge.Values.{
  Json, null, bool, number, text, array, object, Fields, get_field, every, text_of, fields_of,
  absent_or_text, is_text,
}

abbrev pub max_bridge_frame_bytes : ℕ
max_bridge_frame_bytes = 1024 * 1024

pub data Evidence (F : Type 0) : Type 0 where
  validated_verdict : (weak_solve_probability : F) → Evidence F
  fallback : (reason : FallbackReason) → Evidence F

pub record BridgeDecision (F : Type 0) : Type 0 where
  pub decision_id : String
  pub selected_alias : Tier
  pub evidence : Evidence F

-- `BridgeCallModelFrame`; its alias is always the classifier, its request is kept as it came.
pub record CallModel (F : Type 0) : Type 0 where
  pub decision_id : String
  pub call_id : String
  pub request : Fields F

pub data OutputFrame (F : Type 0) : Type 0 where
  ready : OutputFrame F
  call_model : CallModel F → OutputFrame F
  decision : BridgeDecision F → OutputFrame F
  error : (decision_id kind message : String) → OutputFrame F

pub data BridgeError : Type 0 where
  frame_too_long invalid_json no_string_type : BridgeError
  invalid_frame : (type : String) → BridgeError
  exited not_ready disposed already_active aborted mismatched_id duplicate_call early_decision :
      BridgeError
  unexpected_ready backpressure : BridgeError
  reported : (kind message : String) → BridgeError
  -- What the classifier callback throws.
  callback_threw : BridgeError

-- What `parseFrame` takes from JavaScript: the length of a text in UTF-8, `JSON.parse`, and its tests and
-- comparisons of numbers.
pub record Platform (F : Type 0) : Type 0 where
  pub byte_length : String → ℕ
  pub json_parse : String → Option (Json F)
  pub is_finite : F → Bool
  pub is_safe_integer : F → Bool
  pub le : F → F → Bool
  pub zero_f : F
  pub one_f : F
  pub same : F → F → Bool

module _ {F : Type 0} (platform : Platform F) where
  open platform use {byte_length, json_parse, is_finite, is_safe_integer, le, zero_f, one_f, same}

  -- A text that passes `id(value)`.
  abbrev pub id_of : Option (Json F) → Option String
  id_of (some (text s)) = if str_eq s "" then none else some s
  id_of _ = none

  abbrev is_block : Json F → Bool
  is_block (object b) =
      is_some (text_of (get_field b "type")) && absent_or_text (get_field b "text")
  is_block _ = false

  abbrev are_blocks : Option (Json F) → Bool
  are_blocks (some (array blocks)) = every is_block blocks
  are_blocks _ = false

  abbrev is_message : Json F → Bool
  is_message (object m) =
      is_some (text_of (get_field m "role")) && are_blocks (get_field m "content")
  is_message _ = false

  -- `messages(value)`
  abbrev are_messages : Option (Json F) → Bool
  are_messages (some (array items)) = every is_message items
  are_messages _ = false

  abbrev instructions_ok : Option (Json F) → Bool
  instructions_ok none = true
  instructions_ok (some null) = true
  instructions_ok value = are_messages value

  abbrev max_tokens_ok : Option (Json F) → Bool
  max_tokens_ok none = true
  max_tokens_ok (some null) = true
  max_tokens_ok (some (number n)) = is_safe_integer n && not (le n zero_f)
  max_tokens_ok _ = false

  abbrev output_ok : Option (Json F) → Bool
  output_ok none = true
  output_ok (some null) = true
  output_ok (some (object output)) = max_tokens_ok (get_field output "max_output_tokens")
  output_ok _ = false

  unfoldable pub request_ok : Fields F → Bool
  request_ok r =
      are_messages (get_field r "messages")
      && (instructions_ok (get_field r "instructions") && output_ok (get_field r "output"))

  is_version : Option (Json F) → Bool
  is_version (some (number n)) = same n one_f
  is_version _ = false

  parse_ready : Fields F → Option (OutputFrame F)
  unfolding is_version
  parse_ready f = if is_version (get_field f "protocolVersion") then some ready else none

  parse_error : Fields F → Option (OutputFrame F)
  parse_error f = elim (id_of (get_field f "decisionId")) [
    | none ↦ none
    | some i ↦ elim (id_of (get_field f "kind")) [
      | none ↦ none
      | some k ↦ elim (text_of (get_field f "message")) [
        | none ↦ none
        | some m ↦ some (error i k m)
      ]
    ]
  ]

  call_of : String → String → Option (Fields F) → Option (OutputFrame F)
  call_of i c none = none
  call_of i c (some r) =
      if request_ok r
      then some (call_model (record { decision_id = i; call_id = c; request = r }))
      else none

  parse_call_model : Fields F → Option (OutputFrame F)
  unfolding call_of
  parse_call_model f = elim (id_of (get_field f "decisionId")) [
    | none ↦ none
    | some i ↦ elim (id_of (get_field f "callId")) [
      | none ↦ none
      | some c ↦
          if is_text (get_field f "targetAlias") "classifier"
          then call_of i c (fields_of (get_field f "request"))
          else none
    ]
  ]

  abbrev alias_of : Option (Json F) → Option Tier
  alias_of v =
      if is_text v "weak" then some weak else if is_text v "strong" then some strong else none

  abbrev is_strong : Tier → Bool
  is_strong weak = false
  is_strong strong = true

  probability_of : Option (Json F) → Option (Evidence F)
  probability_of (some (number p)) =
      if is_finite p && (le zero_f p && le p one_f) then some (validated_verdict p) else none
  probability_of _ = none

  evidence_of : Tier → Fields F → Option (Evidence F)
  unfolding probability_of
  evidence_of tier e =
      if is_text (get_field e "kind") "fallback"
      then if is_text (get_field e "reason") "invalid_verdict" && is_strong tier
        then some (fallback invalid_verdict)
        else none
      else if is_text (get_field e "kind") "validated_verdict"
      then probability_of (get_field e "weakSolveProbability")
      else none

  decision_of : String → Tier → Option (Evidence F) → Option (OutputFrame F)
  decision_of i tier none = none
  decision_of i tier (some e) =
      some (decision (record { decision_id = i; selected_alias = tier; evidence = e }))

  parse_decision : Fields F → Option (OutputFrame F)
  unfolding evidence_of decision_of
  parse_decision f = elim (fields_of (get_field f "evidence")) [
    | none ↦ none
    | some e ↦ elim (id_of (get_field f "decisionId")) [
      | none ↦ none
      | some i ↦ elim (alias_of (get_field f "selectedAlias")) [
        | none ↦ none
        | some tier ↦ decision_of i tier (evidence_of tier e)
      ]
    ]
  ]

  parse_typed : String → Fields F → Option (OutputFrame F)
  unfolding parse_ready parse_error parse_call_model parse_decision
  parse_typed type f =
      if str_eq type "ready"
      then parse_ready f
      else if str_eq type "error"
      then parse_error f
      else if str_eq type "call_model"
      then parse_call_model f
      else if str_eq type "decision"
      then parse_decision f
      else none

  unfoldable pub parse_frame : String → Result BridgeError (OutputFrame F)
  unfolding parse_typed
  parse_frame line = do
    throw_if (ltb max_bridge_frame_bytes (byte_length line)) frame_too_long
    parsed ← or_throw (json_parse line) invalid_json
    f ← or_throw (fields_of (some parsed)) no_string_type
    type ← or_throw (text_of (get_field f "type")) no_string_type
    or_throw (parse_typed type f) (invalid_frame type)
