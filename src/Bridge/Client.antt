-- ===== src/Bridge/Client.antt =====
-- `SwitchyardBridgeClient` of src/bridge/client.ts: the start of the process, a decision, the disposal.
-- What the process prints and when the caller aborts are a list of inputs, whose end is the exit of the
-- process.
use downshift.Base.{
  ℕ, String, Bool, true, false, List, [], ◌∷◌, ◌++◌, Result, ok, err, ltb, if◌then◌else◌, Option,
  some, none,
}
use downshift.Base.Exec.{Exec}
use downshift.Bridge.{
  max_bridge_frame_bytes, BridgeDecision, CallModel, OutputFrame, ready, call_model, decision,
  error, BridgeError, exited, not_ready, disposed, already_active, aborted, mismatched_id,
  duplicate_call, early_decision, unexpected_ready, backpressure, frame_too_long, reported,
  callback_threw, Platform, parse_frame,
}
use downshift.Bridge.Messages.{
  InputFrame, cancel, ResolveOptions, start_frame, reply, is_mismatched,
}

pub data Input : Type 0 where
  line : String → Input
  abort : Input

-- The process's input: the length of a frame in bytes, and whether the stream takes more after what was
-- written.
pub record Pipe (F : Type 0) : Type 0 where
  pub size : InputFrame F → ℕ
  pub room : List (InputFrame F) → Bool

pub record Client (F : Type 0) : Type 0 where
  pub closed : Bool
  pub active : Bool
  pub inputs : List Input
  pub written : List (InputFrame F)

module _ {F : Type 0} where
  unfoldable pub dispose : Client F → Client F
  dispose client = if client.closed then client else record client { closed = true }

  unfoldable pub refusal : {C : Type 0} → ResolveOptions F C → Client F → Option BridgeError
  refusal o client =
      if client.closed
      then some disposed
      else if client.active
      then some already_active
      else if o.is_aborted
      then some aborted
      else none

module _ {F : Type 0} (platform : Platform F) (pipe : Pipe F) where
  open pipe use {size, room}

  -- What was written stays written where the stream has no room for more.
  unfoldable pub write_frame : InputFrame F → Exec (Client F) BridgeError Unit
  write_frame frame client =
      let after = record client { written = client.written ++ frame ∷ [] } in
      if ltb max_bridge_frame_bytes (size frame)
      then (client, err frame_too_long)
      else if room after.written
      then (after, ok tt)
      else (after, err backpressure)

  first_frame : List Input → Client F → Client F × Result BridgeError (OutputFrame F)
  first_frame [] client = (record client { inputs = [] }, err exited)
  first_frame (abort ∷ rest) client = first_frame rest client
  first_frame (line l ∷ rest) client = (record client { inputs = rest }, parse_frame platform l)

  abbrev expect_ready :
      Client F × Result BridgeError (OutputFrame F) → Client F × Result BridgeError (Unit {0})
  expect_ready (client, ok ready) = (client, ok tt)
  expect_ready (client, ok _) = (dispose client, err not_ready)
  expect_ready (client, err e) = (dispose client, err e)

  -- `late`: the timer ends before the first frame comes.
  unfoldable pub start_client :
      (late : Bool) → List Input → Client F × Result BridgeError (Unit {0})
  unfolding first_frame dispose
  start_client late inputs =
      let client : Client F = record {
        closed = false;
        active = false;
        inputs = inputs;
        written = [];
      } in
      if late then (dispose client, err not_ready) else expect_ready (first_frame inputs client)

  module _ {C : Type 0} where
    -- The answer to a request for classifier inference, and what follows it.
    unfoldable pub answer :
        ResolveOptions F C
        → CallModel F
        → (Client F × C → (Client F × C) × Result BridgeError (BridgeDecision F))
        → Exec (Client F × C) BridgeError (BridgeDecision F)
    answer o m next (client, c) =
        let (d, result) = o.call_classifier c m in
        elim result [
          | err e ↦ ((client, d), err callback_threw)
          | ok r ↦
              let (after, w) = write_frame (reply m r) client in
              elim w [ err e ↦ ((after, d), err e) | ok u ↦ next (after, d) ]
        ]

    unfoldable pub handle_frame :
        ResolveOptions F C
        → Bool
        → OutputFrame F
        → (Client F × C → (Client F × C) × Result BridgeError (BridgeDecision F))
        → Exec (Client F × C) BridgeError (BridgeDecision F)
    handle_frame o called ready next s = (s, err unexpected_ready)
    handle_frame o called (error i kind message) next s = (s, err (reported kind message))
    handle_frame o true (decision d) next s = (s, ok d)
    handle_frame o false (decision d) next s = (s, err early_decision)
    handle_frame o true (call_model m) next s = (s, err duplicate_call)
    handle_frame o false (call_model m) next s = answer o m next s

    -- The loop of `resolveDecision`; `called` is `classifierCalled`.
    unfoldable pub exchange :
        ResolveOptions F C → Bool → List Input → Exec (Client F × C) BridgeError (BridgeDecision F)
    exchange o called [] (client, c) = ((record client { inputs = [] }, c), err exited)
    exchange o called (abort ∷ rest) (client, c) =
        exchange o called rest ((write_frame (cancel o.decision_id) client).0, c)
    exchange o called (line l ∷ rest) (client, c) =
        let here = record client { inputs = rest } in
        elim (parse_frame platform l) [
          | err e ↦ ((here, c), err e)
          | ok frame ↦
              if is_mismatched o.decision_id frame
              then ((here, c), err mismatched_id)
              else handle_frame o called frame (λ s. exchange o true rest s) (here, c)
        ]

    -- `finally { this.active = false; }`
    abbrev settle :
        (Client F × C) × Result BridgeError (BridgeDecision F)
        → (Client F × C) × Result BridgeError (BridgeDecision F)
    settle ((client, c), r) = ((record client { active = false }, c), r)

    abbrev begin :
        ResolveOptions F C
        → Client F × Result BridgeError (Unit {0})
        → C
        → (Client F × C) × Result BridgeError (BridgeDecision F)
    begin o (client, err e) c = ((client, c), err e)
    begin o (client, ok u) c = exchange o false client.inputs (client, c)

    unfoldable pub resolve_decision :
        ResolveOptions F C → Exec (Client F × C) BridgeError (BridgeDecision F)
    resolve_decision o (client, c) = elim (refusal o client) [
      | some e ↦ ((client, c), err e)
      | none ↦ settle (begin o (write_frame (start_frame o) (record client { active = true })) c)
    ]
