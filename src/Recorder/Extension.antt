-- ===== src/Recorder/Extension.antt =====
-- The handlers of `RuntimeArtifactRecorder.extension` in src/artifacts/runtime-recorder.ts and the other
-- calls of a recorder, each one step: the calls that have not ended, and whether the session is being
-- compacted.
use downshift.Base.{
  ℕ, String, Bool, true, false, Option, none, some, List, [], ◌∷◌, ◌++◌, Result, ok, err, ◌>>=◌,
  if◌then◌else◌, str_append, str_eq, ◌||◌,
}
use downshift.Base.Number.{Number}
use downshift.Config.{Model}
use downshift.Usage.{
  UsageRole, NormalizedUsage, ProviderUsage, UsageError, same_role, normalize_usage,
}
use downshift.Runs.{RunResult, model_call, tool, lifecycle, error}
use downshift.Runs.Store.{append_event}
use downshift.Routing.{RoutingEvent}
use downshift.Recorder.{
  RecorderError, store, other_stop, AssistantMessage, agent_started, settled, call_begins,
  call_ends, tool_begins, tool_ends, compaction_begins, shut_down, compaction_failed, Setup,
  Recorder, Step, track, untagged, keyed,
}
use downshift.Recorder.Events.{under_decision, then_record, record_routing_event, record_auth_event}
use downshift.Recorder.Messages.{record_assistant_message}
use downshift.Recorder.Finish.{
  FinalError, no_error, settle_agent, flush, capture_workspace_patch, finalize,
}

pub record PendingCall : Type 0 where
  pub call_id : String
  pub role : UsageRole

pub record State (F P : Type 0) : Type 0 where
  pub recorder : Recorder F P
  pub pending_calls : List PendingCall
  pub compaction_active : Bool

-- What is recorded: the routing's events, and those of Pi; `call_id` is a new UUID. `diff` is what git
-- prints, as for `captureWorkspacePatch`. The last four are the recorder's other methods.
pub data Happening (F : Type 0) : Type 0 where
  routing_event : RoutingEvent F → Happening F
  before_agent_start agent_settled : Happening F
  before_provider_request : (call_id : String) → Option Model → Happening F
  message_end : (call_id : String) → AssistantMessage → Happening F
  tool_execution_start : (tool_call_id tool_name : String) → Happening F
  tool_execution_end : (tool_call_id tool_name : String) (is_error : Bool) → Happening F
  session_before_compact : (reason : String) → Happening F
  session_compact : (entry_id : String) → Option ProviderUsage → Happening F
  session_compact_failed :
      (call_id reason : String) (was_aborted : Bool) (message : Option String) → Happening F
  session_shutdown : (reason : String) (diff : Result (Unit {0}) (Option String)) → Happening F
  auth_event : (action : String) (success : Bool) → Happening F
  flushing : Happening F
  patching : (diff : Result (Unit {0}) (Option String)) → Happening F
  finalizing : FinalError → Happening F

-- The first pending call of a role, and the other calls.
abbrev take_call : UsageRole → List PendingCall → Option String × List PendingCall
take_call role [] = (none, [])
take_call role (c ∷ cs) =
    let (found, rest) = take_call role cs in
    if same_role c.role role then (some c.call_id, cs) else (found, c ∷ rest)

abbrev id_or : Option String → String → String
id_or none new = new
id_or (some id) new = id

module _ {F P : Type 0} (num : Number F) (setup : Setup F P) where
  abbrev with : State F P → Step F P → State F P × Result RecorderError (Unit {0})
  with s (r, result) = (record s { recorder = r }, result)

  abbrev call_role : Bool → UsageRole
  call_role true = UsageRole.compaction
  call_role false = UsageRole.coding

  on_request :
      String → Option Model → String → State F P → State F P × Result RecorderError (Unit {0})
  on_request id model now s =
      let role = call_role s.compaction_active in
      let r = s.recorder in
      with
        (record s { pending_calls = s.pending_calls ++ record { call_id = id; role = role } ∷ [] })
        (track setup model_call (call_begins role id model)
          (under_decision r (str_append id ":start") now) r)

  abbrev maybe_normalized : Option ProviderUsage → Result UsageError (Option NormalizedUsage)
  maybe_normalized none = ok none
  maybe_normalized (some u) = normalize_usage u >>= λ v. ok (some v)

  on_message_end :
      String → AssistantMessage → String → State F P → State F P × Result RecorderError (Unit {0})
  on_message_end id message now s =
      let (found, rest) = take_call UsageRole.coding s.pending_calls in
      with (record s { pending_calls = rest })
        (record_assistant_message setup message (id_or found id) now s.recorder)

  -- `compactionActive` stays set where the usage or the event is refused.
  abbrev ended :
      State F P × Result RecorderError (Unit {0}) → State F P × Result RecorderError (Unit {0})
  ended (s, ok u) = (record s { compaction_active = false }, ok u)
  ended (s, err e) = (s, err e)

  on_compact :
      String
      → Option ProviderUsage
      → String
      → State F P
      → State F P × Result RecorderError (Unit {0})
  on_compact entry reported now s =
      let (found, rest) = take_call UsageRole.compaction s.pending_calls in
      let id = id_or found (str_append "compaction:" entry) in
      ended (
        with (record s { pending_calls = rest })
          (then_record s.recorder id UsageRole.compaction (maybe_normalized reported) true λ u r.
            track setup model_call (call_ends UsageRole.compaction id other_stop none u)
              (under_decision r id now) r))

  on_compact_failed :
      String
      → String
      → Bool
      → Option String
      → String
      → State F P
      → State F P × Result RecorderError (Unit {0})
  on_compact_failed new reason was_aborted message now s =
      let (found, rest) = take_call UsageRole.compaction s.pending_calls in
      let category = if was_aborted then "cancelled" else "provider" in
      ended (
        with (record s { pending_calls = rest })
          (then_record s.recorder (id_or found new) UsageRole.compaction (ok none) false
            λ u r. track setup error (compaction_failed category reason message) (untagged now) r))

  abbrev start_agent : Option ℕ → ℕ → Option ℕ
  start_agent none ms = some ms
  start_agent (some start) ms = some start

  abbrev ends_session : String → Bool
  ends_session reason = str_eq reason "new" || str_eq reason "resume" || str_eq reason "fork"

  -- The result that is not used.
  abbrev pub returned : Recorder F P × Result RecorderError (RunResult F) → Step F P
  returned (r, ok result) = (r, ok tt)
  returned (r, err e) = (r, err e)

  abbrev pub and_then : Step F P → (Recorder F P → Step F P) → Step F P
  and_then (r, err e) next = (r, err e)
  and_then (r, ok u) next = next r

  -- The event of the shutdown is awaited.
  unfoldable pub append_shutdown : String → String → Recorder F P → Step F P
  append_shutdown reason now r =
      let (after, w) =
        append_event setup.codec r.store lifecycle (setup.payload (shut_down reason))
          (untagged now) in
      (record r { store = after }, elim w [ err e ↦ err (store e) | ok u ↦ ok tt ])

  unfoldable pub finish_session :
      Result (Unit {0}) (Option String) → String → ℕ → Recorder F P → Step F P
  finish_session diff now ms r =
      and_then (capture_workspace_patch num setup diff r)
        λ s. returned (finalize num setup no_error now ms s)

  unfoldable pub on_session_shutdown :
      (reason : String) → Result (Unit {0}) (Option String) → String → ℕ → Recorder F P → Step F P
  on_session_shutdown reason diff now ms r = and_then (append_shutdown reason now r) λ s.
      and_then (flush s)
        λ t. if ends_session reason then finish_session diff now ms t else (t, ok tt)

  unfoldable pub handle :
      Happening F → String → ℕ → State F P → State F P × Result RecorderError (Unit {0})
  unfolding on_request on_message_end on_compact on_compact_failed
  handle (routing_event e) now ms s = with s (record_routing_event setup e now ms s.recorder)
  handle before_agent_start now ms s = with s (
      track setup lifecycle agent_started (untagged now)
        (record (s.recorder) { agent_started_at = start_agent s.recorder.agent_started_at ms }))
  handle agent_settled now ms s =
      with s (track setup lifecycle settled (untagged now) (settle_agent ms s.recorder))
  handle (before_provider_request id model) now ms s = on_request id model now s
  handle (message_end id message) now ms s = on_message_end id message now s
  handle (tool_execution_start id name) now ms s = with s (
      track setup tool (tool_begins id name)
        (keyed (str_append (str_append "tool:" id) ":start") now) s.recorder)
  handle (tool_execution_end id name is_error) now ms s = with s (
      track setup tool (tool_ends id name is_error)
        (keyed (str_append (str_append "tool:" id) ":end") now) s.recorder)
  handle (session_before_compact reason) now ms s =
      with (record s { compaction_active = true })
        (track setup lifecycle (compaction_begins reason) (untagged now) s.recorder)
  handle (session_compact entry u) now ms s = on_compact entry u now s
  handle (session_compact_failed id reason was_aborted message) now ms s =
      on_compact_failed id reason was_aborted message now s
  handle (session_shutdown reason diff) now ms s =
      with s (on_session_shutdown reason diff now ms s.recorder)
  handle (auth_event action success) now ms s =
      with s (record_auth_event setup action success now s.recorder)
  handle flushing now ms s = with s (flush s.recorder)
  handle (patching diff) now ms s = with s (capture_workspace_patch num setup diff s.recorder)
  handle (finalizing e) now ms s = with s (returned (finalize num setup e now ms s.recorder))

  -- The happenings of an attempt, one after the other; an error is thrown to Pi, and the state stays.
  unfoldable pub run : List (Happening F × String × ℕ) → State F P → State F P
  run [] s = s
  run ((h, now, ms) ∷ rest) s = run rest (handle h now ms s).0
