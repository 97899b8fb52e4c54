-- ===== src/Recorder/Verdict/Handled.antt =====
-- No handler takes the verdict back.
use downshift.Base.{
  ℕ, String, ◌≡◌, refl, ◌∙◌, some, List, [], ◌∷◌, arith, Bool-cases, eq_iff, inl, inr,
}
use downshift.Base.Number.{Number}
use downshift.Decision.{ModelIdentity}
use downshift.Recorder.{Setup, Recorder, AssistantMessage, track}
use downshift.Recorder.Events.{record_auth_event}
use downshift.Recorder.Messages.{
  record_assistant_message, accept_message, is_outside, is_another, identity_of, selected,
}
use downshift.Recorder.Finish.{settle_agent, finalize}
use downshift.Recorder.Extension.{
  State, Happening, routing_event, before_agent_start, agent_settled, before_provider_request,
  message_end, tool_execution_start, tool_execution_end, session_before_compact, session_compact,
  session_compact_failed, session_shutdown, auth_event, flushing, patching, finalizing, handle, run,
}
use downshift.Recorder.Verdict.{
  IsServing, Follows, Same-trans, of_parts, of_Same, Follows-refl, Follows-trans, track-Same,
  routing_event-Follows,
}
use downshift.Recorder.Verdict.Closing.{
  settle_agent-Same, flush-Same, capture-Same, finalize-Follows, returned-Follows, shutdown-Follows,
}

module _ {F P : Type 0} (setup : Setup F P) where
  pub accept-served :
      (m : AssistantMessage) (id now : String) (r : Recorder F P)
      → (accept_message setup m id now r).0.served_model ≡ some (identity_of m)
  unfolding accept_message track
  accept-served m id now r = ground arith

  message-rest :
      (m : AssistantMessage) (id now : String) (r : Recorder F P)
      → let t = (record_assistant_message setup m id now r).0 in
        (t.limit_failure ≡ r.limit_failure) × (t.finalized_result ≡ r.finalized_result)
  unfolding record_assistant_message accept_message track
  message-rest m id now r = (ground arith, ground arith)

  message-served :
      (m : AssistantMessage) (id now : String) (r : Recorder F P) (i : ModelIdentity)
      → r.served_model ≡ some i
      → IsServing i (record_assistant_message setup m id now r).0.served_model
  unfolding record_assistant_message
  message-served m id now r i h = elim (Bool-cases (is_outside setup (selected setup r) m)) [
    | inl o ↦ (i, ground (arith, o), refl, refl)
    | inr o ↦ elim (Bool-cases (is_another setup r.served_model (identity_of m))) [
      | inl a ↦ (i, ground (arith, o, a), refl, refl)
      | inr a ↦
          let e = accept-served m id now r in
          (
            identity_of m,
            ground (arith, o, a, e),
            ground (arith, a, eq_iff i.provider m.provider),
            ground (arith, a, eq_iff i.provider m.provider, eq_iff i.model m.model),
          )
    ]
  ]

  message-Follows :
      (m : AssistantMessage) (id now : String) (r : Recorder F P)
      → Follows r (record_assistant_message setup m id now r).0
  message-Follows m id now r =
      let (limit, result) = message-rest m id now r in
      of_parts (λ f h. limit ∙ h) (message-served m id now r) result

module _ {F P : Type 0} (num : Number F) (setup : Setup F P) where
  pub handle-Follows :
      (e : Happening F) (now : String) (ms : ℕ) (s : State F P)
      → Follows s.recorder (handle num setup e now ms s).0.recorder
  unfolding handle record_auth_event track
  handle-Follows (routing_event e) now ms s = routing_event-Follows setup e now ms s.recorder
  handle-Follows before_agent_start now ms s =
      of_Same {r = s.recorder} {t = (handle num setup before_agent_start now ms s).0.recorder}
        (ground arith, ground arith, ground arith)
  handle-Follows agent_settled now ms s = of_Same (
      Same-trans s.recorder (settle_agent ms s.recorder)
        (handle num setup agent_settled now ms s).0.recorder
        (settle_agent-Same num setup ms s.recorder)
        (track-Same setup _ _ _ (settle_agent ms s.recorder)))
  handle-Follows (before_provider_request id m) now ms s =
      of_Same (track-Same setup _ _ _ s.recorder)
  handle-Follows (message_end id m) now ms s = message-Follows setup m _ now s.recorder
  handle-Follows (tool_execution_start id n) now ms s = of_Same (track-Same setup _ _ _ s.recorder)
  handle-Follows (tool_execution_end id n e) now ms s = of_Same (track-Same setup _ _ _ s.recorder)
  handle-Follows (session_before_compact x) now ms s = of_Same (track-Same setup _ _ _ s.recorder)
  handle-Follows (session_compact e u) now ms s = of_Same (ground arith, ground arith, ground arith)
  handle-Follows (session_compact_failed id x a m) now ms s =
      of_Same (ground arith, ground arith, ground arith)
  handle-Follows (session_shutdown reason diff) now ms s =
      shutdown-Follows num setup reason diff now ms s.recorder
  handle-Follows (auth_event action success) now ms s = of_Same (track-Same setup _ _ _ s.recorder)
  handle-Follows flushing now ms s = of_Same (flush-Same num setup s.recorder)
  handle-Follows (patching diff) now ms s = of_Same (capture-Same num setup diff s.recorder)
  handle-Follows (finalizing e) now ms s =
      returned-Follows num setup s.recorder (finalize num setup e now ms s.recorder)
        (finalize-Follows num setup e now ms s.recorder)

  pub run-Follows :
      (steps : List (Happening F × String × ℕ)) (s : State F P)
      → Follows s.recorder (run num setup steps s).recorder
  unfolding run
  run-Follows [] s = Follows-refl s.recorder
  run-Follows ((e, now, ms) ∷ steps) s =
      Follows-trans (handle-Follows e now ms s) (run-Follows steps (handle num setup e now ms s).0)
