-- ===== src/Bridge/Examples.antt =====
-- The bridge's theorems at a process that asks, is aborted, and decides.
use downshift.Base.{ℕ, ◌≡◌, ◌≤◌, ◌+◌, refl, false, ok, arith}
use downshift.Decision.{weak}
use downshift.Bridge.{BridgeDecision, validated_verdict, decision, parse_frame, request_ok}
use downshift.Bridge.Frames.{parse_frame-IsUsable, IsUsable}
use downshift.Bridge.Messages.{start_frame, reply}
use downshift.Bridge.Client.{
  Client, exchange, write_frame, resolve_decision, refusal, handle_frame, answer,
}
use downshift.Bridge.Exchange.{Dialogue, resolve_decision-Dialogue}
use downshift.Bridge.Effort.{resolve_decision-Once, AskedOnce, lines}
use downshift.Bridge.Answered.{IsOpen, resolve_decision-answers}
use downshift.Bridge.Samples.{platform, pipe, options, client}

abbrev verdict : BridgeDecision ℕ
verdict = record { decision_id = "d1"; selected_alias = weak; evidence = validated_verdict 1 }

left_client : Client ℕ
unfolding resolve_decision refusal exchange write_frame start_frame reply handle_frame answer
    parse_frame
left_client = (resolve_decision platform pipe options (client, 0)).0.0

run : resolve_decision platform pipe options (client, 0) ≡ ((left_client, 1), ok verdict)
unfolding left_client resolve_decision refusal exchange write_frame start_frame reply handle_frame
    answer parse_frame request_ok
run = refl

dialogue : Dialogue platform options client.inputs 0 verdict left_client.inputs 1
dialogue = (resolve_decision-Dialogue platform pipe options client 0 run).0

parse_frame-IsUsable_example : IsUsable platform (decision verdict)
unfolding parse_frame
parse_frame-IsUsable_example = parse_frame-IsUsable platform "decide" (decision verdict) refl

resolve_decision-Dialogue_example :
    Dialogue platform options client.inputs 0 verdict left_client.inputs 1
    × (client.closed ≡ false)
    × (client.active ≡ false)
    × (left_client.active ≡ false)
    × IsUsable platform (decision verdict)
resolve_decision-Dialogue_example = resolve_decision-Dialogue platform pipe options client 0 run

resolve_decision-Once_example :
    AskedOnce platform pipe options 0 (resolve_decision platform pipe options (client, 0)).0.1
    × (lines client.inputs
        ≤ lines (resolve_decision platform pipe options (client, 0)).0.0.inputs + 2)
resolve_decision-Once_example = resolve_decision-Once platform pipe options client 0

always-IsOpen : IsOpen pipe
always-IsOpen = record { room = λ w. refl; fits = λ f. omega arith }

resolve_decision-answers_example :
    (t : Client ℕ) × (resolve_decision platform pipe options (client, 0) ≡ ((t, 1), ok verdict))
    × (t.inputs ≡ left_client.inputs)
    × (t.active ≡ false)
unfolding refusal
resolve_decision-answers_example =
    resolve_decision-answers platform pipe options always-IsOpen client 0 verdict refl dialogue
