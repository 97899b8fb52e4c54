-- ===== src/Bridge/Answered.antt =====
-- A process that keeps to the protocol is answered: `resolveDecision` returns its decision.
use downshift.Base.{
  ◌≤◌, true, false, ◌≡◌, refl, sym, ap, subst, none, List, [], ◌∷◌, ok, arith, eq_iff, ◌++◌,
}
use downshift.Bridge.{
  max_bridge_frame_bytes, BridgeDecision, CallModel, call_model, decision, Platform, parse_frame,
}
use downshift.Bridge.Messages.{
  ClassifierResult, InputFrame, ResolveOptions, start_frame, reply, is_mismatched,
}
use downshift.Bridge.Client.{
  Input, line, abort, Pipe, Client, write_frame, exchange, handle_frame, answer, resolve_decision,
  refusal,
}
use downshift.Bridge.Exchange.{write_frame-inputs, Next, Dialogue}

-- The process's input takes every frame.
pub record IsOpen {F : Type 0} (pipe : Pipe F) : Type 0 where
  pub room : (written : List (InputFrame F)) → pipe.room written ≡ true
  pub fits : (frame : InputFrame F) → pipe.size frame ≤ max_bridge_frame_bytes

module _ {F : Type 0} (platform : Platform F) (pipe : Pipe F) {C : Type 0} (o : ResolveOptions F C)
    (open_pipe : IsOpen pipe) where
  write_frame-ok :
      (frame : InputFrame F) (client : Client F)
      → (write_frame platform pipe frame client).1 ≡ ok tt
  unfolding write_frame
  write_frame-ok frame client =
      ground (arith, open_pipe.room (client.written ++ frame ∷ []), open_pipe.fits frame)

  decides :
      (inputs left : List Input) (client : Client F) (c : C) (d : BridgeDecision F)
      → Next platform inputs (decision d) left
      → d.decision_id ≡ o.decision_id
      → (t : Client F) × (exchange platform pipe o true inputs (client, c) ≡ ((t, c), ok d))
        × (t.inputs ≡ left)
  unfolding exchange handle_frame
  decides [] left client c d n e = let comes = n.comes in cc
  decides (abort ∷ rest) left client c d n e =
      decides rest left _ c d (record { text = n.text; comes = n.comes; parsed = n.parsed }) e
  decides (line l ∷ rest) left client c d n e =
      let p : parse_frame platform l ≡ ok (decision d) = ground (arith, n.comes, n.parsed) in
      let q : rest ≡ left = ground (arith, n.comes) in
      (record client { inputs = rest }, ground (arith, p, e, eq_iff d.decision_id o.decision_id), q)

  asks :
      (inputs between left : List Input) (client : Client F) (c : C) {after : C} (m : CallModel F)
      (r : ClassifierResult) (d : BridgeDecision F)
      → Next platform inputs (call_model m) between
      → Next platform between (decision d) left
      → m.decision_id ≡ o.decision_id
      → d.decision_id ≡ o.decision_id
      → o.call_classifier c m ≡ (after, ok r)
      → (t : Client F) × (exchange platform pipe o false inputs (client, c) ≡ ((t, after), ok d))
        × (t.inputs ≡ left)
  unfolding exchange handle_frame answer
  asks [] between left client c m r d n k i e call = let comes = n.comes in cc
  asks (abort ∷ rest) between left client c m r d n k i e call =
      asks rest between left _ c m r d
        (record { text = n.text; comes = n.comes; parsed = n.parsed }) k i e call
  asks (line l ∷ rest) between left client c {after = after} m r d n k i e call =
      let p : parse_frame platform l ≡ ok (call_model m) = ground (arith, n.comes, n.parsed) in
      let q : rest ≡ between = ground (arith, n.comes) in
      let here : Client F = record client { inputs = rest } in
      let w = write_frame platform pipe (reply m r) here in
      let written : w.1 ≡ ok tt = write_frame-ok (reply m r) here in
      let (t, done, last) =
        decides rest left w.0 after d (subst (λ x. Next platform x (decision d) left) (sym q) k)
          e in
      let same : is_mismatched o.decision_id (call_model m) ≡ false =
        ground (arith, i, eq_iff m.decision_id o.decision_id) in
      (
        t,
        rw
            (
              exchange,
              p,
              same,
              handle_frame,
              answer,
              ap (λ u. u.1) call,
              written,
              ap (λ u. u.0) call,
            )
            done,
        last,
      )

  -- While the process's input takes every frame, an idle client whose signal is not aborted returns the
  -- decision of a process that asks once for the classifier and then decides, both for this decision,
  -- if the callback answers; aborts in between do not prevent it. The lines after the decision are left.
  pub resolve_decision-answers :
      (client : Client F) (c : C) {left : List Input} {after : C} (d : BridgeDecision F)
      → refusal o client ≡ none
      → Dialogue platform o client.inputs c d left after
      → (t : Client F) × (resolve_decision platform pipe o (client, c) ≡ ((t, after), ok d))
        × (t.inputs ≡ left)
        × (t.active ≡ false)
  unfolding resolve_decision
  resolve_decision-answers client c {left = left} {after = after} d r g =
      let here : Client F = record client { active = true } in
      let w = write_frame platform pipe (start_frame o) here in
      let written : w.1 ≡ ok tt = write_frame-ok (start_frame o) here in
      let same : w.0.inputs ≡ client.inputs =
        write_frame-inputs platform pipe o (start_frame o) here in
      let (t, done, last) =
        asks w.0.inputs g.between left w.0 c g.request g.result d
          (subst (λ x. Next platform x (call_model g.request) g.between) (sym same) g.asks)
          g.decides g.same_request g.same_decision g.calls in
      (record t { active = false }, rw (resolve_decision, r, written, done) refl, last, refl)
