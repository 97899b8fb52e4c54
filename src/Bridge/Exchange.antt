-- ===== src/Bridge/Exchange.antt =====
-- When `resolveDecision` returns a decision, and what it has done by then.
use downshift.Base.{
  String, Bool, true, false, ◌≡◌, refl, sym, inl, inr, Option, none, some, List, [], ◌∷◌, Result,
  ok, arith, eq_iff, Bool-cases, Option-cases, Result-cases, ap, ◌∙◌, subst,
}
use downshift.Bridge.{
  BridgeError, BridgeDecision, CallModel, OutputFrame, ready, call_model, decision, error, Platform,
  parse_frame,
}
use downshift.Bridge.Frames.{IsGrounded, parse_frame-IsUsable}
use downshift.Bridge.Messages.{
  ClassifierResult, InputFrame, ResolveOptions, start_frame, reply, is_mismatched,
}
use downshift.Bridge.Client.{
  Input, line, abort, Pipe, Client, write_frame, exchange, refusal, resolve_decision, handle_frame,
  answer,
}

-- The next line that the process prints, and the inputs after it.
abbrev pub next_line : List Input → Option (String × List Input)
next_line [] = none
next_line (abort ∷ rest) = next_line rest
next_line (line l ∷ rest) = some (l, rest)

module _ {F : Type 0} (platform : Platform F) where
  -- The next line is that frame.
  pub record Next (inputs : List Input) (frame : OutputFrame F) (rest : List Input) : Type 0 where
    pub text : String
    pub comes : next_line inputs ≡ some (text, rest)
    pub parsed : parse_frame platform text ≡ ok frame

  module _ {C : Type 0} (o : ResolveOptions F C) where
    -- The process asks once for the classifier, then decides, both for this decision.
    pub record Dialogue (inputs : List Input) (c : C) (d : BridgeDecision F) (left : List Input)
        (after : C) : Type 0 where
      pub request : CallModel F
      pub result : ClassifierResult
      pub between : List Input
      pub asks : Next inputs (call_model request) between
      pub decides : Next between (decision d) left
      pub same_request : request.decision_id ≡ o.decision_id
      pub same_decision : d.decision_id ≡ o.decision_id
      pub calls : o.call_classifier c request ≡ (after, ok result)

  module _ (pipe : Pipe F) {C : Type 0} (o : ResolveOptions F C) where
    pub write_frame-inputs :
        (f : InputFrame F) (client : Client F)
        → (write_frame platform pipe f client).0.inputs ≡ client.inputs
    unfolding write_frame
    write_frame-inputs f client = ground arith

    accepted :
        (called : Bool) (l : String) (rest : List Input) (client : Client F) (c : C) {t : Client F}
        {a : C} {d : BridgeDecision F}
        → exchange platform pipe o called (line l ∷ rest) (client, c) ≡ ((t, a), ok d)
        → (frame : OutputFrame F) × (parse_frame platform l ≡ ok frame)
          × (is_mismatched o.decision_id frame ≡ false)
          × (handle_frame platform pipe o called frame
                (λ s. exchange platform pipe o true rest s)
                (record client { inputs = rest }, c)
              ≡ ((t, a), ok d))
    unfolding exchange
    accepted called l rest client c h = elim (Result-cases (parse_frame platform l)) [
      | inr (e, p) ↦ let h1 = rw (exchange, p) at h in cc
      | inl (frame, p) ↦ elim (Bool-cases (is_mismatched o.decision_id frame)) [
        | inl m ↦ let h1 = rw (exchange, p, m) at h in cc
        | inr m ↦ (frame, p, m, rw (exchange, p, m) at h)
      ]
    ]

    -- The next frame after the classifier's call.
    decided_by :
        (frame : OutputFrame F) (s : Client F × C)
        (next : Client F × C → (Client F × C) × Result BridgeError (BridgeDecision F))
        {t : Client F} {a : C} {d : BridgeDecision F}
        → is_mismatched o.decision_id frame ≡ false
        → handle_frame platform pipe o true frame next s ≡ ((t, a), ok d)
        → (frame ≡ decision d) × (d.decision_id ≡ o.decision_id) × (s ≡ (t, a))
    unfolding handle_frame
    decided_by ready s next m h = cc
    decided_by (error i k msg) s next m h = cc
    decided_by (call_model r) s next m h = cc
    decided_by (decision d) s next {d = x} m h =
        (ground arith, ground (arith, eq_iff x.decision_id o.decision_id), ground arith)

    decided :
        (inputs : List Input) (client : Client F) (c : C) {t : Client F} {a : C}
        {d : BridgeDecision F}
        → exchange platform pipe o true inputs (client, c) ≡ ((t, a), ok d)
        → Next inputs (decision d) t.inputs × (d.decision_id ≡ o.decision_id) × (a ≡ c)
    unfolding exchange
    decided [] client c h = ground arith
    decided (abort ∷ rest) client c h =
        let (n, e, q) = decided rest _ c h in
        (record { text = n.text; comes = n.comes; parsed = n.parsed }, e, q)
    decided (line l ∷ rest) client c h =
        let (frame, p, m, k) = accepted true l rest client c h in
        let (f, i, s) = decided_by frame _ _ m k in
        (
          record { text = l; comes = ap (λ u. some (l, u.0.inputs)) s; parsed = p ∙ ap ok f },
          i,
          sym (ap (λ u. u.1) s),
        )

    -- The first frame, and what it makes of the state.
    asked_by :
        (frame : OutputFrame F) (s : Client F × C)
        (next : Client F × C → (Client F × C) × Result BridgeError (BridgeDecision F))
        {u : (Client F × C) × Result BridgeError (BridgeDecision F)} {d : BridgeDecision F}
        → is_mismatched o.decision_id frame ≡ false
        → handle_frame platform pipe o false frame next s ≡ u
        → u.1 ≡ ok d
        → (m : CallModel F) × (r : ClassifierResult) × (client : Client F) × (frame ≡ call_model m)
          × (m.decision_id ≡ o.decision_id)
          × ((o.call_classifier s.1 m).1 ≡ ok r)
          × (next (client, (o.call_classifier s.1 m).0) ≡ u)
          × (client.inputs ≡ s.0.inputs)
    unfolding handle_frame answer
    asked_by ready s next m h k = ground arith
    asked_by (error i kind msg) s next m h k = ground arith
    asked_by (decision d) s next m h k = ground arith
    asked_by (call_model q) s next m h k = elim (Result-cases (o.call_classifier s.1 q).1) [
      | inr (e, ce) ↦ let h1 = rw (handle_frame, answer, ce) at h in cc
      | inl (r, ce) ↦ elim (Result-cases (write_frame platform pipe (reply q r) s.0).1) [
        | inr (e, we) ↦ let h1 = rw (handle_frame, answer, ce, we) at h in cc
        | inl (v, we) ↦ (
          q,
          r,
          (write_frame platform pipe (reply q r) s.0).0,
          refl,
          ground (arith, eq_iff q.decision_id o.decision_id),
          ce,
          rw (handle_frame, answer, ce, we) at h,
          write_frame-inputs (reply q r) s.0,
        )
      ]
    ]

    exchanged :
        (inputs : List Input) (client : Client F) (c : C) {t : Client F} {a : C}
        {d : BridgeDecision F}
        → exchange platform pipe o false inputs (client, c) ≡ ((t, a), ok d)
        → Dialogue o inputs c d t.inputs a
    unfolding exchange
    exchanged [] client c h = ground arith
    exchanged (abort ∷ rest) client c h =
        let g = exchanged rest _ c h in
        record {
          request = g.request;
          result = g.result;
          between = g.between;
          asks = record { text = g.asks.text; comes = g.asks.comes; parsed = g.asks.parsed };
          decides = g.decides;
          same_request = g.same_request;
          same_decision = g.same_decision;
          calls = g.calls;
        }
    exchanged (line l ∷ rest) client c h =
        let (frame, p, m, k) = accepted false l rest client c h in
        let (q, r, after, f, i, e, n, w) = asked_by frame _ _ m k refl in
        let (d, j, same) = decided rest after _ n in
        record {
          request = q;
          result = r;
          between = rest;
          asks = record { text = l; comes = refl; parsed = p ∙ ap ok f };
          decides = d;
          same_request = i;
          same_decision = j;
          calls = ground (arith, same, e);
        }

    -- The client as it enters the loop.
    abbrev pub started : Client F → Client F × Result BridgeError (Unit {0})
    started client = write_frame platform pipe (start_frame o) (record client { active = true })

    refusal-none :
        (client : Client F)
        → refusal o client ≡ none
        → (client.closed ≡ false) × (client.active ≡ false)
    unfolding refusal
    refusal-none client h = (ground arith, ground arith)

    resolved :
        (client : Client F) (c : C) {t : Client F} {a : C} {d : BridgeDecision F}
        → resolve_decision platform pipe o (client, c) ≡ ((t, a), ok d)
        → (s : Client F) × (client.closed ≡ false)
          × (client.active ≡ false)
          × (exchange platform pipe o false (started client).0.inputs ((started client).0, c)
              ≡ ((s, a), ok d))
          × (t ≡ record s { active = false })
    unfolding resolve_decision
    resolved client c {t = t} {a = a} {d = d} h = elim (Option-cases (refusal o client)) [
      | inr (e, r) ↦ let h1 = rw (resolve_decision, r) at h in cc
      | inl r ↦ elim (Result-cases (started client).1) [
        | inr (e, w) ↦ let h1 = rw (resolve_decision, r, w) at h in cc
        | inl (v, w) ↦
            let (closed, active) = refusal-none client r in
            let x =
              exchange platform pipe o false (started client).0.inputs ((started client).0, c) in
            let h1 = rw (resolve_decision, r, w) at h in
            (
              x.0.0,
              closed,
              active,
              ap (λ y. ((x.0.0, y), x.1)) (ap (λ u. u.0.1) h1)
                  ∙ ap (λ z. ((x.0.0, a), z)) (ap (λ u. u.1) h1),
              sym (ap (λ u. u.0.0) h1),
            )
      ]
    ]

    -- A decision is returned only by an idle client that is not disposed, after exactly one request for
    -- classifier inference, which the callback answered, and one decision, both for the decision that
    -- was asked for; the client is idle again, the process's next lines are unread, and the decision
    -- comes with a finite probability between 0 and 1, whichever tier it selects, or with a fallback,
    -- and then it selects the strong tier.
    pub resolve_decision-Dialogue :
        (client : Client F) (c : C) {t : Client F} {a : C} {d : BridgeDecision F}
        → resolve_decision platform pipe o (client, c) ≡ ((t, a), ok d)
        → Dialogue o client.inputs c d t.inputs a
          × (client.closed ≡ false)
          × (client.active ≡ false)
          × (t.active ≡ false)
          × IsGrounded platform d
    resolve_decision-Dialogue client c {t = t} {a = a} {d = d} h =
        let (s, closed, active, e, q) = resolved client c h in
        let g =
          subst (λ inputs. Dialogue o inputs c d s.inputs a)
            (write_frame-inputs (start_frame o) (record client { active = true }))
            (exchanged (started client).0.inputs (started client).0 c e) in
        (
          subst (λ x. Dialogue o client.inputs c d x.inputs a) (sym q) g,
          closed,
          active,
          ap (λ x. x.active) q,
          parse_frame-IsUsable platform g.decides.text (decision d) g.decides.parsed,
        )
