-- ===== src/Bridge/Effort.antt =====
-- What `resolveDecision` has read and asked for, however it ends.
use downshift.Base.{
  ℕ, suc, ◌+◌, ◌≤◌, true, false, ◌≡◌, refl, ◌⊎◌, inl, inr, List, [], ◌∷◌, Result, arith, Bool-cases,
  Option-cases, Result-cases,
}
use downshift.Bridge.{
  BridgeDecision, BridgeError, CallModel, OutputFrame, ready, call_model, decision, error, Platform,
  parse_frame,
}
use downshift.Bridge.Messages.{ResolveOptions, start_frame, reply, is_mismatched}
use downshift.Bridge.Client.{
  Input, line, abort, Pipe, Client, write_frame, exchange, handle_frame, answer, resolve_decision,
  refusal,
}
use downshift.Bridge.Exchange.{write_frame-inputs}

-- The lines that are left to read.
abbrev pub lines : List Input → ℕ
lines [] = 0
lines (abort ∷ rest) = lines rest
lines (line l ∷ rest) = suc (lines rest)

abbrev pub reading : {F : Type 0} → Client F → List Input → Client F
reading client rest = record client { inputs = rest }

module _ {F : Type 0} (platform : Platform F) (pipe : Pipe F) {C : Type 0}
    (o : ResolveOptions F C) where
  -- A frame after the classifier's call ends the exchange.
  handle_frame-ends :
      (frame : OutputFrame F) (s : Client F × C)
      (next : Client F × C → (Client F × C) × Result BridgeError (BridgeDecision F))
      → (handle_frame platform pipe o true frame next s).0 ≡ s
  unfolding handle_frame
  handle_frame-ends ready s next = refl
  handle_frame-ends (error i k m) s next = refl
  handle_frame-ends (call_model r) s next = refl
  handle_frame-ends (decision d) s next = refl

  exchange-ends :
      (inputs : List Input) (client : Client F) (c : C)
      → ((exchange platform pipe o true inputs (client, c)).0.1 ≡ c)
        × (lines inputs ≤ lines (exchange platform pipe o true inputs (client, c)).0.0.inputs + 1)
  unfolding exchange
  exchange-ends [] client c = (refl, omega arith)
  exchange-ends (abort ∷ rest) client c = exchange-ends rest _ c
  exchange-ends (line l ∷ rest) client c = elim (Result-cases (parse_frame platform l)) [
    | inr (e, p) ↦ (ground (arith, p), ground (arith, p))
    | inl (frame, p) ↦
        let q =
          handle_frame-ends frame (reading client rest, c)
            (λ s. exchange platform pipe o true rest s) in
        (ground (arith, p, q), ground (arith, p, q))
  ]

  -- The classifier's state is as it was, or as one call left it.
  abbrev pub AskedOnce : C → C → Type 0
  AskedOnce c a = (a ≡ c) ⊎ ((m : CallModel F) × (a ≡ (o.call_classifier c m).0))

  answer-once :
      (m : CallModel F) (rest : List Input) (client : Client F) (c : C)
      → let s : Client F × C = (reading client rest, c) in
        let x = answer platform pipe o m (λ s. exchange platform pipe o true rest s) s in
        (x.0.1 ≡ (o.call_classifier c m).0) × (lines rest ≤ lines x.0.0.inputs + 1)
  unfolding answer
  answer-once m rest client c = elim (Result-cases (o.call_classifier c m).1) [
    | inr (e, p) ↦ (ground (arith, p), ground (arith, p))
    | inl (r, p) ↦
        let here = reading client rest in
        let i = write_frame-inputs platform pipe o (reply m r) here in
        let (same, fewer) =
          exchange-ends rest (write_frame platform pipe (reply m r) here).0
            (o.call_classifier c m).0 in
        elim (Result-cases (write_frame platform pipe (reply m r) here).1) [
          | inr (e, w) ↦ (ground (arith, p, w), ground (arith, p, w, i))
          | inl (v, w) ↦ (ground (arith, p, w, same), ground (arith, p, w, fewer))
        ]
  ]

  handle_frame-once :
      (frame : OutputFrame F) (rest : List Input) (client : Client F) (c : C)
      → let s : Client F × C = (reading client rest, c) in
        let x =
          handle_frame platform pipe o false frame (λ s. exchange platform pipe o true rest s) s in
        AskedOnce c x.0.1 × (lines rest ≤ lines x.0.0.inputs + 1)
  unfolding handle_frame
  handle_frame-once ready rest client c = (inl refl, omega arith)
  handle_frame-once (error i k m) rest client c = (inl refl, omega arith)
  handle_frame-once (decision d) rest client c = (inl refl, omega arith)
  handle_frame-once (call_model m) rest client c =
      let (same, fewer) = answer-once m rest client c in (inr (m, same), fewer)

  exchange-once :
      (inputs : List Input) (client : Client F) (c : C)
      → let x = exchange platform pipe o false inputs (client, c) in
        AskedOnce c x.0.1 × (lines inputs ≤ lines x.0.0.inputs + 2)
  unfolding exchange
  exchange-once [] client c = (inl refl, omega arith)
  exchange-once (abort ∷ rest) client c = exchange-once rest _ c
  exchange-once (line l ∷ rest) client c = elim (Result-cases (parse_frame platform l)) [
    | inr (e, p) ↦ (inl (ground (arith, p)), ground (arith, p))
    | inl (frame, p) ↦ elim (Bool-cases (is_mismatched o.decision_id frame)) [
      | inl m ↦ (inl (ground (arith, p, m)), ground (arith, p, m))
      | inr m ↦
          let (asked, fewer) = handle_frame-once frame rest client c in
          (rw (exchange, p, m) asked, ground (arith, p, m, fewer))
    ]
  ]

  -- However `resolveDecision` ends, the classifier callback was called at most once and at most two of the
  -- process's lines were read.
  pub resolve_decision-Once :
      (client : Client F) (c : C)
      → let x = resolve_decision platform pipe o (client, c) in
        AskedOnce c x.0.1 × (lines client.inputs ≤ lines x.0.0.inputs + 2)
  unfolding resolve_decision
  resolve_decision-Once client c = elim (Option-cases (refusal o client)) [
    | inr (e, r) ↦ (inl (ground (arith, r)), ground (arith, r))
    | inl r ↦
        let here : Client F = record client { active = true } in
        let i = write_frame-inputs platform pipe o (start_frame o) here in
        let w = write_frame platform pipe (start_frame o) here in
        let (asked, fewer) = exchange-once w.0.inputs w.0 c in
        elim (Result-cases w.1) [
          | inr (e, q) ↦ (inl (ground (arith, r, q)), ground (arith, r, q, i))
          | inl (v, q) ↦ (rw (resolve_decision, r, q) asked, ground (arith, r, q, i, fewer))
        ]
  ]
