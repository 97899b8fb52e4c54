-- ===== src/Bridge/Frames.antt =====
-- What the frames that `parseFrame` accepts satisfy.
use downshift.Base.{
  String, ◌≡◌, ◌≢◌, true, Option, some, ok, arith, eq_iff, inl, inr, Option-cases, Bool-cases,
  str_eq, or_throw-ok, ltb,
}
use downshift.Decision.{Tier, strong}
use downshift.Bridge.Values.{Json, Fields, get_field, fields_of, text_of}
use downshift.Bridge.{
  max_bridge_frame_bytes, invalid_frame, Evidence, validated_verdict, fallback, BridgeDecision,
  OutputFrame, ready, call_model, decision, error, Platform, request_ok, parse_frame, parse_typed,
  parse_ready, parse_error, parse_call_model, call_of, parse_decision, evidence_of, decision_of,
  probability_of, id_of,
}

module _ {F : Type 0} (platform : Platform F) where
  open platform use {is_finite, le, zero_f, one_f}

  -- What is checked of a decision's evidence: the probability of a verdict is a finite number between 0
  -- and 1, whichever tier is selected; a fallback selects the strong tier.
  abbrev pub IsAdmissible : Tier → Evidence F → Type 0
  IsAdmissible tier (validated_verdict p) =
      (is_finite p ≡ true) × (le zero_f p ≡ true) × (le p one_f ≡ true)
  IsAdmissible tier (fallback reason) = tier ≡ strong

  abbrev pub IsGrounded : BridgeDecision F → Type 0
  IsGrounded d = (d.decision_id ≢ "") × IsAdmissible d.selected_alias d.evidence

  abbrev pub IsUsable : OutputFrame F → Type 0
  IsUsable ready = Unit
  IsUsable (error i kind message) = (i ≢ "") × (kind ≢ "")
  IsUsable (call_model c) =
      (c.decision_id ≢ "") × (c.call_id ≢ "") × (request_ok platform c.request ≡ true)
  IsUsable (decision d) = IsGrounded d

  id_of-some : (v : Option (Json F)) (i : String) → id_of platform v ≡ some i → i ≢ ""
  id_of-some v i h = ground (arith, eq_iff i "")

  evidence_of-IsAdmissible :
      (tier : Tier) (f : Fields F) (e : Evidence F)
      → evidence_of platform tier f ≡ some e
      → IsAdmissible tier e
  unfolding evidence_of probability_of
  evidence_of-IsAdmissible tier f (validated_verdict p) h =
      (ground arith, ground arith, ground arith)
  evidence_of-IsAdmissible tier f (fallback r) h = ground arith

  parse_error-IsUsable :
      (f : Fields F) (frame : OutputFrame F) → parse_error platform f ≡ some frame → IsUsable frame
  unfolding parse_error
  parse_error-IsUsable f ready h = tt
  parse_error-IsUsable f (error i k m) h =
      (ground (arith, eq_iff i ""), ground (arith, eq_iff k ""))
  parse_error-IsUsable f (call_model c) h = ground arith
  parse_error-IsUsable f (decision d) h = ground arith

  parse_call_model-IsUsable :
      (f : Fields F) (frame : OutputFrame F)
      → parse_call_model platform f ≡ some frame
      → IsUsable frame
  unfolding parse_call_model call_of
  parse_call_model-IsUsable f ready h = tt
  parse_call_model-IsUsable f (error i k m) h = ground arith
  parse_call_model-IsUsable f (call_model c) h =
      (ground (arith, eq_iff c.decision_id ""), ground (arith, eq_iff c.call_id ""), ground arith)
  parse_call_model-IsUsable f (decision d) h = ground arith

  decision_cases :
      (f : Fields F) (d : BridgeDecision F)
      → parse_decision platform f ≡ some (decision d)
      → (e : Fields F) × (id_of platform (get_field f "decisionId") ≡ some d.decision_id)
        × (evidence_of platform d.selected_alias e ≡ some d.evidence)
  unfolding parse_decision decision_of
  decision_cases f d h = elim (Option-cases (fields_of (get_field f "evidence"))) [
    | inl n ↦ ground arith
    | inr (e, q) ↦ (e, ground arith, ground arith)
  ]

  parse_decision-IsUsable :
      (f : Fields F) (frame : OutputFrame F)
      → parse_decision platform f ≡ some frame
      → IsUsable frame
  unfolding parse_decision decision_of
  parse_decision-IsUsable f ready h = tt
  parse_decision-IsUsable f (error i k m) h = ground arith
  parse_decision-IsUsable f (call_model c) h = ground arith
  parse_decision-IsUsable f (decision d) h =
      let (e, i, v) = decision_cases f d h in
      (
        id_of-some (get_field f "decisionId") d.decision_id i,
        evidence_of-IsAdmissible d.selected_alias e d.evidence v,
      )

  ready-IsUsable :
      (f : Fields F) (frame : OutputFrame F) → parse_ready platform f ≡ some frame → IsUsable frame
  unfolding parse_ready
  ready-IsUsable f ready h = tt
  ready-IsUsable f (error i k m) h = ground arith
  ready-IsUsable f (call_model c) h = ground arith
  ready-IsUsable f (decision d) h = ground arith

  parse_typed-IsUsable :
      (type : String) (f : Fields F) (frame : OutputFrame F)
      → parse_typed platform type f ≡ some frame
      → IsUsable frame
  unfolding parse_typed parse_ready
  parse_typed-IsUsable type f frame h = elim (Bool-cases (str_eq type "ready")) [
    | inl r ↦ ready-IsUsable f frame (rw r at h)
    | inr r ↦ elim (Bool-cases (str_eq type "error")) [
      | inl e ↦ parse_error-IsUsable f frame (rw (r, e) at h)
      | inr e ↦ elim (Bool-cases (str_eq type "call_model")) [
        | inl c ↦ parse_call_model-IsUsable f frame (rw (r, e, c) at h)
        | inr c ↦ elim (Bool-cases (str_eq type "decision")) [
          | inl d ↦ parse_decision-IsUsable f frame (rw (r, e, c, d) at h)
          | inr d ↦ cc
        ]
      ]
    ]
  ]

  frame_cases :
      (line : String) (frame : OutputFrame F)
      → parse_frame platform line ≡ ok frame
      → (type : String) × (f : Fields F) × (parse_typed platform type f ≡ some frame)
  unfolding parse_frame
  frame_cases line frame h =
      elim (Bool-cases (ltb max_bridge_frame_bytes (platform.byte_length line))) [
        | inl long ↦ let h1 = rw long at h in cc
        | inr long ↦ elim (Option-cases (platform.json_parse line)) [
          | inl n ↦ let h1 = rw (long, n) at h in cc
          | inr (j, ej) ↦ elim (Option-cases (fields_of (some j))) [
            | inl n ↦ let h1 = rw (long, ej, n) at h in cc
            | inr (f, ef) ↦ elim (Option-cases (text_of (get_field f "type"))) [
              | inl n ↦ let h1 = rw (long, ej, ef, n) at h in cc
              | inr (type, et) ↦ (
                type,
                f,
                or_throw-ok (parse_typed platform type f) (invalid_frame type)
                    (rw (long, ej, ef, et) at h),
              )
            ]
          ]
        ]
      ]

  -- Every frame that `parseFrame` accepts has nonempty identifiers; a request has messages of the right
  -- shape; a decision with a probability has a finite one between 0 and 1, and a fallback selects the
  -- strong tier.
  pub parse_frame-IsUsable :
      (line : String) (frame : OutputFrame F)
      → parse_frame platform line ≡ ok frame
      → IsUsable frame
  parse_frame-IsUsable line frame h =
      let (type, f, e) = frame_cases line frame h in parse_typed-IsUsable type f frame e
