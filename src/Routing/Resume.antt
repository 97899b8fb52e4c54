-- ===== src/Routing/Resume.antt =====
-- A decision that was made for a session is what the session resumes with.
use downshift.Base.{
  String, ◌≡◌, refl, ap, subst, true, false, not, Option, some, List, [], ◌∷◌, ◌++◌, ok, arith,
  eq_refl, eq_iff, str_eq, filter, any, Result-cases, Bool-cases, inl, inr, ◌>>=◌, ◌&&◌,
}
use downshift.Decision.{RoutingDecision, SessionMode, weak_only, strong_only, routed}
use downshift.Routing.{
  Controller, Session, Document, document, Entry, decision_entry, message_entry, other_entry,
  StartReason,
}
use downshift.Routing.Durable.{
  validate_routing_decision, read, same_mode, is_fresh, conflicting, custom_decisions, is_own,
  check_stored, resume_stored, load,
}
use downshift.Routing.Ask.{Env}
use downshift.Routing.Create.{create}
use downshift.Routing.Input.{adopt}
use downshift.Routing.Lock.{IsOurs, Created, create-Created}

same_mode_refl : (m : SessionMode) → same_mode m m ≡ true
same_mode_refl weak_only = refl
same_mode_refl strong_only = refl
same_mode_refl routed = refl

module _ {F : Type 0} (c : Controller F) where
  custom_decisions-append :
      (entries : List (Entry F)) (custom : List (RoutingDecision F)) (d : RoutingDecision F)
      → c.checks.schema_ok d ≡ true
      → custom_decisions c.checks entries ≡ ok custom
      → custom_decisions c.checks (entries ++ decision_entry (document d) ∷ [])
        ≡ ok (custom ++ d ∷ [])
  unfolding custom_decisions validate_routing_decision
  custom_decisions-append [] custom d v h = ground (arith, v, h)
  custom_decisions-append (decision_entry value ∷ entries) custom d v h =
      elim (Result-cases (validate_routing_decision c.checks value)) [
        | inr (e, p) ↦ let h1 = rw (custom_decisions, p) at h in cc
        | inl (x, p) ↦ elim (Result-cases (custom_decisions c.checks entries)) [
          | inr (e, q) ↦ let h1 = rw (custom_decisions, p, q) at h in cc
          | inl (rest, q) ↦
              let h1 = rw (custom_decisions, p, q) at h in
              let ih = custom_decisions-append entries rest d v q in
              rw (custom_decisions, p, ih) (ap (λ r. r >>= λ l. ok (l ++ d ∷ [])) h1)
        ]
      ]
  custom_decisions-append (message_entry r ∷ entries) custom d v h =
      custom_decisions-append entries custom d v h
  custom_decisions-append (other_entry ∷ entries) custom d v h =
      custom_decisions-append entries custom d v h

  own-append :
      (id : String) (custom : List (RoutingDecision F)) (d : RoutingDecision F)
      → d.pi_session_id ≡ id
      → filter (is_own id) custom ≡ []
      → filter (is_own id) (custom ++ d ∷ []) ≡ d ∷ []
  own-append id [] d e h = ground (arith, eq_iff d.pi_session_id id)
  own-append id (x ∷ custom) d e h = elim (Bool-cases (is_own id x)) [
    | inl o ↦ let h1 = rw o at h in cc
    | inr o ↦ rw o (own-append id custom d e (rw o at h))
  ]

  others :
      (id : String) (custom : List (RoutingDecision F)) (d : RoutingDecision F)
      → filter (is_own id) custom ≡ []
      → any
          (λ x. str_eq x.pi_session_id id && not (str_eq x.decision_id d.decision_id))
          (custom ++ d ∷ [])
        ≡ false
  others id [] d h = ground (arith, eq_refl d.decision_id)
  others id (x ∷ custom) d h = elim (Bool-cases (is_own id x)) [
    | inl o ↦ let h1 = rw o at h in cc
    | inr o ↦ rw o (others id custom d (rw o at h))
  ]

  reads :
      (files : String → Option (Document F)) (d : RoutingDecision F) (id : String)
      → files id ≡ some (document d)
      → c.checks.schema_ok d ≡ true
      → c.checks.id_ok id ≡ true
      → read c.checks files id ≡ ok (some d)
  unfolding read validate_routing_decision
  reads files d id f v n = rw (read, n, f, validate_routing_decision, v) refl

  agreed :
      (custom : List (RoutingDecision F)) (d : RoutingDecision F) (id : String)
      → any (λ x. str_eq x.pi_session_id id && not (str_eq x.decision_id d.decision_id)) custom
        ≡ false
      → conflicting id custom (d ∷ []) ≡ false
  unfolding conflicting
  agreed custom d id h = h

  passes :
      (id : String) (entries : List (Entry F)) (d : RoutingDecision F)
      → d.pi_session_id ≡ id
      → d.mode ≡ c.options.mode
      → IsOurs c d
      → c.checks.decision_equals d d ≡ true
      → check_stored c id entries (d ∷ []) d ≡ ok (some d)
  unfolding check_stored
  passes id entries d e m ours same =
      let p = (eq_iff _ _).1 ours.project in
      let q = (eq_iff _ _).1 e in
      let a = (eq_iff _ _).1 ours.profile in
      let f = (eq_iff _ _).1 ours.fingerprint in
      let k : same_mode d.mode c.options.mode ≡ true =
        subst (λ x. same_mode d.mode x ≡ true) m (same_mode_refl d.mode) in
      ground (arith, p, q, a, f, k, same)

  -- A decision that `create` returned is what `load` gives back after its entry has been appended, for
  -- any reason but a fresh session, if the session's earlier entries are valid and none of them decides
  -- for this session, and if the decision equals itself as a JSON text.
  pub load-create :
      (env : Env F) (task : String) (s : Session F) (reason : StartReason)
      (custom : List (RoutingDecision F)) {t : Session F} {d : RoutingDecision F}
      → create c env task s ≡ (t, ok d)
      → custom_decisions c.checks t.entries ≡ ok custom
      → filter (is_own t.session_id) custom ≡ []
      → is_fresh reason ≡ false
      → c.checks.decision_equals d d ≡ true
      → load c t.files t.session_id (adopt d t).entries reason ≡ ok (some d)
  unfolding load adopt resume_stored
  load-create env task s reason custom {t = t} {d = d} h valid none_own resumed same =
      let (near, (file, id, mode), ours) : Created c s (t, ok d) =
        subst (Created c s) h (create-Created c env task s) in
      let named : c.checks.id_ok t.session_id ≡ true =
        subst (λ i. c.checks.id_ok i ≡ true) id ours.named in
      let r = reads t.files d t.session_id file ours.valid named in
      let a = custom_decisions-append t.entries custom d ours.valid valid in
      let o = own-append t.session_id custom d id none_own in
      let n = others t.session_id custom d none_own in
      let g = agreed (custom ++ d ∷ []) d t.session_id n in
      let k = passes t.session_id (adopt d t).entries d id mode ours same in
      rw (load, a, o, g, r, resume_stored, resumed, o) k
