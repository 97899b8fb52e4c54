-- ===== src/Routing/Lock.antt =====
-- The lock of a session to its persisted decision, and that `create` establishes it.
use downshift.Base.{
  String, ◌≡◌, refl, sym, ap, ◌∙◌, inl, inr, Option, none, some, Result, ok, err, eq_refl,
  Bool-cases, true,
}
use downshift.Base.Exec.{continue}
use downshift.Decision.{RoutingDecision}
use downshift.Routing.{Controller, Session, Document, document, RoutingError}
use downshift.Routing.Durable.{write, validate_routing_decision}
use downshift.Routing.Ask.{Env, Action, preflight_auth}
use downshift.Routing.Create.{Answer, decision_of, consult, store_decision, create}
use downshift.Routing.Keeping.{Kept, preflight_auth-Keeps, consult-Keeps}

module _ {F : Type 0} (c : Controller F) where
  -- The decision stands in the session's file, and was made for the session and the mode.
  abbrev pub IsBound : Session F → RoutingDecision F → Type 0
  IsBound s d =
      (s.files s.session_id ≡ some (document d))
      × (d.pi_session_id ≡ s.session_id)
      × (d.mode ≡ c.options.mode)

  -- The session's decision, if it has one, is bound.
  abbrev pub IsLocked : Session F → Type 0
  IsLocked s = (d : RoutingDecision F) → s.current ≡ some d → IsBound s d

  pub Kept-IsLocked : (s t : Session F) → Kept s t → IsLocked s → IsLocked t
  Kept-IsLocked s t (current, files, id) h d e =
      let (p, q, m) = h d (sym current ∙ e) in ((λ i. files i (id i)) ∙ p, q ∙ sym id, m)

  -- The decision passes the checks that a later load makes.
  pub record IsOurs (d : RoutingDecision F) : Type 0 where
    pub valid : c.checks.schema_ok d ≡ true
    pub named : c.checks.id_ok d.pi_session_id ≡ true
    pub project : d.project_id ≡ c.options.project_id
    pub profile : d.auth_profile ≡ c.options.auth_profile
    pub fingerprint : d.fingerprint.value ≡ c.fingerprint.value

  abbrev pub Near : Session F → Session F → Type 0
  Near s t = (t.current ≡ s.current) × (t.session_id ≡ s.session_id)

  -- What `create` leaves: a decision that it returns is in its file.
  abbrev pub Created : Session F → Session F × Result RoutingError (RoutingDecision F) → Type 0
  Created s (t, ok d) = Near s t × IsBound t d × IsOurs d
  Created s (t, err e) = Near s t

  continue-Created :
      {A : Type 0} (s t : Session F) (r : Result RoutingError A)
      (f : A → Action F (RoutingDecision F))
      → Near s t
      → ((a : A) (u : Session F) → Near s u → Created s (f a u))
      → Created s (continue t r f)
  continue-Created s t (ok a) f k g = g a t k
  continue-Created s t (err e) f k g = k

  written :
      (files after : String → Option (Document F)) (d : RoutingDecision F)
      → write c.checks files d ≡ ok after
      → (after d.pi_session_id ≡ some (document d))
        × (c.checks.schema_ok d ≡ true)
        × (c.checks.id_ok d.pi_session_id ≡ true)
  unfolding write validate_routing_decision
  written files after d h =
      let x = d.pi_session_id in
      let found : Result RoutingError (String → Option (Document F)) → Option (Document F) =
        λ r. elim r [ ok f ↦ f x | err e ↦ none ] in
      elim (Bool-cases (c.checks.schema_ok d)) [
        | inr v ↦ let h1 = rw (write, v) at h in cc
        | inl v ↦ elim (Bool-cases (c.checks.id_ok x)) [
          | inr n ↦ let h1 = rw (write, v, n) at h in cc
          | inl n ↦ (sym (rw (eq_refl x) at (ap found (rw (write, v, n) at h))), v, n)
        ]
      ]

  stored :
      (env : Env F) (answer : Answer F) (s u : Session F)
      (r : Result RoutingError (String → Option (Document F)))
      → Near s u
      → write c.checks u.files (decision_of c env u.session_id answer) ≡ r
      → let d = decision_of c env u.session_id answer in
        let (t, result) : Session F × Result RoutingError (Unit {0}) = elim r [
          | ok files ↦ (record u { files = files }, ok tt)
          | err e ↦ (u, err e)
        ] in
        Created s (continue t result λ v w. (w, ok d))
  unfolding decision_of
  stored env answer s u (ok files) k h =
      let (file, valid, named) = written u.files files (decision_of c env u.session_id answer) h in
      (
        k,
        (file, refl, refl),
        record { valid = valid; named = named; project = refl; profile = refl; fingerprint = refl },
      )
  stored env answer s u (err e) k h = k

  pub create-Created :
      (env : Env F) (task : String) (s : Session F) → Created s (create c env task s)
  unfolding create store_decision
  create-Created env task s =
      let p = preflight_auth-Keeps c env s in
      continue-Created s (preflight_auth c env s).0 (preflight_auth c env s).1 _ (p.0, p.2)
        λ a t k.
          let q = consult-Keeps c env task t in
          continue-Created s (consult c env task t).0 (consult c env task t).1 _
            (q.0 ∙ k.0, q.2 ∙ k.1) λ answer u l. stored env answer s u _ l refl
