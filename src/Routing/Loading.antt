-- ===== src/Routing/Loading.antt =====
-- What `load` gives back.
use downshift.Base.{
  String, ◌≡◌, true, false, List, Option, none, some, ok, arith, filter, Bool-cases, Result-cases,
  inl, inr, ◌&&◌, str_eq, eq_iff, subst, sym, Option-cases, ◌∙◌, ap,
}
use downshift.Decision.{RoutingDecision, SessionMode}
use downshift.Routing.{
  Controller, Checks, StartReason, Document, document, Entry, has_coding_history,
}
use downshift.Routing.Durable.{
  validate_routing_decision, read, same_mode, conflicting, custom_decisions, is_own, is_empty,
  first_conflicts, check_stored, resume_stored, load, is_fresh,
}

pub same_mode-eq : (a b : SessionMode) → same_mode a b ≡ true → a ≡ b
same_mode-eq a b h = ground arith

module _ {F : Type 0} where
  pub read-document :
      (checks : Checks F) (files : String → Option (Document F)) (id : String)
      {d : RoutingDecision F}
      → read checks files id ≡ ok (some d)
      → (files id ≡ some (document d)) × (checks.schema_ok d ≡ true) × (checks.id_ok id ≡ true)
  unfolding read validate_routing_decision
  read-document checks files id h = (ground arith, ground arith, ground arith)

  pub read-none :
      (checks : Checks F) (files : String → Option (Document F)) (id : String)
      → read checks files id ≡ ok none
      → files id ≡ none
  unfolding read validate_routing_decision
  read-none checks files id h = ground arith

  -- A decision that a session may go on with.
  pub record IsResumable (c : Controller F) (files : String → Option (Document F)) (id : String)
      (own : List (RoutingDecision F)) (entries : List (Entry F)) (d : RoutingDecision F)
      : Type 0 where
    pub persisted : files id ≡ some (document d)
    pub valid : c.checks.schema_ok d ≡ true
    pub same_session : d.pi_session_id ≡ id
    pub same_project : d.project_id ≡ c.options.project_id
    pub same_profile : d.auth_profile ≡ c.options.auth_profile
    pub same_fingerprint : d.fingerprint.value ≡ c.fingerprint.value
    pub mode : d.mode ≡ c.options.mode
    pub entered : is_empty own && has_coding_history entries ≡ false
    pub agrees : first_conflicts c.checks own d ≡ false

  load_cases :
      (c : Controller F) (files : String → Option (Document F)) (id : String)
      (entries : List (Entry F)) (reason : StartReason) {r : Option (RoutingDecision F)}
      → load c files id entries reason ≡ ok r
      → (custom : List (RoutingDecision F)) × (stored : Option (RoutingDecision F))
        × (custom_decisions c.checks entries ≡ ok custom)
        × (conflicting id custom (filter (is_own id) custom) ≡ false)
        × (read c.checks files id ≡ ok stored)
        × (resume_stored c id entries reason (filter (is_own id) custom) stored ≡ ok r)
  unfolding load
  load_cases c files id entries reason h = elim (Result-cases (custom_decisions c.checks entries)) [
    | inr (e, p) ↦ let h1 = rw (load, p) at h in cc
    | inl (custom, p) ↦ elim (Bool-cases (conflicting id custom (filter (is_own id) custom))) [
      | inl q ↦ let h1 = rw (load, p, q) at h in cc
      | inr q ↦ elim (Result-cases (read c.checks files id)) [
        | inr (e, k) ↦ let h1 = rw (load, p, q, k) at h in cc
        | inl (stored, k) ↦ (custom, stored, p, q, k, rw (load, p, q, k) at h)
      ]
    ]
  ]

  check_stored-ok :
      (c : Controller F) (id : String) (entries : List (Entry F)) (own : List (RoutingDecision F))
      (d : RoutingDecision F) {r : Option (RoutingDecision F)}
      → check_stored c id entries own d ≡ ok r
      → (r ≡ some d)
        × (str_eq d.project_id c.options.project_id ≡ true)
        × (str_eq d.pi_session_id id ≡ true)
        × (str_eq d.auth_profile c.options.auth_profile ≡ true)
        × (str_eq d.fingerprint.value c.fingerprint.value ≡ true)
        × (same_mode d.mode c.options.mode ≡ true)
        × (is_empty own && has_coding_history entries ≡ false)
        × (first_conflicts c.checks own d ≡ false)
  unfolding check_stored
  check_stored-ok c id entries own d h = (
    ground arith,
    ground arith,
    ground arith,
    ground arith,
    ground arith,
    ground arith,
    ground arith,
    ground arith,
  )

  -- What `load` has found when it gives back a decision, and when it gives back none.
  abbrev pub Found :
      Controller F
      → (String → Option (Document F))
      → String
      → List (Entry F)
      → StartReason
      → Option (RoutingDecision F)
      → Type 0
  Found c files id entries reason none = files id ≡ none
  Found c files id entries reason (some d) =
      (custom : List (RoutingDecision F)) × (custom_decisions c.checks entries ≡ ok custom)
      × (conflicting id custom (filter (is_own id) custom) ≡ false)
      × (is_fresh reason ≡ false)
      × IsResumable c files id (filter (is_own id) custom) entries d

  resume_stored-some :
      (c : Controller F) (id : String) (entries : List (Entry F)) (reason : StartReason)
      (own : List (RoutingDecision F)) (d : RoutingDecision F) {r : Option (RoutingDecision F)}
      → resume_stored c id entries reason own (some d) ≡ ok r
      → (is_fresh reason ≡ false) × (check_stored c id entries own d ≡ ok r)
  unfolding resume_stored
  resume_stored-some c id entries reason own d h = elim (Bool-cases (is_fresh reason)) [
    | inl f ↦ let h1 = rw (resume_stored, f) at h in cc
    | inr f ↦ (f, rw (resume_stored, f) at h)
  ]

  resume_stored-none :
      (c : Controller F) (id : String) (entries : List (Entry F)) (reason : StartReason)
      (own : List (RoutingDecision F)) {r : Option (RoutingDecision F)}
      → resume_stored c id entries reason own none ≡ ok r
      → r ≡ none
  unfolding resume_stored
  resume_stored-none c id entries reason own h = ground arith

  resumable :
      (c : Controller F) (files : String → Option (Document F)) (id : String)
      (entries : List (Entry F)) (own : List (RoutingDecision F)) (d : RoutingDecision F)
      {r : Option (RoutingDecision F)}
      → read c.checks files id ≡ ok (some d)
      → check_stored c id entries own d ≡ ok r
      → (r ≡ some d) × IsResumable c files id own entries d
  resumable c files id entries own d k h =
      let (same, project, session, profile, print, mode, entered, agrees) =
        check_stored-ok c id entries own d h in
      let (file, valid, named) = read-document c.checks files id k in
      (
        same,
        record {
          persisted = file;
          valid = valid;
          same_session = (eq_iff _ _).0 session;
          same_project = (eq_iff _ _).0 project;
          same_profile = (eq_iff _ _).0 profile;
          same_fingerprint = (eq_iff _ _).0 print;
          mode = same_mode-eq _ _ mode;
          entered = entered;
          agrees = agrees;
        },
      )

  pub load-Found :
      (c : Controller F) (files : String → Option (Document F)) (id : String)
      (entries : List (Entry F)) (reason : StartReason) (r : Option (RoutingDecision F))
      → load c files id entries reason ≡ ok r
      → Found c files id entries reason r
  load-Found c files id entries reason r h =
      let (custom, stored, p, q, k, v) = load_cases c files id entries reason h in
      let P = Found c files id entries reason in
      elim (Option-cases stored) [
        | inl n ↦
            subst P
              (sym (
                resume_stored-none c id entries reason _ (
                  subst
                    (λ x. resume_stored c id entries reason (filter (is_own id) custom) x ≡ ok r) n
                    v)))
              (read-none c.checks files id (k ∙ ap ok n))
        | inr (d, e) ↦
            let (fresh, checked) =
              resume_stored-some c id entries reason (filter (is_own id) custom) d (
                subst (λ x. resume_stored c id entries reason (filter (is_own id) custom) x ≡ ok r)
                  e v) in
            let (same, good) =
              resumable c files id entries (filter (is_own id) custom) d (k ∙ ap ok e) checked in
            subst P (sym same) (custom, p, q, fresh, good)
      ]
