-- ===== src/Routing/Durable.antt =====
-- `RoutingDecisionStore` and `SessionRoutingController.load` of src/pi/session-routing.ts: a decision is
-- read back from its file, and checked against the session it is for.
use downshift.Base.{
  String, Bool, true, false, not, ◌&&◌, ◌||◌, Option, none, some, List, [], ◌∷◌, Result, ok, err,
  ◌>>=◌, ◌>>◌, throw_if, if◌then◌else◌, str_eq, ltb, length, filter, any, ◌==◌,
}
use downshift.Decision.{SessionMode, weak_only, strong_only, routed, RoutingDecision}
use downshift.Routing.{
  RoutingError, invalid_decision, unsupported_id, corrupt, conflicting_entries, unexpected_decision,
  missing_decision, foreign_decision, other_profile, other_mode, missing_entry, durable_conflict,
  StartReason, new, fork, Document, malformed, document, Entry, decision_entry, message_entry,
  other_entry, Checks, Controller, has_coding_history,
}

abbrev pub same_mode : SessionMode → SessionMode → Bool
same_mode weak_only weak_only = true
same_mode strong_only strong_only = true
same_mode routed routed = true
same_mode _ _ = false

abbrev pub is_fresh : StartReason → Bool
is_fresh new = true
is_fresh fork = true
is_fresh _ = false

module _ {F : Type 0} where
  unfoldable pub validate_routing_decision :
      Checks F → Document F → Result RoutingError (RoutingDecision F)
  validate_routing_decision checks malformed = err invalid_decision
  validate_routing_decision checks (document d) =
      if checks.schema_ok d then ok d else err invalid_decision

  -- `pathFor`: the file of a session is known by its ID.
  abbrev path_for : Checks F → String → Result RoutingError String
  path_for checks id = if checks.id_ok id then ok id else err unsupported_id

  abbrev read_file :
      Checks F → Option (Document F) → Result RoutingError (Option (RoutingDecision F))
  read_file checks none = ok none
  read_file checks (some malformed) = err corrupt
  read_file checks (some (document d)) =
      validate_routing_decision checks (document d) >>= λ v. ok (some v)

  unfoldable pub read :
      Checks F
      → (String → Option (Document F))
      → String
      → Result RoutingError (Option (RoutingDecision F))
  read checks files id = path_for checks id >>= λ path. read_file checks (files path)

  -- A file that is put in place of another, by its rename.
  abbrev put : (String → Option (Document F)) → String → Document F → String → Option (Document F)
  put files id d other = if str_eq id other then some d else files other

  unfoldable pub write :
      Checks F
      → (String → Option (Document F))
      → RoutingDecision F
      → Result RoutingError (String → Option (Document F))
  write checks files d = do
    checked ← validate_routing_decision checks (document d)
    path ← path_for checks d.pi_session_id
    ok (put files path (document d))

  unfoldable pub custom_decisions :
      Checks F → List (Entry F) → Result RoutingError (List (RoutingDecision F))
  custom_decisions checks [] = ok []
  custom_decisions checks (decision_entry value ∷ entries) = do
    d ← validate_routing_decision checks value
    rest ← custom_decisions checks entries
    ok (d ∷ rest)
  custom_decisions checks (message_entry r ∷ entries) = custom_decisions checks entries
  custom_decisions checks (other_entry ∷ entries) = custom_decisions checks entries

  abbrev pub is_own : String → RoutingDecision F → Bool
  is_own id d = str_eq d.pi_session_id id

  abbrev has_other_id : List (RoutingDecision F) → RoutingDecision F → Bool
  has_other_id [] d = true
  has_other_id (own ∷ rest) d = not (str_eq d.decision_id own.decision_id)

  -- Whether the decisions of a session's entries conflict.
  unfoldable pub conflicting : String → List (RoutingDecision F) → List (RoutingDecision F) → Bool
  conflicting id custom own =
      ltb 1 (length own)
      || (length own == 1 && any (λ d. str_eq d.pi_session_id id && has_other_id own d) custom)

  abbrev pub first_conflicts : Checks F → List (RoutingDecision F) → RoutingDecision F → Bool
  first_conflicts checks [] stored = false
  first_conflicts checks (own ∷ rest) stored = not (checks.decision_equals own stored)

  abbrev pub is_empty : List (RoutingDecision F) → Bool
  is_empty [] = true
  is_empty (d ∷ ds) = false

  -- The checks of a decision that was read, for a session that is not fresh.
  unfoldable pub check_stored :
      Controller F
      → String
      → List (Entry F)
      → List (RoutingDecision F)
      → RoutingDecision F
      → Result RoutingError (Option (RoutingDecision F))
  check_stored c id entries own stored = do
    throw_if
        (not (str_eq stored.project_id c.options.project_id)
          || not (str_eq stored.pi_session_id id))
        foreign_decision
    throw_if
        (not (str_eq stored.auth_profile c.options.auth_profile)
          || not (str_eq stored.fingerprint.value c.fingerprint.value))
        other_profile
    throw_if (not (same_mode stored.mode c.options.mode)) other_mode
    throw_if (is_empty own && has_coding_history entries) missing_entry
    throw_if (first_conflicts c.checks own stored) durable_conflict
    ok (some stored)

  unfoldable pub resume_stored :
      Controller F
      → String
      → List (Entry F)
      → StartReason
      → List (RoutingDecision F)
      → Option (RoutingDecision F)
      → Result RoutingError (Option (RoutingDecision F))
  resume_stored c id entries reason own none =
      if is_fresh reason
      then ok none
      else throw_if (not (is_empty own) || has_coding_history entries) missing_decision >> ok none
  resume_stored c id entries reason own (some stored) =
      if is_fresh reason then err unexpected_decision else check_stored c id entries own stored

  unfoldable pub load :
      Controller F
      → (String → Option (Document F))
      → String
      → List (Entry F)
      → StartReason
      → Result RoutingError (Option (RoutingDecision F))
  load c files id entries reason = do
    custom ← custom_decisions c.checks entries
    throw_if (conflicting id custom (filter (is_own id) custom)) conflicting_entries
    stored ← read c.checks files id
    resume_stored c id entries reason (filter (is_own id) custom) stored
