-- ===== src/Runs/Store.antt =====
-- `AttemptArtifactStore` and `readAttempt` of src/artifacts/run-artifacts.ts.
-- The store's promise queue is the list of events that are not written yet; `flush` is the write of
-- its first one. A crash keeps the disk, with a torn last line if it struck during a write. Lines are
-- read back as the events that they were printed from.
pub mod Reading
pub mod Journal
pub mod Gap
pub mod Finalize
use downshift.Base.{
  ℕ, zero, suc, ◌+◌, String, Bool, true, false, not, ◌&&◌, ◌||◌, Option, none, some, List, [], ◌∷◌,
  ◌++◌, map, Result, ok, err, ◌>>=◌, ◌>>◌, throw_if, ltb, ◌==◌, if◌then◌else◌, is_none, is_some,
  length, any, all, str_eq, str_append, All,
}
use downshift.Decision.{SessionMode, RoutingDecision, ModelIdentity}
use downshift.Usage.{UsageSummaries}
use downshift.Runs.{
  AttemptIdentity, RunEventKind, routing, finalization, RunEvent, EvidenceKind, ExecutionStatus,
  CheckStatus, Observation, persisted, RunProvenance, RunResult, Costs,
}
use downshift.Runs.Outcome.{ResultError, Schemas, validate_run_result}

pub data StoreError : Type 0 where
  append_after_finalization patch_after_finalization already_finalized invalid_event : StoreError
  invalid_decision second_decision : StoreError
  invalid_result : ResultError → StoreError

pub record StartOptions : Type 0 where
  pub identity : AttemptIdentity
  pub evidence_kind : EvidenceKind
  pub mode : SessionMode
  pub provenance : RunProvenance
  pub started_at : String
  pub setup_duration_ms : ℕ

-- The attempt's directory.
pub record Disk (F P : Type 0) : Type 0 where
  pub events : List (RunEvent P)
  pub patch : String
  pub result : Option (RunResult F)

pub record Store (F P : Type 0) : Type 0 where
  pub options : StartOptions
  pub sequence : ℕ
  pub queue : List (RunEvent P)
  pub dedupe : List (String × ℕ)
  pub decision : Option (RoutingDecision F)
  pub finalized : Bool
  pub disk : Disk F P

-- The optional arguments of `appendEvent`; `decision_id` is absent, or a value that may be null.
pub record EventOptions : Type 0 where
  pub dedupe_key : Option String
  pub decision_id : Option (Option String)
  pub timestamp : String

-- What the store takes from outside the program: the schemas of events and decisions as Ajv tests
-- them, the redaction of payloads, and how the store's own two payloads are written.
pub record Codec (F P : Type 0) : Type 0 where
  pub event_ok : RunEvent P → Bool
  pub schemas : Schemas F
  pub redact : P → P
  pub decision_payload : Observation → RoutingDecision F → P
  pub final_payload : ExecutionStatus → CheckStatus → P

abbrev pub has_key : String → List (String × ℕ) → Bool
has_key k [] = false
has_key k ((j, n) ∷ m) = let rest = has_key k m in if str_eq j k then true else rest

abbrev decision_id_of : {F : Type 0} → Option (RoutingDecision F) → Option String
decision_id_of none = none
decision_id_of (some d) = some d.decision_id

abbrev or_default : {A : Type 0} → Option A → A → A
or_default none a = a
or_default (some b) a = b

-- An empty key is falsy, and taken for no key.
abbrev seen_before : Option String → List (String × ℕ) → Bool
seen_before none m = false
seen_before (some k) m = not (str_eq k "") && has_key k m

abbrev remember : Option String → ℕ → List (String × ℕ) → List (String × ℕ)
remember none n m = m
remember (some k) n m = if str_eq k "" then m else m ++ (k, n) ∷ []

module _ {F P : Type 0} where
  -- A `startAttempt`.
  unfoldable pub start_attempt : StartOptions → Store F P
  start_attempt options = record {
    options = options;
    sequence = 0;
    queue = [];
    dedupe = [];
    decision = none;
    finalized = false;
    disk = record { events = []; patch = ""; result = none };
  }

  -- `identity(decisionId)`
  abbrev identity_with : Store F P → Option String → AttemptIdentity
  identity_with s id = record (s.options.identity) { decision_id = id }

  -- The first pending write reaches the disk.
  flush_list : Store F P → List (RunEvent P) → Store F P
  flush_list s [] = s
  flush_list s (e ∷ es) = record s {
    queue = es;
    disk = record (s.disk) { events = s.disk.events ++ e ∷ [] };
  }

  pub flush : Store F P → Store F P
  unfolding flush_list
  flush s = flush_list s s.queue

  -- `await this.queue`
  unfoldable pub drain : Store F P → Store F P
  drain s = record s { queue = []; disk = record (s.disk) { events = s.disk.events ++ s.queue } }

  -- The sequence number and the key are taken before the event is checked.
  taken : Store F P → EventOptions → Store F P
  taken s o = record s {
    sequence = suc s.sequence;
    dedupe = remember o.dedupe_key (suc s.sequence) s.dedupe;
  }

  queued : Store F P → EventOptions → RunEvent P → Store F P
  unfolding taken
  queued s o event = record (taken s o) { queue = s.queue ++ event ∷ [] }

  module _ (codec : Codec F P) where
    make_event : Store F P → RunEventKind → P → EventOptions → RunEvent P
    make_event s kind payload o = record {
      sequence = suc s.sequence;
      timestamp = o.timestamp;
      identity = identity_with s (or_default o.decision_id (decision_id_of s.decision));
      kind = kind;
      payload = codec.redact payload;
    }

    unfoldable pub append_event :
        Store F P → RunEventKind → P → EventOptions → Store F P × Result StoreError (Unit {0})
    unfolding make_event taken queued
    append_event s kind payload o =
        let event = make_event s kind payload o in
        if s.finalized
        then (s, err append_after_finalization)
        else if seen_before o.dedupe_key s.dedupe
        then (s, ok tt)
        else if codec.event_ok event
        then (queued s o event, ok tt)
        else (taken s o, err invalid_event)

    abbrev conflicts : Option (RoutingDecision F) → RoutingDecision F → Bool
    conflicts none d = false
    conflicts (some c) d = not (str_eq c.decision_id d.decision_id)

    abbrev decision_options : RoutingDecision F → String → EventOptions
    decision_options d now = record {
      dedupe_key = some (str_append "decision:" d.decision_id);
      decision_id = some (some d.decision_id);
      timestamp = now;
    }

    pub record_decision :
        Store F P
        → RoutingDecision F
        → Observation
        → String
        → Store F P × Result StoreError (Unit {0})
    record_decision s d observation now =
        if not (codec.schemas.decision_ok d)
        then (s, err invalid_decision)
        else if conflicts s.decision d
        then (s, err second_decision)
        else append_event (record s { decision = some d }) routing
            (codec.decision_payload observation d) (decision_options d now)

    unfoldable pub write_patch : Store F P → String → Store F P × Result StoreError (Unit {0})
    write_patch s patch =
        if s.finalized
        then (s, err patch_after_finalization)
        else (record s { disk = record (s.disk) { patch = patch } }, ok tt)
