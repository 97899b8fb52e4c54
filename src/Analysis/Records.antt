-- ===== src/Analysis/Records.antt =====
-- `loadExperimentRecords` of src/evaluation/analysis.ts: the trials of an experiment as its attempts'
-- directories show them.
pub mod Done
use downshift.Base.{
  ℕ, suc, ◌+◌, String, Bool, true, false, not, ◌&&◌, ◌||◌, Option, none, some, List, [], ◌∷◌, ◌++◌,
  Result, ok, err, ◌>>=◌, ◌>>◌, throw_if, or_throw, rethrow, if◌then◌else◌, find, str_eq,
}
use downshift.Decision.{
  SessionMode, routed, DecisionSource, classifier, classifier_fallback, RoutingDecision,
}
use downshift.Runs.{EvidenceKind, mock, live, replay, RunResult}
use downshift.Runs.Outcome.{TrialOutcome, incomplete, classify_trial_outcome}
use downshift.Runs.Store.{Codec}
use downshift.Runs.Store.Reading.{ReadError, read_attempt}
use downshift.Experiment.{Trial, ManifestTask, Manifest}
use downshift.Experiment.Dispatch.{AttemptDirectory, identity_matches, is_evaluated}
use downshift.Analysis.{ResolvedTrial}

pub data RecordsError : Type 0 where
  unreadable : ReadError → RecordsError
  identity_mismatch mixed_evidence invalid_source fingerprint_mismatch : String → RecordsError
  task_absent provenance_mismatch : String → RecordsError

abbrev pub same_evidence : EvidenceKind → EvidenceKind → Bool
same_evidence mock mock = true
same_evidence live live = true
same_evidence replay replay = true
same_evidence _ _ = false

abbrev is_text : Option String → String → Bool
is_text none s = false
is_text (some t) s = str_eq t s

abbrev classified : DecisionSource → Bool
classified classifier = true
classified classifier_fallback = true
classified _ = false

abbrev is_routed : SessionMode → Bool
is_routed routed = true
is_routed _ = false

module _ {F : Type 0} where
  abbrev source_ok : Option (RoutingDecision F) → Bool
  source_ok none = true
  source_ok (some d) = classified d.source

  -- The configuration that the attempt ran with is the experiment's.
  cohort_matches : Manifest F → RunResult F → Bool
  cohort_matches m r =
      str_eq r.provenance.config_hash m.fingerprints.config_hash
      && (str_eq r.provenance.capability_card_hash m.fingerprints.capability_card_hash
          && (str_eq r.provenance.model_metadata_hash m.fingerprints.model_metadata_hash
              && (str_eq r.provenance.provider_config_hash m.fingerprints.provider_config_hash
                  && str_eq r.provenance.auth_profile m.auth_profile)))

  task_matches : ManifestTask → RunResult F → Bool
  task_matches task r =
      is_text r.provenance.task_hash task.task_hash
      && (is_text r.provenance.source_hash task.source_hash
          && is_text r.provenance.validator_hash task.validator_hash)

  -- The checks on a finalized attempt.
  check_record : Manifest F → Trial → String → RunResult F → Result RecordsError (Unit {0})
  unfolding cohort_matches task_matches
  check_record m t id r = do
    throw_if (not (identity_matches m (record t { attempt_id = id }) r)) (identity_mismatch id)
    throw_if (not (same_evidence r.evidence_kind m.evidence_kind)) (mixed_evidence id)
    throw_if (is_routed t.mode && not (source_ok r.decision)) (invalid_source id)
    throw_if (not (cohort_matches m r)) (fingerprint_mismatch id)
    task ← or_throw (find (λ k. str_eq k.id t.task_id) m.tasks) (task_absent t.task_id)
    throw_if (not (task_matches task r)) (provenance_mismatch id)

-- The variables of the loop over a trial's attempts.
pub record Loaded (F : Type 0) : Type 0 where
  pub physical_attempts : List (RunResult F)
  pub incomplete_physical_attempts : ℕ
  pub selected : Option (RunResult F)

module _ {F P : Type 0} (codec : Codec F P)
    (attempts : String → Option (AttemptDirectory F P)) where
  abbrev result_of_directory : AttemptDirectory F P → Result RecordsError (Option (RunResult F))
  result_of_directory dir =
      rethrow unreadable (read_attempt codec dir.disk dir.torn) >>= λ a. ok a.result

  abbrev one_more_incomplete : Loaded F → Loaded F
  one_more_incomplete s = record s {
    incomplete_physical_attempts = suc s.incomplete_physical_attempts;
  }

  abbrev selecting : Loaded F → RunResult F → Loaded F
  selecting s r = record s { physical_attempts = s.physical_attempts ++ r ∷ []; selected = some r }

  -- A trial's attempts, up to the first that has no directory or has a verdict.
  load_attempts : Manifest F → Trial → List String → Loaded F → Result RecordsError (Loaded F)
  unfolding check_record
  load_attempts m t [] s = ok s
  load_attempts m t (id ∷ ids) s = elim (attempts id) [
    | none ↦ ok s
    | some dir ↦ result_of_directory dir >>= λ found. elim found [
      | none ↦ load_attempts m t ids (one_more_incomplete s)
      | some r ↦ check_record m t id r >>= λ _.
          let rest = load_attempts m t ids (selecting s r) in
          if is_evaluated (classify_trial_outcome r) then ok (selecting s r) else rest
    ]
  ]

  abbrev outcome_of : Option (RunResult F) → TrialOutcome
  outcome_of none = incomplete
  outcome_of (some r) = classify_trial_outcome r

  abbrev resolved : Trial → Loaded F → ResolvedTrial F
  resolved t s = record {
    trial_id = t.trial_id;
    task_id = t.task_id;
    repetition = t.repetition;
    mode = t.mode;
    outcome = outcome_of s.selected;
    result = s.selected;
    physical_attempts = s.physical_attempts;
    incomplete_physical_attempts = s.incomplete_physical_attempts;
  }

  abbrev nothing_loaded : Loaded F
  nothing_loaded = record {
    physical_attempts = [];
    incomplete_physical_attempts = 0;
    selected = none;
  }

  load_trials : Manifest F → List Trial → Result RecordsError (List (ResolvedTrial F))
  unfolding load_attempts
  load_trials m [] = ok []
  load_trials m (t ∷ ts) = do
    s ← load_attempts m t t.attempt_ids nothing_loaded
    rest ← load_trials m ts
    ok (resolved t s ∷ rest)

  unfoldable pub load_experiment_records : Manifest F → Result RecordsError (List (ResolvedTrial F))
  unfolding load_trials
  load_experiment_records m = load_trials m m.schedule
