-- ===== src/Experiment.antt =====
-- src/evaluation/smoke.ts: the manifest of an experiment.
pub mod Shuffle
pub mod Schedule
pub mod Budget
pub mod Dispatch
pub mod Exit
pub mod Samples
mod Examples
use downshift.Base.{ℕ, String, Option, List, [], ◌∷◌}
use downshift.Config.{LabConfig}
use downshift.Runs.{EvidenceKind}
use downshift.Decision.{ConfigFingerprint, SessionMode, weak_only, strong_only, routed}

-- `EVALUATION_MODES`
abbrev pub evaluation_modes : List SessionMode
evaluation_modes = weak_only ∷ strong_only ∷ routed ∷ []

-- An element of `schedule`.
pub record Trial : Type 0 where
  pub order : ℕ
  pub trial_id : String
  pub attempt_id : String
  pub attempt_ids : List String
  pub task_id : String
  pub repetition : ℕ
  pub mode : SessionMode
  pub seed : ℕ

-- An element of `tasks`.
pub record ManifestTask : Type 0 where
  pub id : String
  pub task_hash : String
  pub source_hash : String
  pub validator_hash : String
  pub public_prompt : String

-- `SmokeManifest`, without the versions, the images and the benchmark that it freezes.
pub record Manifest (F : Type 0) : Type 0 where
  pub experiment_id : String
  pub evidence_kind : EvidenceKind
  pub auth_profile : String
  pub fingerprints : ConfigFingerprint
  pub seed : ℕ
  pub repetitions : ℕ
  pub max_cost_usd : Option F
  pub configuration : LabConfig F
  pub tasks : List ManifestTask
  pub schedule : List Trial
