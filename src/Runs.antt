-- ===== src/Runs.antt =====
-- src/artifacts/run-artifacts.ts: run events, run results and the data that they hold.
pub mod Outcome
pub mod Store
pub mod Samples
mod Examples
use downshift.Base.{ℕ, String, Bool, Option, List}
use downshift.Config.{ByRole, ExecutionConfig}
use downshift.Usage.{UsageSummaries}
use downshift.Usage.Cost.{RoleCost}
use downshift.Decision.{SessionMode, RoutingDecision, ModelIdentity}

pub data EvidenceKind : Type 0 where
  mock live replay : EvidenceKind

pub data ExecutionStatus : Type 0 where
  completed timeout cancelled provider_error auth_required : ExecutionStatus
  rate_limited harness_error budget_exhausted : ExecutionStatus

pub data CheckStatus : Type 0 where
  pass fail error not_run : CheckStatus

pub data Observation : Type 0 where
  persisted resumed_selection : Observation

pub record AttemptIdentity : Type 0 where
  pub project_id : String
  pub pi_session_id : String
  pub run_id : String
  pub attempt_id : String
  pub decision_id : Option String
  pub experiment_id : Option String
  pub task_id : Option String
  pub repetition : Option ℕ

pub data RunEventKind : Type 0 where
  startup routing model_call tool auth lifecycle error finalization : RunEventKind

-- `P` is the type of payloads, which are JSON objects.
pub record RunEvent (P : Type 0) : Type 0 where
  pub sequence : ℕ
  pub timestamp : String
  pub identity : AttemptIdentity
  pub kind : RunEventKind
  pub payload : P

pub record ProvenanceModel : Type 0 where
  pub provider : String
  pub model : String
  pub metadata_hash : String

pub record RunProvenance : Type 0 where
  pub lab_revision : Option String
  pub lab_dirty : Option Bool
  pub pi_version : String
  pub switchyard_revision : String
  pub agent_image_id : Option String
  pub config_hash : String
  pub capability_card_hash : String
  pub model_metadata_hash : String
  pub provider_config_hash : String
  pub auth_profile : String
  pub mode : SessionMode
  pub limits : ExecutionConfig
  pub models : ByRole ProvenanceModel
  pub task_hash : Option String
  pub source_hash : Option String
  pub validator_hash : Option String
  pub previous_attempt_id : Option String

pub record ValidationCheckResult : Type 0 where
  pub name : String
  pub status : CheckStatus
  pub exit_code : Option ℕ
  pub duration_ms : ℕ
  pub stdout_artifact : Option String
  pub stderr_artifact : Option String
  pub reason : Option String

pub record Execution : Type 0 where
  pub status : ExecutionStatus
  pub started_at : String
  pub ended_at : Option String
  pub error_category : Option String

pub record Validation : Type 0 where
  pub status : CheckStatus
  pub checks : List ValidationCheckResult

pub record Durations : Type 0 where
  pub setup : ℕ
  pub routing : Option ℕ
  pub agent : Option ℕ
  pub validation : Option ℕ

pub record Costs (F : Type 0) : Type 0 where
  pub classifier : RoleCost F
  pub coding : RoleCost F
  pub total_estimated_cost_usd : Option F
  pub total_reference_cost_usd : Option F

pub record RunResult (F : Type 0) : Type 0 where
  pub identity : AttemptIdentity
  pub evidence_kind : EvidenceKind
  pub mode : SessionMode
  pub decision : Option (RoutingDecision F)
  pub decision_observation : Option Observation
  pub served_model : Option ModelIdentity
  pub execution : Execution
  pub validation : Validation
  pub durations_ms : Durations
  pub usage : UsageSummaries
  pub costs : Costs F
  pub provenance : RunProvenance
  pub missing_reasons : List String

pub record IndependentValidationResult : Type 0 where
  pub status : CheckStatus
  pub checks : List ValidationCheckResult
  pub duration_ms : Option ℕ
