-- ===== src/Stopping/Model.antt =====
-- Stopping decisions: the types of domain/research.py, the two tables of persistence/models.py, and
-- what the service reads of a snapshot. A fingerprint is its number.
use Prim.Native.String.{String}
use gnomon.Prelude.{ℕ, Bool, Option, List, Text, ℕ_discrete, Text-discrete}
use gnomon.Audit.Events.{ResearchEvent}
use gnomon.Memory.Model.{ClaimStatus, HypothesisAssessmentStatus, SupportType}
use gnomon.Research.Model.{TaskStatus, CycleStatus, ResearchTask, CycleAttempt}
use gnomon.Security.Store.{SecurityStateRecord}

pub data StoppingDecisionReason : Type 0 where
  evidence_sufficient resource_limited evidence_unavailable operator_stopped :
      StoppingDecisionReason

-- Python's integers.
pub data ℤ : Type 0 where
  pos : ℕ → ℤ
  negsuc : ℕ → ℤ

pub record StoppingDecisionCreate : Type 0 where
  pub reason : StoppingDecisionReason
  pub rationale : Text
  pub expected_status : TaskStatus
  pub expected_revision : ℕ
  pub expected_evidence_fingerprint : ℕ
  pub source_ids : List ℕ
  pub claim_ids : List ℕ
  pub objective_cycle_number : Option ℕ
  pub objective_indices : List ℤ
  pub review_ids : List ℕ
  pub limitations : List Text
  pub runtime_limit_evidence : List Text
  pub operation_id : ℕ

pub record StoppingDecision : Type 0 where
  pub decision_id : ℕ
  pub task_id : ℕ
  pub revision : ℕ
  pub operation_id : ℕ
  pub reason : StoppingDecisionReason
  pub rationale : Text
  pub source_ids : List ℕ
  pub claim_ids : List ℕ
  pub objective_cycle_number : Option ℕ
  pub objective_indices : List ℤ
  pub review_ids : List ℕ
  pub limitations : List Text
  pub evidence_fingerprint : ℕ
  pub runtime_limit_evidence : List Text
  pub actor_id : Text
  pub created_at : ℕ

-- The row, with the stored spelling of the reason.
pub record StoppingDecisionRecord : Type 0 where
  pub decision_id : ℕ
  pub task_id : ℕ
  pub revision : ℕ
  pub operation_id : ℕ
  pub reason : String
  pub rationale : Text
  pub source_ids : List ℕ
  pub claim_ids : List ℕ
  pub objective_cycle_number : Option ℕ
  pub objective_indices : List ℤ
  pub review_ids : List ℕ
  pub limitations : List Text
  pub evidence_fingerprint : ℕ
  pub runtime_limit_evidence : List Text
  pub actor_id : Text
  pub created_at : ℕ

-- The request without its operation identifier, its lists without repetitions.
pub record CanonicalRequest : Type 0 where
  pub reason : StoppingDecisionReason
  pub rationale : Text
  pub expected_status : TaskStatus
  pub expected_revision : ℕ
  pub expected_evidence_fingerprint : ℕ
  pub source_ids : List ℕ
  pub claim_ids : List ℕ
  pub objective_cycle_number : Option ℕ
  pub objective_indices : List ℤ
  pub review_ids : List ℕ
  pub limitations : List Text
  pub runtime_limit_evidence : List Text

pub record StoppingDecisionChange : Type 0 where
  pub change_id : ℕ
  pub decision_id : ℕ
  pub task_id : ℕ
  pub operation_id : ℕ
  pub previous_revision : ℕ
  pub revision : ℕ
  pub resulting_state : StoppingDecision
  pub command_request : Option CanonicalRequest
  pub actor_id : Text
  pub created_at : ℕ

-- What the service reads of a snapshot.
pub record SnapshotReview : Type 0 where
  pub id : ℕ
  pub objective_index : ℕ
  pub objective : Text

pub record SnapshotCycle : Type 0 where
  pub number : ℕ
  pub status : CycleStatus
  pub objectives : List Text
  pub unresolved_objectives : List Text
  pub objective_reviews : List SnapshotReview

pub record SnapshotHypothesis : Type 0 where
  pub label : Text
  pub assessment : Option HypothesisAssessmentStatus

pub record SnapshotClaim : Type 0 where
  pub id : ℕ
  pub status : ClaimStatus
  pub support_types : List SupportType

pub record SnapshotDependence : Type 0 where
  pub truncated : Bool
  pub invalid : Bool
  pub complete : Bool
  pub visited_source_ids : List ℕ

pub record InvestigationSnapshot : Type 0 where
  pub cycles : List SnapshotCycle
  pub hypotheses : List SnapshotHypothesis
  pub claims : List SnapshotClaim
  pub sources : List ℕ
  pub source_dependence : Option SnapshotDependence

pub data ItemCode : Type 0 where
  unresolved_objectives missing_assessment mixed_assessment unresolved_assessment : ItemCode
  contradictory_claims stale_reviews dependence_unknown no_evidence active_attempt : ItemCode

pub data ItemStatus : Type 0 where
  satisfied attention unknown : ItemStatus

-- The details of an item: the number or the labels that its text shows, and which of its texts it is.
pub data Detail : Type 0 where
  count_text : ItemCode → ℕ → Detail
  labels_text : ItemCode → List Text → Detail
  plain_text : ItemCode → Bool → Detail
  runtime_text : Bool → Detail

pub record StoppingReadinessItem : Type 0 where
  pub code : ItemCode
  pub status : ItemStatus
  pub detail : Detail
  pub source_ids : List ℕ
  pub claim_ids : List ℕ

pub record StoppingReadiness : Type 0 where
  pub task_id : ℕ
  pub task_status : TaskStatus
  pub task_revision : ℕ
  pub evidence_fingerprint : ℕ
  pub items : List StoppingReadinessItem
  pub current_decision : Option StoppingDecision

pub record StoppingDb : Type 0 where
  pub security : Option SecurityStateRecord
  pub tasks : List ResearchTask
  pub attempts : List CycleAttempt
  pub decisions : List StoppingDecisionRecord
  pub changes : List StoppingDecisionChange
  pub events : List ResearchEvent

-- `StoppingDecisionConflict` and `StoppingDecisionNotFound`, by their messages.
pub data StoppingDecisionError : Type 0 where
  task_not_found decision_not_found capability_denied : StoppingDecisionError
  status_changed revision_stale not_unfinished attempt_active : StoppingDecisionError
  decision_exists evidence_changed operation_reused invalid_record : StoppingDecisionError
  unknown_source unknown_claim unknown_objective unknown_review : StoppingDecisionError
  cycle_needed unknown_cycle objectives_needed : StoppingDecisionError

unfoldable pub CanonicalRequest-discrete : Discrete CanonicalRequest
CanonicalRequest-discrete = hlevel (ℕ_discrete, Text-discrete)
