-- ===== src/Memory/Model.antt =====
-- Governed memory: claims, assessments and their journal (domain/memory.py, the claim and assessment
-- types of domain/research.py, and their tables in persistence/models.py). A confidence and a
-- strength are floats of [0, 1], by their positions among them: the model copies and compares them.
use gnomon.Prelude.{ℕ, Bool, Option, List, Text, ℕ_discrete, Text-discrete}
use gnomon.Audit.Events.{ResearchEvent}
use gnomon.Research.Model.{TaskStatus}
use gnomon.Security.Store.{SecurityStateRecord}

pub data ClaimStatus : Type 0 where
  unverified supported contested contradicted obsolete retracted : ClaimStatus

pub data HypothesisAssessmentStatus : Type 0 where
  supported weakened mixed unresolved : HypothesisAssessmentStatus

pub data SupportType : Type 0 where
  supporting contradicting context inferred : SupportType

pub record ClaimSourceLink : Type 0 where
  pub source_id : ℕ
  pub support_type : SupportType
  pub strength : ℕ

pub record ClaimCreate : Type 0 where
  pub statement : Text
  pub confidence : ℕ
  pub status : ClaimStatus
  pub source_links : List ClaimSourceLink

pub record AssessmentEvidenceLink : Type 0 where
  pub claim_id : ℕ
  pub relation : SupportType
  pub strength : ℕ

pub record HypothesisAssessmentCreate : Type 0 where
  pub status : HypothesisAssessmentStatus
  pub summary : Text
  pub confidence : ℕ
  pub evidence_links : List AssessmentEvidenceLink

pub data MemoryOperation : Type 0 where
  create update archive logical_delete restore : MemoryOperation

pub data MemoryTarget : Type 0 where
  claim assessment : MemoryTarget

pub record MemoryChangeProposal : Type 0 where
  pub change_id : ℕ
  pub target_type : MemoryTarget
  pub target_id : ℕ
  pub operation : MemoryOperation
  pub expected_version : ℕ
  pub reason : Text
  pub claim : Option ClaimCreate
  pub assessment : Option HypothesisAssessmentCreate
  pub hypothesis_id : Option ℕ

pub record MemoryReversal : Type 0 where
  pub change_id : ℕ
  pub reason : Text

pub data MemoryActor : Type 0 where
  local_operator claim_extractor model : MemoryActor

pub record MemoryAuthority : Type 0 where
  pub actor : MemoryActor
  pub task_id : ℕ
  pub can_commit : Bool

pub data MemoryLifecycle : Type 0 where
  active archived logically_deleted : MemoryLifecycle

-- The `data` of a state; an assessment's state also names its hypothesis.
pub data Content : Type 0 where
  claim_data : ClaimCreate → Content
  assessment_data : HypothesisAssessmentCreate → (hypothesis_id : ℕ) → Content

pub record MemoryState : Type 0 where
  pub content : Content
  pub lifecycle : MemoryLifecycle

-- The stored request of a change.
pub data MemoryRequest : Type 0 where
  proposed : MemoryChangeProposal → MemoryRequest
  reversed : MemoryReversal → MemoryRequest

-- An operation of the journal; `none` is `REVERSE`.
pub record MemoryChange : Type 0 where
  pub change_id : ℕ
  pub task_id : ℕ
  pub target_type : MemoryTarget
  pub target_id : ℕ
  pub operation : Option MemoryOperation
  pub actor : MemoryActor
  pub timestamp : ℕ
  pub previous_version : ℕ
  pub version : ℕ
  pub previous_state : Option MemoryState
  pub proposed_state : MemoryState
  pub resulting_state : MemoryState
  pub reason : Text
  pub provenance : List ℕ
  pub request : MemoryRequest
  pub reverses_change_id : Option ℕ

pub record ResearchClaim : Type 0 where
  pub version : ℕ
  pub lifecycle : MemoryLifecycle
  pub id : ℕ
  pub task_id : ℕ
  pub statement : Text
  pub confidence : ℕ
  pub status : ClaimStatus
  pub created_at : ℕ
  pub updated_at : ℕ

pub record ClaimSource : Type 0 where
  pub claim_id : ℕ
  pub source_id : ℕ
  pub support_type : SupportType
  pub strength : ℕ

pub record HypothesisAssessment : Type 0 where
  pub version : ℕ
  pub lifecycle : MemoryLifecycle
  pub id : ℕ
  pub task_id : ℕ
  pub hypothesis_id : ℕ
  pub status : HypothesisAssessmentStatus
  pub summary : Text
  pub confidence : ℕ
  pub updated_at : ℕ

pub record AssessmentEvidence : Type 0 where
  pub assessment_id : ℕ
  pub claim_id : ℕ
  pub relation : SupportType
  pub strength : ℕ

pub data KnowledgeRecord : Type 0 where
  claim_record : ResearchClaim → KnowledgeRecord
  assessment_record : HypothesisAssessment → KnowledgeRecord

-- Of an investigation, its cycles and its sources, what this service reads.
pub record MemoryTask : Type 0 where
  pub id : ℕ
  pub status : TaskStatus
  pub hypotheses : List ℕ

pub record MemoryCycle : Type 0 where
  pub task_id : ℕ
  pub claim_ids : List ℕ

pub record ResearchSource : Type 0 where
  pub id : ℕ
  pub task_id : ℕ

pub record MemoryDb : Type 0 where
  pub security : Option SecurityStateRecord
  pub tasks : List MemoryTask
  pub cycles : List MemoryCycle
  pub sources : List ResearchSource
  pub claims : List ResearchClaim
  pub claim_sources : List ClaimSource
  pub assessments : List HypothesisAssessment
  pub evidence : List AssessmentEvidence
  -- The newest change first.
  pub changes : List MemoryChange
  pub events : List ResearchEvent

-- The exceptions, by their messages.
pub data MemoryError : Type 0 where
  task_not_found capability_denied commit_denied operator_only : MemoryError
  foreign_target target_presence stale_version inactive_record data_missing : MemoryError
  target_missing lifecycle_invalid only_unverified_claims task_not_active : MemoryError
  foreign_sources provenance_removed dependent_research : MemoryError
  foreign_hypothesis assessment_exists foreign_claims : MemoryError
  change_id_reused change_not_found reversal_of_reversal reversal_id_used : MemoryError
  window_expired newer_state state_differs invalid_record : MemoryError
  malformed_state invalid_chain mismatched_state version_missing : MemoryError

unfoldable pub MemoryState-discrete : Discrete MemoryState
MemoryState-discrete = hlevel (ℕ_discrete, Text-discrete)

unfoldable pub MemoryRequest-discrete : Discrete MemoryRequest
MemoryRequest-discrete = hlevel (ℕ_discrete, Text-discrete)

unfoldable pub MemoryActor-discrete : Discrete MemoryActor
MemoryActor-discrete = hlevel ℕ_discrete
