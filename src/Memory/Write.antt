-- ===== src/Memory/Write.antt =====
-- `_write`: the record, its links, the change of the journal and the event.
use Prim.Native.String.{String}
use gnomon.Prelude.{
  ℕ, ◌+◌, Bool, true, false, Option, none, some, List, [], ◌∷◌, map, if◌then◌else◌, is_none, Text,
}
use gnomon.Audit.Events.{
  EventPayload, operation_only, memory_changed, memory_reversed, stage, ResearchEvent,
}
use gnomon.Memory.Model.{
  unverified, ClaimSourceLink, ClaimCreate, AssessmentEvidenceLink, unresolved,
  HypothesisAssessmentCreate, MemoryOperation, create, update, archive, logical_delete, restore,
  MemoryTarget, claim, assessment, MemoryActor, claim_extractor, MemoryAuthority, active,
  MemoryState, MemoryRequest, MemoryChange, claim_data, assessment_data, ResearchClaim, ClaimSource,
  HypothesisAssessment, AssessmentEvidence, KnowledgeRecord, claim_record, assessment_record,
  MemoryDb,
}
use gnomon.Memory.Records.{MemoryContext, actor_value, version_of}
use gnomon.Memory.Tables.{put_by, replace_owned}

-- The arguments that the callers of `_write` choose.
pub record Writing : Type 0 where
  pub authority : MemoryAuthority
  pub change_id : ℕ
  pub kind : MemoryTarget
  pub target_id : ℕ
  -- `none` is `REVERSE`.
  pub operation : Option MemoryOperation
  pub reason : Text
  pub target : Option KnowledgeRecord
  pub before : Option MemoryState
  pub after : MemoryState
  pub provenance : List ℕ
  pub request : MemoryRequest
  pub reverses : Option ℕ

abbrev pub previous_version_of : Option KnowledgeRecord → ℕ
previous_version_of none = 0
previous_version_of (some r) = version_of r

-- `ResearchClaimRecord(id=..., task_id=..., created_at=...)`; the other columns are assigned below.
abbrev pub new_claim : MemoryContext → Writing → ResearchClaim
new_claim cx w = record {
  version = 0;
  lifecycle = active;
  id = w.target_id;
  task_id = w.authority.task_id;
  statement = [];
  confidence = 0;
  status = unverified;
  created_at = cx.now;
  updated_at = cx.now;
}

abbrev pub new_assessment : MemoryContext → Writing → (hypothesis_id : ℕ) → HypothesisAssessment
new_assessment cx w hypothesis_id = record {
  version = 0;
  lifecycle = active;
  id = w.target_id;
  task_id = w.authority.task_id;
  hypothesis_id = hypothesis_id;
  status = unresolved;
  summary = [];
  confidence = 0;
  updated_at = cx.now;
}

-- The record that is there, or a new one.
abbrev pub claim_base : MemoryContext → Writing → ResearchClaim
claim_base cx w = elim w.target [
  | some r ↦ elim r [ claim_record c ↦ c | assessment_record _ ↦ new_claim cx w ]
  | none ↦ new_claim cx w
]

abbrev pub assessment_base : MemoryContext → Writing → (hypothesis_id : ℕ) → HypothesisAssessment
assessment_base cx w h = elim w.target [
  | some r ↦ elim r [ assessment_record a ↦ a | claim_record _ ↦ new_assessment cx w h ]
  | none ↦ new_assessment cx w h
]

unfoldable pub claim_row : MemoryContext → Writing → ClaimCreate → ResearchClaim
claim_row cx w c = record (claim_base cx w) {
  statement = c.statement;
  confidence = c.confidence;
  status = c.status;
  version = previous_version_of w.target + 1;
  lifecycle = w.after.lifecycle;
  updated_at = cx.now;
}

unfoldable pub assessment_row :
    MemoryContext
    → Writing
    → HypothesisAssessmentCreate
    → (hypothesis_id : ℕ) → HypothesisAssessment
assessment_row cx w a h = record (assessment_base cx w h) {
  summary = a.summary;
  confidence = a.confidence;
  status = a.status;
  version = previous_version_of w.target + 1;
  lifecycle = w.after.lifecycle;
  updated_at = cx.now;
}

abbrev pub claim_source : ℕ → ClaimSourceLink → ClaimSource
claim_source id link = record {
  claim_id = id;
  source_id = link.source_id;
  support_type = link.support_type;
  strength = link.strength;
}

abbrev pub assessment_evidence : ℕ → AssessmentEvidenceLink → AssessmentEvidence
assessment_evidence id link = record {
  assessment_id = id;
  claim_id = link.claim_id;
  relation = link.relation;
  strength = link.strength;
}

-- The record and its links. The kind of the target is that of the validated state.
unfoldable pub write_rows : MemoryContext → Writing → MemoryDb → MemoryDb
write_rows cx w db = elim w.after.content [
  | claim_data c ↦ record db {
    claims = put_by (λ r. r.id) (claim_row cx w c) db.claims;
    claim_sources =
        replace_owned (λ r. r.claim_id) w.target_id (map (claim_source w.target_id) c.source_links)
          db.claim_sources;
  }
  | assessment_data a h ↦ record db {
    assessments = put_by (λ r. r.id) (assessment_row cx w a h) db.assessments;
    evidence =
        replace_owned (λ r. r.assessment_id) w.target_id
          (map (assessment_evidence w.target_id) a.evidence_links) db.evidence;
  }
]

unfoldable pub change_row : MemoryContext → Writing → MemoryChange
change_row cx w = record {
  change_id = w.change_id;
  task_id = w.authority.task_id;
  target_type = w.kind;
  target_id = w.target_id;
  operation = w.operation;
  actor = w.authority.actor;
  timestamp = cx.now;
  previous_version = previous_version_of w.target;
  version = previous_version_of w.target + 1;
  previous_state = w.before;
  proposed_state = w.after;
  resulting_state = w.after;
  reason = w.reason;
  provenance = w.provenance;
  request = w.request;
  reverses_change_id = w.reverses;
}

abbrev pub operation_value : Option MemoryOperation → String
operation_value none = "REVERSE"
operation_value (some create) = "CREATE"
operation_value (some update) = "UPDATE"
operation_value (some archive) = "ARCHIVE"
operation_value (some logical_delete) = "LOGICAL_DELETE"
operation_value (some restore) = "RESTORE"

abbrev pub kind_value : MemoryTarget → String
kind_value claim = "claim"
kind_value assessment = "assessment"

-- `_digest`
abbrev pub digest_of : MemoryContext → Option MemoryState → Option ℕ
digest_of cx none = none
digest_of cx (some s) = some (cx.digest s)

abbrev pub change_payload : MemoryContext → Writing → EventPayload
change_payload cx w = record (operation_only w.change_id) {
  change_id = some w.change_id;
  target_id = some w.target_id;
  target_type = some (kind_value w.kind);
  actor = some (actor_value w.authority.actor);
  memory_operation = some (operation_value w.operation);
  previous_version = some (previous_version_of w.target);
  version = some (previous_version_of w.target + 1);
  previous_state_digest = digest_of cx w.before;
  new_state_digest = digest_of cx (some w.after);
  provenance = some w.provenance;
  change_reason =
      some (if is_none w.reverses then "operator_memory_change" else "operator_memory_reversal");
  result = some "committed";
}

abbrev pub is_extractor : MemoryActor → Bool
is_extractor claim_extractor = true
is_extractor _ = false

-- A claim that was extracted has its own event, which the extraction stages.
unfoldable pub write_events : MemoryContext → Writing → List ResearchEvent → List ResearchEvent
write_events cx w events =
    if is_extractor w.authority.actor
    then events
    else stage cx.now w.authority.task_id
        (if is_none w.reverses then memory_changed else memory_reversed) (change_payload cx w)
        events

-- `_write`
unfoldable pub write : MemoryContext → Writing → MemoryDb → MemoryChange × MemoryDb
write cx w db =
    let written = write_rows cx w db in
    (
      change_row cx w,
      record written {
        changes = change_row cx w ∷ written.changes;
        events = write_events cx w written.events;
      },
    )
