-- ===== src/Memory/Records.antt =====
-- The tables as `MemoryService` reads them: `_authorize`, `_task`, `_record` and `state`, with the
-- validation of the types that a state is made of.
use gnomon.Prelude.{
  ℕ, Bool, true, false, not, ◌&&◌, ◌||◌, Option, none, some, List, map, Result, ok, err, leb, ◌==◌,
  if◌then◌else◌, is_none, find, keep, length, is_blank, sort_by,
}
use gnomon.Audit.Events.{EventPayload, operation_only, security_event, record_failure}
use gnomon.Memory.Model.{
  ClaimSourceLink, ClaimCreate, AssessmentEvidenceLink, HypothesisAssessmentCreate, MemoryOperation,
  create, update, MemoryTarget, claim, assessment, MemoryChangeProposal, MemoryActor,
  local_operator, claim_extractor, model, MemoryAuthority, MemoryState, MemoryChange, claim_data,
  assessment_data, ResearchClaim, ClaimSource, HypothesisAssessment, AssessmentEvidence,
  KnowledgeRecord, claim_record, assessment_record, MemoryTask, MemoryDb, MemoryError,
  commit_denied, invalid_record,
}
use Prim.Native.String.{String}

-- `Field(min_length=..., max_length=...)`
abbrev pub within : ℕ → ℕ → ℕ → Bool
within low high n = leb low n && leb n high

-- The constraints of `ClaimCreate` and `HypothesisAssessmentCreate`.
unfoldable pub is_valid_claim : ClaimCreate → Bool
is_valid_claim c = within 1 5000 (length c.statement) && within 1 50 (length c.source_links)

unfoldable pub is_valid_assessment : HypothesisAssessmentCreate → Bool
is_valid_assessment a = within 1 5000 (length a.summary) && within 1 100 (length a.evidence_links)

abbrev pub writes : MemoryOperation → Bool
writes create = true
writes update = true
writes _ = false

abbrev pub is_create : MemoryOperation → Bool
is_create create = true
is_create _ = false

-- `a == b` and `a != b` on tests.
abbrev pub agree : Bool → Bool → Bool
agree true b = b
agree false b = not b

abbrev pub valid_if_given {ℓ} : {A : Type ℓ} → (A → Bool) → Option A → Bool
valid_if_given p none = true
valid_if_given p (some a) = p a

-- The validator `shape` and the fields' constraints of a proposal.
unfoldable pub shape : MemoryChangeProposal → Bool
unfolding is_valid_claim is_valid_assessment
shape q =
    within 1 1000 (length q.reason)
    && (not (is_blank q.reason)
        && (valid_if_given is_valid_claim q.claim
            && (valid_if_given is_valid_assessment q.assessment
                && (agree (is_create q.operation) (q.expected_version == 0) && elim q.target_type [
                  | claim ↦
                      is_none q.assessment
                      && (is_none q.hypothesis_id
                          && agree (writes q.operation) (not (is_none q.claim)))
                  | assessment ↦
                      is_none q.claim
                      && (agree (writes q.operation) (not (is_none q.assessment))
                          && agree (is_create q.operation) (not (is_none q.hypothesis_id)))
                ]))))

-- What a call takes from its environment: the clock, a fresh identifier, and the SHA-256 of a
-- state's JSON text.
pub record MemoryContext : Type 0 where
  pub now : ℕ
  pub new_id : ℕ
  pub digest : MemoryState → ℕ

abbrev pub actor_value : MemoryActor → String
actor_value local_operator = "local_operator"
actor_value claim_extractor = "claim_extractor"
actor_value model = "model"

abbrev pub is_model : MemoryActor → Bool
is_model model = true
is_model _ = false

-- What a call returns, beside the database that it leaves.
abbrev pub Answer : Type 0
Answer = Result MemoryError MemoryChange × MemoryDb

unfoldable pub get_task : ℕ → List MemoryTask → Option MemoryTask
get_task id = find (λ t. t.id == id)

abbrev pub denied_payload : MemoryContext → MemoryAuthority → EventPayload
denied_payload cx authority = record (operation_only cx.new_id) {
  actor = some (actor_value authority.actor);
  result = some "rejected";
  change_reason = some "unauthorized_memory_mutation";
}

-- `_authorize`, and the end of the transaction: a body that raises is rolled back.
unfoldable pub authorized :
    MemoryContext
    → MemoryAuthority
    → MemoryDb
    → Result MemoryError (MemoryChange × MemoryDb)
    → Answer
authorized cx authority db body =
    if not authority.can_commit || is_model authority.actor
    then (
      err commit_denied,
      record db {
        events =
            record_failure cx.now authority.task_id
              (not (is_none (get_task authority.task_id db.tasks))) security_event
              (denied_payload cx authority) db.events;
      },
    )
    else elim body [ ok (change, after) ↦ (ok change, after) | err e ↦ (err e, db) ]

-- `session.get` by the primary key.
unfoldable pub get_claim : ℕ → List ResearchClaim → Option ResearchClaim
get_claim id = find (λ c. c.id == id)

unfoldable pub get_assessment : ℕ → List HypothesisAssessment → Option HypothesisAssessment
get_assessment id = find (λ a. a.id == id)

unfoldable pub get_record : MemoryTarget → ℕ → MemoryDb → Option KnowledgeRecord
get_record claim id db = elim (get_claim id db.claims) [
  | none ↦ none
  | some c ↦ some (claim_record c)
]
get_record assessment id db = elim (get_assessment id db.assessments) [
  | none ↦ none
  | some a ↦ some (assessment_record a)
]

abbrev pub task_of : KnowledgeRecord → ℕ
task_of (claim_record c) = c.task_id
task_of (assessment_record a) = a.task_id

abbrev pub version_of : KnowledgeRecord → ℕ
version_of (claim_record c) = c.version
version_of (assessment_record a) = a.version

-- `ClaimSourceLink.model_validate(link, from_attributes=True)`
abbrev pub source_link : ClaimSource → ClaimSourceLink
source_link row = record {
  source_id = row.source_id;
  support_type = row.support_type;
  strength = row.strength;
}

abbrev pub evidence_link : AssessmentEvidence → AssessmentEvidenceLink
evidence_link row = record {
  claim_id = row.claim_id;
  relation = row.relation;
  strength = row.strength;
}

unfoldable pub source_links_of : ℕ → List ClaimSource → List ClaimSourceLink
source_links_of id rows =
    map source_link (sort_by (λ row. row.source_id) (keep (λ row. row.claim_id == id) rows))

unfoldable pub evidence_links_of : ℕ → List AssessmentEvidence → List AssessmentEvidenceLink
evidence_links_of id rows =
    map evidence_link (sort_by (λ row. row.claim_id) (keep (λ row. row.assessment_id == id) rows))

-- The record with its links, before it is validated.
unfoldable pub stored_state : KnowledgeRecord → MemoryDb → MemoryState
stored_state (claim_record c) db = record {
  content = claim_data (record {
    statement = c.statement;
    confidence = c.confidence;
    status = c.status;
    source_links = source_links_of c.id db.claim_sources;
  });
  lifecycle = c.lifecycle;
}
stored_state (assessment_record a) db = record {
  content =
      assessment_data
        (record {
          status = a.status;
          summary = a.summary;
          confidence = a.confidence;
          evidence_links = evidence_links_of a.id db.evidence;
        })
        a.hypothesis_id;
  lifecycle = a.lifecycle;
}

-- The validation of a state's data.
unfoldable pub is_valid_content : MemoryState → Bool
is_valid_content s = elim s.content [
  | claim_data c ↦ is_valid_claim c
  | assessment_data a _ ↦ is_valid_assessment a
]

-- `state`
unfoldable pub state : KnowledgeRecord → MemoryDb → Result MemoryError MemoryState
state r db = let s = stored_state r db in if is_valid_content s then ok s else err invalid_record
