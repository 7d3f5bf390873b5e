-- ===== src/Memory/Checks.antt =====
-- `_validate_state`: the sources, claims and hypothesis that a state may refer to, and the research
-- that depends on it. The query for the identifiers that exist is a filter of the table.
use gnomon.Prelude.{
  ℕ, Bool, true, false, not, ◌&&◌, ◌||◌, Option, none, some, List, [], ◌∷◌, map, Result, ok, err,
  ◌>>◌, raise_if, ◌==◌, any, all, keep, elem, subset, holds,
}
use gnomon.Memory.Model.{
  SupportType, supporting, contradicting, context, inferred, ClaimSourceLink, ClaimCreate,
  HypothesisAssessmentCreate, MemoryTarget, claim, assessment, MemoryLifecycle, active, MemoryState,
  MemoryState-discrete, claim_data, assessment_data, ResearchClaim, MemoryTask, MemoryDb,
  MemoryError, invalid_record, foreign_sources, provenance_removed, dependent_research,
  foreign_hypothesis, assessment_exists, foreign_claims,
}
use gnomon.Memory.Records.{is_valid_content}

-- `len(set(ids)) == len(ids)`
abbrev pub is_unique : List ℕ → Bool
is_unique [] = true
is_unique (x ∷ xs) = not (elem x xs) && is_unique xs

abbrev pub is_active : MemoryLifecycle → Bool
is_active active = true
is_active _ = false

abbrev pub support_position : SupportType → ℕ
support_position supporting = 0
support_position contradicting = 1
support_position context = 2
support_position inferred = 3

-- Equality of the pairs of a source and its support.
abbrev pub same_support : ClaimSourceLink → ClaimSourceLink → Bool
same_support a b =
    a.source_id == b.source_id && support_position a.support_type == support_position b.support_type

-- `state["data"]["source_links"]`
abbrev pub links_of : MemoryState → List ClaimSourceLink
links_of s = elim s.content [ claim_data c ↦ c.source_links | assessment_data _ _ ↦ [] ]

unfoldable pub keeps_provenance : MemoryState → MemoryState → Bool
keeps_provenance before after =
    all (λ old. any (λ new. same_support old new) (links_of after)) (links_of before)

-- The queries for an assessment's link and for a cycle that cite the claim.
unfoldable pub has_dependents : (task_id target_id : ℕ) → MemoryDb → Bool
has_dependents task_id target_id db =
    any (λ row. row.claim_id == target_id) db.evidence
    || any (λ c. c.task_id == task_id && elem target_id c.claim_ids) db.cycles

abbrev pub same_state : MemoryState → MemoryState → Bool
same_state a b = holds (MemoryState-discrete a b)

-- What the service checks of an update of a claim.
unfoldable pub check_update :
    (task_id target_id : ℕ)
    → Option MemoryState
    → MemoryState
    → (allow_provenance_removal : Bool) → MemoryDb
    → Result MemoryError (Unit {0})
check_update task_id target_id none after allowed db = ok tt
check_update task_id target_id (some before) after allowed db =
    raise_if (not allowed && not (keeps_provenance before after)) provenance_removed
    >> raise_if (not (same_state before after) && has_dependents task_id target_id db)
        dependent_research

unfoldable pub task_sources : (task_id : ℕ) → List ℕ → MemoryDb → List ℕ
task_sources task_id ids db =
    map (λ s. s.id) (keep (λ s. s.task_id == task_id && elem s.id ids) db.sources)

unfoldable pub active_claims : (task_id : ℕ) → List ℕ → List ResearchClaim → List ℕ
active_claims task_id ids claims =
    map (λ c. c.id)
      (keep (λ c. c.task_id == task_id && (elem c.id ids && is_active c.lifecycle)) claims)

-- The existing assessment of the hypothesis under another identifier.
unfoldable pub other_assessment : (task_id hypothesis_id target_id : ℕ) → MemoryDb → Bool
other_assessment task_id hypothesis_id target_id db =
    any (λ a. a.task_id == task_id && (a.hypothesis_id == hypothesis_id && not (a.id == target_id)))
      db.assessments

unfoldable pub check_claim :
    MemoryTask
    → (target_id : ℕ) → Option MemoryState
    → MemoryState
    → ClaimCreate
    → (allow_provenance_removal : Bool) → MemoryDb
    → Result MemoryError (List ℕ)
check_claim task target_id before after c allowed db =
    let ids = map (λ l. l.source_id) c.source_links in
    raise_if (not (is_unique ids) || not (subset ids (task_sources task.id ids db))) foreign_sources
    >> check_update task.id target_id before after allowed db
    >> ok ids

unfoldable pub check_assessment :
    MemoryTask
    → (target_id : ℕ) → HypothesisAssessmentCreate
    → (hypothesis_id : ℕ) → MemoryDb
    → Result MemoryError (List ℕ)
check_assessment task target_id a hypothesis_id db =
    let ids = map (λ l. l.claim_id) a.evidence_links in
    raise_if (not (elem hypothesis_id task.hypotheses)) foreign_hypothesis
    >> raise_if (other_assessment task.id hypothesis_id target_id db) assessment_exists
    >> raise_if (not (is_unique ids) || not (subset ids (active_claims task.id ids db.claims)))
        foreign_claims
    >> ok ids

-- `_validate_state`; it returns the provenance of the change. A state of the other kind fails the
-- validation of its data.
unfoldable pub validate_state :
    MemoryTask
    → MemoryTarget
    → (target_id : ℕ) → Option MemoryState
    → MemoryState
    → (allow_provenance_removal : Bool) → MemoryDb
    → Result MemoryError (List ℕ)
validate_state task kind target_id before after allowed db =
    raise_if (not (is_valid_content after)) invalid_record >> elim kind [
      | claim ↦ elim after.content [
        | claim_data c ↦ check_claim task target_id before after c allowed db
        | assessment_data _ _ ↦ err invalid_record
      ]
      | assessment ↦ elim after.content [
        | claim_data _ ↦ err invalid_record
        | assessment_data a hypothesis_id ↦ check_assessment task target_id a hypothesis_id db
      ]
    ]
