-- ===== src/Stopping/Requests.antt =====
-- The requests of a stopping decision: `_validate_references`, `_objective_cycle`,
-- `_objective_cycle_number`, `_canonical_request` and `_retry_or_conflict`; and the rows,
-- `_record_from_decision` and `_decision_from_record`.
use Prim.Native.String.{String}
use text.Mathlib.Text.{◌==◌ as str_eq}
use gnomon.Prelude.{
  ℕ, Bool, true, false, not, ◌||◌, Option, none, some, List, [], ◌∷◌, map, Result, ok, err, ◌>>◌,
  ◌>>=◌, raise_if, leb, ◌==◌, if◌then◌else◌, is_none, any, find, subset, holds, length, Text,
  Text-discrete,
}
use gnomon.Security.Store.{or_raise}
use gnomon.Research.Outcome.{dedup, same_id, same_text}
use gnomon.Stopping.Model.{
  StoppingDecisionReason, evidence_sufficient, resource_limited, evidence_unavailable,
  operator_stopped, ℤ, pos, negsuc, StoppingDecisionCreate, StoppingDecision,
  StoppingDecisionRecord, CanonicalRequest, CanonicalRequest-discrete, StoppingDecisionChange,
  SnapshotCycle, InvestigationSnapshot, StoppingDecisionError, invalid_record, unknown_source,
  unknown_claim, unknown_objective, unknown_review, cycle_needed, unknown_cycle, objectives_needed,
  operation_reused,
}
use gnomon.Stopping.Readiness.{is_empty, join_map}

-- `cycles[-1]`
abbrev pub last_cycle : List SnapshotCycle → Option SnapshotCycle
last_cycle [] = none
last_cycle (c ∷ cycles) = let rest = last_cycle cycles in if is_empty cycles then some c else rest

unfoldable pub objective_cycle :
    StoppingDecisionCreate → InvestigationSnapshot → Option SnapshotCycle
objective_cycle q s = elim q.objective_cycle_number [
  | none ↦ last_cycle s.cycles
  | some number ↦ find (λ c. c.number == number) s.cycles
]

unfoldable pub objective_cycle_number : StoppingDecisionCreate → InvestigationSnapshot → Option ℕ
objective_cycle_number q s =
    if is_empty q.objective_indices
    then none
    else elim (objective_cycle q s) [ none ↦ none | some c ↦ some c.number ]

-- `index >= len(objectives) or index < 0`
abbrev pub is_outside : ℕ → ℤ → Bool
is_outside n (pos index) = leb n index
is_outside n (negsuc _) = true

unfoldable pub check_objectives :
    StoppingDecisionCreate → InvestigationSnapshot → Result StoppingDecisionError (Unit {0})
check_objectives q s =
    if is_empty q.objective_indices
    then raise_if (not (is_none q.objective_cycle_number)) objectives_needed
    else elim (objective_cycle q s) [
      | none ↦ err (if is_empty s.cycles then cycle_needed else unknown_cycle)
      | some c ↦
          raise_if (any (is_outside (length c.objectives)) q.objective_indices) unknown_objective
    ]

abbrev pub review_ids_of : InvestigationSnapshot → List ℕ
review_ids_of s = join_map (λ c. map (λ r. r.id) c.objective_reviews) s.cycles

unfoldable pub validate_references :
    StoppingDecisionCreate → InvestigationSnapshot → Result StoppingDecisionError (Unit {0})
validate_references q s = do
  raise_if (not (subset q.source_ids s.sources)) unknown_source
  raise_if (not (subset q.claim_ids (map (λ c. c.id) s.claims))) unknown_claim
  check_objectives q s
  raise_if (not (subset q.review_ids (review_ids_of s))) unknown_review

abbrev pub same_index : ℤ → ℤ → Bool
same_index (pos a) (pos b) = a == b
same_index (negsuc a) (negsuc b) = a == b
same_index _ _ = false

unfoldable pub canonical_request : StoppingDecisionCreate → CanonicalRequest
canonical_request q = record {
  reason = q.reason;
  rationale = q.rationale;
  expected_status = q.expected_status;
  expected_revision = q.expected_revision;
  expected_evidence_fingerprint = q.expected_evidence_fingerprint;
  source_ids = dedup same_id q.source_ids;
  claim_ids = dedup same_id q.claim_ids;
  objective_cycle_number = q.objective_cycle_number;
  objective_indices = dedup same_index q.objective_indices;
  review_ids = dedup same_id q.review_ids;
  limitations = dedup same_text q.limitations;
  runtime_limit_evidence = dedup same_text q.runtime_limit_evidence;
}

abbrev pub same_request : Option CanonicalRequest → CanonicalRequest → Bool
same_request none request = false
same_request (some stored) request = holds (CanonicalRequest-discrete stored request)

unfoldable pub retry_decision :
    (actor_id : Text) (task_id : ℕ)
    → StoppingDecisionCreate
    → StoppingDecisionChange
    → Result StoppingDecisionError StoppingDecision
retry_decision actor_id task_id q change =
    raise_if
      (not (change.task_id == task_id)
        || (not (holds (Text-discrete change.actor_id actor_id))
            || not (same_request change.command_request (canonical_request q))))
      operation_reused
    >> ok change.resulting_state

-- The stored spelling of a reason, and `StoppingDecisionReason(text)`.
abbrev pub reason_value : StoppingDecisionReason → String
reason_value evidence_sufficient = "evidence_sufficient"
reason_value resource_limited = "resource_limited"
reason_value evidence_unavailable = "evidence_unavailable"
reason_value operator_stopped = "operator_stopped"

unfoldable pub parse_reason : String → Option StoppingDecisionReason
parse_reason t =
    if str_eq t "evidence_sufficient"
    then some evidence_sufficient
    else if str_eq t "resource_limited"
    then some resource_limited
    else if str_eq t "evidence_unavailable"
    then some evidence_unavailable
    else if str_eq t "operator_stopped"
    then some operator_stopped
    else none

unfoldable pub record_from_decision : StoppingDecision → StoppingDecisionRecord
record_from_decision d = record {
  decision_id = d.decision_id;
  task_id = d.task_id;
  revision = d.revision;
  operation_id = d.operation_id;
  reason = reason_value d.reason;
  rationale = d.rationale;
  source_ids = d.source_ids;
  claim_ids = d.claim_ids;
  objective_cycle_number = d.objective_cycle_number;
  objective_indices = d.objective_indices;
  review_ids = d.review_ids;
  limitations = d.limitations;
  evidence_fingerprint = d.evidence_fingerprint;
  runtime_limit_evidence = d.runtime_limit_evidence;
  actor_id = d.actor_id;
  created_at = d.created_at;
}

unfoldable pub decision_from_record :
    StoppingDecisionRecord → Result StoppingDecisionError StoppingDecision
decision_from_record r = or_raise (parse_reason r.reason) invalid_record >>= λ reason. ok (record {
  decision_id = r.decision_id;
  task_id = r.task_id;
  revision = r.revision;
  operation_id = r.operation_id;
  reason = reason;
  rationale = r.rationale;
  source_ids = r.source_ids;
  claim_ids = r.claim_ids;
  objective_cycle_number = r.objective_cycle_number;
  objective_indices = r.objective_indices;
  review_ids = r.review_ids;
  limitations = r.limitations;
  evidence_fingerprint = r.evidence_fingerprint;
  runtime_limit_evidence = r.runtime_limit_evidence;
  actor_id = r.actor_id;
  created_at = r.created_at;
})
