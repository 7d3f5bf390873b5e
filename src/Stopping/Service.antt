-- ===== src/Stopping/Service.antt =====
-- `StoppingDecisionService`: `decide`, `get` and `readiness`. What the snapshot service returns, the
-- clock and the fresh identifiers are arguments. A raise rolls back, so only a success of `decide`
-- carries a database.
use gnomon.Prelude.{
  ℕ, ◌+◌, Bool, true, false, not, ◌&&◌, Option, none, some, List, [], ◌∷◌, ◌++◌, map, Result, ok,
  err, ◌>>◌, ◌>>=◌, raise_if, ◌==◌, if◌then◌else◌, is_none, any, find, keep, sort_by, Text,
}
use gnomon.Audit.Events.{EventPayload, operation_only, stopping_decision_recorded, stage}
use gnomon.Security.Capability.{memory_mutation, read_audit}
use gnomon.Security.Store.{PersistedSecurityState, require_capability, require_locked_capability}
use gnomon.Research.Model.{
  TaskStatus, active, paused, blocked, concluded, ResearchTask, CycleAttempt, same_status,
  is_running,
}
use gnomon.Research.Edit.{get_task, replace_task}
use gnomon.Research.Outcome.{dedup, same_id, same_text}
use gnomon.Stopping.Model.{
  StoppingDecisionReason, resource_limited, StoppingDecisionCreate, StoppingDecision,
  StoppingDecisionRecord, StoppingDecisionChange, InvestigationSnapshot, ItemStatus, satisfied,
  runtime_text, StoppingReadinessItem, StoppingReadiness, StoppingDb, StoppingDecisionError,
  task_not_found, decision_not_found, capability_denied, status_changed, revision_stale,
  not_unfinished, attempt_active, decision_exists, evidence_changed,
}
use gnomon.Stopping.Readiness.{Review, is_empty, readiness_from_snapshot}
use gnomon.Stopping.Requests.{
  objective_cycle_number, validate_references, same_index, canonical_request, retry_decision,
  reason_value, record_from_decision, decision_from_record,
}

pub record StoppingContext : Type 0 where
  pub actor_id : Text
  pub now : ℕ
  pub decision_id : ℕ
  pub change_id : ℕ
  pub review : Review
  -- `SnapshotService.get(task_id)`
  pub snapshot : InvestigationSnapshot

abbrev pub is_unfinished : TaskStatus → Bool
is_unfinished active = true
is_unfinished paused = true
is_unfinished blocked = true
is_unfinished _ = false

unfoldable pub has_active_attempt : (task_id : ℕ) → List CycleAttempt → Bool
has_active_attempt task_id = any (λ a. a.task_id == task_id && is_running a.status)

unfoldable pub decision_of :
    (task_id : ℕ) → List StoppingDecisionRecord → Option StoppingDecisionRecord
decision_of task_id = find (λ d. d.task_id == task_id)

unfoldable pub operation_change :
    (operation_id : ℕ) → List StoppingDecisionChange → Option StoppingDecisionChange
operation_change operation_id = find (λ c. c.operation_id == operation_id)

abbrev pub is_satisfied : ItemStatus → Bool
is_satisfied satisfied = true
is_satisfied _ = false

-- The details of the items that are not satisfied.
unfoldable pub item_limitations : Review → List StoppingReadinessItem → List Text
item_limitations rv items =
    map (λ i. rv.detail_text i.detail) (keep (λ i. not (is_satisfied i.status)) items)

abbrev pub is_resource_limited : StoppingDecisionReason → Bool
is_resource_limited resource_limited = true
is_resource_limited _ = false

unfoldable pub runtime_limitations : Review → StoppingDecisionCreate → List Text
runtime_limitations rv q =
    if is_resource_limited q.reason
    then rv.detail_text (runtime_text (not (is_empty q.runtime_limit_evidence))) ∷ []
    else []

unfoldable pub merged_limitations :
    Review → List StoppingReadinessItem → StoppingDecisionCreate → List Text
merged_limitations rv items q =
    dedup same_text ((item_limitations rv items ++ runtime_limitations rv q) ++ q.limitations)

unfoldable pub new_decision :
    StoppingContext → (task_id : ℕ) → StoppingReadiness → StoppingDecisionCreate → StoppingDecision
new_decision cx task_id ready q = record {
  decision_id = cx.decision_id;
  task_id = task_id;
  revision = 1;
  operation_id = q.operation_id;
  reason = q.reason;
  rationale = q.rationale;
  source_ids = dedup same_id q.source_ids;
  claim_ids = dedup same_id q.claim_ids;
  objective_cycle_number = objective_cycle_number q cx.snapshot;
  objective_indices = dedup same_index q.objective_indices;
  review_ids = dedup same_id q.review_ids;
  limitations = merged_limitations cx.review ready.items q;
  evidence_fingerprint = ready.evidence_fingerprint;
  runtime_limit_evidence = dedup same_text q.runtime_limit_evidence;
  actor_id = cx.actor_id;
  created_at = cx.now;
}

unfoldable pub new_change :
    StoppingContext → StoppingDecisionCreate → StoppingDecision → StoppingDecisionChange
new_change cx q d = record {
  change_id = cx.change_id;
  decision_id = d.decision_id;
  task_id = d.task_id;
  operation_id = q.operation_id;
  previous_revision = 0;
  revision = 1;
  resulting_state = d;
  command_request = some (canonical_request q);
  actor_id = cx.actor_id;
  created_at = d.created_at;
}

abbrev pub concluded_task : StoppingDecision → ResearchTask → ResearchTask
concluded_task d task = record task {
  status = concluded;
  revision = task.revision + 1;
  updated_at = d.created_at;
}

abbrev pub decision_payload :
    StoppingDecisionCreate → StoppingDecision → PersistedSecurityState → EventPayload
decision_payload q d authority = record (operation_only q.operation_id) {
  stopping_decision_id = some d.decision_id;
  stopping_reason = some (reason_value q.reason);
  stopping_revision = some 1;
  evidence_fingerprint = some d.evidence_fingerprint;
  authority_epoch_id = some authority.authority_epoch_id;
  security_state_version = some authority.version;
  actor = some "local_operator";
  result = some "committed";
}

-- What `decide` writes.
unfoldable pub commit_decision :
    StoppingContext
    → StoppingDecisionCreate
    → PersistedSecurityState
    → ResearchTask
    → StoppingDecision
    → StoppingDb
    → StoppingDb
commit_decision cx q authority task d db = record db {
  decisions = record_from_decision d ∷ db.decisions;
  changes = new_change cx q d ∷ db.changes;
  tasks = replace_task (concluded_task d task) db.tasks;
  events =
      stage cx.now d.task_id stopping_decision_recorded (decision_payload q d authority) db.events;
}

abbrev pub ready_of : StoppingContext → ResearchTask → StoppingDb → StoppingReadiness
ready_of cx task db =
    readiness_from_snapshot cx.review task.id task.status task.revision
      (has_active_attempt task.id db.attempts) cx.snapshot

-- The checks of a decision that is no repetition.
unfoldable pub check_decision :
    StoppingContext
    → StoppingDecisionCreate
    → ResearchTask
    → StoppingDb
    → Result StoppingDecisionError (Unit {0})
check_decision cx q task db = do
  raise_if (not (same_status task.status q.expected_status)) status_changed
  raise_if (not (task.revision == q.expected_revision)) revision_stale
  raise_if (not (is_unfinished task.status)) not_unfinished
  raise_if (has_active_attempt task.id db.attempts) attempt_active
  raise_if (not (is_none (decision_of task.id db.decisions))) decision_exists
  raise_if (not (q.expected_evidence_fingerprint == (ready_of cx task db).evidence_fingerprint))
      evidence_changed
  validate_references q cx.snapshot

-- The lock of the investigation, and the capability under it.
unfoldable pub lock_task :
    (task_id : ℕ)
    → StoppingDb
    → Result StoppingDecisionError (ResearchTask × PersistedSecurityState)
lock_task task_id db = elim (get_task task_id db.tasks) [
  | none ↦ err task_not_found
  | some task ↦ elim (require_locked_capability db.security memory_mutation none) [
    | err _ ↦ err capability_denied
    | ok authority ↦ ok (task, authority)
  ]
]

unfoldable pub decide :
    StoppingContext
    → (task_id : ℕ) → StoppingDecisionCreate
    → StoppingDb
    → Result StoppingDecisionError (StoppingDecision × StoppingDb)
decide cx task_id q db = elim (lock_task task_id db) [
  | err e ↦ err e
  | ok (task, authority) ↦ elim (operation_change q.operation_id db.changes) [
    | some change ↦ elim (retry_decision cx.actor_id task_id q change) [
      | err e ↦ err e
      | ok d ↦ ok (d, db)
    ]
    | none ↦ elim (check_decision cx q task db) [
      | err e ↦ err e
      | ok _ ↦
          let d = new_decision cx task.id (ready_of cx task db) q in
          ok (d, commit_decision cx q authority task d db)
    ]
  ]
]

abbrev pub reading :
    {A : Type 0} → StoppingDb → Result StoppingDecisionError A → Result StoppingDecisionError A
reading db result = elim (require_capability db.security read_audit none) [
  | err _ ↦ err capability_denied
  | ok _ ↦ result
]

unfoldable pub get : (task_id : ℕ) → StoppingDb → Result StoppingDecisionError StoppingDecision
get task_id db = reading db (elim (decision_of task_id db.decisions) [
  | none ↦ err decision_not_found
  | some r ↦ decision_from_record r
])

unfoldable pub history :
    (task_id : ℕ) → StoppingDb → Result StoppingDecisionError (List StoppingDecisionChange)
history task_id db =
    let changes = sort_by (λ c. c.revision) (keep (λ c. c.task_id == task_id) db.changes) in
    reading db (
      if is_empty changes && is_none (get_task task_id db.tasks)
      then err task_not_found
      else ok changes)

unfoldable pub readiness :
    StoppingContext → (task_id : ℕ) → StoppingDb → Result StoppingDecisionError StoppingReadiness
readiness cx task_id db = reading db (elim (get_task task_id db.tasks) [
  | none ↦ err task_not_found
  | some task ↦ elim (decision_of task_id db.decisions) [
    | none ↦ ok (ready_of cx task db)
    | some r ↦ decision_from_record r >>= λ d.
        ok (record (ready_of cx task db) { current_decision = some d })
  ]
])
