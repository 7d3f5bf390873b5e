-- ===== src/Memory/Service.antt =====
-- `MemoryService.apply` (with `stage`) and `MemoryService.reverse`. A stage is the whole of its
-- transaction here.
use gnomon.Prelude.{
  ℕ, ◌+◌, Bool, true, false, not, ◌||◌, Option, none, some, List, Result, ok, err, ◌>>=◌, ◌>>◌,
  raise_if, ◌==◌, leb, is_none, find, holds, is_blank,
}
use gnomon.Security.Capability.{memory_mutation}
use gnomon.Security.Store.{or_raise, require_locked_capability}
use gnomon.Memory.Model.{
  MemoryChangeProposal, MemoryReversal, MemoryActor, local_operator, MemoryActor-discrete,
  MemoryAuthority, logically_deleted, MemoryState, proposed, reversed, MemoryRequest-discrete,
  MemoryChange, KnowledgeRecord, MemoryTask, MemoryDb, MemoryError, task_not_found,
  capability_denied, operator_only, change_id_reused, change_not_found, reversal_of_reversal,
  reversal_id_used, window_expired, newer_state, state_differs,
}
use gnomon.Memory.Records.{
  MemoryContext, Answer, authorized, get_task, get_record, task_of, version_of, state,
}
use gnomon.Memory.Checks.{same_state, validate_state}
use gnomon.Memory.Prepare.{Prepared, prepare}
use gnomon.Memory.Write.{Writing, write}

-- The lock of the investigation, and the capability under it.
unfoldable pub locked : MemoryAuthority → MemoryDb → Result MemoryError MemoryTask
locked authority db = do
  task ← or_raise (get_task authority.task_id db.tasks) task_not_found
  elim (require_locked_capability db.security memory_mutation none) [
    | err _ ↦ err capability_denied
    | ok _ ↦ ok task
  ]

-- `session.get(MemoryChangeRecord, change_id)`
unfoldable pub get_change : ℕ → List MemoryChange → Option MemoryChange
get_change id = find (λ c. c.change_id == id)

-- The answer to a change identifier that is known.
unfoldable pub retry :
    MemoryChangeProposal → MemoryAuthority → MemoryChange → Result MemoryError MemoryChange
retry q authority prior =
    raise_if
      (not (prior.task_id == authority.task_id)
        || (not (holds (MemoryActor-discrete prior.actor authority.actor))
            || not (holds (MemoryRequest-discrete prior.request (proposed q)))))
      change_id_reused
    >> ok prior

abbrev pub proposal_writing : MemoryChangeProposal → MemoryAuthority → Prepared → Writing
proposal_writing q authority p = record {
  authority = authority;
  change_id = q.change_id;
  kind = q.target_type;
  target_id = q.target_id;
  operation = some q.operation;
  reason = q.reason;
  target = p.target;
  before = p.before;
  after = p.after;
  provenance = p.provenance;
  request = proposed q;
  reverses = none;
}

-- `stage` after its authorization.
unfoldable pub stage_change :
    MemoryContext
    → MemoryChangeProposal
    → MemoryAuthority
    → MemoryDb
    → Result MemoryError (MemoryChange × MemoryDb)
stage_change cx q authority db = do
  task ← locked authority db
  elim (get_change q.change_id db.changes) [
    | some prior ↦ retry q authority prior >>= λ c. ok (c, db)
    | none ↦ prepare q authority db >>= λ p. ok (write cx (proposal_writing q authority p) db)
  ]

-- `apply`
unfoldable pub apply : MemoryContext → MemoryChangeProposal → MemoryAuthority → MemoryDb → Answer
apply cx q authority db = authorized cx authority db (stage_change cx q authority db)

-- 48 hours in microseconds.
abbrev pub reversal_window : ℕ
reversal_window = 172_800_000_000

abbrev pub is_operator : MemoryActor → Bool
is_operator local_operator = true
is_operator _ = false

abbrev pub is_reversal_of : ℕ → MemoryChange → Bool
is_reversal_of id c = elim c.reverses_change_id [
  | none ↦ false
  | some reversed_id ↦ reversed_id == id
]

-- `original.previous_state or (before | {"lifecycle": "logically_deleted"})`
unfoldable pub restored_state : MemoryChange → MemoryState → MemoryState
restored_state original before = elim original.previous_state [
  | some previous ↦ previous
  | none ↦ record before { lifecycle = logically_deleted }
]

-- The checks of a reversal that is not a repetition.
unfoldable pub check_reversal :
    MemoryContext
    → MemoryReversal
    → MemoryChange
    → List MemoryChange
    → Result MemoryError (Unit {0})
check_reversal cx q original changes =
    raise_if (not (is_none (get_change q.change_id changes))) reversal_id_used
    >> raise_if (leb (original.timestamp + reversal_window) cx.now) window_expired

-- The record that the change left.
unfoldable pub unchanged_record :
    MemoryTask → MemoryChange → MemoryDb → Result MemoryError KnowledgeRecord
unchanged_record task original db = do
  r ← or_raise (get_record original.target_type original.target_id db) newer_state
  raise_if (not (task_of r == task.id) || not (version_of r == original.version)) newer_state
  ok r

abbrev pub reversal_writing :
    MemoryReversal
    → MemoryAuthority
    → MemoryChange
    → KnowledgeRecord
    → MemoryState
    → List ℕ
    → Writing
reversal_writing q authority original r before provenance = record {
  authority = authority;
  change_id = q.change_id;
  kind = original.target_type;
  target_id = original.target_id;
  operation = none;
  reason = q.reason;
  target = some r;
  before = some before;
  after = restored_state original before;
  provenance = provenance;
  request = reversed q;
  reverses = some original.change_id;
}

unfoldable pub reverse_found :
    MemoryContext
    → MemoryReversal
    → MemoryAuthority
    → MemoryTask
    → MemoryChange
    → MemoryDb
    → Result MemoryError (MemoryChange × MemoryDb)
reverse_found cx q authority task original db = do
  check_reversal cx q original db.changes
  r ← unchanged_record task original db
  before ← state r db
  raise_if (not (same_state before original.resulting_state)) state_differs
  provenance ←
      validate_state task original.target_type original.target_id (some before)
        (restored_state original before) true db
  ok (write cx (reversal_writing q authority original r before provenance) db)

-- `reverse` after its authorization.
unfoldable pub reverse_change :
    MemoryContext
    → (original_id : ℕ) → MemoryReversal
    → MemoryAuthority
    → MemoryDb
    → Result MemoryError (MemoryChange × MemoryDb)
reverse_change cx original_id q authority db = do
  raise_if (not (is_operator authority.actor) || is_blank q.reason) operator_only
  task ← locked authority db
  original ← or_raise (get_change original_id db.changes) change_not_found
  raise_if (not (original.task_id == task.id)) change_not_found
  raise_if (not (is_none original.reverses_change_id)) reversal_of_reversal
  elim (find (is_reversal_of original_id) db.changes) [
    | some duplicate ↦ ok (duplicate, db)
    | none ↦ reverse_found cx q authority task original db
  ]

unfoldable pub reverse :
    MemoryContext → (original_id : ℕ) → MemoryReversal → MemoryAuthority → MemoryDb → Answer
reverse cx original_id q authority db =
    authorized cx authority db (reverse_change cx original_id q authority db)
