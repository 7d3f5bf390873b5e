-- ===== src/Dependence/Journal.antt =====
-- How the service writes: a relationship's row, its change and its audit event (`_state`,
-- `_record_from_state`, `_change_record`, `_stage_audit`, `_commit_change` and `_lock_task`).
use Prim.Native.String.{String}
use gnomon.Prelude.{
  ℕ, ◌+◌, ◌&&◌, Option, none, some, List, [], ◌∷◌, Result, ok, err, ◌==◌, if◌then◌else◌, elem, find,
  Text,
}
use gnomon.Audit.Events.{EventPayload, operation_only, source_dependence_changed, stage}
use gnomon.Security.Capability.{memory_mutation}
use gnomon.Security.Store.{PersistedSecurityState, require_locked_capability}
use gnomon.Dependence.Model.{
  Kind, derived_from, common_origin, Direction, low_to_high, high_to_low, undirected, Lifecycle,
  active, retracted, Operation, creation, SourceRelationship, SourceRelationshipChange,
  CommandRequest, DependenceDb, SourceDependenceLimits, DependenceError, task_not_found,
  capability_denied,
}
use gnomon.Dependence.Requests.{SourceRelationshipCreate, Normalized, canonical_create_request}

-- What a call takes from its environment: the actor, the clock and fresh identifiers.
pub record Context : Type 0 where
  pub limits : SourceDependenceLimits
  pub actor_id : Text
  pub now : ℕ
  pub fresh_relationship_id : ℕ
  pub fresh_change_id : ℕ

abbrev pub Answer : Type 0
Answer = Result DependenceError (SourceRelationship × DependenceDb)

-- `_lock_task` and `require_locked_capability`
unfoldable pub authorize : ℕ → DependenceDb → Result DependenceError PersistedSecurityState
authorize task_id db =
    if elem task_id db.tasks
    then elim (require_locked_capability db.security memory_mutation none) [
      | ok authority ↦ ok authority
      | err e ↦ err capability_denied
    ]
    else err task_not_found

-- `_change_record`
abbrev pub change_record :
    Context
    → (operation_id : ℕ) → SourceRelationship
    → Option SourceRelationship
    → (previous_revision : ℕ) → Operation
    → Text
    → PersistedSecurityState
    → Option ℕ
    → CommandRequest
    → SourceRelationshipChange
change_record cx operation_id state previous previous_revision operation reason authority reverses
      request =
    record {
      change_id = cx.fresh_change_id;
      operation_id = operation_id;
      relationship_id = state.relationship_id;
      task_id = state.task_id;
      previous_revision = previous_revision;
      revision = state.revision;
      operation = operation;
      previous_state = previous;
      resulting_state = state;
      actor_id = cx.actor_id;
      reason = reason;
      authority_epoch_id = authority.authority_epoch_id;
      security_state_version = authority.version;
      reverses_change_id = reverses;
      command_request = some request;
      created_at = state.updated_at;
    }

-- The stored spellings of a kind, a direction and a lifecycle.
abbrev pub kind_value : Kind → String
kind_value derived_from = "derived_from"
kind_value common_origin = "common_origin"

abbrev pub direction_value : Direction → String
direction_value low_to_high = "low_to_high"
direction_value high_to_low = "high_to_low"
direction_value undirected = "none"

abbrev pub lifecycle_value : Lifecycle → String
lifecycle_value active = "active"
lifecycle_value retracted = "retracted"

-- `_stage_audit`'s payload.
abbrev pub audit_payload : ℕ → SourceRelationship → EventPayload
audit_payload operation_id state = record (operation_only operation_id) {
  actor = some "local_operator";
  relationship_id = some state.relationship_id;
  relationship_revision = some state.revision;
  dependence_kind = some (kind_value state.kind);
  dependence_direction = some (direction_value state.direction);
  relationship_lifecycle = some (lifecycle_value state.lifecycle);
  provenance = some (state.source_low_id ∷ state.source_high_id ∷ []);
  result = some "committed";
}

-- The change's row and its event.
abbrev pub record_change :
    Context → (task_id : ℕ) → SourceRelationshipChange → DependenceDb → DependenceDb
record_change cx task_id change db = record db {
  changes = change ∷ db.changes;
  events =
      stage cx.now task_id source_dependence_changed
        (audit_payload change.operation_id change.resulting_state) db.events;
}

abbrev pub new_state : Context → (task_id : ℕ) → Kind → Normalized → SourceRelationship
new_state cx task_id kind n = record {
  relationship_id = cx.fresh_relationship_id;
  task_id = task_id;
  source_low_id = n.low_id;
  source_high_id = n.high_id;
  kind = kind;
  direction = n.direction;
  lifecycle = active;
  revision = 1;
  latest_change_id = cx.fresh_change_id;
  updated_at = cx.now;
}

unfoldable pub commit_create :
    Context
    → (task_id : ℕ) → SourceRelationshipCreate
    → Normalized
    → PersistedSecurityState
    → DependenceDb
    → SourceRelationship × DependenceDb
commit_create cx task_id q n authority db =
    let state = new_state cx task_id q.kind n in
    (
      state,
      record_change cx task_id
          (change_record cx q.operation_id state none 0 creation q.reason authority none
            (canonical_create_request cx.actor_id q n))
          (record db { relationships = state ∷ db.relationships }),
    )

-- `_relationship_for_update`
unfoldable pub get_relationship :
    (task_id relationship_id : ℕ) → List SourceRelationship → Option SourceRelationship
get_relationship task_id relationship_id =
    find (λ r. r.task_id == task_id && r.relationship_id == relationship_id)

-- The assignments to the row with the key.
unfoldable pub replace_relationship :
    SourceRelationship → List SourceRelationship → List SourceRelationship
replace_relationship state [] = []
replace_relationship state (r ∷ rows) =
    if r.task_id == state.task_id && r.relationship_id == state.relationship_id
    then state ∷ rows
    else r ∷ replace_relationship state rows

-- The state that `_commit_change` writes.
abbrev pub next_state :
    Context → (task_id : ℕ) → SourceRelationship → Lifecycle → Direction → SourceRelationship
next_state cx task_id current lifecycle direction = record current {
  task_id = task_id;
  direction = direction;
  lifecycle = lifecycle;
  revision = current.revision + 1;
  latest_change_id = cx.fresh_change_id;
  updated_at = cx.now;
}

-- `_commit_change`
unfoldable pub commit_change :
    Context
    → (task_id : ℕ) → SourceRelationship
    → Lifecycle
    → Direction
    → Operation
    → (operation_id : ℕ) → Text
    → PersistedSecurityState
    → CommandRequest
    → Option ℕ
    → DependenceDb
    → SourceRelationship × DependenceDb
commit_change cx task_id current lifecycle direction operation operation_id reason authority request
      reverses db =
    let state = next_state cx task_id current lifecycle direction in
    (
      state,
      record_change cx task_id
          (change_record cx operation_id state (some current) current.revision operation reason
            authority reverses request)
          (record db { relationships = replace_relationship state db.relationships }),
    )
