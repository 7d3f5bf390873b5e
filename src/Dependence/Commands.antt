-- ===== src/Dependence/Commands.antt =====
-- `SourceDependenceService`: create, mutate and reverse. The clock and the fresh identifiers of
-- `uuid4` are arguments. A raise rolls back, so only a success carries a database.
use gnomon.Prelude.{
  ℕ, ◌+◌, Bool, true, false, not, ◌&&◌, ◌||◌, Option, none, some, List, Result, ok, err, ◌>>=◌,
  ◌>>◌, raise_if, ltb, ◌==◌, if◌then◌else◌, any, find,
}
use gnomon.Dependence.Model.{
  Kind, derived_from, common_origin, Direction, low_to_high, high_to_low, undirected, Lifecycle,
  active, retracted, Operation, reversal, SourceRelationship, SourceRelationshipChange,
  DependenceDb, DependenceError, relationship_not_found, change_not_found, foreign_source,
  already_exists, stale_revision, no_change, reversal_of_reversal, window_expired, stale_reversal,
  is_active, is_derived,
}
use gnomon.Dependence.Graph.{directional_endpoints, validate_no_cycle}
use gnomon.Dependence.Requests.{
  SourceRelationshipCreate, set, retract, mutation_operation, SourceRelationshipMutation,
  SourceRelationshipReversal, Normalized, normalize_create, has_source, direction_error,
  operation_change, retry_or_conflict, canonical_create_request, canonical_mutation_request,
  canonical_reversal_request,
}
use gnomon.Dependence.Journal.{
  Context, Answer, authorize, commit_create, commit_change, get_relationship,
}

-- The answer to a repeated operation; it writes nothing.
abbrev pub replay : Result DependenceError SourceRelationship → DependenceDb → Answer
replay (ok state) db = ok (state, db)
replay (err e) db = err e

abbrev pub same_kind : Kind → Kind → Bool
same_kind derived_from derived_from = true
same_kind common_origin common_origin = true
same_kind _ _ = false

-- The query for a relationship with the same ends and kind.
unfoldable pub pair_exists : (task_id low_id high_id : ℕ) → Kind → List SourceRelationship → Bool
pair_exists task_id low_id high_id kind = any (λ r.
    r.task_id == task_id
    && (r.source_low_id == low_id && (r.source_high_id == high_id && same_kind r.kind kind)))

-- The checks of a creation that is no repetition.
unfoldable pub check_create :
    Context → (task_id : ℕ) → Kind → Normalized → DependenceDb → Result DependenceError (Unit {0})
check_create cx task_id kind n db =
    raise_if
      (not (has_source task_id n.low_id db.sources && has_source task_id n.high_id db.sources))
      foreign_source
    >> ((if is_derived kind
          then validate_no_cycle cx.limits db.relationships task_id n.derived_id n.upstream_id none
          else ok tt)
        >> raise_if (pair_exists task_id n.low_id n.high_id kind db.relationships) already_exists)

unfoldable pub create : Context → (task_id : ℕ) → SourceRelationshipCreate → DependenceDb → Answer
create cx task_id q db = do
  authority ← authorize task_id db
  n ← normalize_create q
  elim (operation_change q.operation_id db.changes) [
    | some change ↦
        replay
          (retry_or_conflict cx.actor_id task_id change (canonical_create_request cx.actor_id q n))
          db
    | none ↦ check_create cx task_id q.kind n db >> ok (commit_create cx task_id q n authority db)
  ]

-- The cycle check of a change that leaves the relationship active and directed.
unfoldable pub check_cycle :
    Context
    → (task_id : ℕ) → SourceRelationship
    → Lifecycle
    → Direction
    → DependenceDb
    → Result DependenceError (Unit {0})
check_cycle cx task_id current lifecycle direction db =
    if is_active lifecycle && is_derived current.kind
    then elim (directional_endpoints current direction) [
      | err e ↦ err e
      | ok (derived_id, upstream_id) ↦
          validate_no_cycle cx.limits db.relationships task_id derived_id upstream_id
            (some current.relationship_id)
    ]
    else ok tt

abbrev pub same_lifecycle : Lifecycle → Lifecycle → Bool
same_lifecycle active active = true
same_lifecycle retracted retracted = true
same_lifecycle _ _ = false

abbrev pub same_direction : Direction → Direction → Bool
same_direction low_to_high low_to_high = true
same_direction high_to_low high_to_low = true
same_direction undirected undirected = true
same_direction _ _ = false

-- `request.lifecycle or ACTIVE`, and `request.direction or current.direction`.
abbrev pub given {ℓ} : {A : Type ℓ} → Option A → A → A
given none a = a
given (some b) a = b

abbrev pub asked_lifecycle : SourceRelationshipMutation → Lifecycle
asked_lifecycle q = elim q.operation [ retract ↦ retracted | set ↦ given q.lifecycle active ]

abbrev pub asked_direction : SourceRelationshipMutation → SourceRelationship → Direction
asked_direction q current = elim q.operation [
  | retract ↦ current.direction
  | set ↦ given q.direction current.direction
]

abbrev pub raise_some : Option DependenceError → Result DependenceError (Unit {0})
raise_some none = ok tt
raise_some (some e) = err e

unfoldable pub check_mutation :
    Context
    → (task_id : ℕ) → SourceRelationshipMutation
    → SourceRelationship
    → DependenceDb
    → Result DependenceError (Unit {0})
check_mutation cx task_id q current db =
    let lifecycle = asked_lifecycle q in
    let direction = asked_direction q current in
    raise_if (not (current.revision == q.expected_revision)) stale_revision
    >> (raise_some (direction_error current.kind direction)
        >> (check_cycle cx task_id current lifecycle direction db
            >> raise_if
                (same_lifecycle lifecycle current.lifecycle
                  && same_direction direction current.direction)
                no_change))

unfoldable pub mutate : Context → (task_id : ℕ) → SourceRelationshipMutation → DependenceDb → Answer
mutate cx task_id q db = do
  authority ← authorize task_id db
  elim (operation_change q.operation_id db.changes) [
    | some change ↦
        let state = change.resulting_state in
        replay
          (retry_or_conflict cx.actor_id task_id change
            (canonical_mutation_request cx.actor_id q state.kind state.direction state.lifecycle))
          db
    | none ↦ elim (get_relationship task_id q.relationship_id db.relationships) [
      | none ↦ err relationship_not_found
      | some current ↦
          let lifecycle = asked_lifecycle q in
          let direction = asked_direction q current in
          check_mutation cx task_id q current db
          >> ok (
              commit_change cx task_id current lifecycle direction (mutation_operation q.operation)
                q.operation_id q.reason authority
                (canonical_mutation_request cx.actor_id q current.kind direction lifecycle) none db)
    ]
  ]

-- 48 hours in microseconds.
abbrev pub reversal_window : ℕ
reversal_window = 172_800_000_000

unfoldable pub target_change :
    (task_id relationship_id change_id : ℕ)
    → List SourceRelationshipChange
    → Option SourceRelationshipChange
target_change task_id relationship_id change_id = find (λ c.
    c.change_id == change_id && (c.relationship_id == relationship_id && c.task_id == task_id))

abbrev pub is_reversal : Operation → Bool
is_reversal reversal = true
is_reversal _ = false

-- What a reversal restores: the state before the change, or a retracted row for a creation.
abbrev pub restored_lifecycle : Option SourceRelationship → Lifecycle
restored_lifecycle none = retracted
restored_lifecycle (some before) = before.lifecycle

abbrev pub restored_direction : Option SourceRelationship → SourceRelationship → Direction
restored_direction none current = current.direction
restored_direction (some before) current = before.direction

unfoldable pub check_reversal :
    Context
    → (task_id : ℕ) → SourceRelationshipReversal
    → SourceRelationship
    → SourceRelationshipChange
    → DependenceDb
    → Result DependenceError (Unit {0})
check_reversal cx task_id q current target db =
    raise_if (is_reversal target.operation) reversal_of_reversal
    >> (raise_if (ltb (target.created_at + reversal_window) cx.now) window_expired
        >> (raise_if
              (not (current.revision == q.expected_revision)
                || not (target.revision == current.revision))
              stale_reversal
            >> check_cycle cx task_id current (restored_lifecycle target.previous_state)
                (restored_direction target.previous_state current) db))

unfoldable pub reverse :
    Context → (task_id : ℕ) → SourceRelationshipReversal → DependenceDb → Answer
reverse cx task_id q db = do
  authority ← authorize task_id db
  elim (operation_change q.operation_id db.changes) [
    | some change ↦
        replay
          (retry_or_conflict cx.actor_id task_id change (canonical_reversal_request cx.actor_id q))
          db
    | none ↦ elim (get_relationship task_id q.relationship_id db.relationships) [
      | none ↦ err relationship_not_found
      | some current ↦ elim (target_change task_id q.relationship_id q.change_id db.changes) [
        | none ↦ err change_not_found
        | some target ↦
            check_reversal cx task_id q current target db
            >> ok (
                commit_change cx task_id current (restored_lifecycle target.previous_state)
                  (restored_direction target.previous_state current) reversal q.operation_id
                  q.reason authority (canonical_reversal_request cx.actor_id q)
                  (some target.change_id) db)
      ]
    ]
  ]
