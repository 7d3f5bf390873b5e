-- ===== src/Dependence/History.antt =====
-- Reading a relationship's history, with the integrity check (`history` and `_validated_history`).
use gnomon.Prelude.{
  ℕ, ◌+◌, ◌-◌, Bool, true, false, not, ◌&&◌, Option, none, some, List, [], ◌∷◌, Result, ok, err,
  ◌>>=◌, ltb, ◌==◌, if◌then◌else◌, keep, holds,
}
use gnomon.Security.Capability.{read_audit}
use gnomon.Security.Store.{require_capability}
use gnomon.Dependence.Model.{
  Operation, creation, SourceRelationship, SourceRelationshipChange, SourceRelationship-discrete,
  DependenceDb, DependenceError, capability_denied, relationship_not_found, history_invalid,
}
use gnomon.Dependence.Journal.{get_relationship}

abbrev pub is_creation : Operation → Bool
is_creation creation = true
is_creation _ = false

abbrev pub is_some_state : Option SourceRelationship → Bool
is_some_state none = false
is_some_state (some _) = true

-- `previous != previous_result`, where there is a previous result.
unfoldable pub follows : Option SourceRelationship → Option SourceRelationship → Bool
follows previous none = true
follows none (some result) = false
follows (some previous) (some result) = holds (SourceRelationship-discrete previous result)

-- The tests of one round; `false` raises the integrity error.
unfoldable pub entry_fits :
    SourceRelationship
    → (expected : ℕ) → Option SourceRelationship
    → SourceRelationshipChange
    → Bool
entry_fits projection expected previous_result c =
    (c.revision == expected
      && (c.previous_revision == expected - 1
          && (c.relationship_id == projection.relationship_id && c.task_id == projection.task_id)))
    && ((if expected == 1
          then is_creation c.operation && not (is_some_state c.previous_state)
          else not (is_creation c.operation) && is_some_state previous_result)
        && ((c.resulting_state.relationship_id == c.relationship_id
              && (c.resulting_state.task_id == c.task_id
                  && (c.resulting_state.revision == c.revision
                      && c.resulting_state.latest_change_id == c.change_id)))
            && follows c.previous_state previous_result))

-- The loop: the last resulting state.
unfoldable pub replay_history :
    SourceRelationship
    → (expected : ℕ) → Option SourceRelationship
    → List SourceRelationshipChange
    → Result DependenceError (Option SourceRelationship)
replay_history projection expected previous_result [] = ok previous_result
replay_history projection expected previous_result (c ∷ records) =
    let rest = replay_history projection (expected + 1) (some c.resulting_state) records in
    if entry_fits projection expected previous_result c then rest else err history_invalid

unfoldable pub ends_at : Option SourceRelationship → SourceRelationship → Bool
ends_at none projection = false
ends_at (some result) projection = holds (SourceRelationship-discrete result projection)

-- `_validated_history`; with no records the loop ends with no state, which is invalid too.
unfoldable pub validated_history :
    SourceRelationship
    → List SourceRelationshipChange
    → Result DependenceError (List SourceRelationshipChange)
validated_history projection records = do
  result ← replay_history projection 1 none records
  if ends_at result projection then ok records else err history_invalid

-- `ORDER BY revision`
unfoldable pub insert_by_revision :
    SourceRelationshipChange → List SourceRelationshipChange → List SourceRelationshipChange
insert_by_revision c [] = c ∷ []
insert_by_revision c (x ∷ xs) =
    if ltb x.revision c.revision then x ∷ insert_by_revision c xs else c ∷ x ∷ xs

unfoldable pub order_by_revision : List SourceRelationshipChange → List SourceRelationshipChange
order_by_revision [] = []
order_by_revision (c ∷ cs) = insert_by_revision c (order_by_revision cs)

-- The changes that belong to a relationship.
abbrev pub belongs : (task_id relationship_id : ℕ) → SourceRelationshipChange → Bool
belongs task_id relationship_id c = c.relationship_id == relationship_id && c.task_id == task_id

unfoldable pub history :
    (task_id relationship_id : ℕ)
    → DependenceDb
    → Result DependenceError (List SourceRelationshipChange)
history task_id relationship_id db = elim (require_capability db.security read_audit none) [
  | err e ↦ err capability_denied
  | ok _ ↦ elim (get_relationship task_id relationship_id db.relationships) [
    | none ↦ err relationship_not_found
    | some projection ↦
        validated_history projection
          (order_by_revision (keep (belongs task_id relationship_id) db.changes))
  ]
]
