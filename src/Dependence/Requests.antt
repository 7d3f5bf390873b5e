-- ===== src/Dependence/Requests.antt =====
-- The requests of the service, how they are normalised and checked, and how a retry is recognised
-- (`_normalize_create`, `_validate_sources`, `_validate_direction`, `_retry_or_conflict` and the
-- canonical requests).
use gnomon.Prelude.{
  ℕ, Bool, false, ◌&&◌, Option, none, some, List, Result, ok, err, leb, ◌==◌, if◌then◌else◌, any,
  find, holds, Text, Text-discrete,
}
use gnomon.Dependence.Model.{
  Kind, derived_from, common_origin, Direction, low_to_high, high_to_low, undirected, Lifecycle,
  Operation, setting, retraction, SourceRelationship, SourceRelationshipChange, CommandRequest,
  create_request, mutation_request, reversal_request, CommandRequest-discrete, DependenceError,
  derived_endpoints, common_endpoints, self_reference, must_be_symmetric, direction_required,
  operation_reused,
}

pub record SourceRelationshipCreate : Type 0 where
  pub derived_source_id : Option ℕ
  pub upstream_source_id : Option ℕ
  pub source_a_id : Option ℕ
  pub source_b_id : Option ℕ
  pub kind : Kind
  pub reason : Text
  pub operation_id : ℕ

-- The literal "SET" or "RETRACT" of a mutation.
pub data Mutation : Type 0 where
  set retract : Mutation

abbrev pub mutation_operation : Mutation → Operation
mutation_operation set = setting
mutation_operation retract = retraction

pub record SourceRelationshipMutation : Type 0 where
  pub relationship_id : ℕ
  pub expected_revision : ℕ
  pub operation : Mutation
  pub lifecycle : Option Lifecycle
  pub direction : Option Direction
  pub reason : Text
  pub operation_id : ℕ

pub record SourceRelationshipReversal : Type 0 where
  pub relationship_id : ℕ
  pub change_id : ℕ
  pub expected_revision : ℕ
  pub reason : Text
  pub operation_id : ℕ

-- The tuple that `_normalize_create` returns.
pub record Normalized : Type 0 where
  pub derived_id : ℕ
  pub upstream_id : ℕ
  pub low_id : ℕ
  pub high_id : ℕ
  pub direction : Direction

-- The two ends of a request, by its kind.
endpoints_by_kind :
    Kind → Option ℕ → Option ℕ → Option ℕ → Option ℕ → Result DependenceError (ℕ × ℕ)
endpoints_by_kind derived_from (some derived) (some upstream) none none = ok (derived, upstream)
endpoints_by_kind derived_from _ _ _ _ = err derived_endpoints
endpoints_by_kind common_origin none none (some a) (some b) = ok (a, b)
endpoints_by_kind common_origin _ _ _ _ = err common_endpoints

unfoldable pub request_endpoints : SourceRelationshipCreate → Result DependenceError (ℕ × ℕ)
unfolding endpoints_by_kind
request_endpoints q =
    endpoints_by_kind q.kind q.derived_source_id q.upstream_source_id q.source_a_id q.source_b_id

-- The direction that the ends' order gives.
abbrev pub direction_of : Kind → (derived_id low_id : ℕ) → Direction
direction_of common_origin derived_id low_id = undirected
direction_of derived_from derived_id low_id =
    if derived_id == low_id then low_to_high else high_to_low

unfoldable pub sorted_ends : Kind → ℕ × ℕ → Result DependenceError Normalized
sorted_ends kind (derived_id, upstream_id) =
    let low_id = if leb derived_id upstream_id then derived_id else upstream_id in
    let high_id = if leb derived_id upstream_id then upstream_id else derived_id in
    if derived_id == upstream_id
    then err self_reference
    else ok (record {
      derived_id = derived_id;
      upstream_id = upstream_id;
      low_id = low_id;
      high_id = high_id;
      direction = direction_of kind derived_id low_id;
    })

unfoldable pub normalize_create : SourceRelationshipCreate → Result DependenceError Normalized
normalize_create q = elim (request_endpoints q) [
  | err e ↦ err e
  | ok ends ↦ sorted_ends q.kind ends
]

-- The source is one of the task's.
unfoldable pub has_source : (task_id source_id : ℕ) → List (ℕ × ℕ) → Bool
has_source task_id source_id sources = any (λ e. e.0 == source_id && e.1 == task_id) sources

-- `_validate_direction`
unfoldable pub direction_error : Kind → Direction → Option DependenceError
direction_error common_origin undirected = none
direction_error common_origin _ = some must_be_symmetric
direction_error derived_from undirected = some direction_required
direction_error derived_from _ = none

unfoldable pub operation_change :
    ℕ → List SourceRelationshipChange → Option SourceRelationshipChange
operation_change operation_id = find (λ c. c.operation_id == operation_id)

-- `change.command_request != command_request`, where a missing one never agrees.
abbrev pub same_command : Option CommandRequest → CommandRequest → Bool
same_command none request = false
same_command (some c) request = holds (CommandRequest-discrete c request)

-- `_retry_or_conflict`
unfoldable pub retry_or_conflict :
    (actor_id : Text) (task_id : ℕ)
    → SourceRelationshipChange
    → CommandRequest
    → Result DependenceError SourceRelationship
retry_or_conflict actor_id task_id change request =
    if change.task_id == task_id
      && (holds (Text-discrete change.actor_id actor_id)
          && same_command change.command_request request)
    then ok change.resulting_state
    else err operation_reused

unfoldable pub canonical_create_request :
    (actor_id : Text) → SourceRelationshipCreate → Normalized → CommandRequest
canonical_create_request actor_id q n =
    create_request actor_id q.kind n.low_id n.high_id n.direction q.reason

unfoldable pub canonical_mutation_request :
    (actor_id : Text) → SourceRelationshipMutation → Kind → Direction → Lifecycle → CommandRequest
canonical_mutation_request actor_id q kind direction lifecycle =
    mutation_request (mutation_operation q.operation) actor_id q.relationship_id kind direction
      lifecycle q.reason q.expected_revision

unfoldable pub canonical_reversal_request :
    (actor_id : Text) → SourceRelationshipReversal → CommandRequest
canonical_reversal_request actor_id q =
    reversal_request actor_id q.relationship_id q.change_id q.reason q.expected_revision
