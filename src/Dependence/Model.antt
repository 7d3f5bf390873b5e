-- ===== src/Dependence/Model.antt =====
-- The rows of the service (domain/research.py and persistence/models.py). A relationship's stored
-- row and its domain value have the same fields, and are one record here; a state kept as JSON in a
-- change is that record too, so a stored JSON that does not parse is not modelled.
use gnomon.Prelude.{ℕ, Bool, true, false, Option, List, Text, Text-discrete, ℕ_discrete}
use gnomon.Audit.Events.{ResearchEvent}
use gnomon.Security.Store.{SecurityStateRecord}

pub data Kind : Type 0 where
  derived_from common_origin : Kind

pub data Direction : Type 0 where
  low_to_high high_to_low undirected : Direction

pub data Lifecycle : Type 0 where
  active retracted : Lifecycle

pub data Operation : Type 0 where
  creation setting retraction reversal : Operation

-- `SourceRelationship` and `SourceRelationshipRecord`
pub record SourceRelationship : Type 0 where
  pub relationship_id : ℕ
  pub task_id : ℕ
  pub source_low_id : ℕ
  pub source_high_id : ℕ
  pub kind : Kind
  pub direction : Direction
  pub lifecycle : Lifecycle
  pub revision : ℕ
  pub latest_change_id : ℕ
  pub updated_at : ℕ

-- The canonical form of a command, by which a retry is recognised. The version and the actor's
-- type are constants of the source.
pub data CommandRequest : Type 0 where
  create_request :
      (actor_id : Text) (kind : Kind) (source_low_id source_high_id : ℕ)
      → Direction
      → (reason : Text) → CommandRequest
  mutation_request :
      Operation
      → (actor_id : Text) (relationship_id : ℕ) → Kind
      → Direction
      → Lifecycle
      → (reason : Text) (expected_revision : ℕ) → CommandRequest
  reversal_request :
      (actor_id : Text) (relationship_id change_id : ℕ) (reason : Text) (expected_revision : ℕ)
      → CommandRequest

-- `SourceRelationshipChangeRecord`
pub record SourceRelationshipChange : Type 0 where
  pub change_id : ℕ
  pub operation_id : ℕ
  pub relationship_id : ℕ
  pub task_id : ℕ
  pub previous_revision : ℕ
  pub revision : ℕ
  pub operation : Operation
  pub previous_state : Option SourceRelationship
  pub resulting_state : SourceRelationship
  pub actor_id : Text
  pub reason : Text
  pub authority_epoch_id : ℕ
  pub security_state_version : ℕ
  pub reverses_change_id : Option ℕ
  pub command_request : Option CommandRequest
  pub created_at : ℕ

pub record DependenceDb : Type 0 where
  pub tasks : List ℕ
  -- Each source with its task.
  pub sources : List (ℕ × ℕ)
  pub security : Option SecurityStateRecord
  pub relationships : List SourceRelationship
  -- The newest change first, and the newest event first.
  pub changes : List SourceRelationshipChange
  pub events : List ResearchEvent

-- `SourceDependenceLimits`
pub record SourceDependenceLimits : Type 0 where
  pub max_roots : ℕ
  pub max_visited_sources : ℕ
  pub max_examined_relationships : ℕ
  pub max_hops : ℕ
  pub max_frontier_sources : ℕ

abbrev pub default_limits : SourceDependenceLimits
default_limits = record {
  max_roots = 100;
  max_visited_sources = 100;
  max_examined_relationships = 500;
  max_hops = 8;
  max_frontier_sources = 100;
}

-- `SourceDependenceNotFound` and `SourceDependenceConflict`, by their messages; `search_unfinished`
-- is the model's own, for a search that runs out of fuel.
pub data DependenceError : Type 0 where
  task_not_found relationship_not_found change_not_found capability_denied : DependenceError
  derived_endpoints common_endpoints self_reference foreign_source : DependenceError
  no_direction must_be_symmetric direction_required : DependenceError
  would_create_cycle validation_limit search_unfinished : DependenceError
  already_exists stale_revision no_change operation_reused : DependenceError
  reversal_of_reversal window_expired stale_reversal history_invalid : DependenceError

abbrev pub is_active : Lifecycle → Bool
is_active active = true
is_active retracted = false

abbrev pub is_derived : Kind → Bool
is_derived derived_from = true
is_derived common_origin = false

pub SourceRelationship-discrete : Discrete SourceRelationship
SourceRelationship-discrete = hlevel ℕ_discrete

pub CommandRequest-discrete : Discrete CommandRequest
CommandRequest-discrete = hlevel (ℕ_discrete, Text-discrete)
