-- ===== src/Dependence/Samples.antt =====
-- A database, the calls of the tests, and the definitions that their runs unfold.
use gnomon.Prelude.{false, none, some, [], ◌∷◌}
use gnomon.Audit.Events.{stage, latest, stamp}
use gnomon.Security.Model.{normal, parse_state, authority_epoch}
use gnomon.Security.Capability.{is_always_safe, allows}
use gnomon.Security.Store.{
  SecurityStateRecord, PersistedSecurityState, bootstrap_incomplete, bootstrap_leftover,
  validation_misplaced, load, require_capability, require_locked_capability,
}
use gnomon.Dependence.Model.{
  derived_from, low_to_high, high_to_low, active, creation, setting, SourceRelationship,
  SourceRelationshipChange, DependenceDb, default_limits,
}
use gnomon.Dependence.Graph.{
  directional_endpoints, insert_by_id, order_by_id, incident, edges_query, follow, follow_record,
  examine, scan, search, validate_no_cycle,
}
use gnomon.Dependence.Requests.{
  SourceRelationshipCreate, set, SourceRelationshipMutation, Normalized, request_endpoints,
  sorted_ends, normalize_create, has_source, direction_error, operation_change,
  canonical_create_request, canonical_mutation_request, canonical_reversal_request,
}
use gnomon.Dependence.Journal.{
  Context, authorize, commit_create, commit_change, get_relationship, replace_relationship,
}
use gnomon.Dependence.Commands.{
  pair_exists, check_create, create, check_cycle, check_mutation, mutate, target_change,
  check_reversal, reverse,
}
use gnomon.Dependence.History.{order_by_revision, insert_by_revision}
use gnomon.Dependence.Acyclic.{answer}

unfoldable pub program : Unit {0}
unfolding stage latest stamp parse_state authority_epoch is_always_safe allows bootstrap_incomplete
    bootstrap_leftover validation_misplaced load require_capability require_locked_capability
    directional_endpoints insert_by_id order_by_id incident edges_query follow follow_record examine
    scan search validate_no_cycle request_endpoints sorted_ends normalize_create has_source
    direction_error operation_change authorize commit_create commit_change get_relationship
    replace_relationship pair_exists check_create create check_cycle check_mutation mutate
    target_change check_reversal reverse order_by_revision insert_by_revision answer
    canonical_create_request canonical_mutation_request canonical_reversal_request
program = tt

abbrev pub normal_row : SecurityStateRecord
normal_row = record {
  state = "normal";
  version = 1;
  authority_epoch_id = 77;
  recovery_bootstrap_pending = false;
  recovery_bootstrap_started_at = none;
  recovery_bootstrap_from_state = none;
  recovery_bootstrap_from_version = none;
  reconstruction_validation_pending = false;
}

abbrev pub context : Context
context = record {
  limits = default_limits;
  actor_id = 111 ∷ [];
  now = 500;
  fresh_relationship_id = 200;
  fresh_change_id = 2000;
}

-- Source 10 derives from source 20.
abbrev pub first : SourceRelationship
first = record {
  relationship_id = 100;
  task_id = 1;
  source_low_id = 10;
  source_high_id = 20;
  kind = derived_from;
  direction = low_to_high;
  lifecycle = active;
  revision = 1;
  latest_change_id = 1000;
  updated_at = 400;
}

abbrev pub first_change : SourceRelationshipChange
first_change = record {
  change_id = 1000;
  operation_id = 6;
  relationship_id = 100;
  task_id = 1;
  previous_revision = 0;
  revision = 1;
  operation = creation;
  previous_state = none;
  resulting_state = first;
  actor_id = 111 ∷ [];
  reason = 120 ∷ [];
  authority_epoch_id = 77;
  security_state_version = 1;
  reverses_change_id = none;
  command_request = none;
  created_at = 400;
}

abbrev pub before : DependenceDb
before = record {
  tasks = 1 ∷ [];
  sources = (10, 1) ∷ (20, 1) ∷ (30, 1) ∷ [];
  security = some normal_row;
  relationships = first ∷ [];
  changes = first_change ∷ [];
  events = [];
}

-- Source 20 derives from source 30.
abbrev pub request : SourceRelationshipCreate
request = record {
  derived_source_id = some 20;
  upstream_source_id = some 30;
  source_a_id = none;
  source_b_id = none;
  kind = derived_from;
  reason = 121 ∷ [];
  operation_id = 7;
}

abbrev pub normalized : Normalized
normalized = record {
  derived_id = 20;
  upstream_id = 30;
  low_id = 20;
  high_id = 30;
  direction = low_to_high;
}

abbrev pub authority : PersistedSecurityState
authority = record {
  state = normal;
  version = 1;
  authority_epoch_id = 77;
  recovery_bootstrap_pending = false;
  reconstruction_validation_pending = false;
}

abbrev pub created : SourceRelationship × DependenceDb
created = commit_create context 1 request normalized authority before

-- The same creation, sent again a little later.
abbrev pub later : Context
later = record context { now = 900; fresh_relationship_id = 201; fresh_change_id = 2001 }

abbrev pub turn : SourceRelationshipMutation
turn = record {
  relationship_id = 100;
  expected_revision = 1;
  operation = set;
  lifecycle = none;
  direction = some high_to_low;
  reason = 122 ∷ [];
  operation_id = 8;
}

abbrev pub turned : SourceRelationship × DependenceDb
turned =
    commit_change context 1 first active high_to_low setting 8 turn.reason authority
      (canonical_mutation_request context.actor_id turn derived_from high_to_low active) none before
