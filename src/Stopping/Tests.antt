-- ===== src/Stopping/Tests.antt =====
-- Calls of the stopping-decision service, and its theorems at a concrete input.
use gnomon.Prelude.{
  sort_texts, Bool, ◌≡◌, refl, false, true, none, some, [], ◌∷◌, ok, is_blank, is_space, ℕ_discrete,
  Text-discrete,
}
use gnomon.Security.Model.{parse_state, authority_epoch}
use gnomon.Security.Capability.{allows, is_always_safe}
use gnomon.Security.Store.{
  load, bootstrap_incomplete, bootstrap_leftover, validation_misplaced, require_capability,
  require_locked_capability,
}
use gnomon.Audit.Events.{latest, stamp, stage}
use gnomon.Research.Model.{active}
use gnomon.Research.Edit.{get_task, replace_task}
use gnomon.Research.Outcome.{dedup}
use gnomon.Stopping.Model.{
  resource_limited, pos, StoppingDecisionCreate, StoppingDecision, StoppingDb,
  InvestigationSnapshot, CanonicalRequest-discrete,
}
use gnomon.Stopping.Readiness.{
  Review, strip, cycle_outstanding, outstanding, unresolved_of, labels_where, contradictory_of,
  latest_reviews, stale_of, incomplete_dependence, readiness_items, readiness_from_snapshot,
}
use gnomon.Stopping.Requests.{
  objective_cycle, objective_cycle_number, check_objectives, validate_references, canonical_request,
  retry_decision, parse_reason, record_from_decision, decision_from_record,
}
use gnomon.Stopping.Service.{
  StoppingContext, has_active_attempt, decision_of, operation_change, item_limitations,
  runtime_limitations, merged_limitations, new_decision, new_change, commit_decision,
  check_decision, lock_task, decide, get,
}
use gnomon.Stopping.Limitations.{IsMerged, decide-IsMerged}
use gnomon.Stopping.Concluded.{IsConclusive, decide-IsConclusive}
use gnomon.Stopping.Retry.{get-decide, decide-again}

unfoldable program : Unit {0}
unfolding parse_state authority_epoch allows is_always_safe load bootstrap_incomplete
    bootstrap_leftover validation_misplaced require_capability require_locked_capability latest
    stamp stage get_task replace_task dedup strip cycle_outstanding outstanding unresolved_of
    labels_where sort_texts contradictory_of latest_reviews stale_of incomplete_dependence
    readiness_items readiness_from_snapshot objective_cycle objective_cycle_number check_objectives
    validate_references canonical_request retry_decision parse_reason record_from_decision
    decision_from_record has_active_attempt decision_of operation_change item_limitations
    runtime_limitations merged_limitations new_decision new_change commit_decision check_decision
    lock_task decide get is_blank is_space ℕ_discrete Text-discrete CanonicalRequest-discrete
program = tt

-- One source, and a second cycle with an open objective.
abbrev snapshot : InvestigationSnapshot
snapshot = record {
  cycles =
      record {
        number = 1;
        status = active;
        objectives = (97 ∷ []) ∷ [];
        unresolved_objectives = [];
        objective_reviews = [];
      }
      ∷ [];
  hypotheses = [];
  claims = [];
  sources = 20 ∷ [];
  source_dependence = none;
}

abbrev review : Review
review = record {
  reviewed_complete = λ objective s. false;
  review_is_current = λ r s. true;
  fingerprint = λ s items. 7;
  detail_text = λ detail. 100 ∷ [];
}

abbrev context : StoppingContext
context = record {
  actor_id = 65 ∷ [];
  now = 50;
  decision_id = 500;
  change_id = 501;
  review = review;
  snapshot = snapshot;
}

abbrev later : StoppingContext
later = record context { now = 90; decision_id = 502; change_id = 503 }

abbrev request : StoppingDecisionCreate
request = record {
  reason = resource_limited;
  rationale = 66 ∷ [];
  expected_status = active;
  expected_revision = 3;
  expected_evidence_fingerprint = 7;
  source_ids = 20 ∷ 20 ∷ [];
  claim_ids = [];
  objective_cycle_number = none;
  objective_indices = pos 0 ∷ [];
  review_ids = [];
  limitations = (67 ∷ []) ∷ [];
  runtime_limit_evidence = [];
  operation_id = 600;
}

abbrev before : StoppingDb
before = record {
  security = some (record {
    state = "normal";
    version = 1;
    authority_epoch_id = 1;
    recovery_bootstrap_pending = false;
    recovery_bootstrap_started_at = none;
    recovery_bootstrap_from_state = none;
    recovery_bootstrap_from_version = none;
    reconstruction_validation_pending = false;
  });
  tasks =
      record { id = 1; methods = []; status = active; cycles = []; updated_at = 10; revision = 3 }
      ∷ [];
  attempts = [];
  decisions = [];
  changes = [];
  events = [];
}

decided :
    (d : StoppingDecision) × (db : StoppingDb) × (decide context 1 request before ≡ ok (d, db))
unfolding program
decided = (_, _, refl)

before-IsConclusive : IsConclusive before
before-IsConclusive = record { single = tt; concluded = λ d member. absurd member }

decide-IsMerged_example :
    (attempt : Bool) × IsMerged review
      (readiness_items review snapshot attempt)
      request
      (decided.0).limitations
unfolding program decided
decide-IsMerged_example =
    decide-IsMerged context 1 request before decided.0 decided.1 decided.2 refl

decide-IsConclusive_example : IsConclusive decided.1
unfolding program decided
decide-IsConclusive_example =
    decide-IsConclusive context 1 request before decided.0 decided.1 decided.2 before-IsConclusive

get-decide_example : get 1 decided.1 ≡ ok decided.0
unfolding program decided
get-decide_example = get-decide context 1 request before decided.0 decided.1 decided.2 refl

decide-again_example : decide later 1 request decided.1 ≡ ok (decided.0, decided.1)
unfolding program decided
decide-again_example =
    decide-again context later 1 request before decided.0 decided.1 decided.2 refl refl
