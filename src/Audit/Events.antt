-- ===== src/Audit/Events.antt =====
-- Staging an audit event (application/audit_service.py, `AuditService.stage`). The rows already
-- committed and those pending in the session are one list here, newest first; an event's own
-- identifier is left out, since nothing reads it back.
use Prim.Native.String.{String}
use gnomon.Prelude.{Bool, ℕ, ◌+◌, Option, none, some, List, [], ◌∷◌, leb, ltb, ◌==◌, if◌then◌else◌}

pub data EventType : Type 0 where
  task_created memory_changed memory_reversed task_status_changed cycle_planned : EventType
  cycle_started cycle_outcome_recorded objective_reviewed cycle_progress_recorded : EventType
  cycle_recovered cycle_security_interrupted source_created source_reused : EventType
  agent_observation_recorded agent_observation_failed source_dependence_changed : EventType
  stopping_decision_recorded claim_created claim_reused extraction_completed : EventType
  extraction_failed retrieval_failed report_draft_generated report_draft_failed : EventType
  report_draft_uncertain report_draft_reserved report_draft_dispatched : EventType
  report_draft_expired security_event : EventType

-- A literal is its text; a digest is its number.
pub record EventPayload : Type 0 where
  pub operation_id : ℕ
  pub change_id : Option ℕ
  pub target_id : Option ℕ
  pub target_type : Option String
  pub actor : Option String
  pub attempt_id : Option ℕ
  pub authority_epoch_id : Option ℕ
  pub security_state_version : Option ℕ
  pub security_state : Option String
  pub from_attempt_status : Option String
  pub to_attempt_status : Option String
  pub memory_operation : Option String
  pub previous_version : Option ℕ
  pub version : Option ℕ
  pub from_status : Option String
  pub to_status : Option String
  pub cycle_number : Option ℕ
  pub objective_index : Option ℕ
  pub source_id : Option ℕ
  pub claim_id : Option ℕ
  pub relationship_id : Option ℕ
  pub related_source_id : Option ℕ
  pub dependence_kind : Option String
  pub dependence_direction : Option String
  pub relationship_lifecycle : Option String
  pub relationship_revision : Option ℕ
  pub stopping_decision_id : Option ℕ
  pub stopping_reason : Option String
  pub stopping_revision : Option ℕ
  pub evidence_fingerprint : Option ℕ
  pub claim_count : Option ℕ
  pub unresolved_count : Option ℕ
  pub provider : Option String
  pub model : Option String
  pub input_tokens : Option ℕ
  pub output_tokens : Option ℕ
  pub total_tokens : Option ℕ
  pub latency_ms : Option ℕ
  pub previous_state_digest : Option ℕ
  pub new_state_digest : Option ℕ
  pub provenance : Option (List ℕ)
  pub result : Option String
  pub change_reason : Option String
  pub reason : Option String

-- `EventPayload(operation_id=...)`
abbrev pub operation_only : ℕ → EventPayload
operation_only id = record {
  operation_id = id;
  change_id = none;
  target_id = none;
  target_type = none;
  actor = none;
  attempt_id = none;
  authority_epoch_id = none;
  security_state_version = none;
  security_state = none;
  from_attempt_status = none;
  to_attempt_status = none;
  memory_operation = none;
  previous_version = none;
  version = none;
  from_status = none;
  to_status = none;
  cycle_number = none;
  objective_index = none;
  source_id = none;
  claim_id = none;
  relationship_id = none;
  related_source_id = none;
  dependence_kind = none;
  dependence_direction = none;
  relationship_lifecycle = none;
  relationship_revision = none;
  stopping_decision_id = none;
  stopping_reason = none;
  stopping_revision = none;
  evidence_fingerprint = none;
  claim_count = none;
  unresolved_count = none;
  provider = none;
  model = none;
  input_tokens = none;
  output_tokens = none;
  total_tokens = none;
  latency_ms = none;
  previous_state_digest = none;
  new_state_digest = none;
  provenance = none;
  result = none;
  change_reason = none;
  reason = none;
}

pub record ResearchEvent : Type 0 where
  pub task_id : ℕ
  pub event_type : EventType
  pub payload : EventPayload
  pub created_at : ℕ

abbrev later : ℕ → Option ℕ → ℕ
later a none = a
later a (some b) = if ltb a b then b else a

-- The greatest time among the events of the task.
unfoldable pub latest : ℕ → List ResearchEvent → Option ℕ
latest task_id [] = none
latest task_id (e ∷ events) =
    if e.task_id == task_id
    then some (later e.created_at (latest task_id events))
    else latest task_id events

-- The clock's reading, or one microsecond past the task's latest event.
unfoldable pub stamp : ℕ → Option ℕ → ℕ
stamp now none = now
stamp now (some previous) = if leb now previous then previous + 1 else now

unfoldable pub stage :
    (now task_id : ℕ) → EventType → EventPayload → List ResearchEvent → List ResearchEvent
unfolding latest stamp
stage now task_id event_type payload events =
    record {
      task_id = task_id;
      event_type = event_type;
      payload = payload;
      created_at = stamp now (latest task_id events);
    }
    ∷ events

-- `AuditService.record_failure`: the caller's transaction is rolled back to the committed events, and
-- the event of a task that exists is committed by itself.
unfoldable pub record_failure :
    (now task_id : ℕ)
    → (task_exists : Bool) → EventType
    → EventPayload
    → (committed : List ResearchEvent) → List ResearchEvent
record_failure now task_id task_exists event_type payload committed =
    if task_exists then stage now task_id event_type payload committed else committed
