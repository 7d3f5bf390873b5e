-- ===== src/Research/Finish.antt =====
-- The end of a cycle (`recover_cycle` and `record_cycle_outcome`). The fingerprint of a cycle (a
-- SHA-256 digest) and the planning snapshot are arguments.
use Prim.Native.String.{String}
use gnomon.Prelude.{
  ℕ, Bool, not, ◌&&◌, Option, none, some, List, [], ◌∷◌, ◌++◌, Result, ok, err, ◌>>◌, raise_if, ltb,
  ◌==◌, if◌then◌else◌, Text,
}
use gnomon.Security.Capability.{memory_mutation}
use gnomon.Security.Store.{SecurityStateRecord, require_locked_capability}
use gnomon.Research.Model.{
  TaskStatus, paused, CycleStatus, ResearchCycle, ResearchTask, AttemptStatus, interrupted,
  CycleAttempt, CycleRecoveryCreate, OutcomeStatus, completed, blocked, failed, CycleOutcomeCreate,
  ResearchDb, ResearchError, cycle_not_found, capability_denied, only_active, progress_changed,
  task_stopped, repeated_result, is_task_active, is_active, is_running,
}
use gnomon.Research.Outcome.{Snapshot, merge_outcome, repeats_index, check_outcome}
use gnomon.Research.Edit.{Edited, edit, allowed, get_cycle, update_cycle}

-- A running attempt at the cycle.
abbrev pub is_current : (task_id number : ℕ) → CycleAttempt → Bool
is_current task_id number a =
    a.task_id == task_id && (a.cycle_number == number && is_running a.status)

-- The start of the latest running attempt.
unfoldable pub latest_start : (task_id number : ℕ) → List CycleAttempt → Option ℕ
latest_start task_id number [] = none
latest_start task_id number (a ∷ attempts) =
    let rest = latest_start task_id number attempts in
    if is_current task_id number a
    then some (elim rest [
      | none ↦ a.started_at
      | some m ↦ if ltb a.started_at m then m else a.started_at
    ])
    else rest

abbrev pub interrupt : (now : ℕ) → Text → CycleAttempt → CycleAttempt
interrupt now reason a = record a {
  status = interrupted;
  stage = "INTERRUPTED";
  finished_at = some now;
  recovery_reason = some reason;
}

unfoldable pub interrupt_at :
    (now task_id number start : ℕ) → Text → List CycleAttempt → List CycleAttempt
interrupt_at now task_id number start reason [] = []
interrupt_at now task_id number start reason (a ∷ attempts) =
    if is_current task_id number a && a.started_at == start
    then interrupt now reason a ∷ attempts
    else a ∷ interrupt_at now task_id number start reason attempts

unfoldable pub interrupt_latest :
    (now task_id number : ℕ) → Text → List CycleAttempt → List CycleAttempt
interrupt_latest now task_id number reason attempts = elim (latest_start task_id number attempts) [
  | none ↦ attempts
  | some start ↦ interrupt_at now task_id number start reason attempts
]

-- "Operator recovery: "
abbrev pub recovery_prefix : Text
recovery_prefix =
    79 ∷ 112 ∷ 101 ∷ 114 ∷ 97 ∷ 116 ∷ 111 ∷ 114 ∷ 32 ∷ 114 ∷ 101 ∷ 99 ∷ 111 ∷ 118 ∷ 101 ∷ 114 ∷ 121
    ∷ 58 ∷ 32 ∷ []

abbrev pub recovered : (now : ℕ) → Text → ResearchCycle → ResearchCycle
recovered now reason c = record c {
  status = failed;
  result_summary = some (recovery_prefix ++ reason);
  recovery_reason = some reason;
  unresolved_objectives = c.objectives;
  completed_at = some now;
}

unfoldable pub recover_body :
    (fingerprint : TaskStatus → ResearchCycle → ℕ) (now number : ℕ)
    → CycleRecoveryCreate
    → ResearchTask
    → List CycleAttempt
    → Edited
recover_body fingerprint now number request task attempts = elim (get_cycle number task.cycles) [
  | none ↦ err cycle_not_found
  | some cycle ↦
      raise_if (not (is_active cycle.status)) only_active
      >> (raise_if (not (request.expected_fingerprint == fingerprint task.status cycle))
            progress_changed
          >> ok (
            record task {
              cycles = update_cycle number (recovered now request.reason) task.cycles;
              status = if is_task_active task.status then paused else task.status;
              updated_at = now;
            },
            interrupt_latest now task.id number request.reason attempts,
          ))
]

unfoldable pub recover_cycle :
    (fingerprint : TaskStatus → ResearchCycle → ℕ) (now task_id number : ℕ)
    → CycleRecoveryCreate
    → ResearchDb
    → Result ResearchError ResearchDb
recover_cycle fingerprint now task_id number request db =
    allowed memory_mutation db (edit task_id (recover_body fingerprint now number request) db)

abbrev pub cycle_status : OutcomeStatus → CycleStatus
cycle_status completed = completed
cycle_status blocked = blocked
cycle_status failed = failed

abbrev pub attempt_status : OutcomeStatus → AttemptStatus
attempt_status completed = completed
attempt_status blocked = blocked
attempt_status failed = failed

-- `outcome.status.upper()`
abbrev pub attempt_stage : OutcomeStatus → String
attempt_stage completed = "COMPLETED"
attempt_stage blocked = "BLOCKED"
attempt_stage failed = "FAILED"

-- "cycle_outcome_recorded"
abbrev pub outcome_reason : Text
outcome_reason =
    99 ∷ 121 ∷ 99 ∷ 108 ∷ 101 ∷ 95 ∷ 111 ∷ 117 ∷ 116 ∷ 99 ∷ 111 ∷ 109 ∷ 101 ∷ 95 ∷ 114 ∷ 101 ∷ 99
    ∷ 111 ∷ 114 ∷ 100 ∷ 101 ∷ 100 ∷ []

-- Every running attempt at the cycle ends with the outcome.
unfoldable pub end_attempts :
    (now task_id number : ℕ) → OutcomeStatus → List CycleAttempt → List CycleAttempt
end_attempts now task_id number status [] = []
end_attempts now task_id number status (a ∷ attempts) =
    (if is_current task_id number a
      then record a {
        status = attempt_status status;
        stage = attempt_stage status;
        finished_at = some now;
        recovery_reason = some outcome_reason;
      }
      else a)
    ∷ end_attempts now task_id number status attempts

abbrev pub finished : (now : ℕ) → CycleOutcomeCreate → ResearchCycle → ResearchCycle
finished now outcome c = record c {
  objective_results = outcome.objective_results;
  status = cycle_status outcome.status;
  result_summary = some outcome.result_summary;
  evidence_ids = outcome.evidence_ids;
  claim_ids = outcome.claim_ids;
  unresolved_objectives = outcome.unresolved_objectives;
  attempted_objectives = outcome.attempted_objectives;
  completed_at = some now;
}

unfoldable pub record_found :
    (now number : ℕ)
    → Snapshot
    → CycleOutcomeCreate
    → ResearchCycle
    → ResearchTask
    → List CycleAttempt
    → Edited
record_found now number snapshot outcome cycle task attempts =
    let merged = merge_outcome cycle outcome in
    raise_if (not (is_active cycle.status)) only_active
    >> (raise_if (repeats_index outcome.objective_results) repeated_result
        >> (check_outcome snapshot cycle merged
            >> ok (
              record task {
                cycles = update_cycle number (finished now merged) task.cycles;
                updated_at = now;
              },
              end_attempts now task.id number outcome.status attempts,
            )))

unfoldable pub record_body :
    (now number : ℕ)
    → Snapshot
    → CycleOutcomeCreate
    → (require_active_task : Bool) → Option SecurityStateRecord
    → ResearchTask
    → List CycleAttempt
    → Edited
record_body now number snapshot outcome require_active_task security task attempts =
    elim (require_locked_capability security memory_mutation none) [
      | err e ↦ err capability_denied
      | ok _ ↦
          raise_if (require_active_task && not (is_task_active task.status)) task_stopped
          >> elim (get_cycle number task.cycles) [
            | none ↦ err cycle_not_found
            | some cycle ↦ record_found now number snapshot outcome cycle task attempts
          ]
    ]

unfoldable pub record_cycle_outcome :
    (now task_id number : ℕ)
    → Snapshot
    → CycleOutcomeCreate
    → (require_active_task : Bool) → ResearchDb
    → Result ResearchError ResearchDb
record_cycle_outcome now task_id number snapshot outcome require_active_task db =
    edit task_id (record_body now number snapshot outcome require_active_task db.security) db
