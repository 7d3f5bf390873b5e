-- ===== src/Research/Service.antt =====
-- The status of an investigation (`change_status`), and a call of the service.
use gnomon.Prelude.{
  ℕ, Bool, not, List, [], ◌∷◌, Result, ok, ◌>>◌, raise_if, if◌then◌else◌, any, Text,
}
use gnomon.Security.Capability.{memory_mutation}
use gnomon.Research.Model.{
  TaskStatus, planned, active, paused, concluded, abandoned, archived, ResearchCycle, ResearchTask,
  CycleAttempt, CycleRecoveryCreate, TaskStatusChange, blocked, CycleOutcomeCreate, ResearchDb,
  ResearchError, status_changed, status_not_permitted, same_status,
}
use gnomon.Research.Outcome.{Snapshot}
use gnomon.Research.Edit.{Edited, edit, allowed}
use gnomon.Research.Start.{StartOptions, plan_next_cycle, start_cycle}
use gnomon.Research.Finish.{recover_cycle, record_cycle_outcome}

-- The table `allowed` of `change_status`.
unfoldable pub allowed_statuses : TaskStatus → List TaskStatus
allowed_statuses planned = active ∷ blocked ∷ abandoned ∷ []
allowed_statuses active = paused ∷ blocked ∷ concluded ∷ abandoned ∷ []
allowed_statuses paused = active ∷ blocked ∷ concluded ∷ abandoned ∷ []
allowed_statuses blocked = active ∷ paused ∷ concluded ∷ abandoned ∷ []
allowed_statuses concluded = archived ∷ []
allowed_statuses abandoned = archived ∷ []
allowed_statuses archived = []

unfoldable pub change_body :
    (now : ℕ) → TaskStatusChange → ResearchTask → List CycleAttempt → Edited
change_body now change task attempts =
    if same_status task.status change.status
    then ok (task, attempts)
    else (raise_if (not (same_status task.status change.expected_status)) status_changed
        >> (raise_if (not (any (λ s. same_status s change.status) (allowed_statuses task.status)))
              status_not_permitted
            >> ok (record task { status = change.status; updated_at = now }, attempts)))

unfoldable pub change_status :
    (now task_id : ℕ) → TaskStatusChange → ResearchDb → Result ResearchError ResearchDb
change_status now task_id change db =
    allowed memory_mutation db (edit task_id (change_body now change) db)

-- A call that edits an investigation.
pub data Request : Type 0 where
  planning : (now task_id : ℕ) → List Text → Request
  starting : (now task_id number : ℕ) → StartOptions → Request
  recovering : (now task_id number : ℕ) → CycleRecoveryCreate → Request
  recording :
      (now task_id number : ℕ)
      → Snapshot
      → CycleOutcomeCreate
      → (require_active_task : Bool) → Request
  changing : (now task_id : ℕ) → TaskStatusChange → Request

unfoldable pub perform :
    (fingerprint : TaskStatus → ResearchCycle → ℕ)
    → Request
    → ResearchDb
    → Result ResearchError ResearchDb
perform fingerprint (planning now task_id objectives) db = plan_next_cycle now task_id objectives db
perform fingerprint (starting now task_id number options) db =
    start_cycle now task_id number options db
perform fingerprint (recovering now task_id number request) db =
    recover_cycle fingerprint now task_id number request db
perform fingerprint (recording now task_id number snapshot outcome required) db =
    record_cycle_outcome now task_id number snapshot outcome required db
perform fingerprint (changing now task_id change) db = change_status now task_id change db
