-- ===== src/Provider/Attempts.antt =====
-- The rows of `ReportGenerationAttemptRecord` (persistence/models.py), and the queries and updates
-- of the service. The operation identifier is the primary key, so the first match is the only one.
use Prim.Native.String.{String}
use gnomon.Prelude.{
  ℕ, ◌+◌, Bool, true, false, ◌&&◌, Option, some, List, [], ◌∷◌, leb, ◌==◌, if◌then◌else◌, find,
}
use gnomon.Audit.Events.{ResearchEvent, report_draft_expired, stage, operation_only}
use gnomon.Security.Store.{SecurityStateRecord}

pub data AttemptStatus : Type 0 where
  pending dispatched unknown succeeded failed expired : AttemptStatus

pub record Attempt : Type 0 where
  pub operation_id : ℕ
  pub task_id : ℕ
  pub status : AttemptStatus
  pub started_at : ℕ
  pub expires_at : ℕ
  pub finished_at : Option ℕ
  pub error_reason : Option String

pub record ProviderDb : Type 0 where
  pub tasks : List ℕ
  pub security : Option SecurityStateRecord
  pub attempts : List Attempt
  -- The newest event first.
  pub events : List ResearchEvent

abbrev pub is_pending : AttemptStatus → Bool
is_pending pending = true
is_pending _ = false

-- `status.in_(("PENDING", "DISPATCHED", "UNKNOWN", "SUCCEEDED"))`
abbrev pub is_charged : AttemptStatus → Bool
is_charged pending = true
is_charged dispatched = true
is_charged unknown = true
is_charged succeeded = true
is_charged _ = false

-- `session.get(ReportGenerationAttemptRecord, operation_id)`
unfoldable pub get_attempt : ℕ → List Attempt → Option Attempt
get_attempt id = find (λ a. a.operation_id == id)

-- An assignment to the fields of the row with the key.
unfoldable pub update_attempt : ℕ → (Attempt → Attempt) → List Attempt → List Attempt
update_attempt id f [] = []
update_attempt id f (a ∷ rest) =
    if a.operation_id == id then f a ∷ rest else a ∷ update_attempt id f rest

-- The condition of the query for overdue reservations.
abbrev pub is_overdue : (task_id now : ℕ) → Attempt → Bool
is_overdue task_id now a = a.task_id == task_id && is_pending a.status && leb a.expires_at now

abbrev pub expire : ℕ → Attempt → Attempt
expire now a = record a {
  status = expired;
  finished_at = some now;
  error_reason = some "reservation_expired";
}

-- The loop over the overdue reservations: the rows, and an event for each.
unfoldable pub expire_overdue : (task_id now : ℕ) → List Attempt → List Attempt
expire_overdue task_id now [] = []
expire_overdue task_id now (a ∷ rest) =
    (if is_overdue task_id now a then expire now a else a) ∷ expire_overdue task_id now rest

unfoldable pub expiry_events :
    (task_id now : ℕ) → List Attempt → List ResearchEvent → List ResearchEvent
expiry_events task_id now [] events = events
expiry_events task_id now (a ∷ rest) events = expiry_events task_id now rest (
    if is_overdue task_id now a
    then stage now a.task_id report_draft_expired (operation_only a.operation_id) events
    else events)

-- `count(...)` of the task's charged attempts.
unfoldable pub charged_count : ℕ → List Attempt → ℕ
charged_count task_id [] = 0
charged_count task_id (a ∷ rest) =
    (if a.task_id == task_id && is_charged a.status then 1 else 0) + charged_count task_id rest
