-- ===== src/Provider/Service.antt =====
-- `ProviderBudgetService`: reserve, dispatch, finish and recover. A call returns its result beside
-- the database that it leaves: the old one where it rolls back, and the one that it committed where
-- `dispatch` commits an expiry and then raises. One argument stands for the clock's readings in a
-- call. The insert's `IntegrityError` is that of a concurrent insert of the same key under another
-- task; calls run one after another here.
use Prim.Native.String.{String}
use gnomon.Prelude.{
  ℕ, ◌+◌, ◌*◌, Bool, true, false, not, ◌||◌, Option, none, some, ◌∷◌, Result, ok, err, leb, ltb,
  ◌==◌, if◌then◌else◌, elem, is_none,
}
use gnomon.Audit.Events.{
  EventType, EventPayload, report_draft_generated, report_draft_failed, report_draft_uncertain,
  report_draft_reserved, report_draft_dispatched, report_draft_expired, stage, operation_only,
}
use gnomon.Security.Capability.{provider_dispatch}
use gnomon.Security.Store.{require_capability}
use gnomon.Provider.Attempts.{
  AttemptStatus, pending, dispatched, unknown, succeeded, failed, Attempt, ProviderDb, is_pending,
  get_attempt, update_attempt, expire, expire_overdue, expiry_events, charged_count,
}

pub data ProviderError : Type 0 where
  task_not_found attempt_missing operation_used : ProviderError
  budget_exceeded capability_denied not_dispatchable expired_before_dispatch : ProviderError
  payload_mismatch conflicting_outcome wrong_task not_recoverable : ProviderError

-- A call's result, and the database after it.
abbrev pub Outcome : Type 0 → Type 0
Outcome A = Result ProviderError A × ProviderDb

abbrev pub Done : Type 0
Done = Outcome (Unit {0})

-- `_audit`
abbrev pub audit : ℕ → Attempt → EventType → EventPayload → ProviderDb → ProviderDb
audit now a event payload db = record db { events = stage now a.task_id event payload db.events }

-- `_lock_attempt`: the attempt, once its task's row is found.
unfoldable pub lock_attempt : ℕ → ProviderDb → Result ProviderError Attempt
lock_attempt operation_id db = elim (get_attempt operation_id db.attempts) [
  | none ↦ err attempt_missing
  | some a ↦ if elem a.task_id db.tasks then ok a else err task_not_found
]

-- One second in the clock's unit.
abbrev pub microseconds : ℕ
microseconds = 1_000_000

abbrev pub new_attempt : (task_id operation_id now timeout_seconds : ℕ) → Attempt
new_attempt task_id operation_id now timeout_seconds = record {
  operation_id = operation_id;
  task_id = task_id;
  status = pending;
  started_at = now;
  expires_at = now + timeout_seconds * microseconds;
  finished_at = none;
  error_reason = none;
}

-- The database after the overdue reservations are expired.
abbrev pub with_expired : (task_id now : ℕ) → ProviderDb → ProviderDb
with_expired task_id now db = record db {
  attempts = expire_overdue task_id now db.attempts;
  events = expiry_events task_id now db.attempts db.events;
}

unfoldable pub reserve :
    (now task_id operation_id limit timeout_seconds : ℕ) → ProviderDb → Outcome Attempt
reserve now task_id operation_id limit timeout_seconds db =
    if not (elem task_id db.tasks)
    then (err task_not_found, db)
    else if not (is_none (get_attempt operation_id db.attempts))
    then (err operation_used, db)
    else (let flushed = with_expired task_id now db in
        if leb limit (charged_count task_id flushed.attempts)
        then (err budget_exceeded, db)
        else (let a = new_attempt task_id operation_id now timeout_seconds in
            (
              ok a,
              audit now a report_draft_reserved (operation_only operation_id)
                  (record flushed { attempts = a ∷ flushed.attempts }),
            )))

unfoldable pub dispatch_locked : (now operation_id : ℕ) → Attempt → ProviderDb → Done
dispatch_locked now operation_id a db =
    if not (is_pending a.status)
    then (err not_dispatchable, db)
    else if leb a.expires_at now
    then (
      err expired_before_dispatch,
      audit now a report_draft_expired (operation_only operation_id)
          (record db { attempts = update_attempt operation_id (expire now) db.attempts }),
    )
    else (
      ok tt,
      audit now a report_draft_dispatched (operation_only operation_id) (record db {
        attempts =
            update_attempt operation_id (λ row. record row { status = dispatched }) db.attempts;
      }),
    )

unfoldable pub dispatch : (now operation_id : ℕ) → ProviderDb → Done
dispatch now operation_id db = elim (require_capability db.security provider_dispatch none) [
  | err e ↦ (err capability_denied, db)
  | ok _ ↦ elim (lock_attempt operation_id db) [
    | err e ↦ (err e, db)
    | ok a ↦ dispatch_locked now operation_id a db
  ]
]

-- The literal statuses that `finish` takes.
pub data FinalStatus : Type 0 where
  success failure uncertain : FinalStatus

abbrev pub final_status : FinalStatus → AttemptStatus
final_status success = succeeded
final_status failure = failed
final_status uncertain = unknown

abbrev pub final_event : FinalStatus → EventType
final_event success = report_draft_generated
final_event failure = report_draft_failed
final_event uncertain = report_draft_uncertain

abbrev pub final_time : ℕ → FinalStatus → Option ℕ
final_time now uncertain = none
final_time now _ = some now

-- `attempt.status == status`
abbrev pub is_final : AttemptStatus → FinalStatus → Bool
is_final succeeded success = true
is_final failed failure = true
is_final unknown uncertain = true
is_final _ _ = false

-- An outcome is accepted from a dispatched or an unknown attempt, and a failure from a pending one.
abbrev pub accepts : AttemptStatus → FinalStatus → Bool
accepts dispatched _ = true
accepts unknown _ = true
accepts pending failure = true
accepts _ _ = false

unfoldable pub finish_locked :
    (now operation_id : ℕ)
    → FinalStatus
    → Option String
    → EventPayload
    → Attempt
    → ProviderDb
    → Done
finish_locked now operation_id status reason payload a db =
    if is_final a.status status
    then (ok tt, db)
    else if not (accepts a.status status)
    then (err conflicting_outcome, db)
    else (
      ok tt,
      audit now a (final_event status) payload (record db {
        attempts =
            update_attempt operation_id
              (λ row. record row {
                status = final_status status;
                finished_at = final_time now status;
                error_reason = reason;
              })
              db.attempts;
      }),
    )

-- The payload that `_audit` falls back on, and the check of a given one.
abbrev pub payload_or : ℕ → Option EventPayload → EventPayload
payload_or operation_id none = operation_only operation_id
payload_or operation_id (some p) = p

unfoldable pub finish :
    (now operation_id : ℕ) → FinalStatus → Option String → Option EventPayload → ProviderDb → Done
finish now operation_id status reason payload db = elim (lock_attempt operation_id db) [
  | err e ↦ (err e, db)
  | ok a ↦
      if not ((payload_or operation_id payload).operation_id == operation_id)
      then (err payload_mismatch, db)
      else finish_locked now operation_id status reason (payload_or operation_id payload) a db
]

abbrev pub is_dispatched : AttemptStatus → Bool
is_dispatched dispatched = true
is_dispatched _ = false

abbrev pub is_unknown : AttemptStatus → Bool
is_unknown unknown = true
is_unknown _ = false

abbrev pub recovery_payload : ℕ → EventPayload
recovery_payload operation_id = record (operation_only operation_id) {
  actor = some "local_operator";
  reason = some "provider_outcome_unknown";
}

unfoldable pub recover : (now task_id operation_id : ℕ) → ProviderDb → Done
recover now task_id operation_id db = elim (lock_attempt operation_id db) [
  | err e ↦ (err e, db)
  | ok a ↦
      if not (a.task_id == task_id)
      then (err wrong_task, db)
      else if is_unknown a.status
      then (ok tt, db)
      else if not (is_dispatched a.status) || ltb now a.expires_at
      then (err not_recoverable, db)
      else finish now operation_id uncertain (some "provider_outcome_unknown")
          (some (recovery_payload operation_id)) db
]
