-- ===== src/Research/Status.antt =====
-- The statuses of `change_status` that close an investigation, across the calls of the service.
use gnomon.Prelude.{
  ℕ, ◌≡◌, inl, inr, arith, Bool, true, false, Option, none, List, ok, any, All, Text, Bool-cases,
  Option-cases, Result-cases,
}
use gnomon.Security.Store.{SecurityStateRecord, require_locked_capability}
use gnomon.Security.Capability.{memory_mutation}
use gnomon.Research.Model.{
  TaskStatus, concluded, abandoned, archived, ResearchCycle, ResearchTask, CycleAttempt,
  CycleRecoveryCreate, TaskStatusChange, CycleOutcomeCreate, ResearchDb, is_active, same_status,
}
use gnomon.Research.Outcome.{Snapshot, merge_outcome, check_outcome}
use gnomon.Research.Edit.{get_cycle}
use gnomon.Research.Start.{
  StartOptions, plan_body, plan_next_cycle, start_found, start_body, start_cycle,
}
use gnomon.Research.Finish.{
  recover_body, recover_cycle, record_found, record_body, record_cycle_outcome,
}
use gnomon.Research.Service.{
  allowed_statuses, change_body, change_status, Request, planning, starting, recovering, recording,
  changing, perform,
}
use gnomon.Research.Edits.{edit-All, allowed-cases}

abbrev pub is_closed : TaskStatus → Bool
is_closed concluded = true
is_closed abandoned = true
is_closed archived = true
is_closed _ = false

-- What an edit keeps.
abbrev Keeps : ResearchTask → ResearchTask → Type 0
Keeps t t' = (t'.id ≡ t.id) × (is_closed t.status ≡ true → is_closed t'.status ≡ true)

plan-Keeps :
    (now : ℕ) (objectives : List Text) (t t' : ResearchTask) (a a' : List CycleAttempt)
    → plan_body now objectives t a ≡ ok (t', a')
    → Keeps t t'
unfolding plan_body
plan-Keeps now objectives t t' a a' h = (ground arith, λ k. ground arith)

start-Keeps :
    (now number : ℕ) (options : StartOptions) (t t' : ResearchTask) (a a' : List CycleAttempt)
    → start_body now number options t a ≡ ok (t', a')
    → Keeps t t'
unfolding start_body start_found
start-Keeps now number options t t' a a' h = elim (Option-cases (get_cycle number t.cycles)) [
  | inl missing ↦ absurd (ground arith)
  | inr (cycle, found) ↦ elim (Bool-cases (is_active cycle.status)) [
    | inl on ↦ (ground arith, λ k. ground arith)
    | inr off ↦ (ground arith, λ k. ground arith)
  ]
]

recover-Keeps :
    (fingerprint : TaskStatus → ResearchCycle → ℕ) (now number : ℕ) (request : CycleRecoveryCreate)
    (t t' : ResearchTask) (a a' : List CycleAttempt)
    → recover_body fingerprint now number request t a ≡ ok (t', a')
    → Keeps t t'
unfolding recover_body
recover-Keeps fingerprint now number request t t' a a' h =
    elim (Option-cases (get_cycle number t.cycles)) [
      | inl missing ↦ absurd (ground arith)
      | inr (cycle, found) ↦ (ground arith, λ k. ground arith)
    ]

record-Keeps :
    (now number : ℕ) (snapshot : Snapshot) (outcome : CycleOutcomeCreate) (required : Bool)
    (security : Option SecurityStateRecord) (t t' : ResearchTask) (a a' : List CycleAttempt)
    → record_body now number snapshot outcome required security t a ≡ ok (t', a')
    → Keeps t t'
unfolding record_body record_found
record-Keeps now number snapshot outcome required security t t' a a' h =
    elim (Result-cases (require_locked_capability security memory_mutation none)) [
      | inr (e, denied) ↦ absurd (ground arith)
      | inl (p, granted) ↦ elim (Option-cases (get_cycle number t.cycles)) [
        | inl missing ↦ absurd (ground arith)
        | inr (cycle, found) ↦
            elim (Result-cases (check_outcome snapshot cycle (merge_outcome cycle outcome))) [
              | inr (e, bad) ↦ absurd (ground arith)
              | inl (u, passed) ↦ (ground arith, λ k. ground arith)
            ]
      ]
    ]

allowed_closed :
    (s s' : TaskStatus)
    → any (λ x. same_status x s') (allowed_statuses s) ≡ true
    → is_closed s ≡ true
    → is_closed s' ≡ true
unfolding allowed_statuses
allowed_closed s s' h k = ground arith

same_closed :
    (s s' : TaskStatus) → same_status s s' ≡ true → is_closed s ≡ true → is_closed s' ≡ true
same_closed s s' h k = ground arith

change-Keeps :
    (now : ℕ) (change : TaskStatusChange) (t t' : ResearchTask) (a a' : List CycleAttempt)
    → change_body now change t a ≡ ok (t', a')
    → Keeps t t'
unfolding change_body
change-Keeps now change t t' a a' h = elim (Bool-cases (same_status t.status change.status)) [
  | inl same ↦ (ground arith, λ k. ground arith)
  | inr moved ↦
      elim (Bool-cases (any (λ s. same_status s change.status) (allowed_statuses t.status))) [
        | inr refused ↦ absurd (ground arith)
        | inl granted ↦ (
          ground arith,
          λ k. let closed = allowed_closed t.status change.status granted k in ground arith,
        )
      ]
]

abbrev pub ClosedAt : ℕ → ResearchTask → Type 0
ClosedAt id t = t.id ≡ id → is_closed t.status ≡ true

closed_step : (id : ℕ) (t t' : ResearchTask) → Keeps t t' → ClosedAt id t → ClosedAt id t'
closed_step id t t' keeps closed own = keeps.1 (closed (omega (arith, keeps.0)))

-- Every call that succeeds keeps an investigation closed that has been concluded, abandoned or
-- archived: it is never planned, active, paused or blocked again.
pub perform-ClosedAt :
    (fingerprint : TaskStatus → ResearchCycle → ℕ) (request : Request) (db db' : ResearchDb)
    (id : ℕ)
    → perform fingerprint request db ≡ ok db'
    → All (ClosedAt id) db.tasks
    → All (ClosedAt id) db'.tasks
unfolding perform plan_next_cycle start_cycle recover_cycle record_cycle_outcome change_status
perform-ClosedAt fingerprint (planning now task_id objectives) db db' id h all =
    edit-All (ClosedAt id) (λ t n p. p) task_id (plan_body now objectives) db db'
      (λ t t' a a' done. closed_step id t t' (plan-Keeps now objectives t t' a a' done))
      (allowed-cases _ db _ db' h) all
perform-ClosedAt fingerprint (starting now task_id number options) db db' id h all =
    edit-All (ClosedAt id) (λ t n p. p) task_id (start_body now number options) db db'
      (λ t t' a a' done. closed_step id t t' (start-Keeps now number options t t' a a' done))
      (allowed-cases _ db _ db' h) all
perform-ClosedAt fingerprint (recovering now task_id number request) db db' id h all =
    edit-All (ClosedAt id) (λ t n p. p) task_id (recover_body fingerprint now number request) db db'
      (λ t t' a a' done.
        closed_step id t t' (recover-Keeps fingerprint now number request t t' a a' done))
      (allowed-cases _ db _ db' h) all
perform-ClosedAt fingerprint (recording now task_id number snapshot outcome required) db db' id h
      all =
    edit-All (ClosedAt id) (λ t n p. p) task_id
      (record_body now number snapshot outcome required db.security) db db'
      (λ t t' a a' done.
        closed_step id t t'
          (record-Keeps now number snapshot outcome required db.security t t' a a' done))
      h all
perform-ClosedAt fingerprint (changing now task_id change) db db' id h all =
    edit-All (ClosedAt id) (λ t n p. p) task_id (change_body now change) db db'
      (λ t t' a a' done. closed_step id t t' (change-Keeps now change t t' a a' done))
      (allowed-cases _ db _ db' h) all
