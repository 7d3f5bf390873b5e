-- ===== src/Research/Single.antt =====
-- The active cycle of an investigation, across the calls of the service.
use gnomon.Prelude.{
  ℕ, ◌+◌, ◌≤◌, ◌≡◌, inl, inr, refl, arith, Bool, false, not, ◌&&◌, ◌||◌, Option, none, List, [],
  ◌∷◌, ◌++◌, ok, ◌==◌, any, All, Text, Bool-cases, Option-cases, Result-cases,
}
use gnomon.Security.Store.{SecurityStateRecord, require_locked_capability}
use gnomon.Security.Capability.{memory_mutation}
use gnomon.Research.Model.{
  TaskStatus, ResearchMethod, ResearchCycle, ResearchTask, CycleAttempt, CycleRecoveryCreate,
  TaskStatusChange, CycleOutcomeCreate, OutcomeStatus, ResearchDb, is_active,
}
use gnomon.Research.Outcome.{Snapshot, merge_outcome, check_outcome}
use gnomon.Research.Edit.{get_cycle, update_cycle, last_number}
use gnomon.Research.Start.{
  StartOptions, planned_cycle, plan_body, plan_next_cycle, started, start_found, start_body,
  start_cycle,
}
use gnomon.Research.Finish.{
  recovered, recover_body, recover_cycle, finished, cycle_status, record_found, record_body,
  record_cycle_outcome,
}
use gnomon.Research.Service.{
  change_body, change_status, Request, planning, starting, recovering, recording, changing, perform,
}
use gnomon.Research.Edits.{edit-All, allowed-cases}
use gnomon.Research.Cycles.{
  active_count, IsNumbered, active_none, active_append, IsNumbered-update, active-end, active-start,
  IsNumbered-next,
}

-- The cycles have distinct numbers, and at most one of them is active.
abbrev pub IsSingle : ResearchTask → Type 0
IsSingle t = IsNumbered t.cycles × (active_count t.cycles ≤ 1)

planned_idle :
    (now number : ℕ) (objectives : List Text) (methods : List ResearchMethod)
    → active_count (planned_cycle now number objectives methods ∷ []) ≡ 0
unfolding active_count
planned_idle now number objectives methods = refl

plan-IsSingle :
    (now : ℕ) (objectives : List Text) (t t' : ResearchTask) (a a' : List CycleAttempt)
    → plan_body now objectives t a ≡ ok (t', a')
    → IsSingle t
    → IsSingle t'
unfolding plan_body
plan-IsSingle now objectives t t' a a' h single =
    elim (Bool-cases (any (λ c. is_active c.status) t.cycles)) [
      | inl busy ↦ absurd (ground arith)
      | inr idle ↦
          let c = planned_cycle now (last_number t.cycles + 1) objectives t.methods in
          let written : t'.cycles ≡ t.cycles ++ c ∷ [] = ground arith in
          let none_active = active_none t.cycles idle in
          let more = active_append t.cycles (c ∷ []) in
          let one : active_count (c ∷ []) ≡ 0 =
            planned_idle now (last_number t.cycles + 1) objectives t.methods in
          rw written (IsNumbered-next t.cycles c refl single.0, omega arith)
    ]

change-IsSingle :
    (now : ℕ) (change : TaskStatusChange) (t t' : ResearchTask) (a a' : List CycleAttempt)
    → change_body now change t a ≡ ok (t', a')
    → IsSingle t
    → IsSingle t'
unfolding change_body
change-IsSingle now change t t' a a' h single =
    let same : t'.cycles ≡ t.cycles = ground arith in rw same single

any-weaker :
    (exclusive : Bool) (number : ℕ) (cycles : List ResearchCycle)
    → any (λ c. is_active c.status && (exclusive || not (c.number == number))) cycles ≡ false
    → any (λ c. is_active c.status && not (c.number == number)) cycles ≡ false
any-weaker exclusive number [] h = refl
any-weaker exclusive number (c ∷ cycles) h =
    let rest = any-weaker exclusive number cycles (ground arith) in ground arith

start_found-IsSingle :
    (now number : ℕ) (options : StartOptions) (cycle : ResearchCycle) (t t' : ResearchTask)
    (a a' : List CycleAttempt)
    → start_found now number options cycle t a ≡ ok (t', a')
    → IsSingle t
    → IsSingle t'
unfolding start_found
start_found-IsSingle now number options cycle t t' a a' h single =
    elim (Bool-cases
      (any (λ c. is_active c.status && (options.exclusive || not (c.number == number))) t.cycles)) [
        | inl busy ↦ absurd (ground arith)
        | inr idle ↦ elim (Bool-cases (is_active cycle.status)) [
          | inl on ↦ let same : t'.cycles ≡ t.cycles = ground arith in rw same single
          | inr off ↦
              let written : t'.cycles ≡ update_cycle number (started now options) t.cycles =
                ground arith in
              rw written (
                IsNumbered-update number (started now options) t.cycles (λ c. refl) single.0,
                active-start number (started now options) t.cycles single.0
                    (any-weaker options.exclusive number t.cycles idle),
              )
        ]
      ]

start-IsSingle :
    (now number : ℕ) (options : StartOptions) (t t' : ResearchTask) (a a' : List CycleAttempt)
    → start_body now number options t a ≡ ok (t', a')
    → IsSingle t
    → IsSingle t'
unfolding start_body
start-IsSingle now number options t t' a a' h single =
    elim (Option-cases (get_cycle number t.cycles)) [
      | inl missing ↦ absurd (ground arith)
      | inr (cycle, found) ↦
          start_found-IsSingle now number options cycle t t' a a' (ground arith) single
    ]

-- Ending a cycle keeps the others.
end-IsSingle :
    (number : ℕ) (f : ResearchCycle → ResearchCycle) (t t' : ResearchTask)
    → ((c : ResearchCycle) → (f c).number ≡ c.number)
    → ((c : ResearchCycle) → is_active (f c).status ≡ false)
    → t'.cycles ≡ update_cycle number f t.cycles
    → IsSingle t
    → IsSingle t'
end-IsSingle number f t t' keeps ends written single =
    let fewer = active-end number f t.cycles ends in
    rw written (IsNumbered-update number f t.cycles keeps single.0, omega arith)

recover-IsSingle :
    (fingerprint : TaskStatus → ResearchCycle → ℕ) (now number : ℕ) (request : CycleRecoveryCreate)
    (t t' : ResearchTask) (a a' : List CycleAttempt)
    → recover_body fingerprint now number request t a ≡ ok (t', a')
    → IsSingle t
    → IsSingle t'
unfolding recover_body
recover-IsSingle fingerprint now number request t t' a a' h single =
    elim (Option-cases (get_cycle number t.cycles)) [
      | inl missing ↦ absurd (ground arith)
      | inr (cycle, found) ↦
          end-IsSingle number (recovered now request.reason) t t' (λ c. refl) (λ c. refl)
            (ground arith) single
    ]

ended : (s : OutcomeStatus) → is_active (cycle_status s) ≡ false
ended s = ground arith

record_found-IsSingle :
    (now number : ℕ) (snapshot : Snapshot) (outcome : CycleOutcomeCreate) (cycle : ResearchCycle)
    (t t' : ResearchTask) (a a' : List CycleAttempt)
    → record_found now number snapshot outcome cycle t a ≡ ok (t', a')
    → IsSingle t
    → IsSingle t'
unfolding record_found
record_found-IsSingle now number snapshot outcome cycle t t' a a' h single =
    elim (Result-cases (check_outcome snapshot cycle (merge_outcome cycle outcome))) [
      | inr (e, bad) ↦ absurd (ground arith)
      | inl (u, passed) ↦
          end-IsSingle number (finished now (merge_outcome cycle outcome)) t t' (λ c. refl)
            (λ c. ended (merge_outcome cycle outcome).status) (ground arith) single
    ]

record-IsSingle :
    (now number : ℕ) (snapshot : Snapshot) (outcome : CycleOutcomeCreate) (required : Bool)
    (security : Option SecurityStateRecord) (t t' : ResearchTask) (a a' : List CycleAttempt)
    → record_body now number snapshot outcome required security t a ≡ ok (t', a')
    → IsSingle t
    → IsSingle t'
unfolding record_body
record-IsSingle now number snapshot outcome required security t t' a a' h single =
    elim (Result-cases (require_locked_capability security memory_mutation none)) [
      | inr (e, denied) ↦ absurd (ground arith)
      | inl (p, granted) ↦ elim (Option-cases (get_cycle number t.cycles)) [
        | inl missing ↦ absurd (ground arith)
        | inr (cycle, found) ↦
            record_found-IsSingle now number snapshot outcome cycle t t' a a' (ground arith) single
      ]
    ]

-- Every call that succeeds, with any fingerprint and any planner and snapshot results, keeps the
-- cycles of every investigation distinctly numbered, with at most one of them active.
pub perform-IsSingle :
    (fingerprint : TaskStatus → ResearchCycle → ℕ) (request : Request) (db db' : ResearchDb)
    → perform fingerprint request db ≡ ok db'
    → All IsSingle db.tasks
    → All IsSingle db'.tasks
unfolding perform plan_next_cycle start_cycle recover_cycle record_cycle_outcome change_status
perform-IsSingle fingerprint (planning now task_id objectives) db db' h all =
    edit-All IsSingle (λ t n p. p) task_id (plan_body now objectives) db db'
      (plan-IsSingle now objectives) (allowed-cases _ db _ db' h) all
perform-IsSingle fingerprint (starting now task_id number options) db db' h all =
    edit-All IsSingle (λ t n p. p) task_id (start_body now number options) db db'
      (start-IsSingle now number options) (allowed-cases _ db _ db' h) all
perform-IsSingle fingerprint (recovering now task_id number request) db db' h all =
    edit-All IsSingle (λ t n p. p) task_id (recover_body fingerprint now number request) db db'
      (recover-IsSingle fingerprint now number request) (allowed-cases _ db _ db' h) all
perform-IsSingle fingerprint (recording now task_id number snapshot outcome required) db db' h all =
    edit-All IsSingle (λ t n p. p) task_id
      (record_body now number snapshot outcome required db.security) db db'
      (record-IsSingle now number snapshot outcome required db.security) h all
perform-IsSingle fingerprint (changing now task_id change) db db' h all =
    edit-All IsSingle (λ t n p. p) task_id (change_body now change) db db'
      (change-IsSingle now change) (allowed-cases _ db _ db' h) all
