-- ===== src/Provider/Budget.antt =====
-- The reservation limit of a task.
use gnomon.Prelude.{
  ℕ, ◌≤◌, ◌<◌, ◌≡◌, inl, inr, arith, true, List, [], ◌∷◌, ◌==◌, ==_iff, Bool-cases,
}
use gnomon.Audit.Events.{EventType}
use gnomon.Provider.Attempts.{AttemptStatus, ProviderDb, is_charged, charged_count}
use gnomon.Provider.Rows.{charged-update, charged-expire}
use gnomon.Provider.Service.{with_expired, new_attempt}
use gnomon.Provider.Effects.{Move, sends, expires, ends, Update}
use gnomon.Provider.Run.{Command, target, apply, run, unchanged, updated, reserved, apply-Effect}

Move-charged : (s t : AttemptStatus) (e : EventType) → Move s t e → is_charged s ≡ true
Move-charged s t e (sends p q r) = ground arith
Move-charged s t e (expires p q r) = ground arith
Move-charged s t e (ends f h q r) = ground arith

-- A move of an attempt that exists charges no task anew.
pub Update-charged :
    (task_id id : ℕ) (db db' : ProviderDb)
    → Update id db db'
    → charged_count task_id db'.attempts ≤ charged_count task_id db.attempts
Update-charged task_id id db db' u =
    let own = Move-charged u.row.status (u.write u.row).status u.event u.move in
    let moved = charged-update task_id id u.write u.row db.attempts u.found in
    let task = u.keeps_task in rw u.written (ground arith)

-- A reservation adds one charge to its own task, where there is room.
new-within :
    (task_id t id now timeout limit : ℕ) (db : ProviderDb)
    → charged_count t (with_expired t now db).attempts < limit
    → charged_count task_id (with_expired t now db).attempts ≤ charged_count task_id db.attempts
    → charged_count task_id db.attempts ≤ limit
    → charged_count task_id (new_attempt t id now timeout ∷ (with_expired t now db).attempts)
      ≤ limit
unfolding charged_count
new-within task_id t id now timeout limit db room before h = elim (Bool-cases (t == task_id)) [
  | inl own ↦ let same = (==_iff t task_id).0 own in rw (← same) (ground arith)
  | inr other ↦ ground arith
]

module _ (limit : ℕ) where
  apply-within :
      (task_id : ℕ) (c : Command) (db : ProviderDb)
      → charged_count task_id db.attempts ≤ limit
      → charged_count task_id (apply limit c db).attempts ≤ limit
  apply-within task_id c db h = elim (apply-Effect limit c db) [
    | unchanged same ↦ rw same h
    | updated u ↦
        let fewer = Update-charged task_id (target c) db (apply limit c db) u in omega arith
    | reserved now t timeout r ↦
        let before = charged-expire task_id t now db.attempts in
        let room = r.room in
        rw r.written (new-within task_id t (target c) now timeout limit db room before h)
  ]

  -- Whatever the calls and their order, with every reservation made under one limit: a task whose
  -- charged attempts are within the limit stays within it.
  pub run_within_limit :
      (task_id : ℕ) (commands : List Command) (db : ProviderDb)
      → charged_count task_id db.attempts ≤ limit
      → charged_count task_id (run limit commands db).attempts ≤ limit
  unfolding run
  run_within_limit task_id [] db h = h
  run_within_limit task_id (c ∷ commands) db h =
      run_within_limit task_id commands _ (apply-within task_id c db h)
