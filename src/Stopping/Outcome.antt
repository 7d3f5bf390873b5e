-- ===== src/Stopping/Outcome.antt =====
-- What a decision that succeeds has found, checked and written.
use gnomon.Prelude.{ℕ, ◌≡◌, ◌⊎◌, inl, inr, arith, none, some, ok, Option-cases, Result-cases}
use gnomon.Security.Store.{PersistedSecurityState}
use gnomon.Research.Model.{ResearchTask}
use gnomon.Stopping.Model.{
  StoppingDecisionCreate, StoppingDecision, StoppingDecisionChange, StoppingDb,
}
use gnomon.Stopping.Requests.{retry_decision}
use gnomon.Stopping.Service.{
  StoppingContext, operation_change, new_decision, ready_of, commit_decision, check_decision,
  lock_task, decide,
}

pub record IsDecided (cx : StoppingContext) (task_id : ℕ) (q : StoppingDecisionCreate)
    (db : StoppingDb) (d : StoppingDecision) (db' : StoppingDb) : Type 0 where
  pub task : ResearchTask
  pub authority : PersistedSecurityState
  pub locked : lock_task task_id db ≡ ok (task, authority)
  pub new : operation_change q.operation_id db.changes ≡ none
  pub checked : check_decision cx q task db ≡ ok tt
  pub made : d ≡ new_decision cx task.id (ready_of cx task db) q
  pub written :
      db' ≡ commit_decision cx q authority task (new_decision cx task.id (ready_of cx task db) q) db

pub record IsRepeated (cx : StoppingContext) (task_id : ℕ) (q : StoppingDecisionCreate)
    (db : StoppingDb) (d : StoppingDecision) (db' : StoppingDb) : Type 0 where
  pub change : StoppingDecisionChange
  pub known : operation_change q.operation_id db.changes ≡ some change
  pub retried : retry_decision cx.actor_id task_id q change ≡ ok d
  pub same : db' ≡ db

pub decide-cases :
    (cx : StoppingContext) (task_id : ℕ) (q : StoppingDecisionCreate) (db : StoppingDb)
    (d : StoppingDecision) (db' : StoppingDb)
    → decide cx task_id q db ≡ ok (d, db')
    → IsRepeated cx task_id q db d db' ⊎ IsDecided cx task_id q db d db'
unfolding decide
decide-cases cx task_id q db d db' h = elim (Result-cases (lock_task task_id db)) [
  | inr (e, refused) ↦ absurd (ground arith)
  | inl ((task, authority), locked) ↦
      elim (Option-cases (operation_change q.operation_id db.changes)) [
        | inr (change, known) ↦ elim (Result-cases (retry_decision cx.actor_id task_id q change)) [
          | inr (e, refused) ↦ absurd (ground arith)
          | inl (d', retried) ↦
              let same : d' ≡ d = ground arith in
              inl (record {
                change = change;
                known = known;
                retried = ground arith;
                same = ground arith;
              })
        ]
        | inl new ↦ elim (Result-cases (check_decision cx q task db)) [
          | inr (e, refused) ↦ absurd (ground arith)
          | inl (u, checked) ↦ inr (record {
            task = task;
            authority = authority;
            locked = locked;
            new = new;
            checked = checked;
            made = ground arith;
            written = ground arith;
          })
        ]
      ]
]

pub decide-IsDecided :
    (cx : StoppingContext) (task_id : ℕ) (q : StoppingDecisionCreate) (db : StoppingDb)
    (d : StoppingDecision) (db' : StoppingDb)
    → decide cx task_id q db ≡ ok (d, db')
    → operation_change q.operation_id db.changes ≡ none
    → IsDecided cx task_id q db d db'
decide-IsDecided cx task_id q db d db' h new = elim (decide-cases cx task_id q db d db' h) [
  | inl r ↦ let k = r.known in absurd (ground arith)
  | inr decided ↦ decided
]
