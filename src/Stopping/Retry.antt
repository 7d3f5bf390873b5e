-- ===== src/Stopping/Retry.antt =====
-- A decision that is asked for again, and a decision that is read back.
use mathlib.Core.Path.{subst}
use gnomon.Prelude.{
  ℕ, ◌≡◌, inl, inr, refl, sym, ap, ◌∙◌, arith, Option, none, some, List, ◌∷◌, ok, Bool-cases,
  Result-cases, →holds, Text, Text-discrete,
}
use gnomon.Security.Capability.{memory_mutation, read_audit, allows, is_always_safe}
use gnomon.Security.Store.{
  PersistedSecurityState, SecurityStateRecord, load, require_capability, require_locked_capability,
}
use gnomon.Security.Model.{SecurityState}
use gnomon.Research.Model.{ResearchTask}
use gnomon.Research.Edit.{get_task}
use gnomon.Stopping.Model.{
  StoppingDecisionReason, evidence_sufficient, resource_limited, evidence_unavailable,
  operator_stopped, StoppingDecisionCreate, StoppingDecision, StoppingDecisionRecord,
  StoppingDecisionChange, CanonicalRequest-discrete, StoppingDb,
}
use gnomon.Stopping.Requests.{
  canonical_request, retry_decision, reason_value, parse_reason, record_from_decision,
  decision_from_record,
}
use gnomon.Stopping.Service.{
  StoppingContext, operation_change, decision_of, concluded_task, new_decision, new_change,
  ready_of, commit_decision, lock_task, decide, get,
}
use gnomon.Stopping.Outcome.{decide-IsDecided}
use gnomon.Stopping.Concluded.{lock_task-found, get_task-id, get_task-replace_task}

parse_reason-reason_value : (r : StoppingDecisionReason) → parse_reason (reason_value r) ≡ some r
unfolding parse_reason
parse_reason-reason_value evidence_sufficient = refl
parse_reason-reason_value resource_limited = refl
parse_reason-reason_value evidence_unavailable = refl
parse_reason-reason_value operator_stopped = refl

decision_from_record-record_from_decision :
    (d : StoppingDecision) → decision_from_record (record_from_decision d) ≡ ok d
unfolding decision_from_record record_from_decision
decision_from_record-record_from_decision d = rw (parse_reason-reason_value) refl

-- Whoever may change the memory may read the audit.
reads_audit :
    (row : Option SecurityStateRecord) (authority : PersistedSecurityState)
    → require_locked_capability row memory_mutation none ≡ ok authority
    → (s : SecurityState) × (require_capability row read_audit none ≡ ok s)
unfolding require_capability require_locked_capability allows is_always_safe
reads_audit none authority h = absurd (ground arith)
reads_audit (some r) authority h = elim (Result-cases (load (some r))) [
  | inr (e, bad) ↦ absurd (ground arith)
  | inl (p, loaded) ↦ elim (Bool-cases p.recovery_bootstrap_pending) [
    | inl pending ↦ absurd (ground arith)
    | inr settled ↦ (p.state, ground arith)
  ]
]

get-found :
    (task_id : ℕ) (db : StoppingDb) (r : StoppingDecisionRecord) (d : StoppingDecision)
    (s : SecurityState)
    → require_capability db.security read_audit none ≡ ok s
    → decision_of task_id db.decisions ≡ some r
    → decision_from_record r ≡ ok d
    → get task_id db ≡ ok d
unfolding get
get-found task_id db r d s reads found parsed = ground arith

decision_of-first :
    (task_id : ℕ) (r : StoppingDecisionRecord) (rest : List StoppingDecisionRecord)
    → r.task_id ≡ task_id
    → decision_of task_id (r ∷ rest) ≡ some r
unfolding decision_of
decision_of-first task_id r rest h = ground arith

-- After a new decision the service reads back the decision that `decide` returned.
pub get-decide :
    (cx : StoppingContext) (task_id : ℕ) (q : StoppingDecisionCreate) (db : StoppingDb)
    (d : StoppingDecision) (db' : StoppingDb)
    → decide cx task_id q db ≡ ok (d, db')
    → operation_change q.operation_id db.changes ≡ none
    → get task_id db' ≡ ok d
unfolding commit_decision record_from_decision new_decision
get-decide cx task_id q db d db' h new =
    let f = decide-IsDecided cx task_id q db d db' h new in
    let (there, passed) = lock_task-found task_id db f.task f.authority f.locked in
    let (s, reads) = reads_audit db.security f.authority passed in
    let own = get_task-id task_id db.tasks f.task there in
    let made = new_decision cx f.task.id (ready_of cx f.task db) q in
    subst (λ x. get task_id x ≡ ok d) (sym f.written)
      (get-found task_id (commit_decision cx q f.authority f.task made db)
        (record_from_decision made) d s reads
        (decision_of-first task_id (record_from_decision made) db.decisions own)
        (decision_from_record-record_from_decision made ∙ ap (λ x. ok x) (sym f.made)))

retried-own :
    (actor_id : Text) (task_id : ℕ) (q : StoppingDecisionCreate) (c : StoppingDecisionChange)
    → c.task_id ≡ task_id
    → c.actor_id ≡ actor_id
    → c.command_request ≡ some (canonical_request q)
    → retry_decision actor_id task_id q c ≡ ok c.resulting_state
unfolding retry_decision
retried-own actor_id task_id q c own actor asked =
    let same_actor = →holds (Text-discrete c.actor_id actor_id) actor in
    let same =
      →holds (CanonicalRequest-discrete (canonical_request q) (canonical_request q)) refl in
    rw (asked, same_actor, same) (ground arith)

decide-known :
    (cx : StoppingContext) (task_id : ℕ) (q : StoppingDecisionCreate) (db : StoppingDb)
    (task : ResearchTask) (authority : PersistedSecurityState) (c : StoppingDecisionChange)
    (d : StoppingDecision)
    → lock_task task_id db ≡ ok (task, authority)
    → operation_change q.operation_id db.changes ≡ some c
    → retry_decision cx.actor_id task_id q c ≡ ok d
    → decide cx task_id q db ≡ ok (d, db)
unfolding decide
decide-known cx task_id q db task authority c d locked known retried =
    rw (decide, locked, known, retried) refl

relocked :
    (task_id : ℕ) (db : StoppingDb) (tasks : List ResearchTask) (task : ResearchTask)
    (authority : PersistedSecurityState)
    → get_task task_id tasks ≡ some task
    → require_locked_capability db.security memory_mutation none ≡ ok authority
    → db.tasks ≡ tasks
    → lock_task task_id db ≡ ok (task, authority)
unfolding lock_task
relocked task_id db tasks task authority found passed same =
    let here : get_task task_id db.tasks ≡ some task = ap (λ x. get_task task_id x) same ∙ found in
    rw (lock_task, here, passed) refl

operation_change-first :
    (id : ℕ) (c : StoppingDecisionChange) (rest : List StoppingDecisionChange)
    → c.operation_id ≡ id
    → operation_change id (c ∷ rest) ≡ some c
unfolding operation_change
operation_change-first id c rest h = ground arith

-- A decision that was new can be asked for again by the same actor, at any time and with any
-- snapshot: it is answered with the same decision and writes nothing, though by then the
-- investigation is concluded.
pub decide-again :
    (cx cx' : StoppingContext) (task_id : ℕ) (q : StoppingDecisionCreate) (db : StoppingDb)
    (d : StoppingDecision) (db' : StoppingDb)
    → decide cx task_id q db ≡ ok (d, db')
    → operation_change q.operation_id db.changes ≡ none
    → cx'.actor_id ≡ cx.actor_id
    → decide cx' task_id q db' ≡ ok (d, db')
unfolding commit_decision new_change new_decision
decide-again cx cx' task_id q db d db' h new actor =
    let f = decide-IsDecided cx task_id q db d db' h new in
    let (there, passed) = lock_task-found task_id db f.task f.authority f.locked in
    let own = get_task-id task_id db.tasks f.task there in
    let made = new_decision cx f.task.id (ready_of cx f.task db) q in
    let after = commit_decision cx q f.authority f.task made db in
    let held =
      get_task-replace_task task_id db.tasks f.task (concluded_task made f.task) there own in
    let change = new_change cx q made in
    subst (λ x. decide cx' task_id q x ≡ ok (d, x)) (sym f.written)
      (decide-known cx' task_id q after (concluded_task made f.task) f.authority change d
        (relocked task_id after after.tasks (concluded_task made f.task) f.authority held passed
          refl)
        (operation_change-first q.operation_id change db.changes refl)
        (retried-own cx'.actor_id task_id q change own (sym actor) refl
          ∙ ap (λ x. ok x) (sym f.made)))
