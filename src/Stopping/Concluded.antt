-- ===== src/Stopping/Concluded.antt =====
-- Decisions and the investigations that they conclude.
use mathlib.Core.Path.{subst}
use gnomon.Prelude.{
  ℕ, ◌≡◌, ◌≢◌, inl, inr, refl, sym, ap, ◌∙◌, arith, false, none, some, List, [], ◌∷◌, ok, In, All,
  Bool-cases, Option-cases, Result-cases, ◌==◌,
}
use gnomon.Security.Capability.{memory_mutation}
use gnomon.Security.Store.{PersistedSecurityState, require_locked_capability}
use gnomon.Research.Model.{TaskStatus, ResearchTask, same_status}
use gnomon.Research.Edit.{get_task, replace_task}
use gnomon.Stopping.Model.{
  StoppingDecisionCreate, StoppingDecision, StoppingDecisionRecord, StoppingDb,
}
use gnomon.Stopping.Requests.{record_from_decision}
use gnomon.Stopping.Service.{
  StoppingContext, is_unfinished, has_active_attempt, decision_of, concluded_task, new_decision,
  ready_of, commit_decision, check_decision, lock_task, decide,
}
use gnomon.Stopping.Outcome.{decide-cases}

-- At most one decision of each investigation.
abbrev pub IsSingle : List StoppingDecisionRecord → Type 0
IsSingle [] = Unit
IsSingle (d ∷ decisions) = All (λ x. x.task_id ≢ d.task_id) decisions × IsSingle decisions

-- Every decision's investigation is concluded.
pub record IsConclusive (db : StoppingDb) : Type 0 where
  pub single : IsSingle db.decisions
  pub concluded :
      (d : StoppingDecisionRecord)
      → In d db.decisions
      → (t : ResearchTask) × (get_task d.task_id db.tasks ≡ some t)
        × (t.status ≡ TaskStatus.concluded)

pub get_task-id :
    (id : ℕ) (tasks : List ResearchTask) (t : ResearchTask) → get_task id tasks ≡ some t → t.id ≡ id
unfolding get_task
get_task-id id [] t h = absurd (ground arith)
get_task-id id (x ∷ tasks) t h = elim (Bool-cases (x.id == id)) [
  | inl here ↦
      let at : x.id ≡ id = ground arith in
      let same : x ≡ t = ground arith in subst (λ y. y.id ≡ id) same at
  | inr later ↦ get_task-id id tasks t (ground arith)
]

pub get_task-replace_task :
    (id : ℕ) (tasks : List ResearchTask) (old new : ResearchTask)
    → get_task id tasks ≡ some old
    → new.id ≡ id
    → get_task id (replace_task new tasks) ≡ some new
unfolding get_task replace_task
get_task-replace_task id [] old new h e = absurd (ground arith)
get_task-replace_task id (x ∷ tasks) old new h e = elim (Bool-cases (x.id == new.id)) [
  | inl here ↦ rw (here) (ground arith)
  | inr there ↦
      let off : x.id == id ≡ false = ground arith in
      rw (there) (rw (off) (get_task-replace_task id tasks old new (ground arith) e))
]

get_task-replace_other :
    (id : ℕ) (tasks : List ResearchTask) (new : ResearchTask)
    → new.id ≢ id
    → get_task id (replace_task new tasks) ≡ get_task id tasks
unfolding get_task replace_task
get_task-replace_other id [] new e = refl
get_task-replace_other id (x ∷ tasks) new e = elim (Bool-cases (x.id == new.id)) [
  | inl here ↦ rw (here) (ground arith)
  | inr there ↦ rw (there) (ground (arith, get_task-replace_other id tasks new e))
]

none-All :
    (id : ℕ) (decisions : List StoppingDecisionRecord)
    → decision_of id decisions ≡ none
    → All (λ x. x.task_id ≢ id) decisions
unfolding decision_of
none-All id [] h = tt
none-All id (d ∷ decisions) h = elim (Bool-cases (d.task_id == id)) [
  | inl here ↦ absurd (ground arith)
  | inr there ↦ (ground arith, none-All id decisions (ground arith))
]

pub lock_task-found :
    (task_id : ℕ) (db : StoppingDb) (task : ResearchTask) (authority : PersistedSecurityState)
    → lock_task task_id db ≡ ok (task, authority)
    → (get_task task_id db.tasks ≡ some task)
      × (require_locked_capability db.security memory_mutation none ≡ ok authority)
unfolding lock_task
lock_task-found task_id db task authority h = elim (Option-cases (get_task task_id db.tasks)) [
  | inl missing ↦ absurd (ground arith)
  | inr (t, there) ↦
      elim (Result-cases (require_locked_capability db.security memory_mutation none)) [
        | inl (current, passed) ↦ (ground arith, ground arith)
        | inr (e, denied) ↦ absurd (ground arith)
      ]
]

checked-new :
    (cx : StoppingContext) (q : StoppingDecisionCreate) (task : ResearchTask) (db : StoppingDb)
    → check_decision cx q task db ≡ ok tt
    → decision_of task.id db.decisions ≡ none
unfolding check_decision
checked-new cx q task db h = elim (Bool-cases (same_status task.status q.expected_status)) [
  | inr changed ↦ absurd (ground arith)
  | inl s ↦ elim (Bool-cases (task.revision == q.expected_revision)) [
    | inr stale ↦ absurd (ground arith)
    | inl r ↦ elim (Bool-cases (is_unfinished task.status)) [
      | inr finished ↦ absurd (ground arith)
      | inl u ↦ elim (Bool-cases (has_active_attempt task.id db.attempts)) [
        | inl running ↦ absurd (ground arith)
        | inr idle ↦ elim (Option-cases (decision_of task.id db.decisions)) [
          | inl none_yet ↦ none_yet
          | inr (d, there) ↦ absurd (ground arith)
        ]
      ]
    ]
  ]
]

module _ (task : ResearchTask) (tasks : List ResearchTask) (d : StoppingDecision)
    (found : get_task task.id tasks ≡ some task) where
  after-own :
      (id : ℕ)
      → id ≡ task.id
      → (t : ResearchTask) × (get_task id (replace_task (concluded_task d task) tasks) ≡ some t)
        × (t.status ≡ TaskStatus.concluded)
  after-own id here = (
    concluded_task d task,
    subst
        (λ x.
          get_task x (replace_task (concluded_task d task) tasks) ≡ some (concluded_task d task))
        (sym here) (get_task-replace_task task.id tasks task (concluded_task d task) found refl),
    refl,
  )

  after-older :
      (id : ℕ) (t : ResearchTask)
      → get_task id tasks ≡ some t
      → t.status ≡ TaskStatus.concluded
      → (t : ResearchTask) × (get_task id (replace_task (concluded_task d task) tasks) ≡ some t)
        × (t.status ≡ TaskStatus.concluded)
  after-older id t there done = elim (Bool-cases (task.id == id)) [
    | inl same ↦ after-own id (ground arith)
    | inr other ↦
        let ne : task.id ≢ id = ground arith in
        (t, get_task-replace_other id tasks (concluded_task d task) ne ∙ there, done)
  ]

-- A call of `decide` that succeeds keeps at most one decision of each investigation, and every
-- investigation with a decision concluded.
pub decide-IsConclusive :
    (cx : StoppingContext) (task_id : ℕ) (q : StoppingDecisionCreate) (db : StoppingDb)
    (d : StoppingDecision) (db' : StoppingDb)
    → decide cx task_id q db ≡ ok (d, db')
    → IsConclusive db
    → IsConclusive db'
unfolding commit_decision record_from_decision new_decision
decide-IsConclusive cx task_id q db d db' h c = elim (decide-cases cx task_id q db d db' h) [
  | inl repeated ↦ subst IsConclusive (sym repeated.same) c
  | inr f ↦
      let (there, passed) = lock_task-found task_id db f.task f.authority f.locked in
      let found : get_task f.task.id db.tasks ≡ some f.task =
        subst (λ i. get_task i db.tasks ≡ some f.task)
          (sym (get_task-id task_id db.tasks f.task there)) there in
      let made = new_decision cx f.task.id (ready_of cx f.task db) q in
      subst IsConclusive (sym f.written) (record {
        single = (none-All f.task.id db.decisions (checked-new cx q f.task db f.checked), c.single);
        concluded = λ x member. elim member [
          | inl here ↦ after-own f.task db.tasks made found x.task_id (ap (λ r. r.task_id) here)
          | inr older ↦
              let (t, there', done) = c.concluded x older in
              after-older f.task db.tasks made found x.task_id t there' done
        ];
      })
]
