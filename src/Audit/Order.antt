-- ===== src/Audit/Order.antt =====
-- The order by time of the events that `AuditService.stage` stages.
use gnomon.Prelude.{
  ℕ, ◌<◌, ◌≡◌, ◌==◌, List, [], ◌∷◌, Option, none, some, arith, All, Option-cases, Bool-cases, inl,
  inr,
}
use gnomon.Audit.Events.{ResearchEvent, EventType, EventPayload, latest, stamp, stage}

-- Every event is later than the older events of its task.
abbrev pub IsOrdered : List ResearchEvent → Type 0
IsOrdered [] = Unit
IsOrdered (e ∷ older) =
    All (λ o. o.task_id ≡ e.task_id → o.created_at < e.created_at) older × IsOrdered older

abbrev Below : Option ℕ → ℕ → Type 0
Below none b = Unit
Below (some m) b = m < b

tail_Below :
    (task_id b m : ℕ) (e : ResearchEvent) (events : List ResearchEvent)
    → latest task_id events ≡ some m
    → Below (latest task_id (e ∷ events)) b
    → m < b
unfolding latest
tail_Below task_id b m e events known h = elim (Bool-cases (e.task_id == task_id)) [
  | inl own ↦ ground arith
  | inr other ↦ ground arith
]

latest-Below :
    (task_id b : ℕ) (events : List ResearchEvent)
    → Below (latest task_id events) b
    → All (λ o. o.task_id ≡ task_id → o.created_at < b) events
unfolding latest
latest-Below task_id b [] h = tt
latest-Below task_id b (e ∷ events) h = elim (Option-cases (latest task_id events)) [
  | inl first ↦ (λ own. ground arith, latest-Below task_id b events (rw first tt))
  | inr (m, known) ↦ (
    λ own. ground arith,
    latest-Below task_id b events (rw known (tail_Below task_id b m e events known h)),
  )
]

stamp-Below : (now : ℕ) (o : Option ℕ) → Below o (stamp now o)
unfolding stamp
stamp-Below now none = tt
stamp-Below now (some m) = ground arith

-- Whatever the clock says, a staged event is later than every earlier event of its task.
pub stage-IsOrdered :
    (now task_id : ℕ) (event_type : EventType) (payload : EventPayload)
    (events : List ResearchEvent)
    → IsOrdered events
    → IsOrdered (stage now task_id event_type payload events)
unfolding stage
stage-IsOrdered now task_id event_type payload events h =
    (latest-Below task_id _ events (stamp-Below now (latest task_id events)), h)
