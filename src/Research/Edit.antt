-- ===== src/Research/Edit.antt =====
-- `repository.edit` and the rows of an investigation, as `ResearchService` uses them on the database.
-- A raise rolls back, so only a success carries a database. The events that the repository stages
-- beside an edit are left out.
use gnomon.Prelude.{
  ℕ, ◌+◌, Option, none, some, List, [], ◌∷◌, Result, ok, err, ltb, ◌==◌, ◌&&◌, Bool, true, not,
  raise_if, ◌>>◌, any, all, if◌then◌else◌, find, holds,
}
use gnomon.Security.Capability.{SecurityCapability}
use gnomon.Security.Store.{require_capability}
use gnomon.Research.Model.{
  ResearchCycle, ResearchTask, ResearchTask-discrete, CycleAttempt, ResearchDb, ResearchError,
  task_not_found, capability_denied, cycle_history,
}

-- The edited investigation, and the attempts.
abbrev pub Edited : Type 0
Edited = Result ResearchError (ResearchTask × List CycleAttempt)

unfoldable pub get_task : ℕ → List ResearchTask → Option ResearchTask
get_task id = find (λ t. t.id == id)

unfoldable pub replace_task : ResearchTask → List ResearchTask → List ResearchTask
replace_task task [] = []
replace_task task (t ∷ tasks) =
    if t.id == task.id then task ∷ tasks else t ∷ replace_task task tasks

-- `repository.edit`: a changed investigation gets the next revision.
abbrev pub revised : ResearchTask → ResearchTask → ResearchTask
revised before task =
    if holds (ResearchTask-discrete task before)
    then task
    else record task { revision = before.revision + 1 }

-- `len(set(numbers)) == len(numbers)`
unfoldable pub is_numbered : List ResearchCycle → Bool
is_numbered [] = true
is_numbered (c ∷ cycles) = not (any (λ x. x.number == c.number) cycles) && is_numbered cycles

-- The guard of `_stage`: the numbers are unique, and those of the stored cycles are retained.
unfoldable pub retains_cycles : ResearchTask → ResearchTask → Bool
retains_cycles before task =
    is_numbered task.cycles && all (λ c. any (λ x. x.number == c.number) task.cycles) before.cycles

unfoldable pub edit :
    (task_id : ℕ)
    → (ResearchTask → List CycleAttempt → Edited)
    → ResearchDb
    → Result ResearchError ResearchDb
edit task_id body db = elim (get_task task_id db.tasks) [
  | none ↦ err task_not_found
  | some before ↦ elim (body before db.attempts) [
    | err e ↦ err e
    | ok (task, attempts) ↦
        raise_if
          (not (holds (ResearchTask-discrete task before)) && not (retains_cycles before task))
          cycle_history
        >> ok
            (record db { tasks = replace_task (revised before task) db.tasks; attempts = attempts })
  ]
]

-- `_require_database_capability`
abbrev pub allowed :
    SecurityCapability
    → ResearchDb
    → Result ResearchError ResearchDb
    → Result ResearchError ResearchDb
allowed capability db result = elim (require_capability db.security capability none) [
  | err e ↦ err capability_denied
  | ok _ ↦ result
]

-- `_cycle`
unfoldable pub get_cycle : ℕ → List ResearchCycle → Option ResearchCycle
get_cycle number = find (λ c. c.number == number)

-- Assignments to the fields of that cycle.
unfoldable pub update_cycle :
    ℕ → (ResearchCycle → ResearchCycle) → List ResearchCycle → List ResearchCycle
update_cycle number f [] = []
update_cycle number f (c ∷ cycles) =
    if c.number == number then f c ∷ cycles else c ∷ update_cycle number f cycles

unfoldable pub last_number : List ResearchCycle → ℕ
last_number [] = 0
last_number (c ∷ cycles) =
    let rest = last_number cycles in if ltb rest c.number then c.number else rest
