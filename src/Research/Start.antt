-- ===== src/Research/Start.antt =====
-- Planning the next cycle and starting one (`plan_next_cycle` and `start_cycle`). The objectives that
-- the planner finds are an argument.
use gnomon.Prelude.{
  ℕ, ◌+◌, Bool, false, not, ◌&&◌, ◌||◌, Option, none, some, List, [], ◌∷◌, ◌++◌, Result, ok, err,
  ◌>>◌, raise_if, leb, ◌==◌, if◌then◌else◌, any, length, Text,
}
use gnomon.Security.Capability.{start_cycle as start_cycle_capability}
use gnomon.Research.Model.{
  planned, active, ResearchMethod, ResearchCycle, ResearchTask, running, CycleAttempt, ResearchDb,
  ResearchError, cycle_not_found, task_not_active, cycle_active, nothing_to_plan, selection_invalid,
  method_denied, only_planned, is_task_active, is_active, is_planned, method_position,
}
use gnomon.Research.Edit.{Edited, edit, allowed, get_cycle, update_cycle, last_number}

abbrev pub planned_cycle : (now number : ℕ) → List Text → List ResearchMethod → ResearchCycle
planned_cycle now number objectives methods = record {
  number = number;
  objectives = objectives;
  methods = methods;
  status = planned;
  progress_tracked = false;
  recovery_reason = none;
  created_at = now;
  started_at = none;
  completed_at = none;
  result_summary = none;
  evidence_ids = [];
  claim_ids = [];
  unresolved_objectives = [];
  attempted_objectives = [];
  objective_results = [];
}

-- `plan_next_cycle`, given the objectives of the planner.
unfoldable pub plan_body :
    (now : ℕ) → (objectives : List Text) → ResearchTask → List CycleAttempt → Edited
plan_body now objectives task attempts =
    raise_if (not (is_task_active task.status)) task_not_active
    >> (raise_if (any (λ c. is_active c.status) task.cycles) cycle_active
        >> (raise_if (length objectives == 0) nothing_to_plan
            >> ok (
              record task {
                cycles =
                    task.cycles
                    ++ planned_cycle now (last_number task.cycles + 1) objectives task.methods ∷ [];
                updated_at = now;
              },
              attempts,
            )))

unfoldable pub plan_next_cycle :
    (now task_id : ℕ) → List Text → ResearchDb → Result ResearchError ResearchDb
plan_next_cycle now task_id objectives db =
    allowed start_cycle_capability db (edit task_id (plan_body now objectives) db)

-- The keyword arguments of `start_cycle`.
pub record StartOptions : Type 0 where
  pub exclusive : Bool
  pub objective_indices : Option (List ℕ)
  pub required_method : Option ResearchMethod
  pub track_progress : Bool
  pub attempt_id : Option ℕ

unfoldable pub bad_selection : Option (List ℕ) → List Text → Bool
bad_selection none objectives = false
bad_selection (some indices) objectives =
    length indices == 0 || any (λ i. leb (length objectives) i) indices

unfoldable pub excludes_method : Option ResearchMethod → List ResearchMethod → Bool
excludes_method none methods = false
excludes_method (some m) [] = false
excludes_method (some m) (x ∷ methods) =
    not (any (λ y. method_position y == method_position m) (x ∷ methods))

abbrev pub started : (now : ℕ) → StartOptions → ResearchCycle → ResearchCycle
started now options c = record c {
  status = active;
  started_at = some now;
  progress_tracked = options.track_progress;
}

unfoldable pub add_attempt :
    (now task_id number : ℕ) → Option ℕ → List CycleAttempt → List CycleAttempt
add_attempt now task_id number none attempts = attempts
add_attempt now task_id number (some id) attempts =
    record {
      id = id;
      task_id = task_id;
      cycle_number = number;
      status = running;
      stage = "STARTED";
      started_at = now;
      finished_at = none;
      recovery_reason = none;
    }
    ∷ attempts

-- The start of the cycle that was found.
unfoldable pub start_found :
    (now number : ℕ) → StartOptions → ResearchCycle → ResearchTask → List CycleAttempt → Edited
start_found now number options cycle task attempts =
    raise_if (bad_selection options.objective_indices cycle.objectives) selection_invalid
    >> (raise_if
          (excludes_method options.required_method task.methods
            || excludes_method options.required_method cycle.methods)
          method_denied
        >> (raise_if
              (any (λ c. is_active c.status && (options.exclusive || not (c.number == number)))
                task.cycles)
              cycle_active
            >> (if is_active cycle.status
                then ok (task, attempts)
                else (raise_if (not (is_planned cycle.status)) only_planned
                    >> ok (
                      record task {
                        cycles = update_cycle number (started now options) task.cycles;
                        updated_at = now;
                      },
                      add_attempt now task.id number options.attempt_id attempts,
                    )))))

unfoldable pub start_body :
    (now number : ℕ) → StartOptions → ResearchTask → List CycleAttempt → Edited
start_body now number options task attempts =
    raise_if (not (is_task_active task.status)) task_not_active
    >> elim (get_cycle number task.cycles) [
      | none ↦ err cycle_not_found
      | some cycle ↦ start_found now number options cycle task attempts
    ]

unfoldable pub start_cycle :
    (now task_id number : ℕ) → StartOptions → ResearchDb → Result ResearchError ResearchDb
start_cycle now task_id number options db =
    allowed start_cycle_capability db (edit task_id (start_body now number options) db)
