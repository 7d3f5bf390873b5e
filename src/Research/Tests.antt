-- ===== src/Research/Tests.antt =====
-- Calls on an investigation, and their theorems at concrete inputs.
use gnomon.Prelude.{
  ℕ, ◌≡◌, refl, arith, true, false, none, some, List, [], ◌∷◌, ok, err, elem, All, ℕ_discrete,
  Text-discrete,
}
use gnomon.Security.Model.{parse_state, authority_epoch}
use gnomon.Security.Capability.{is_always_safe, allows}
use gnomon.Security.Store.{
  SecurityStateRecord, bootstrap_incomplete, bootstrap_leftover, validation_misplaced, load,
  require_capability, require_locked_capability,
}
use gnomon.Research.Model.{
  TaskStatus, active, archived, concluded, completed, ResearchCycle, ResearchTask,
  CycleOutcomeCreate, CycleAttempt, ResearchDb, ResearchTask-discrete, cycle_active,
  status_not_permitted, cycle_history, is_active,
}
use gnomon.Research.Outcome.{
  Snapshot, dedup, put_result, saved_results, merge_result, merge_results, merge_outcome,
  repeats_index, exceeds_bounds, cites, get_objective, check_results, check_outcome,
}
use gnomon.Research.Edit.{
  get_task, replace_task, edit, is_numbered, retains_cycles, get_cycle, update_cycle, last_number,
}
use gnomon.Research.Start.{
  StartOptions, planned_cycle, started, add_attempt, bad_selection, excludes_method, plan_body,
  plan_next_cycle, start_found, start_body, start_cycle,
}
use gnomon.Research.Finish.{
  latest_start, interrupt_at, interrupt_latest, recover_body, recover_cycle, end_attempts,
  cycle_status, record_found, record_body, record_cycle_outcome,
}
use gnomon.Research.Service.{
  allowed_statuses, change_body, change_status, starting, changing, perform,
}
use gnomon.Research.Cycles.{active_count}
use gnomon.Research.Single.{IsSingle, perform-IsSingle}
use gnomon.Research.Status.{ClosedAt, perform-ClosedAt}
use gnomon.Research.Progress.{record_found-retains}

program : Unit {0}
unfolding is_numbered retains_cycles ResearchTask-discrete ℕ_discrete Text-discrete parse_state
    authority_epoch is_always_safe allows bootstrap_incomplete bootstrap_leftover
    validation_misplaced load require_capability require_locked_capability dedup put_result
    saved_results merge_result merge_results merge_outcome repeats_index exceeds_bounds cites
    get_objective check_results check_outcome get_task replace_task edit get_cycle update_cycle
    last_number add_attempt bad_selection excludes_method plan_body plan_next_cycle start_found
    start_body start_cycle latest_start interrupt_at interrupt_latest recover_body recover_cycle
    end_attempts record_found record_body record_cycle_outcome allowed_statuses change_body
    change_status perform active_count
program = tt

abbrev normal_row : SecurityStateRecord
normal_row = record {
  state = "normal";
  version = 1;
  authority_epoch_id = 77;
  recovery_bootstrap_pending = false;
  recovery_bootstrap_started_at = none;
  recovery_bootstrap_from_state = none;
  recovery_bootstrap_from_version = none;
  reconstruction_validation_pending = false;
}

abbrev fingerprint : TaskStatus → ResearchCycle → ℕ
fingerprint status cycle = cycle.number

abbrev first_cycle : ResearchCycle
first_cycle = planned_cycle 10 1 ((97 ∷ []) ∷ []) []

abbrev options : StartOptions
options = record {
  exclusive = false;
  objective_indices = some (0 ∷ []);
  required_method = none;
  track_progress = true;
  attempt_id = some 900;
}

abbrev running_cycle : ResearchCycle
running_cycle = record (started 20 options first_cycle) { evidence_ids = 5 ∷ [] }

abbrev open_task : ResearchTask
open_task = record {
  id = 1;
  methods = [];
  status = active;
  cycles = first_cycle ∷ planned_cycle 11 2 ((98 ∷ []) ∷ []) [] ∷ [];
  updated_at = 10;
  revision = 1;
}

abbrev running_task : ResearchTask
running_task = record open_task {
  cycles = running_cycle ∷ planned_cycle 11 2 ((98 ∷ []) ∷ []) [] ∷ [];
}

abbrev concluded_task : ResearchTask
concluded_task = record open_task { status = concluded }

abbrev with_task : ResearchTask → ResearchDb
with_task t = record { security = some normal_row; tasks = t ∷ []; attempts = [] }

-- The second cycle waits for the first one to end.
second_refused :
    perform fingerprint (starting 30 1 2 options) (with_task running_task) ≡ err cycle_active
unfolding program
second_refused = refl

reopening_refused :
    perform fingerprint
      (changing 30 1 (record { status = active; expected_status = concluded }))
      (with_task concluded_task)
    ≡ err status_not_permitted
unfolding program
reopening_refused = refl

start_made :
    (db' : ResearchDb) × (perform fingerprint (starting 20 1 1 options) (with_task open_task)
      ≡ ok db')
unfolding program
start_made = (_, refl)

archive_made :
    (db' : ResearchDb) × (perform fingerprint
        (changing 30 1 (record { status = archived; expected_status = concluded }))
        (with_task concluded_task)
      ≡ ok db')
unfolding program
archive_made = (_, refl)

open_task-IsSingle : IsSingle open_task
unfolding program
open_task-IsSingle = ((((λ e. absurd (omega arith)), tt), (tt, tt)), omega arith)

perform-IsSingle_example : All IsSingle start_made.0.tasks
perform-IsSingle_example =
    perform-IsSingle fingerprint (starting 20 1 1 options) (with_task open_task) start_made.0
      start_made.1 (open_task-IsSingle, tt)

perform-ClosedAt_example : All (ClosedAt 1) archive_made.0.tasks
perform-ClosedAt_example =
    perform-ClosedAt fingerprint
      (changing 30 1 (record { status = archived; expected_status = concluded }))
      (with_task concluded_task) archive_made.0 1 archive_made.1 ((λ own. refl), tt)

abbrev snapshot : Snapshot
snapshot = record { source_ids = 5 ∷ 6 ∷ []; claims = (8, 6 ∷ []) ∷ [] }

abbrev outcome : CycleOutcomeCreate
outcome = record {
  status = completed;
  result_summary = 99 ∷ [];
  evidence_ids = 6 ∷ [];
  claim_ids = 8 ∷ [];
  unresolved_objectives = [];
  attempted_objectives = [];
  objective_results = [];
}

outcome_made :
    (answer : ResearchTask × List CycleAttempt) × (record_found 40 1 snapshot outcome running_cycle
        running_task []
      ≡ ok answer)
unfolding program
outcome_made = (_, refl)

record_found-retains_example :
    (c : ResearchCycle) × (get_cycle 1 outcome_made.0.0.cycles ≡ some c)
    × (is_active running_cycle.status ≡ true)
    × (c.status ≡ cycle_status completed)
    × ((x : ℕ) → elem x running_cycle.evidence_ids ≡ true → elem x c.evidence_ids ≡ true)
    × ((x : ℕ) → elem x running_cycle.claim_ids ≡ true → elem x c.claim_ids ≡ true)
unfolding program
record_found-retains_example =
    record_found-retains 40 1 snapshot outcome running_cycle running_task outcome_made.0.0 []
      outcome_made.0.1 refl outcome_made.1

-- An edit that loses a stored cycle is refused.
loss_refused :
    edit 1 (λ task attempts. ok (record task { cycles = [] }, attempts)) (with_task running_task)
    ≡ err cycle_history
unfolding program
loss_refused = refl
