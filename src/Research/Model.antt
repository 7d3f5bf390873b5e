-- ===== src/Research/Model.antt =====
-- Investigations and their cycles (domain/research.py), and the attempts at a cycle
-- (persistence/models.py). Of an investigation the model keeps what its service reads: of the brief
-- the methods, and neither the planning basis nor the objective reviews of a cycle. An attempt
-- names its cycle by task and number, which the database joins it to.
use Prim.Native.String.{String}
use gnomon.Prelude.{ℕ, Bool, true, false, Option, List, Text, ◌==◌, ℕ_discrete, Text-discrete}
use gnomon.Security.Store.{SecurityStateRecord}

pub data TaskStatus : Type 0 where
  planned active paused blocked concluded abandoned archived : TaskStatus

pub data CycleStatus : Type 0 where
  planned active completed blocked failed : CycleStatus

pub data ResearchMethod : Type 0 where
  web_research source_analysis agent_discovery : ResearchMethod
  agent_questioning critique case_study : ResearchMethod

pub record CycleObjectiveResult : Type 0 where
  pub objective_index : ℕ
  pub source_ids : List ℕ
  pub claim_ids : List ℕ

pub record ResearchCycle : Type 0 where
  pub number : ℕ
  pub objectives : List Text
  pub methods : List ResearchMethod
  pub status : CycleStatus
  pub progress_tracked : Bool
  pub recovery_reason : Option Text
  pub created_at : ℕ
  pub started_at : Option ℕ
  pub completed_at : Option ℕ
  pub result_summary : Option Text
  pub evidence_ids : List ℕ
  pub claim_ids : List ℕ
  pub unresolved_objectives : List Text
  pub attempted_objectives : List Text
  pub objective_results : List CycleObjectiveResult

pub record ResearchTask : Type 0 where
  pub id : ℕ
  pub methods : List ResearchMethod
  pub status : TaskStatus
  pub cycles : List ResearchCycle
  pub updated_at : ℕ
  pub revision : ℕ

-- The statuses that the service sets.
pub data AttemptStatus : Type 0 where
  running completed blocked failed interrupted : AttemptStatus

pub record CycleAttempt : Type 0 where
  pub id : ℕ
  pub task_id : ℕ
  pub cycle_number : ℕ
  pub status : AttemptStatus
  pub stage : String
  pub started_at : ℕ
  pub finished_at : Option ℕ
  pub recovery_reason : Option Text

pub record CycleRecoveryCreate : Type 0 where
  pub reason : Text
  pub expected_fingerprint : ℕ

pub record TaskStatusChange : Type 0 where
  pub status : TaskStatus
  pub expected_status : TaskStatus

-- The literal statuses of an outcome.
pub data OutcomeStatus : Type 0 where
  completed blocked failed : OutcomeStatus

pub record CycleOutcomeCreate : Type 0 where
  pub status : OutcomeStatus
  pub result_summary : Text
  pub evidence_ids : List ℕ
  pub claim_ids : List ℕ
  pub unresolved_objectives : List Text
  pub attempted_objectives : List Text
  pub objective_results : List CycleObjectiveResult

pub record ResearchDb : Type 0 where
  pub security : Option SecurityStateRecord
  pub tasks : List ResearchTask
  -- The newest attempt first.
  pub attempts : List CycleAttempt

-- `TaskStateConflict`, `CycleNotFound` and `InvalidCycleSelection`, by their messages.
pub data ResearchError : Type 0 where
  task_not_found cycle_not_found capability_denied : ResearchError
  task_not_active cycle_active nothing_to_plan : ResearchError
  selection_invalid method_denied only_planned only_active progress_changed : ResearchError
  task_stopped repeated_result outcome_bounds : ResearchError
  foreign_evidence foreign_claim foreign_attempt foreign_unresolved : ResearchError
  result_unattempted result_source result_claim claim_uncited : ResearchError
  status_changed status_not_permitted cycle_history : ResearchError

abbrev pub status_position : TaskStatus → ℕ
status_position planned = 0
status_position active = 1
status_position paused = 2
status_position blocked = 3
status_position concluded = 4
status_position abandoned = 5
status_position archived = 6

abbrev pub same_status : TaskStatus → TaskStatus → Bool
same_status a b = status_position a == status_position b

abbrev pub is_task_active : TaskStatus → Bool
is_task_active active = true
is_task_active _ = false

abbrev pub is_active : CycleStatus → Bool
is_active active = true
is_active _ = false

abbrev pub is_planned : CycleStatus → Bool
is_planned planned = true
is_planned _ = false

abbrev pub is_running : AttemptStatus → Bool
is_running running = true
is_running _ = false

abbrev pub method_position : ResearchMethod → ℕ
method_position web_research = 0
method_position source_analysis = 1
method_position agent_discovery = 2
method_position agent_questioning = 3
method_position critique = 4
method_position case_study = 5

unfoldable pub ResearchTask-discrete : Discrete ResearchTask
ResearchTask-discrete = hlevel (ℕ_discrete, Text-discrete)
