-- ===== src/Audit/Tests.antt =====
-- The staging of events, at concrete inputs.
use gnomon.Prelude.{arith, List, [], ◌∷◌}
use gnomon.Audit.Events.{ResearchEvent, task_created, cycle_started, stage, operation_only}
use gnomon.Audit.Order.{IsOrdered, stage-IsOrdered}

-- The clock has gone back for the first task.
abbrev before : List ResearchEvent
before =
    record { task_id = 1; event_type = task_created; payload = operation_only 5; created_at = 40 }
    ∷ record { task_id = 2; event_type = task_created; payload = operation_only 6; created_at = 90 }
    ∷ []

before-IsOrdered : IsOrdered before
before-IsOrdered = ((λ same. absurd (omega arith), tt), (tt, tt))

stage-IsOrdered_example : IsOrdered (stage 30 1 cycle_started (operation_only 7) before)
stage-IsOrdered_example =
    stage-IsOrdered 30 1 cycle_started (operation_only 7) before before-IsOrdered
