-- ===== src/Provider/Tests.antt =====
-- Runs of the provider budget, and its theorems at concrete inputs.
use gnomon.Prelude.{◌≤◌, ◌≡◌, refl, arith, false, none, some, List, [], ◌∷◌, ok}
use gnomon.Audit.Events.{stage, latest, stamp}
use gnomon.Security.Model.{parse_state, authority_epoch}
use gnomon.Security.Capability.{is_always_safe, allows}
use gnomon.Security.Store.{
  SecurityStateRecord, bootstrap_incomplete, bootstrap_leftover, validation_misplaced, load,
  require_capability,
}
use gnomon.Provider.Attempts.{
  Attempt, ProviderDb, dispatched, succeeded, get_attempt, update_attempt, expire_overdue,
  expiry_events, charged_count,
}
use gnomon.Provider.Service.{
  new_attempt, success, failure, lock_attempt, reserve, dispatch_locked, dispatch, finish_locked,
  finish, recover,
}
use gnomon.Provider.Run.{Command, reserving, dispatching, finishing, recovering, apply, run}
use gnomon.Provider.Budget.{run_within_limit}
use gnomon.Provider.Dispatch.{sent_count, IsSentOnce, run-IsSentOnce}
use gnomon.Provider.Lifecycle.{run-terminal, recover-charged, finish_again}

program : Unit {0}
unfolding stage latest stamp parse_state authority_epoch is_always_safe allows bootstrap_incomplete
    bootstrap_leftover validation_misplaced load require_capability get_attempt update_attempt
    expire_overdue expiry_events charged_count lock_attempt reserve dispatch_locked dispatch
    finish_locked finish recover apply run
program = tt

abbrev normal_row : SecurityStateRecord
normal_row = record {
  state = "normal";
  version = 1;
  authority_epoch_id = 77;
  recovery_bootstrap_pending = false;
  recovery_bootstrap_started_at = none;
  recovery_bootstrap_from_state = none;
  recovery_bootstrap_from_version = none;
  reconstruction_validation_pending = false;
}

abbrev empty_db : ProviderDb
empty_db = record { tasks = 1 ∷ []; security = some normal_row; attempts = []; events = [] }

-- The second reservation is refused, the second dispatch too, and the outcome is known late.
abbrev commands : List Command
commands =
    reserving 100 1 7 60
    ∷ reserving 110 1 8 60
    ∷ dispatching 120 7
    ∷ dispatching 130 7
    ∷ recovering 100_000_000 1 7
    ∷ finishing 100_000_010 7 success none none
    ∷ []

commands_succeed :
    let db = run 1 commands empty_db in
    (sent_count 7 db.events ≡ 1) × (charged_count 1 db.attempts ≡ 1)
unfolding program
commands_succeed = (refl, refl)

run_within_limit_example : charged_count 1 (run 1 commands empty_db).attempts ≤ 1
unfolding program
run_within_limit_example = run_within_limit 1 1 commands empty_db (omega arith)

empty_db-IsSentOnce : IsSentOnce empty_db
unfolding program
empty_db-IsSentOnce = λ j. omega arith

run-IsSentOnce_example : IsSentOnce (run 1 commands empty_db)
run-IsSentOnce_example = run-IsSentOnce 1 commands empty_db empty_db-IsSentOnce

abbrev done_attempt : Attempt
done_attempt = record (new_attempt 1 7 100 60) { status = succeeded; finished_at = some 150 }

abbrev done_db : ProviderDb
done_db = record empty_db { attempts = done_attempt ∷ [] }

run-terminal_example : get_attempt 7 (run 1 commands done_db).attempts ≡ some done_attempt
unfolding program
run-terminal_example = run-terminal 1 7 done_attempt refl commands done_db refl

abbrev sent_db : ProviderDb
sent_db = record empty_db {
  attempts = record (new_attempt 1 7 100 60) { status = dispatched } ∷ [];
}

recover-charged_example :
    charged_count 1 (recover 100_000_000 1 7 sent_db).1.attempts ≡ charged_count 1 sent_db.attempts
recover-charged_example = recover-charged 100_000_000 1 7 1 sent_db

finish_again_example :
    let db' = (finish 200 7 failure (some "timeout") none sent_db).1 in
    finish 300 7 failure none none db' ≡ (ok tt, db')
unfolding program
finish_again_example =
    finish_again 200 7 failure (some "timeout") none sent_db refl 300 none none refl
