-- ===== src/Security/Tests.antt =====
-- Runs of the security state's operations, and the theorems at concrete inputs.
use Prim.Native.String.{String}
use gnomon.Prelude.{
  ◌≡◌, ◌≢◌, ◌≤◌, ◌⊎◌, inl, ◌>>=◌, refl, ap, arith, true, false, none, some, is_blank, List, [], ◌∷◌,
  ok, err,
}
use gnomon.Security.Model.{
  SecurityState, normal, degraded, lockdown, recovery_required, local_operator, security_detector,
  security_recovery_service, recovery_started, recovery_verified, parse_state, authority_epoch,
  is_valid_transition,
}
use gnomon.Security.Policy.{authorized_transition, authority_direction}
use gnomon.Security.Capability.{provider_dispatch, is_restricted, allows}
use gnomon.Security.Store.{
  SecurityStateRecord, PersistedSecurityState, bootstrap_incomplete, bootstrap_leftover,
  validation_misplaced, load, bootstrap_pending, require_capability, require_locked_capability,
}
use gnomon.Security.Transition.{
  SecurityDb, TransitionRequest, SecurityTransitionResult, TransitionError, required, permits,
  check_transition, commit_transition, settle, transition,
}
use gnomon.Security.Matrix.{
  Granted, start, step, Visits, authorized_transition-permits, broaden_needs_recovery,
  containment_needs_recovery,
}
use gnomon.Security.Gate.{load-faithful, require_restricted, require_locked-agrees}
use gnomon.Security.Audit.{transition-stale}
use gnomon.Security.Grants.{IsGranted, transition-grants}
use gnomon.Security.Log.{Call, run, IsLinked, run-IsLinked, EntersRecovery, run_needs_recovery}

program : Unit {0}
unfolding authorized_transition is_valid_transition authority_direction required permits allows
    is_restricted bootstrap_incomplete bootstrap_leftover validation_misplaced load
    require_capability check_transition commit_transition settle transition run parse_state
    authority_epoch is_blank
program = tt

abbrev row_in : String → SecurityStateRecord
row_in state = record {
  state = state;
  version = 3;
  authority_epoch_id = 77;
  recovery_bootstrap_pending = false;
  recovery_bootstrap_started_at = none;
  recovery_bootstrap_from_state = none;
  recovery_bootstrap_from_version = none;
  reconstruction_validation_pending = false;
}

abbrev locked_db : SecurityDb
locked_db = record { row = some (row_in "lockdown"); transitions = [] }

abbrev to_recovery : TransitionRequest
to_recovery = record {
  expected_version = 3;
  requested_state = recovery_required;
  actor_type = local_operator;
  actor_id = 111 ∷ [];
  reason_code = recovery_started;
  related_event_ids = [];
}

abbrev to_normal : TransitionRequest
to_normal = record to_recovery {
  expected_version = 4;
  requested_state = normal;
  reason_code = recovery_verified;
}

-- Another request against the version that the first one replaces.
abbrev too_late : TransitionRequest
too_late = record to_recovery { requested_state = normal }

abbrev recovered_db : SecurityDb
unfolding program
recovered_db = commit_transition 900 50 77 lockdown to_recovery (row_in "lockdown") locked_db

abbrev calls : List Call
calls =
    record { id = 900; now = 50; request = to_recovery }
    ∷ record { id = 901; now = 60; request = too_late }
    ∷ record { id = 902; now = 70; request = to_normal }
    ∷ []

two_steps : (run calls locked_db).row ≡ some (record (row_in "normal") { version = 5 })
unfolding program
two_steps = refl

authorized_transition-permits_example :
    (is_valid_transition lockdown recovery_required ≡ true)
    × (permits lockdown
          (required (authority_direction lockdown recovery_required) recovery_required)
        ≡ true)
unfolding program
authorized_transition-permits_example =
    authorized_transition-permits lockdown recovery_required local_operator recovery_started refl

broaden_needs_recovery_example :
    (normal ≡ normal)
    × ((recovery_required ≡ degraded) ⊎ (recovery_required ≡ recovery_required))
    × (recovery_verified ≡ recovery_verified)
    × (local_operator ≢ security_detector)
unfolding program
broaden_needs_recovery_example =
    broaden_needs_recovery recovery_required normal local_operator recovery_verified refl refl

out_of_lockdown : Granted lockdown normal
unfolding program
out_of_lockdown =
    step normal local_operator recovery_verified
      (step recovery_required security_recovery_service recovery_started start refl) refl

containment_needs_recovery_example : Visits recovery_required out_of_lockdown
containment_needs_recovery_example =
    containment_needs_recovery out_of_lockdown ((λ e. cc), λ e. cc) (λ e. cc) (inl refl)

-- A pending bootstrap reads as recovery, whatever state is stored.
abbrev restored_row : SecurityStateRecord
restored_row = record (row_in "normal") {
  recovery_bootstrap_pending = true;
  recovery_bootstrap_started_at = some 9;
  recovery_bootstrap_from_state = some "lockdown";
  recovery_bootstrap_from_version = some 2;
  reconstruction_validation_pending = true;
}

-- The state that the row of `locked_db` loads as.
abbrev locked_state : PersistedSecurityState
locked_state = record {
  state = lockdown;
  version = 3;
  authority_epoch_id = 77;
  recovery_bootstrap_pending = false;
  reconstruction_validation_pending = false;
}

abbrev restored : PersistedSecurityState
restored = record {
  state = recovery_required;
  version = 3;
  authority_epoch_id = 77;
  recovery_bootstrap_pending = true;
  reconstruction_validation_pending = true;
}

load-faithful_example :
    (1 ≤ restored.version)
    × (restored.version ≡ restored_row.version)
    × (restored.authority_epoch_id ≢ 0)
    × (restored.authority_epoch_id ≡ restored_row.authority_epoch_id)
    × (restored.recovery_bootstrap_pending ≡ restored_row.recovery_bootstrap_pending)
    × (restored.reconstruction_validation_pending ≡ restored_row.reconstruction_validation_pending)
    × (restored_row.reconstruction_validation_pending ≡ true
        → restored_row.recovery_bootstrap_pending ≡ true)
    × (restored_row.recovery_bootstrap_pending ≡ true → restored.state ≡ recovery_required)
    × (restored_row.recovery_bootstrap_pending ≡ false
        → parse_state restored_row.state ≡ some restored.state)
    × ((s : SecurityState) × (parse_state restored_row.state ≡ some s))
unfolding program
load-faithful_example = load-faithful restored_row restored refl

require_restricted_example :
    (r : SecurityStateRecord) × (some (row_in "normal") ≡ some r)
    × (parse_state r.state ≡ some normal)
    × (r.recovery_bootstrap_pending ≡ false)
    × (normal ≡ normal)
unfolding program
require_restricted_example =
    require_restricted (some (row_in "normal")) provider_dispatch none normal refl refl

require_locked-agrees_example :
    require_capability (some restored_row) provider_dispatch none
    ≡ (require_locked_capability (some restored_row) provider_dispatch none >>= λ p. ok p.state)
require_locked-agrees_example = require_locked-agrees (some restored_row) provider_dispatch none

bootstrap_denies :
    require_capability (some restored_row) provider_dispatch none ≡ err bootstrap_pending
unfolding program
bootstrap_denies = refl

transition-stale_example : (e : TransitionError) × (transition 901 60 too_late recovered_db ≡ err e)
unfolding program
transition-stale_example =
    transition-stale 900 50 to_recovery locked_db {db' = recovered_db} refl
      (λ e. let moved = ap (λ d. d.transitions) e in cc) 901 60 too_late refl

transition-grants_example :
    (out : SecurityTransitionResult) × (db' : SecurityDb) × (transition 900 50 to_recovery locked_db
      ≡ ok (out, db'))
    × IsGranted 900 50 to_recovery locked_state locked_db out db'
unfolding program
transition-grants_example =
    transition-grants 900 50 to_recovery locked_db (row_in "lockdown") locked_state refl refl refl
      refl refl refl

locked_db-IsLinked : IsLinked locked_db
unfolding program
locked_db-IsLinked = record {
  row = row_in "lockdown";
  current = lockdown;
  found = refl;
  parsed = refl;
  positive = omega arith;
  leads = tt;
}

run-IsLinked_example : IsLinked (run calls locked_db)
run-IsLinked_example = run-IsLinked calls locked_db locked_db-IsLinked

run_needs_recovery_example : EntersRecovery (run calls locked_db).transitions
unfolding program
run_needs_recovery_example =
    run_needs_recovery calls locked_db (row_in "lockdown")
      (record (row_in "normal") { version = 5 }) lockdown normal refl refl ((λ e. cc), λ e. cc)
      (λ e. cc) refl refl (inl refl)
