-- ===== src/Security/Model.antt =====
-- The canonical security states and their structural transitions
-- (src/research_agent/domain/security.py).
use gnomon.Prelude.{ℕ, ◌≡◌, refl, Bool, Option, none, some, List, [], ◌∷◌, any, ◌==◌, if◌then◌else◌}
use Prim.Native.String.{String}
use text.Mathlib.Text.{◌==◌ as str_eq}

pub data SecurityState : Type 0 where
  normal degraded compromised_suspected lockdown recovery_required : SecurityState

pub data SecurityActor : Type 0 where
  local_operator security_detector security_recovery_service : SecurityActor

pub data SecurityReasonCode : Type 0 where
  operator_lockdown security_invariant_violation integrity_check_failed : SecurityReasonCode
  credential_compromise_suspected authority_boundary_violation : SecurityReasonCode
  security_dependency_degraded recovery_started recovery_verified : SecurityReasonCode
  recovery_partial recovery_failed operator_degraded_mode : SecurityReasonCode

-- Equality of states and of reasons is tested on their positions in the declaration.
abbrev pub state_position : SecurityState → ℕ
state_position normal = 0
state_position degraded = 1
state_position compromised_suspected = 2
state_position lockdown = 3
state_position recovery_required = 4

abbrev pub reason_position : SecurityReasonCode → ℕ
reason_position operator_lockdown = 0
reason_position security_invariant_violation = 1
reason_position integrity_check_failed = 2
reason_position credential_compromise_suspected = 3
reason_position authority_boundary_violation = 4
reason_position security_dependency_degraded = 5
reason_position recovery_started = 6
reason_position recovery_verified = 7
reason_position recovery_partial = 8
reason_position recovery_failed = 9
reason_position operator_degraded_mode = 10

abbrev pub same_state : SecurityState → SecurityState → Bool
same_state a b = state_position a == state_position b

abbrev pub same_reason : SecurityReasonCode → SecurityReasonCode → Bool
same_reason a b = reason_position a == reason_position b

unfoldable pub valid_transitions : SecurityState → List SecurityState
valid_transitions normal = degraded ∷ compromised_suspected ∷ lockdown ∷ []
valid_transitions degraded = normal ∷ compromised_suspected ∷ lockdown ∷ recovery_required ∷ []
valid_transitions compromised_suspected = lockdown ∷ recovery_required ∷ []
valid_transitions lockdown = recovery_required ∷ []
valid_transitions recovery_required = normal ∷ degraded ∷ compromised_suspected ∷ lockdown ∷ []

unfoldable pub is_valid_transition : SecurityState → SecurityState → Bool
unfolding valid_transitions
is_valid_transition current requested =
    any (λ s. same_state s requested) (valid_transitions current)

-- The stored spelling of a state, and `SecurityState(text)`, which fails on any other text.
abbrev pub state_value : SecurityState → String
state_value normal = "normal"
state_value degraded = "degraded"
state_value compromised_suspected = "compromised_suspected"
state_value lockdown = "lockdown"
state_value recovery_required = "recovery_required"

unfoldable pub parse_state : String → Option SecurityState
parse_state t =
    if str_eq t "normal"
    then some normal
    else if str_eq t "degraded"
    then some degraded
    else if str_eq t "compromised_suspected"
    then some compromised_suspected
    else if str_eq t "lockdown"
    then some lockdown
    else if str_eq t "recovery_required"
    then some recovery_required
    else none

pub parse_state-state_value : (s : SecurityState) → parse_state (state_value s) ≡ some s
unfolding parse_state
parse_state-state_value normal = refl
parse_state-state_value degraded = refl
parse_state-state_value compromised_suspected = refl
parse_state-state_value lockdown = refl
parse_state-state_value recovery_required = refl

-- `AuthorityEpochId(value)`: a UUID's number, refused when it is nil.
unfoldable pub authority_epoch : ℕ → Option ℕ
authority_epoch value = if value == 0 then none else some value
