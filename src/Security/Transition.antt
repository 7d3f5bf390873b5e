-- ===== src/Security/Transition.antt =====
-- The compare-and-set transition (src/research_agent/application/security_state_service.py). The
-- clock and `uuid4` are arguments; `updated_at` of the row is read by nothing here and left out.
-- A raise leaves the database as it was, so only a success carries the new one.
use gnomon.Prelude.{
  ℕ, ◌+◌, Bool, true, false, not, ◌&&◌, ◌||◌, Option, none, some, List, [], ◌∷◌, Result, ok, ◌>>=◌,
  ◌>>◌, raise_if, ltb, ◌==◌, if◌then◌else◌, Text, is_blank,
}
use gnomon.Security.Model.{
  SecurityState, recovery_required, SecurityActor, SecurityReasonCode, same_state,
  is_valid_transition, parse_state, state_value, authority_epoch,
}
use gnomon.Security.Policy.{
  AuthorityDirection, preserve, broaden, authority_direction, authorized_transition,
}
use gnomon.Security.Capability.{
  SecurityCapability, authority_administration, recovery_action, security_containment, allows,
}
use gnomon.Security.Store.{SecurityStateRecord, or_raise}

-- The row of `SecurityTransitionRecord`.
pub record SecurityTransitionRecord : Type 0 where
  pub transition_id : ℕ
  pub previous_state : SecurityState
  pub new_state : SecurityState
  pub reason_code : SecurityReasonCode
  pub actor_type : SecurityActor
  pub actor_id : Text
  pub created_at : ℕ
  pub security_state_version : ℕ
  pub authority_epoch_id : ℕ
  pub related_event_ids : List ℕ

pub record SecurityDb : Type 0 where
  pub row : Option SecurityStateRecord
  -- The newest transition first.
  pub transitions : List SecurityTransitionRecord

pub record TransitionRequest : Type 0 where
  pub expected_version : ℕ
  pub requested_state : SecurityState
  pub actor_type : SecurityActor
  pub actor_id : Text
  pub reason_code : SecurityReasonCode
  pub related_event_ids : List ℕ

pub record SecurityTransitionResult : Type 0 where
  pub state : SecurityState
  pub version : ℕ
  pub transition_id : Option ℕ
  pub authority_epoch_id : ℕ

-- `SecurityTransitionDenied` by its message, `SecurityStateConflict`, `SecurityCapabilityDenied`.
pub data TransitionError : Type 0 where
  metadata_invalid state_unavailable bootstrap_pending state_invalid : TransitionError
  version_invalid version_conflict invalid_transition not_authorized : TransitionError
  capability_denied : TransitionError

-- The list `required`.
needs_recovery : AuthorityDirection → SecurityState → Bool
needs_recovery broaden requested = true
needs_recovery direction recovery_required = true
needs_recovery direction requested = false

unfoldable pub required :
    AuthorityDirection → SecurityState → List (SecurityCapability × AuthorityDirection)
unfolding needs_recovery
required direction requested =
    (authority_administration, direction)
    ∷ (if needs_recovery direction requested
        then (recovery_action, preserve)
        else (security_containment, direction))
    ∷ []

unfoldable pub permits : SecurityState → List (SecurityCapability × AuthorityDirection) → Bool
permits current [] = true
permits current ((capability, direction) ∷ rest) =
    allows current capability (some direction) && permits current rest

-- The checks between the no-op exit and the write, in the source's order.
unfoldable pub check_transition :
    SecurityState → TransitionRequest → Result TransitionError (Unit {0})
check_transition current q =
    raise_if (not (is_valid_transition current q.requested_state)) invalid_transition
    >> raise_if (not (authorized_transition current q.requested_state q.actor_type q.reason_code))
        not_authorized
    >> raise_if
        (not (
          permits current
            (required (authority_direction current q.requested_state) q.requested_state)))
        capability_denied

-- The row's update and the appended audit record.
unfoldable pub commit_transition :
    (transition_id now epoch : ℕ) (current : SecurityState)
    → TransitionRequest
    → SecurityStateRecord
    → SecurityDb
    → SecurityDb
commit_transition transition_id now epoch current q r db = record {
  row = some (record r { state = state_value q.requested_state; version = r.version + 1 });
  transitions =
      record {
        transition_id = transition_id;
        previous_state = current;
        new_state = q.requested_state;
        reason_code = q.reason_code;
        actor_type = q.actor_type;
        actor_id = q.actor_id;
        created_at = now;
        security_state_version = r.version + 1;
        authority_epoch_id = epoch;
        related_event_ids = q.related_event_ids;
      }
      ∷ db.transitions;
}

-- The no-op exit for the current state, or the checks and the commit.
unfoldable pub settle :
    (transition_id now epoch : ℕ) (current : SecurityState)
    → TransitionRequest
    → SecurityStateRecord
    → SecurityDb
    → Result TransitionError (SecurityTransitionResult × SecurityDb)
settle transition_id now epoch current q r db =
    if same_state q.requested_state current
    then ok (
      record {
        state = current;
        version = r.version;
        transition_id = none;
        authority_epoch_id = epoch;
      },
      db,
    )
    else (check_transition current q
        >> ok (
          record {
            state = q.requested_state;
            version = r.version + 1;
            transition_id = some transition_id;
            authority_epoch_id = epoch;
          },
          commit_transition transition_id now epoch current q r db,
        ))

-- `SecurityStateTransitionService.transition`
unfoldable pub transition :
    (transition_id now : ℕ)
    → TransitionRequest
    → SecurityDb
    → Result TransitionError (SecurityTransitionResult × SecurityDb)
transition transition_id now q db = do
  raise_if (ltb q.expected_version 1 || is_blank q.actor_id) metadata_invalid
  r ← or_raise db.row state_unavailable
  raise_if r.recovery_bootstrap_pending bootstrap_pending
  current ← or_raise (parse_state r.state) state_invalid
  epoch ← or_raise (authority_epoch r.authority_epoch_id) state_invalid
  raise_if (ltb r.version 1) version_invalid
  raise_if (not (r.version == q.expected_version)) version_conflict
  settle transition_id now epoch current q r db
