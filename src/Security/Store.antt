-- ===== src/Security/Store.antt =====
-- Fail-closed loading of the singleton row (application/security_state_store.py), and the two
-- requirements that the services make of it (application/security_capability.py).
-- An identifier is a UUID's number. An integer column below one is the number 0.
use Prim.Native.String.{String}
use gnomon.Prelude.{
  ℕ, Bool, true, false, not, ◌&&◌, ◌||◌, Option, none, some, Result, ok, err, ◌>>=◌, ◌>>◌, raise_if,
  ltb, leb, is_none, if◌then◌else◌,
}
use gnomon.Security.Model.{SecurityState, recovery_required, parse_state, authority_epoch}
use gnomon.Security.Policy.{AuthorityDirection}
use gnomon.Security.Capability.{SecurityCapability, is_always_safe, allows}

-- The row of `SecurityStateRecord`.
pub record SecurityStateRecord : Type 0 where
  pub state : String
  pub version : ℕ
  pub authority_epoch_id : ℕ
  pub recovery_bootstrap_pending : Bool
  pub recovery_bootstrap_started_at : Option ℕ
  pub recovery_bootstrap_from_state : Option String
  pub recovery_bootstrap_from_version : Option ℕ
  pub reconstruction_validation_pending : Bool

pub record PersistedSecurityState : Type 0 where
  pub state : SecurityState
  pub version : ℕ
  pub authority_epoch_id : ℕ
  pub recovery_bootstrap_pending : Bool
  pub reconstruction_validation_pending : Bool

-- The messages of `SecurityStateUnavailable`.
pub data SecurityStateUnavailable : Type 0 where
  missing invalid version_invalid : SecurityStateUnavailable
  bootstrap_invalid validation_invalid : SecurityStateUnavailable

abbrev pub or_raise : {E A : Type 0} → Option A → E → Result E A
or_raise none e = err e
or_raise (some a) e = ok a

is_state : Option String → Bool
unfolding parse_state
is_state none = false
is_state (some t) = not (is_none (parse_state t))

-- `isinstance(value, int) and value >= 1`
is_positive : Option ℕ → Bool
is_positive none = false
is_positive (some n) = leb 1 n

-- The first guard on the recovery-bootstrap columns: what a pending bootstrap must have stored.
unfoldable pub bootstrap_incomplete : SecurityStateRecord → Bool
unfolding is_state is_positive
bootstrap_incomplete r =
    r.recovery_bootstrap_pending
    && (is_none r.recovery_bootstrap_started_at
        || not (is_state r.recovery_bootstrap_from_state)
        || not (is_positive r.recovery_bootstrap_from_version))

-- The second: what must be empty when none is pending.
unfoldable pub bootstrap_leftover : SecurityStateRecord → Bool
bootstrap_leftover r =
    not r.recovery_bootstrap_pending
    && (not (is_none r.recovery_bootstrap_started_at)
        || not (is_none r.recovery_bootstrap_from_state)
        || not (is_none r.recovery_bootstrap_from_version))

not_above : ℕ → Option ℕ → Bool
not_above version none = true
not_above version (some from) = leb version from

unfoldable pub validation_misplaced : SecurityStateRecord → Bool
unfolding not_above
validation_misplaced r =
    r.reconstruction_validation_pending
    && (not r.recovery_bootstrap_pending || not_above r.version r.recovery_bootstrap_from_version)

-- `SecurityStateStore.load`
unfoldable pub load :
    Option SecurityStateRecord → Result SecurityStateUnavailable PersistedSecurityState
load none = err missing
load (some r) = do
  stored_state ← or_raise (parse_state r.state) invalid
  epoch ← or_raise (authority_epoch r.authority_epoch_id) invalid
  raise_if (ltb r.version 1) version_invalid
  raise_if (bootstrap_incomplete r) bootstrap_invalid
  raise_if (bootstrap_leftover r) bootstrap_invalid
  raise_if (validation_misplaced r) validation_invalid
  ok (record {
    state = if r.recovery_bootstrap_pending then recovery_required else stored_state;
    version = r.version;
    authority_epoch_id = epoch;
    recovery_bootstrap_pending = r.recovery_bootstrap_pending;
    reconstruction_validation_pending = r.reconstruction_validation_pending;
  })

-- The messages of `SecurityCapabilityDenied`.
pub data SecurityCapabilityDenied : Type 0 where
  state_unavailable bootstrap_pending policy_denied : SecurityCapabilityDenied

abbrev or_denied :
    {A : Type 0} → Result SecurityStateUnavailable A → Result SecurityCapabilityDenied A
or_denied (ok a) = ok a
or_denied (err _) = err state_unavailable

-- `require_capability` on the loaded row; it returns the effective state.
unfoldable pub require_capability :
    Option SecurityStateRecord
    → SecurityCapability
    → Option AuthorityDirection
    → Result SecurityCapabilityDenied SecurityState
require_capability row capability direction = do
  current ← or_denied (load row)
  raise_if (current.recovery_bootstrap_pending && not (is_always_safe capability)) bootstrap_pending
  raise_if (not (allows current.state capability direction)) policy_denied
  ok current.state

-- `require_locked_capability`: the same decision under the row lock; it returns the whole state.
unfoldable pub require_locked_capability :
    Option SecurityStateRecord
    → SecurityCapability
    → Option AuthorityDirection
    → Result SecurityCapabilityDenied PersistedSecurityState
require_locked_capability none capability direction = err state_unavailable
require_locked_capability (some row) capability direction = do
  current ← or_denied (load (some row))
  raise_if (current.recovery_bootstrap_pending && not (is_always_safe capability)) bootstrap_pending
  raise_if (not (allows current.state capability direction)) policy_denied
  ok current
