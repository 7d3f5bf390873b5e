-- ===== src/Security/Capability.antt =====
-- The capability decision (src/research_agent/application/security_capability.py, `allows`). The
-- arguments are typed, so the source's `isinstance` guards have no counterpart.
use gnomon.Prelude.{Bool, true, false, not, ◌&&◌, Option, some, is_none, if◌then◌else◌}
use gnomon.Security.Model.{SecurityState, normal, degraded, recovery_required}
use gnomon.Security.Policy.{AuthorityDirection, reduce, preserve, broaden}

pub data SecurityCapability : Type 0 where
  read_state read_audit local_report diagnostics memory_mutation start_cycle : SecurityCapability
  source_retrieval provider_dispatch agent_dispatch security_containment : SecurityCapability
  recovery_action authority_administration : SecurityCapability

-- Membership in `_ALWAYS_SAFE`, `_RESTRICTED` and `_DIRECTIONAL`.
unfoldable pub is_always_safe : SecurityCapability → Bool
is_always_safe read_state = true
is_always_safe read_audit = true
is_always_safe local_report = true
is_always_safe diagnostics = true
is_always_safe _ = false

unfoldable pub is_restricted : SecurityCapability → Bool
is_restricted memory_mutation = true
is_restricted start_cycle = true
is_restricted source_retrieval = true
is_restricted provider_dispatch = true
is_restricted agent_dispatch = true
is_restricted _ = false

is_directional : SecurityCapability → Bool
is_directional security_containment = true
is_directional recovery_action = true
is_directional authority_administration = true
is_directional _ = false

-- `direction in {REDUCE, PRESERVE}`, `direction is PRESERVE` and `direction is BROADEN`.
keeps_within : Option AuthorityDirection → Bool
keeps_within (some reduce) = true
keeps_within (some preserve) = true
keeps_within _ = false

is_preserve : Option AuthorityDirection → Bool
is_preserve (some preserve) = true
is_preserve _ = false

is_broaden : Option AuthorityDirection → Bool
is_broaden (some broaden) = true
is_broaden _ = false

is_normal : SecurityState → Bool
is_normal normal = true
is_normal _ = false

may_broaden : SecurityState → Bool
may_broaden normal = true
may_broaden degraded = true
may_broaden recovery_required = true
may_broaden _ = false

-- The tests of `allows` after its two guards.
allows_by_kind : SecurityState → SecurityCapability → Option AuthorityDirection → Bool
unfolding is_restricted keeps_within is_preserve is_broaden is_normal may_broaden
allows_by_kind state security_containment direction = keeps_within direction
allows_by_kind state recovery_action direction = not (is_normal state) && is_preserve direction
allows_by_kind state authority_administration direction =
    if keeps_within direction then true else is_broaden direction && may_broaden state
allows_by_kind state capability direction =
    if is_normal state then true else not (is_restricted capability)

unfoldable pub allows : SecurityState → SecurityCapability → Option AuthorityDirection → Bool
unfolding is_always_safe is_directional allows_by_kind
allows state capability direction =
    if is_always_safe capability
    then true
    else if is_directional capability && is_none direction
    then false
    else allows_by_kind state capability direction
