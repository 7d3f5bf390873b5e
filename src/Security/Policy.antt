-- ===== src/Security/Policy.antt =====
-- The state, actor and reason matrix (src/research_agent/application/security_transition_policy.py).
use gnomon.Prelude.{Bool, List, [], ◌∷◌, ◌++◌, any}
use gnomon.Security.Model.{
  SecurityState, normal, degraded, compromised_suspected, lockdown, recovery_required,
  SecurityActor, local_operator, security_detector, security_recovery_service, SecurityReasonCode,
  operator_lockdown, security_invariant_violation, integrity_check_failed,
  credential_compromise_suspected, authority_boundary_violation, security_dependency_degraded,
  recovery_started, recovery_verified, operator_degraded_mode, same_reason,
}

pub data AuthorityDirection : Type 0 where
  reduce preserve broaden : AuthorityDirection

unfoldable pub authority_direction : SecurityState → SecurityState → AuthorityDirection
authority_direction normal normal = preserve
authority_direction normal _ = reduce
authority_direction _ normal = broaden
authority_direction _ _ = preserve

findings : List SecurityReasonCode
findings =
    security_invariant_violation ∷ integrity_check_failed ∷ credential_compromise_suspected
    ∷ authority_boundary_violation ∷ []

-- Each edge's policy: the reasons that each actor may give; an actor that is not named has none.
degraded_reasons : SecurityActor → List SecurityReasonCode
degraded_reasons local_operator = operator_degraded_mode ∷ security_dependency_degraded ∷ []
degraded_reasons security_detector = security_dependency_degraded ∷ []
degraded_reasons _ = []

suspected_reasons : SecurityActor → List SecurityReasonCode
unfolding findings
suspected_reasons local_operator = findings
suspected_reasons security_detector = findings
suspected_reasons _ = []

lockdown_reasons : SecurityActor → List SecurityReasonCode
unfolding findings
lockdown_reasons local_operator = findings ++ operator_lockdown ∷ []
lockdown_reasons security_detector = findings
lockdown_reasons _ = []

recovery_reasons : SecurityActor → List SecurityReasonCode
recovery_reasons local_operator = recovery_started ∷ []
recovery_reasons security_recovery_service = recovery_started ∷ []
recovery_reasons _ = []

normal_reasons : SecurityActor → List SecurityReasonCode
normal_reasons local_operator = recovery_verified ∷ []
normal_reasons security_recovery_service = recovery_verified ∷ []
normal_reasons _ = []

-- `_MATRIX.get((current, requested), {}).get(actor, frozenset())`
unfoldable pub matrix : SecurityState → SecurityState → SecurityActor → List SecurityReasonCode
unfolding degraded_reasons suspected_reasons lockdown_reasons recovery_reasons normal_reasons
matrix normal degraded = degraded_reasons
matrix normal compromised_suspected = suspected_reasons
matrix normal lockdown = lockdown_reasons
matrix degraded normal = normal_reasons
matrix degraded compromised_suspected = suspected_reasons
matrix degraded lockdown = lockdown_reasons
matrix degraded recovery_required = recovery_reasons
matrix compromised_suspected lockdown = lockdown_reasons
matrix compromised_suspected recovery_required = recovery_reasons
matrix lockdown recovery_required = recovery_reasons
matrix recovery_required normal = normal_reasons
matrix recovery_required degraded = degraded_reasons
matrix recovery_required compromised_suspected = suspected_reasons
matrix recovery_required lockdown = lockdown_reasons
matrix _ _ = λ _. []

unfoldable pub authorized_transition :
    SecurityState → SecurityState → SecurityActor → SecurityReasonCode → Bool
unfolding matrix
authorized_transition current requested actor reason =
    any (λ r. same_reason r reason) (matrix current requested actor)
