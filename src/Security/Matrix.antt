-- ===== src/Security/Matrix.antt =====
-- What the transition matrix grants, against the structural graph and the capability decision.
use gnomon.Prelude.{true, false, ◌≡◌, ◌≢◌, ◌⊎◌, inl, inr, refl, arith}
use gnomon.Security.Model.{
  SecurityState, normal, degraded, compromised_suspected, lockdown, recovery_required,
  SecurityActor, local_operator, security_detector, SecurityReasonCode, recovery_verified,
  is_valid_transition, same_state,
}
use gnomon.Security.Policy.{broaden, authority_direction, authorized_transition}
use gnomon.Security.Capability.{allows}
use gnomon.Security.Transition.{permits, required}

-- Whatever actor and reason the matrix accepts, the edge is one of the structural graph, and every
-- capability that the transition service goes on to require is allowed in the current state. So
-- the matrix adds no edge to the graph and the capability check never refuses a granted request.
pub authorized_transition-permits :
    (current requested : SecurityState) (actor : SecurityActor) (reason : SecurityReasonCode)
    → authorized_transition current requested actor reason ≡ true
    → (is_valid_transition current requested ≡ true)
      × (permits current (required (authority_direction current requested) requested) ≡ true)
unfolding authorized_transition is_valid_transition authority_direction required permits allows
authorized_transition-permits normal normal actor reason h = cc
authorized_transition-permits degraded degraded actor reason h = cc
authorized_transition-permits compromised_suspected normal actor reason h = cc
authorized_transition-permits lockdown normal actor reason h = cc
authorized_transition-permits recovery_required recovery_required actor reason h = cc
authorized_transition-permits _ _ actor reason h = ground arith

-- Broadening, the one kind of edge that restores authority, ends in the normal state; the matrix
-- grants it from the degraded or the recovery-required state only, for a verified recovery only,
-- and never to the detector.
pub broaden_needs_recovery :
    (current requested : SecurityState) (actor : SecurityActor) (reason : SecurityReasonCode)
    → authorized_transition current requested actor reason ≡ true
    → authority_direction current requested ≡ broaden
    → (requested ≡ normal)
      × ((current ≡ degraded) ⊎ (current ≡ recovery_required))
      × (reason ≡ recovery_verified)
      × (actor ≢ security_detector)
unfolding authorized_transition authority_direction
broaden_needs_recovery normal normal actor reason h d = cc
broaden_needs_recovery degraded normal local_operator reason h d = ground arith
broaden_needs_recovery degraded normal security_detector reason h d = cc
broaden_needs_recovery recovery_required normal local_operator reason h d = ground arith
broaden_needs_recovery recovery_required normal security_detector reason h d = cc
broaden_needs_recovery _ _ _ reason h d = ground arith

-- A state that is left for good only through recovery: suspected compromise, lockdown, recovery.
abbrev pub IsContained : SecurityState → Type 0
IsContained s = (s ≢ normal) × (s ≢ degraded)

-- A chain of granted transitions.
pub data Granted (s : SecurityState) : SecurityState → Type 0 where
  start : Granted s s
  step :
      {t : SecurityState} (u : SecurityState) (actor : SecurityActor) (reason : SecurityReasonCode)
      → Granted s t
      → authorized_transition t u actor reason ≡ true
      → Granted s u

-- The states that a chain enters, the last one included.
abbrev pub Visits : {s t : SecurityState} → SecurityState → Granted s t → Type 0
Visits v start = ⊥
Visits v (step u actor reason g h) = (u ≡ v) ⊎ Visits v g

pub leaves_containment :
    (t u : SecurityState) (actor : SecurityActor) (reason : SecurityReasonCode)
    → authorized_transition t u actor reason ≡ true
    → IsContained t
    → (t ≢ recovery_required)
    → IsContained u
unfolding authorized_transition
leaves_containment compromised_suspected normal actor reason h c r = cc
leaves_containment compromised_suspected degraded actor reason h c r = cc
leaves_containment lockdown normal actor reason h c r = cc
leaves_containment lockdown degraded actor reason h c r = cc
leaves_containment _ _ actor reason h c r = ground arith

pub recovery_required_or_not :
    (s : SecurityState) → (s ≡ recovery_required) ⊎ (s ≢ recovery_required)
recovery_required_or_not recovery_required = inl refl
recovery_required_or_not normal = inr (λ e. cc)
recovery_required_or_not _ = inr (λ e. cc)

chain-IsContained :
    {s t : SecurityState} (g : Granted s t)
    → IsContained s
    → s ≢ recovery_required
    → (IsContained t × (t ≢ recovery_required)) ⊎ Visits recovery_required g
chain-IsContained start c r = inl (c, r)
chain-IsContained (step {t} u actor reason g h) c r = elim (chain-IsContained g c r) [
  | inl (ct, rt) ↦ elim (recovery_required_or_not u) [
    | inl e ↦ inr (inl e)
    | inr n ↦ inl (leaves_containment t u actor reason h ct rt, n)
  ]
  | inr v ↦ inr (inr v)
]

-- No chain of granted transitions leads from lockdown or from a suspected compromise back to the
-- normal or to the degraded state unless it enters the recovery-required state on the way.
pub containment_needs_recovery :
    {s t : SecurityState} (g : Granted s t)
    → IsContained s
    → s ≢ recovery_required
    → (t ≡ normal) ⊎ (t ≡ degraded)
    → Visits recovery_required g
containment_needs_recovery g c r out = elim (chain-IsContained g c r) [
  | inl (ct, rt) ↦ absurd (elim out [ inl e ↦ ct.0 e | inr e ↦ ct.1 e ])
  | inr v ↦ v
]

-- The matrix has no entry for staying in a state.
pub granted-moves :
    (current requested : SecurityState) (actor : SecurityActor) (reason : SecurityReasonCode)
    → authorized_transition current requested actor reason ≡ true
    → same_state requested current ≡ false
unfolding authorized_transition
granted-moves normal normal actor reason h = cc
granted-moves degraded degraded actor reason h = cc
granted-moves compromised_suspected compromised_suspected actor reason h = cc
granted-moves lockdown lockdown actor reason h = cc
granted-moves recovery_required recovery_required actor reason h = cc
granted-moves _ _ actor reason h = refl
