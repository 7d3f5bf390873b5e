-- ===== src/Security/Gate.antt =====
-- What the point-of-effect requirements guarantee of the stored row.
use gnomon.Prelude.{
  ℕ, ◌≤◌, ◌≡◌, ◌≢◌, inl, inr, refl, arith, true, false, Option, none, some, ok, ◌>>=◌, Option-cases,
  Result-cases,
}
use gnomon.Security.Model.{SecurityState, normal, recovery_required, parse_state, authority_epoch}
use gnomon.Security.Policy.{AuthorityDirection}
use gnomon.Security.Capability.{SecurityCapability, is_restricted, is_always_safe, allows}
use gnomon.Security.Store.{
  SecurityStateRecord, PersistedSecurityState, load, validation_misplaced, require_capability,
  require_locked_capability,
}

-- An effect that the policy restricts is allowed in the normal state only.
pub restricted_needs_normal :
    (state : SecurityState) (capability : SecurityCapability)
    (direction : Option AuthorityDirection)
    → is_restricted capability ≡ true
    → allows state capability direction ≡ true
    → state ≡ normal
unfolding is_restricted allows
restricted_needs_normal normal capability direction r a = refl
restricted_needs_normal state capability direction r a = ground arith

authority_epoch-same : (n e : ℕ) → authority_epoch n ≡ some e → (e ≡ n) × (e ≢ 0)
unfolding authority_epoch
authority_epoch-same n e h = ground arith

-- A row that loads has a known stored state, a live epoch and a version of at least one. The version,
-- the epoch and both flags are loaded as they are stored; a pending reconstruction validation occurs
-- under a pending recovery bootstrap only; and the state is the stored one, except that a pending
-- recovery bootstrap always reads as recovery-required.
pub load-faithful :
    (r : SecurityStateRecord) (p : PersistedSecurityState)
    → load (some r) ≡ ok p
    → (1 ≤ p.version)
      × (p.version ≡ r.version)
      × (p.authority_epoch_id ≢ 0)
      × (p.authority_epoch_id ≡ r.authority_epoch_id)
      × (p.recovery_bootstrap_pending ≡ r.recovery_bootstrap_pending)
      × (p.reconstruction_validation_pending ≡ r.reconstruction_validation_pending)
      × (r.reconstruction_validation_pending ≡ true → r.recovery_bootstrap_pending ≡ true)
      × (r.recovery_bootstrap_pending ≡ true → p.state ≡ recovery_required)
      × (r.recovery_bootstrap_pending ≡ false → parse_state r.state ≡ some p.state)
      × ((s : SecurityState) × (parse_state r.state ≡ some s))
unfolding load validation_misplaced
load-faithful r p h = elim (Option-cases (parse_state r.state)) [
  | inl bad ↦ absurd (ground arith)
  | inr (s, parsed) ↦ elim (Option-cases (authority_epoch r.authority_epoch_id)) [
    | inl nil ↦ absurd (ground arith)
    | inr (epoch, known) ↦
        let (same, live) = authority_epoch-same r.authority_epoch_id epoch known in
        (
          ground arith,
          ground arith,
          ground arith,
          ground arith,
          ground arith,
          ground arith,
          λ v. ground arith,
          λ b. ground arith,
          λ b. ground arith,
          (s, parsed),
        )
  ]
]

require_missing :
    (capability : SecurityCapability) (direction : Option AuthorityDirection)
    {state : SecurityState}
    → require_capability none capability direction ≢ ok state
unfolding require_capability load
require_missing capability direction h = cc

restricted_not_safe :
    (capability : SecurityCapability)
    → is_restricted capability ≡ true
    → is_always_safe capability ≡ false
unfolding is_restricted is_always_safe
restricted_not_safe capability r = ground arith

-- A granted requirement of a restricted effect means that the row loads, its stored state is
-- normal and no recovery bootstrap is pending.
pub require_restricted :
    (row : Option SecurityStateRecord) (capability : SecurityCapability)
    (direction : Option AuthorityDirection) (state : SecurityState)
    → is_restricted capability ≡ true
    → require_capability row capability direction ≡ ok state
    → (r : SecurityStateRecord) × (row ≡ some r)
      × (parse_state r.state ≡ some normal)
      × (r.recovery_bootstrap_pending ≡ false)
      × (state ≡ normal)
unfolding require_capability
require_restricted none capability direction state r h =
    absurd (require_missing capability direction h)
require_restricted (some row) capability direction state r h =
    elim (Result-cases (load (some row))) [
      | inr (e, bad) ↦ absurd (ground arith)
      | inl (p, loaded) ↦
          let unsafe = restricted_not_safe capability r in
          let calm : p.recovery_bootstrap_pending ≡ false = ground arith in
          let permitted : allows p.state capability direction ≡ true = ground arith in
          let sound = restricted_needs_normal p.state capability direction r permitted in
          let faithful = load-faithful row p loaded in
          (row, refl, ground arith, ground arith, ground arith)
    ]

-- The locked form decides as the plain one does, and returns the state that the plain one returns.
pub require_locked-agrees :
    (row : Option SecurityStateRecord) (capability : SecurityCapability)
    (direction : Option AuthorityDirection)
    → require_capability row capability direction
      ≡ (require_locked_capability row capability direction >>= λ p. ok p.state)
unfolding require_capability require_locked_capability load
require_locked-agrees none capability direction = refl
require_locked-agrees (some r) capability direction = elim (Result-cases (load (some r))) [
  | inr (e, bad) ↦ ground arith
  | inl (p, loaded) ↦ ground arith
]
