-- ===== src/Memory/Cited.antt =====
-- The claims that assessments cite.
use mathlib.Core.Path.{subst}
use gnomon.Prelude.{
  ℕ, ◌≡◌, ◌≢◌, inl, inr, refl, sym, ap, arith, true, false, ◌&&◌, some, List, [], ◌∷◌, ◌==◌, elem,
  All, Bool-cases, In,
}
use gnomon.Memory.Model.{
  MemoryLifecycle, active, archived, logically_deleted, ResearchClaim, AssessmentEvidence, MemoryDb,
}
use gnomon.Memory.Records.{get_claim}
use gnomon.Memory.Checks.{is_active, active_claims}
use gnomon.Memory.Tables.{put_by}

-- The primary key of the claims.
abbrev pub IsKeyed : List ResearchClaim → Type 0
IsKeyed [] = Unit
IsKeyed (c ∷ claims) = All (λ x. x.id ≢ c.id) claims × IsKeyed claims

-- Every link of an assessment cites an active claim.
pub record IsGrounded (db : MemoryDb) : Type 0 where
  pub keyed : IsKeyed db.claims
  pub cited :
      (e : AssessmentEvidence)
      → In e db.evidence
      → (c : ResearchClaim) × (get_claim e.claim_id db.claims ≡ some c) × (c.lifecycle ≡ active)

All-In : {A : Type 0} (P : A → Type 0) (xs : List A) → All P xs → (a : A) → In a xs → P a
All-In P (x ∷ xs) h a (inl here) = subst P (sym here) h.0
All-In P (x ∷ xs) h a (inr later) = All-In P xs h.1 a later
All-In P [] h a member = absurd member

pub keyed-get_claim :
    (c : ResearchClaim) (claims : List ResearchClaim)
    → IsKeyed claims
    → In c claims
    → get_claim c.id claims ≡ some c
unfolding get_claim
keyed-get_claim c (x ∷ claims) h (inl here) =
    let at : x.id == c.id ≡ true = let e = ap (λ y. y.id) here in ground arith in
    rw (at) (ap (λ y. some y) (sym here))
keyed-get_claim c (x ∷ claims) h (inr later) =
    let ne : c.id ≢ x.id = All-In (λ y. y.id ≢ x.id) claims h.0 c later in
    let off : x.id == c.id ≡ false = ground arith in rw (off) (keyed-get_claim c claims h.1 later)
keyed-get_claim c [] h member = absurd member

put_by-All :
    (P : ResearchClaim → Type 0) (row : ResearchClaim) (claims : List ResearchClaim)
    → P row
    → All P claims
    → All P (put_by (λ r. r.id) row claims)
unfolding put_by
put_by-All P row [] p h = (p, tt)
put_by-All P row (x ∷ claims) p h = elim (Bool-cases (x.id == row.id)) [
  | inl same ↦ rw (same) (p, h.1)
  | inr other ↦ rw (other) (h.0, put_by-All P row claims p h.1)
]

pub put_by-IsKeyed :
    (row : ResearchClaim) (claims : List ResearchClaim)
    → IsKeyed claims
    → IsKeyed (put_by (λ r. r.id) row claims)
unfolding put_by
put_by-IsKeyed row [] h = (tt, tt)
put_by-IsKeyed row (x ∷ claims) h = elim (Bool-cases (x.id == row.id)) [
  | inl same ↦
      let e : x.id ≡ row.id = ground arith in
      rw (same) (subst (λ i. All (λ y. y.id ≢ i) claims) e h.0, h.1)
  | inr other ↦
      let ne : row.id ≢ x.id = ground arith in
      rw (other) (put_by-All (λ y. y.id ≢ x.id) row claims ne h.0, put_by-IsKeyed row claims h.1)
]

active-lifecycle : (l : MemoryLifecycle) → is_active l ≡ true → l ≡ active
active-lifecycle active h = refl
active-lifecycle archived h = cc
active-lifecycle logically_deleted h = cc

-- An identifier that the query returns is that of an active claim.
pub active_claims-found :
    (task_id id : ℕ) (ids : List ℕ) (claims : List ResearchClaim)
    → elem id (active_claims task_id ids claims) ≡ true
    → (c : ResearchClaim) × In c claims × (c.id ≡ id) × (c.lifecycle ≡ active)
unfolding active_claims
active_claims-found task_id id ids [] h = absurd (ground arith)
active_claims-found task_id id ids (x ∷ claims) h =
    elim (Bool-cases (x.task_id == task_id && (elem x.id ids && is_active x.lifecycle))) [
      | inr out ↦
          let (c, member, at, live) = active_claims-found task_id id ids claims (rw (out) at h) in
          (c, inr member, at, live)
      | inl inside ↦ elim (Bool-cases (x.id == id)) [
        | inl here ↦ (x, inl refl, ground arith, active-lifecycle x.lifecycle (ground arith))
        | inr there ↦
            let h' = rw (inside) at h in
            let (c, member, at, live) = active_claims-found task_id id ids claims (ground arith) in
            (c, inr member, at, live)
      ]
    ]
