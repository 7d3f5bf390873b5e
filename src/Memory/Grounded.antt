-- ===== src/Memory/Grounded.antt =====
-- The calls of the memory service keep the claims that assessments cite active.
use mathlib.Core.Path.{subst}
use gnomon.Prelude.{
  ℕ, ◌≡◌, ◌≢◌, ◌⊎◌, inl, inr, refl, sym, ap, ◌∙◌, arith, Bool, some, List, [], ◌∷◌, ◌++◌, ◌==◌,
  keep, map, Bool-cases, In,
}
use gnomon.Memory.Model.{
  claim, active, ResearchClaim, AssessmentEvidence, AssessmentEvidenceLink, claim_record, MemoryDb,
  ClaimCreate, HypothesisAssessmentCreate, claim_data, assessment_data,
}
use gnomon.Memory.Records.{MemoryContext, get_claim}
use gnomon.Memory.Tables.{replace_owned}
use gnomon.Memory.Write.{Writing, claim_row, assessment_evidence, write}
use gnomon.Memory.Fit.{Content-cases, get_record-get_claim, get_claim-get_record}
use gnomon.Memory.ReadBack.{kind_claim}
use gnomon.Memory.ClaimWrite.{claims_after, claim_at}
use gnomon.Memory.AssessmentWrite.{evidence_after}
use gnomon.Memory.Others.{assessments_kept, claims_kept, write-IsUntouched}
use gnomon.Memory.Chain.{IsProper}
use gnomon.Memory.Cited.{IsKeyed, IsGrounded, keyed-get_claim, put_by-IsKeyed}

-- What the validation of a state makes sure of.
pub record IsSafe (w : Writing) (db : MemoryDb) : Type 0 where
  pub unchanged :
      (c : ClaimCreate)
      → w.after.content ≡ claim_data c
      → (r : ResearchClaim) → w.target ≡ some (claim_record r)
      → (r.lifecycle ≡ w.after.lifecycle)
        ⊎ ((e : AssessmentEvidence) → In e db.evidence → e.claim_id ≢ w.target_id)
  pub active_links :
      (a : HypothesisAssessmentCreate) (h : ℕ)
      → w.after.content ≡ assessment_data a h
      → (l : AssessmentEvidenceLink) → In l a.evidence_links
      → (c : ResearchClaim) × In c db.claims × (c.id ≡ l.claim_id) × (c.lifecycle ≡ active)

In-split : {A : Type 0} (a : A) (xs ys : List A) → In a (xs ++ ys) → In a xs ⊎ In a ys
In-split a [] ys member = inr member
In-split a (x ∷ xs) ys (inl here) = inl (inl here)
In-split a (x ∷ xs) ys (inr later) = elim (In-split a xs ys later) [
  | inl left ↦ inl (inr left)
  | inr right ↦ inr right
]

In-kept : {A : Type 0} (p : A → Bool) (a : A) (xs : List A) → In a (keep p xs) → In a xs
In-kept p a [] member = member
In-kept p a (x ∷ xs) member = elim (Bool-cases (p x)) [
  | inl kept ↦ elim (rw (kept) at member) [
    | inl here ↦ inl here
    | inr later ↦ inr (In-kept p a xs later)
  ]
  | inr dropped ↦ inr (In-kept p a xs (rw (dropped) at member))
]

In-mapped :
    {A B : Type 0} (f : A → B) (b : B) (xs : List A)
    → In b (map f xs)
    → (a : A) × In a xs × (b ≡ f a)
In-mapped f b (x ∷ xs) (inl here) = (x, inl refl, here)
In-mapped f b (x ∷ xs) (inr later) =
    let (a, member, same) = In-mapped f b xs later in (a, inr member, same)
In-mapped f b [] member = absurd member

module _ (cx : MemoryContext) (w : Writing) (db : MemoryDb) (proper : IsProper w db)
    (safe : IsSafe w db) (g : IsGrounded db) where
  own_claim :
      (c : ClaimCreate)
      → w.after.content ≡ claim_data c
      → (e : AssessmentEvidence) → In e db.evidence
      → e.claim_id ≡ w.target_id
      → (x : ResearchClaim) × (get_claim e.claim_id (write cx w db).1.claims ≡ some x)
        × (x.lifecycle ≡ active)
  unfolding claim_row
  own_claim c k e member at =
      let kind = kind_claim cx w db proper.at_target proper.fit c k in
      let (old, found, live) = g.cited e member in
      let here : w.target ≡ some (claim_record old) =
        proper.at_target
        ∙ get_claim-get_record w.kind w.target_id db old kind
            (subst (λ i. get_claim i db.claims ≡ some old) at found) in
      let new = claim_at cx w db proper.at_target proper.fit c k kind in
      elim (safe.unchanged c k old here) [
        | inl same ↦ (
          claim_row cx w c,
          subst (λ i. get_claim i (write cx w db).1.claims ≡ some (claim_row cx w c)) (sym at) new,
          sym same ∙ live,
        )
        | inr uncited ↦ absurd (uncited e member at)
      ]

  other_claim :
      (e : AssessmentEvidence)
      → In e db.evidence
      → ¬ ((claim ≡ w.kind) × (e.claim_id ≡ w.target_id))
      → (x : ResearchClaim) × (get_claim e.claim_id (write cx w db).1.claims ≡ some x)
        × (x.lifecycle ≡ active)
  other_claim e member other =
      let (old, found, live) = g.cited e member in
      let untouched =
        write-IsUntouched cx w db proper.at_target proper.fit claim e.claim_id other in
      (
        old,
        get_record-get_claim e.claim_id (write cx w db).1 old
            (untouched.same ∙ get_claim-get_record claim e.claim_id db old refl found),
        live,
      )

  claim-IsGrounded :
      (c : ClaimCreate) → w.after.content ≡ claim_data c → IsGrounded (write cx w db).1
  claim-IsGrounded c k = record {
    keyed =
        subst IsKeyed (sym (claims_after cx w db proper.at_target proper.fit c k))
          (put_by-IsKeyed (claim_row cx w c) db.claims g.keyed);
    cited = λ e member.
        let there : In e db.evidence =
          subst (λ l. In e l) (assessments_kept cx w db proper.at_target proper.fit c k).1 member in
        elim (Bool-cases (e.claim_id == w.target_id)) [
          | inl same ↦ own_claim c k e there (ground arith)
          | inr differs ↦ other_claim e there (λ h. let at = h.1 in absurd (ground arith))
        ];
  }

  assessment-IsGrounded :
      (a : HypothesisAssessmentCreate) (h : ℕ)
      → w.after.content ≡ assessment_data a h
      → IsGrounded (write cx w db).1
  unfolding replace_owned
  assessment-IsGrounded a h k =
      let same = (claims_kept cx w db proper.at_target proper.fit a h k).0 in
      record {
        keyed = subst IsKeyed (sym same) g.keyed;
        cited = λ e member.
            let there =
              subst (λ l. In e l) (evidence_after cx w db proper.at_target proper.fit a h k)
                member in
            subst
              (λ l.
                (x : ResearchClaim) × (get_claim e.claim_id l ≡ some x) × (x.lifecycle ≡ active))
              (sym same)
              (elim (In-split e (map (assessment_evidence w.target_id) a.evidence_links) _ there) [
                | inl written ↦
                    let (l, linked, is) =
                      In-mapped (assessment_evidence w.target_id) e a.evidence_links written in
                    let (c, stored, at, live) = safe.active_links a h k l linked in
                    let id : c.id ≡ e.claim_id = at ∙ sym (ap (λ x. x.claim_id) is) in
                    (
                      c,
                      subst (λ i. get_claim i db.claims ≡ some c) id
                          (keyed-get_claim c db.claims g.keyed stored),
                      live,
                    )
                | inr kept ↦ g.cited e (In-kept _ e db.evidence kept)
              ]);
      }

  pub write-IsGrounded : IsGrounded (write cx w db).1
  write-IsGrounded = elim (Content-cases w.after.content) [
    | inl (c, k) ↦ claim-IsGrounded c k
    | inr (a, h, k) ↦ assessment-IsGrounded a h k
  ]
