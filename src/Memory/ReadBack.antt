-- ===== src/Memory/ReadBack.antt =====
-- The state of a record after a write: `state` and `_write` together.
use gnomon.Prelude.{ℕ, ◌≡◌, arith, inl, inr}
use gnomon.Memory.Model.{
  claim, assessment, claim_data, assessment_data, MemoryDb, ClaimCreate, HypothesisAssessmentCreate,
}
use gnomon.Memory.Records.{get_record, MemoryContext}
use gnomon.Memory.History.{is_well_formed}
use gnomon.Memory.Write.{Writing, write}
use gnomon.Memory.Fit.{IsFit, IsWritten, Content-cases, kind-cases}
use gnomon.Memory.ClaimWrite.{claim-IsWritten}
use gnomon.Memory.AssessmentWrite.{assessment-IsWritten}

module _ (cx : MemoryContext) (w : Writing) (db : MemoryDb)
    (at_target : w.target ≡ get_record w.kind w.target_id db)
    (fit : IsFit w.kind w.target w.after) where
  pub kind_claim : (c : ClaimCreate) → w.after.content ≡ claim_data c → w.kind ≡ claim
  unfolding is_well_formed
  kind_claim c k =
      let f = fit.formed in
      elim (kind-cases w.kind) [ inl is ↦ is | inr is ↦ absurd (ground arith) ]

  pub kind_assessment :
      (a : HypothesisAssessmentCreate) (h : ℕ)
      → w.after.content ≡ assessment_data a h
      → w.kind ≡ assessment
  unfolding is_well_formed
  kind_assessment a h k =
      let f = fit.formed in
      elim (kind-cases w.kind) [ inl is ↦ absurd (ground arith) | inr is ↦ is ]

  -- A write reads back as the state that it wrote, under the next version.
  pub write-IsWritten : IsWritten cx w (write cx w db).1
  write-IsWritten = elim (Content-cases w.after.content) [
    | inl (c, k) ↦ claim-IsWritten cx w db at_target fit c k (kind_claim c k)
    | inr (a, h, k) ↦ assessment-IsWritten cx w db at_target fit a h k (kind_assessment a h k)
  ]
