-- ===== src/Memory/ClaimWrite.antt =====
-- The row and the links of a written claim.
use mathlib.Core.Path.{subst}
use gnomon.Prelude.{
  find, ◌≡◌, refl, sym, ap, ◌∙◌, some, map, ◌==◌, IsSortedBy, Option-cases, inl, inr,
}
use gnomon.Memory.Model.{
  claim, MemoryState, claim_data, KnowledgeRecord, claim_record, assessment_record, MemoryDb,
  ClaimCreate,
}
use gnomon.Memory.Records.{
  get_claim, get_record, task_of, stored_state, source_link, source_links_of, MemoryContext,
}
use gnomon.Memory.Tables.{put_by, replace_owned, find-key, find-put_by}
use gnomon.Memory.Links.{links-replace_owned}
use gnomon.Memory.Write.{Writing, claim_row, claim_source, write_rows, write}
use gnomon.Memory.Fit.{
  IsOrdered, OwnHypothesis, IsFit, IsWritten, get_record-get_claim, get_claim-get_record,
  state-stored_state, is_valid_content-IsFit,
}

module _ (cx : MemoryContext) (w : Writing) (db : MemoryDb)
    (at_target : w.target ≡ get_record w.kind w.target_id db)
    (fit : IsFit w.kind w.target w.after) where
  pub claim_row_id : (c : ClaimCreate) → w.kind ≡ claim → (claim_row cx w c).id ≡ w.target_id
  unfolding claim_row get_claim
  claim_row_id c k = elim (Option-cases w.target) [
    | inl none_yet ↦ rw none_yet refl
    | inr (claim_record r, here) ↦
        let there : get_record claim w.target_id db ≡ some (claim_record r) =
          rw (← k, ← at_target) here in
        rw here (
          find-key (λ x. x.id) w.target_id db.claims r
            (get_record-get_claim w.target_id db r there))
    | inr (assessment_record r, here) ↦ rw here refl
  ]

  pub claims_after :
      (c : ClaimCreate)
      → w.after.content ≡ claim_data c
      → (write cx w db).1.claims ≡ put_by (λ r. r.id) (claim_row cx w c) db.claims
  unfolding write write_rows
  claims_after c k = rw (k) refl

  pub sources_after :
      (c : ClaimCreate)
      → w.after.content ≡ claim_data c
      → (write cx w db).1.claim_sources
        ≡ replace_owned
            (λ r. r.claim_id)
            w.target_id
            (map (claim_source w.target_id) c.source_links)
            db.claim_sources
  unfolding write write_rows
  sources_after c k = rw (k) refl

  pub claim_at :
      (c : ClaimCreate)
      → w.after.content ≡ claim_data c
      → w.kind ≡ claim
      → get_claim w.target_id (write cx w db).1.claims ≡ some (claim_row cx w c)
  unfolding get_claim
  claim_at c k kind =
      let found =
        subst
          (λ i.
            find (λ r. r.id == i) (put_by (λ r. r.id) (claim_row cx w c) db.claims)
            ≡ some (claim_row cx w c))
          (claim_row_id c kind) (find-put_by (λ r. r.id) (claim_row cx w c) db.claims) in
      subst (λ rows. find (λ r. r.id == w.target_id) rows ≡ some (claim_row cx w c))
        (sym (claims_after c k)) found

  claim_links :
      (c : ClaimCreate)
      → w.after.content ≡ claim_data c
      → w.kind ≡ claim
      → source_links_of (claim_row cx w c).id (write cx w db).1.claim_sources ≡ c.source_links
  unfolding source_links_of
  claim_links c k kind =
      let ordered : IsSortedBy (λ l. l.source_id) c.source_links = subst IsOrdered k fit.ordered in
      let back =
        links-replace_owned (λ r. r.claim_id) (λ r. r.source_id) (λ l. l.source_id) source_link
          claim_source (λ id l. refl) (λ id l. refl) (λ id l. refl) w.target_id c.source_links
          db.claim_sources ordered in
      subst (λ i. source_links_of i (write cx w db).1.claim_sources ≡ c.source_links)
        (sym (claim_row_id c kind))
        (subst (λ rows. source_links_of w.target_id rows ≡ c.source_links) (sym (sources_after c k))
          back)

  claim_task :
      (c : ClaimCreate)
      → ((r : KnowledgeRecord) → w.target ≡ some r → task_of r ≡ w.authority.task_id)
      → (claim_row cx w c).task_id ≡ w.authority.task_id
  unfolding claim_row
  claim_task c own = elim (Option-cases w.target) [
    | inl none_yet ↦ rw none_yet refl
    | inr (claim_record r, here) ↦ rw here (own (claim_record r) here)
    | inr (assessment_record r, here) ↦ rw here refl
  ]

  claim_own :
      (c : ClaimCreate)
      → w.kind ≡ claim
      → (r : KnowledgeRecord) → w.target ≡ some r
      → (s : MemoryState) → OwnHypothesis (some r) s
      → OwnHypothesis (some (claim_record (claim_row cx w c))) s
  claim_own c kind r here s h = tt

  pub claim-IsWritten :
      (c : ClaimCreate)
      → w.after.content ≡ claim_data c
      → w.kind ≡ claim
      → IsWritten cx w (write cx w db).1
  unfolding claim_row stored_state
  claim-IsWritten c k kind = record {
    row = claim_record (claim_row cx w c);
    found =
        get_claim-get_record w.kind w.target_id (write cx w db).1 (claim_row cx w c) kind
          (claim_at c k kind);
    version = refl;
    reads =
        state-stored_state (claim_record (claim_row cx w c)) (write cx w db).1 w.after
          (is_valid_content-IsFit w.kind w.target w.after fit)
          (ap
              (λ l. record {
                content = claim_data (record c { source_links = l });
                lifecycle = w.after.lifecycle;
              })
              (claim_links c k kind)
            ∙ ap (λ x. record { content = x; lifecycle = w.after.lifecycle }) (sym k));
    task = claim_task c;
    own = tt;
    kept = claim_own c kind;
  }
