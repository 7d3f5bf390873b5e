-- ===== src/Memory/Journal.antt =====
-- What a write adds to the journal of its record.
use mathlib.Core.Path.{subst}
use gnomon.Prelude.{
  ℕ, ◌≡◌, ◌⊎◌, inl, inr, refl, sym, ◌∙◌, arith, true, false, none, some, [], ◌∷◌, Option-cases,
  Bool-cases, some_inj,
}
use gnomon.Memory.Model.{MemoryTarget, MemoryState, KnowledgeRecord, MemoryDb}
use gnomon.Memory.Records.{MemoryContext, get_record, task_of, version_of}
use gnomon.Memory.Prepare.{state_before}
use gnomon.Memory.Write.{Writing, previous_version_of, change_row, write_rows, write}
use gnomon.Memory.Fit.{Content-cases, IsFit, IsWritten, OwnHypothesis}
use gnomon.Memory.ReadBack.{write-IsWritten}
use gnomon.Memory.Others.{IsUntouched, write-IsUntouched}
use gnomon.Memory.Chain.{
  is_about, log_of, Chain, IsChained, IsJournaled, IsProper, Chain-map, own_change, is_about-same,
  before_read,
}

module _ (cx : MemoryContext) (w : Writing) (db : MemoryDb) (proper : IsProper w db)
    (journaled : IsJournaled db) where
  pub changes_after : (write cx w db).1.changes ≡ change_row cx w ∷ db.changes
  unfolding write write_rows
  changes_after = elim (Content-cases w.after.content) [
    | inl (c, k) ↦ rw (k) refl
    | inr (a, h, k) ↦ rw (k) refl
  ]

  pub log_other :
      (kind : MemoryTarget) (id : ℕ)
      → is_about kind id (change_row cx w) ≡ false
      → log_of kind id (write cx w db).1.changes ≡ log_of kind id db.changes
  unfolding log_of
  log_other kind id off = rw (changes_after, off) refl

  pub log_own :
      log_of w.kind w.target_id (write cx w db).1.changes
      ≡ change_row cx w ∷ log_of w.kind w.target_id db.changes
  unfolding log_of change_row
  log_own = let own = own_change w.kind w.target_id in rw (changes_after, own) refl

  -- The new change follows the chain that was there.
  past :
      (row : KnowledgeRecord)
      → ((r : KnowledgeRecord)
          → w.target ≡ some r
          → (s : MemoryState) → OwnHypothesis (some r) s
          → OwnHypothesis (some row) s)
      → ((w.before ≡ none)
          × (previous_version_of w.target ≡ 0)
          × (log_of w.kind w.target_id db.changes ≡ []))
        ⊎ ((previous : MemoryState) × (w.before ≡ some previous)
            × Chain w.authority.task_id
                (IsFit w.kind (some row))
                (previous_version_of w.target)
                previous
                (log_of w.kind w.target_id db.changes))
  unfolding state_before
  past row kept = elim (Option-cases w.target) [
    | inl none_yet ↦
        let b = proper.before in
        inl (
          ground arith,
          rw none_yet refl,
          journaled.fresh w.kind w.target_id (sym proper.at_target ∙ none_yet),
        )
    | inr (r, here) ↦
        let old = journaled.chained w.kind w.target_id r (sym proper.at_target ∙ here) in
        let read : w.before ≡ some old.current =
          before_read w.target r w.before db old.current here proper.before old.reads in
        inr (
          old.current,
          read,
          subst
              (λ t.
                Chain t (IsFit w.kind (some row)) (previous_version_of w.target) old.current
                  (log_of w.kind w.target_id db.changes))
              (proper.task r here)
              (subst
                (λ x.
                  Chain (task_of r) (IsFit w.kind (some row)) (previous_version_of x) old.current
                    (log_of w.kind w.target_id db.changes))
                (sym here)
                (Chain-map (task_of r) (IsFit w.kind (some r)) (IsFit w.kind (some row))
                  (version_of r) old.current _
                  (λ x f. record {
                    formed = f.formed;
                    ordered = f.ordered;
                    own = kept r here x f.own;
                  })
                  old.chain)),
        )
  ]

  write-IsChained :
      IsWritten cx w (write cx w db).1
      → (r : KnowledgeRecord) → get_record w.kind w.target_id (write cx w db).1 ≡ some r
      → IsChained w.kind w.target_id r (write cx w db).1
  unfolding change_row
  write-IsChained written r found =
      let same = some_inj (sym written.found ∙ found) in
      let fit : IsFit w.kind (some written.row) w.after = record {
        formed = proper.fit.formed;
        ordered = proper.fit.ordered;
        own = written.own;
      } in
      subst (λ x. IsChained w.kind w.target_id x (write cx w db).1) same
        (record {
          current = w.after;
          reads = written.reads;
          chain =
              subst
                (λ l.
                  Chain (task_of written.row) (IsFit w.kind (some written.row))
                    (version_of written.row) w.after l)
                (sym log_own)
                (subst
                  (λ t.
                    Chain t (IsFit w.kind (some written.row)) (version_of written.row) w.after
                      (change_row cx w ∷ log_of w.kind w.target_id db.changes))
                  (sym (written.task proper.task))
                  (
                    fit,
                    refl,
                    sym written.version,
                    refl,
                    refl,
                    written.version,
                    past written.row written.kept,
                  ));
        })

  other-IsChained :
      (kind : MemoryTarget) (id : ℕ) (r : KnowledgeRecord)
      → is_about kind id (change_row cx w) ≡ false
      → IsUntouched db (write cx w db).1 kind id
      → get_record kind id (write cx w db).1 ≡ some r
      → IsChained kind id r (write cx w db).1
  other-IsChained kind id r off untouched found =
      let old = journaled.chained kind id r (sym untouched.same ∙ found) in
      record {
        current = old.current;
        reads = untouched.reads r (sym untouched.same ∙ found) ∙ old.reads;
        chain =
            subst (λ l. Chain (task_of r) (IsFit kind (some r)) (version_of r) old.current l)
              (sym (log_other kind id off)) old.chain;
      }

  pub different :
      (kind : MemoryTarget) (id : ℕ)
      → is_about kind id (change_row cx w) ≡ false
      → ¬ ((kind ≡ w.kind) × (id ≡ w.target_id))
  unfolding change_row
  different kind id off (k, i) =
      let on : is_about w.kind w.target_id (change_row cx w) ≡ true =
        own_change w.kind w.target_id in
      let on' : is_about kind id (change_row cx w) ≡ true =
        subst (λ x. is_about x id (change_row cx w) ≡ true) (sym k)
          (subst (λ x. is_about w.kind x (change_row cx w) ≡ true) (sym i) on) in
      ground arith

  pub same_key :
      (kind : MemoryTarget) (id : ℕ)
      → is_about kind id (change_row cx w) ≡ true
      → (w.kind ≡ kind) × (w.target_id ≡ id)
  unfolding change_row
  same_key kind id on = is_about-same kind id (change_row cx w) on

  -- A proper write keeps every journal a chain.
  pub write-IsJournaled : IsJournaled (write cx w db).1
  write-IsJournaled =
      let written = write-IsWritten cx w db proper.at_target proper.fit in
      let others = write-IsUntouched cx w db proper.at_target proper.fit in
      record {
        chained = λ kind id r found. elim (Bool-cases (is_about kind id (change_row cx w))) [
          | inl on ↦
              let (k, i) = same_key kind id on in
              subst (λ x. IsChained x id r (write cx w db).1) k
                (subst (λ x. IsChained w.kind x r (write cx w db).1) i
                  (write-IsChained written r (
                    subst (λ x. get_record x w.target_id (write cx w db).1 ≡ some r) (sym k)
                      (subst (λ x. get_record kind x (write cx w db).1 ≡ some r) (sym i) found))))
          | inr off ↦ other-IsChained kind id r off (others kind id (different kind id off)) found
        ];
        fresh = λ kind id missing. elim (Bool-cases (is_about kind id (change_row cx w))) [
          | inl on ↦
              let (k, i) = same_key kind id on in
              let there : get_record kind id (write cx w db).1 ≡ some written.row =
                subst (λ x. get_record x id (write cx w db).1 ≡ some written.row) k
                  (subst (λ x. get_record w.kind x (write cx w db).1 ≡ some written.row) i
                    written.found) in
              absurd (ground arith)
          | inr off ↦
              let kept = others kind id (different kind id off) in
              log_other kind id off ∙ journaled.fresh kind id (sym kept.same ∙ missing)
        ];
      }
