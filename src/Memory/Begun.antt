-- ===== src/Memory/Begun.antt =====
-- Journals that begin with the creation of their record.
use mathlib.Core.Path.{subst}
use gnomon.Prelude.{
  ℕ, ◌≡◌, inl, inr, sym, ap, ◌∙◌, arith, Bool, false, none, some, List, [], ◌∷◌, ok, Option-cases,
  Bool-cases,
}
use gnomon.Audit.Events.{ResearchEvent}
use gnomon.Memory.Model.{
  MemoryTarget, claim, assessment, create, MemoryChangeProposal, MemoryReversal, MemoryAuthority,
  MemoryChange, KnowledgeRecord, MemoryTask, MemoryDb,
}
use gnomon.Memory.Records.{MemoryContext, get_record}
use gnomon.Memory.Prepare.{check_target, state_before}
use gnomon.Memory.Write.{Writing, previous_version_of, change_row, write}
use gnomon.Memory.Service.{stage_change, reverse_change, apply, reverse}
use gnomon.Memory.Chain.{is_about, log_of, IsJournaled, IsProper}
use gnomon.Memory.Journal.{log_own, log_other, different, same_key, write-IsJournaled}
use gnomon.Memory.Others.{write-IsUntouched}
use gnomon.Memory.Staged.{stage_change-cases}
use gnomon.Memory.Outcomes.{reverse_change-cases}
use gnomon.Memory.Proper.{staged-IsProper}
use gnomon.Memory.Invariant.{
  Call, applying, reversing, perform, authorized-holds, noted-IsJournaled, reversed-IsProper,
}

-- The oldest change of a journal, the newest first, is the creation of its record.
abbrev pub IsBegun : List MemoryChange → Type 0
IsBegun [] = ⊥
IsBegun (c ∷ []) =
    (c.operation ≡ some create) × (c.previous_state ≡ none) × (c.previous_version ≡ 0)
IsBegun (c ∷ d ∷ rest) = IsBegun (d ∷ rest)

IsBegun-cons : (c : MemoryChange) (log : List MemoryChange) → IsBegun log → IsBegun (c ∷ log)
IsBegun-cons c [] h = absurd h
IsBegun-cons c (d ∷ rest) h = h

-- The journals are chained, and each begins with a creation, but for the records that are older than
-- the journal.
pub record IsComplete (is_older : MemoryTarget → ℕ → Bool) (db : MemoryDb) : Type 0 where
  pub journaled : IsJournaled db
  pub begun :
      (kind : MemoryTarget) (id : ℕ) (r : KnowledgeRecord)
      → get_record kind id db ≡ some r
      → is_older kind id ≡ false
      → IsBegun (log_of kind id db.changes)

module _ (is_older : MemoryTarget → ℕ → Bool) where
  -- A new record gets a journal with its creation alone.
  written-IsBegun :
      (cx : MemoryContext) (w : Writing) (db : MemoryDb)
      → IsProper w db
      → (w.target ≡ none → w.operation ≡ some create)
      → IsComplete is_older db
      → is_older w.kind w.target_id ≡ false
      → IsBegun (change_row cx w ∷ log_of w.kind w.target_id db.changes)
  unfolding change_row state_before
  written-IsBegun cx w db proper creates complete young = elim (Option-cases w.target) [
    | inl none_yet ↦
        let before = proper.before in
        let first : log_of w.kind w.target_id db.changes ≡ [] =
          complete.journaled.fresh w.kind w.target_id (sym proper.at_target ∙ none_yet) in
        subst (λ l. IsBegun (change_row cx w ∷ l)) (sym first)
          (creates none_yet, ground arith, ap previous_version_of none_yet)
    | inr (r, here) ↦
        IsBegun-cons (change_row cx w) (log_of w.kind w.target_id db.changes)
          (complete.begun w.kind w.target_id r (sym proper.at_target ∙ here) young)
  ]

  write-IsComplete :
      (cx : MemoryContext) (w : Writing) (db : MemoryDb)
      → IsProper w db
      → (w.target ≡ none → w.operation ≡ some create)
      → IsComplete is_older db
      → IsComplete is_older (write cx w db).1
  write-IsComplete cx w db proper creates complete = record {
    journaled = write-IsJournaled cx w db proper complete.journaled;
    begun = λ kind id r found young. elim (Bool-cases (is_about kind id (change_row cx w))) [
      | inl on ↦
          let (k, i) = same_key cx w db proper complete.journaled kind id on in
          let young' : is_older w.kind w.target_id ≡ false =
            subst (λ x. is_older x w.target_id ≡ false) (sym k)
              (subst (λ x. is_older kind x ≡ false) (sym i) young) in
          subst (λ x. IsBegun (log_of x id (write cx w db).1.changes)) k
            (subst (λ x. IsBegun (log_of w.kind x (write cx w db).1.changes)) i
              (subst IsBegun (sym (log_own cx w db proper complete.journaled))
                (written-IsBegun cx w db proper creates complete young')))
      | inr off ↦
          let others =
            write-IsUntouched cx w db proper.at_target proper.fit kind id
              (different cx w db proper complete.journaled kind id off) in
          subst IsBegun (sym (log_other cx w db proper complete.journaled kind id off))
            (complete.begun kind id r (sym others.same ∙ found) young)
    ];
  }

  noted-IsComplete :
      (db : MemoryDb) (events : List ResearchEvent)
      → IsComplete is_older db
      → IsComplete is_older (record db { events = events })
  unfolding get_record
  noted-IsComplete db events complete = record {
    journaled = noted-IsJournaled db events complete.journaled;
    begun = by_kind;
  }
    where
      by_kind :
          (kind : MemoryTarget) (id : ℕ) (r : KnowledgeRecord)
          → get_record kind id (record db { events = events }) ≡ some r
          → is_older kind id ≡ false
          → IsBegun (log_of kind id db.changes)
      by_kind claim id r found young = complete.begun claim id r found young
      by_kind assessment id r found young = complete.begun assessment id r found young

-- A proposal for a record that is not there is a creation.
check_target-create :
    (q : MemoryChangeProposal) (task : MemoryTask)
    → check_target q task none ≡ ok tt
    → q.operation ≡ create
unfolding check_target
check_target-create q task h = ground arith

module _ (is_older : MemoryTarget → ℕ → Bool) (db : MemoryDb)
    (complete : IsComplete is_older db) where
  staged-IsComplete :
      (cx : MemoryContext) (q : MemoryChangeProposal) (authority : MemoryAuthority)
      (c : MemoryChange) (db' : MemoryDb)
      → stage_change cx q authority db ≡ ok (c, db')
      → IsComplete is_older db'
  staged-IsComplete cx q authority c db' h = elim (stage_change-cases cx q authority db c db' h) [
    | inl repeated ↦ subst (λ x. IsComplete is_older x) (sym repeated.same) complete
    | inr staged ↦
        let f = staged.facts in
        let creates : staged.prepared.target ≡ none → some q.operation ≡ some create = λ here.
          ap (λ o. some o)
            (check_target-create q f.task
              (subst (λ t. check_target q f.task t ≡ ok tt) here f.checked)) in
        subst (λ x. IsComplete is_older x) (sym (ap (λ m. m.1) staged.written))
          (write-IsComplete is_older cx _ db
            (staged-IsProper cx q authority db staged.prepared f complete.journaled) creates
            complete)
  ]

  reversed-IsComplete :
      (cx : MemoryContext) (original_id : ℕ) (q : MemoryReversal) (authority : MemoryAuthority)
      (c : MemoryChange) (db' : MemoryDb)
      → reverse_change cx original_id q authority db ≡ ok (c, db')
      → IsComplete is_older db'
  reversed-IsComplete cx original_id q authority c db' h =
      elim (reverse_change-cases cx original_id q authority db c db' h) [
        | inl duplicate ↦ subst (λ x. IsComplete is_older x) (sym duplicate.same) complete
        | inr made ↦
            subst (λ x. IsComplete is_older x) (sym (ap (λ m. m.1) made.written))
              (write-IsComplete is_older cx _ db
                (reversed-IsProper cx original_id q authority db (c, db') made complete.journaled)
                (λ missing. absurd (ground arith)) complete)
      ]

-- Every call, a change or a reversal, keeps the journals complete, whether it succeeds, fails or is
-- denied: each record reads back as the end of a chain of versions, and the chain of each record that is
-- not one of a fixed set of older records begins with a CREATE change of version one from no state. A
-- chain of an older record may begin with its version one.
pub perform-IsComplete :
    (is_older : MemoryTarget → ℕ → Bool) (cx : MemoryContext) (call : Call)
    (authority : MemoryAuthority) (db : MemoryDb)
    → IsComplete is_older db
    → IsComplete is_older (perform cx call authority db).1
unfolding perform apply reverse
perform-IsComplete is_older cx (applying q) authority db complete =
    authorized-holds (IsComplete is_older) cx authority db (stage_change cx q authority db) complete
      (λ events. noted-IsComplete is_older db events complete)
      (λ c db' h. staged-IsComplete is_older db complete cx q authority c db' h)
perform-IsComplete is_older cx (reversing original_id q) authority db complete =
    authorized-holds (IsComplete is_older) cx authority db
      (reverse_change cx original_id q authority db) complete
      (λ events. noted-IsComplete is_older db events complete)
      (λ c db' h. reversed-IsComplete is_older db complete cx original_id q authority c db' h)
