-- ===== src/Memory/Invariant.antt =====
-- Calls of the memory service, and the journals that they keep.
use mathlib.Core.Path.{subst}
use gnomon.Prelude.{
  ℕ, ◌≡◌, inl, inr, refl, sym, ap, ◌∙◌, true, not, none, some, List, ok, Option-cases, Bool-cases,
  ◌||◌, Result, Result-cases, In, In-keep, find-In, some_inj,
}
use gnomon.Memory.Model.{
  MemoryTarget, claim, assessment, MemoryChangeProposal, MemoryReversal, MemoryAuthority,
  MemoryState, MemoryChange, MemoryError, KnowledgeRecord, claim_record, assessment_record,
  MemoryDb, logically_deleted,
}
use gnomon.Memory.Records.{
  MemoryContext, Answer, authorized, get_record, task_of, state, stored_state, is_model,
}
use gnomon.Audit.Events.{ResearchEvent}
use gnomon.Memory.Prepare.{state_before}
use gnomon.Memory.Service.{
  get_change, restored_state, reversal_writing, stage_change, reverse_change, apply, reverse,
}
use gnomon.Memory.Fit.{IsOrdered, OwnHypothesis, IsFit}
use gnomon.Memory.Chain.{IsJournaled, IsProper, Chain-previous, is_about, log_of, own_change}
use gnomon.Memory.Journal.{write-IsJournaled}
use gnomon.Memory.Staged.{stage_change-cases}
use gnomon.Memory.Outcomes.{IsReversed, reverse_change-cases}
use gnomon.Memory.Own.{validate_state-formed}
use gnomon.Memory.Proper.{read-IsFit, get_task-id, staged-IsProper}

own-lifecycle :
    (r : KnowledgeRecord) (before : MemoryState)
    → OwnHypothesis (some r) before
    → OwnHypothesis (some r) (record before { lifecycle = logically_deleted })
own-lifecycle (claim_record c) before own = tt
own-lifecycle (assessment_record a) before own = own

-- A reversal restores a state that fits the record.
restored-fits :
    (kind : MemoryTarget) (r : KnowledgeRecord) (original : MemoryChange) (before : MemoryState)
    → IsFit kind (some r) before
    → ((p : MemoryState) → original.previous_state ≡ some p → IsFit kind (some r) p)
    → IsOrdered (restored_state original before).content
      × OwnHypothesis (some r) (restored_state original before)
unfolding restored_state
restored-fits kind r original before fit previous = elim (Option-cases original.previous_state) [
  | inl none_yet ↦
      let same : restored_state original before ≡ record before { lifecycle = logically_deleted } =
        rw (none_yet) refl in
      subst (λ x. IsOrdered x.content × OwnHypothesis (some r) x) (sym same)
        (fit.ordered, own-lifecycle r before fit.own)
  | inr (p, there) ↦
      let f = previous p there in
      let same : restored_state original before ≡ p = rw (there) refl in
      subst (λ x. IsOrdered x.content × OwnHypothesis (some r) x) (sym same) (f.ordered, f.own)
]

pub reversed-IsProper :
    (cx : MemoryContext) (original_id : ℕ) (q : MemoryReversal) (authority : MemoryAuthority)
    (db : MemoryDb) (made : MemoryChange × MemoryDb)
    (f : IsReversed cx original_id q authority db made)
    → IsJournaled db
    → IsProper (reversal_writing q authority f.original f.row f.before f.provenance) db
unfolding log_of state_before get_change
reversed-IsProper cx original_id q authority db made f journaled =
    let o = f.original in
    let old = journaled.chained o.target_type o.target_id f.row f.at_target in
    let logged : In o (log_of o.target_type o.target_id db.changes) =
      In-keep (is_about o.target_type o.target_id) o db.changes (find-In _ o db.changes f.known)
        (own_change o.target_type o.target_id) in
    let past : (p : MemoryState) → o.previous_state ≡ some p → IsFit o.target_type (some f.row) p =
      λ p there. Chain-previous _ _ _ _ _ old.chain o logged p there in
    let fit = read-IsFit o.target_type o.target_id f.row db f.before journaled f.at_target f.read in
    let restored = restored-fits o.target_type f.row o f.before fit past in
    record {
      at_target = sym f.at_target;
      fit = record {
        formed =
            validate_state-formed f.task o.target_type o.target_id (some f.before) _ true db
              f.provenance f.validated;
        ordered = restored.0;
        own = restored.1;
      };
      before = rw (f.read) refl;
      task = λ r here.
          subst (λ x. task_of x ≡ authority.task_id) (some_inj here)
            (f.row_task ∙ get_task-id authority.task_id db f.task f.found);
    }

-- The calls that write.
pub data Call : Type 0 where
  applying : MemoryChangeProposal → Call
  reversing : (original_id : ℕ) → MemoryReversal → Call

unfoldable pub perform : MemoryContext → Call → MemoryAuthority → MemoryDb → Answer
perform cx (applying q) authority db = apply cx q authority db
perform cx (reversing original_id q) authority db = reverse cx original_id q authority db

-- What holds of the database, of it with further events, and after the body, holds after the call.
pub authorized-holds :
    (P : MemoryDb → Type 0) (cx : MemoryContext) (authority : MemoryAuthority) (db : MemoryDb)
    (body : Result MemoryError (MemoryChange × MemoryDb))
    → P db
    → ((events : List ResearchEvent) → P (record db { events = events }))
    → ((c : MemoryChange) (db' : MemoryDb) → body ≡ ok (c, db') → P db')
    → P (authorized cx authority db body).1
unfolding authorized
authorized-holds P cx authority db body same noted after =
    elim (Bool-cases (not authority.can_commit || is_model authority.actor)) [
      | inl denied ↦ rw (denied) (noted _)
      | inr may ↦ elim (Result-cases body) [
        | inl ((c, db'), h) ↦ rw (may, h) (after c db' h)
        | inr (e, h) ↦ rw (may, h) same
      ]
    ]

pub noted-IsJournaled :
    (db : MemoryDb) (events : List ResearchEvent)
    → IsJournaled db
    → IsJournaled (record db { events = events })
unfolding get_record state stored_state
noted-IsJournaled db events j = record {
  chained = λ kind id r found.
      let old = j.chained kind id r (same-found kind id r found) in
      record {
        current = old.current;
        reads = same-reads r old.current old.reads;
        chain = old.chain;
      };
  fresh = λ kind id missing. j.fresh kind id (same-missing kind id missing);
}
  where
    same-found :
        (kind : MemoryTarget) (id : ℕ) (r : KnowledgeRecord)
        → get_record kind id (record db { events = events }) ≡ some r
        → get_record kind id db ≡ some r
    same-found claim id r h = h
    same-found assessment id r h = h

    same-missing :
        (kind : MemoryTarget) (id : ℕ)
        → get_record kind id (record db { events = events }) ≡ none
        → get_record kind id db ≡ none
    same-missing claim id h = h
    same-missing assessment id h = h

    same-reads :
        (r : KnowledgeRecord) (s : MemoryState)
        → state r db ≡ ok s
        → state r (record db { events = events }) ≡ ok s
    same-reads (claim_record c) s h = h
    same-reads (assessment_record a) s h = h

pub staged-IsJournaled :
    (cx : MemoryContext) (q : MemoryChangeProposal) (authority : MemoryAuthority) (db : MemoryDb)
    (c : MemoryChange) (db' : MemoryDb)
    → IsJournaled db
    → stage_change cx q authority db ≡ ok (c, db')
    → IsJournaled db'
staged-IsJournaled cx q authority db c db' j h =
    elim (stage_change-cases cx q authority db c db' h) [
      | inl repeated ↦ subst IsJournaled (sym repeated.same) j
      | inr staged ↦ subst IsJournaled (sym (ap (λ m. m.1) staged.written)) (
          write-IsJournaled cx _ db
            (staged-IsProper cx q authority db staged.prepared staged.facts j) j)
    ]

pub reversed-IsJournaled :
    (cx : MemoryContext) (original_id : ℕ) (q : MemoryReversal) (authority : MemoryAuthority)
    (db : MemoryDb) (c : MemoryChange) (db' : MemoryDb)
    → IsJournaled db
    → reverse_change cx original_id q authority db ≡ ok (c, db')
    → IsJournaled db'
reversed-IsJournaled cx original_id q authority db c db' j h =
    elim (reverse_change-cases cx original_id q authority db c db' h) [
      | inl duplicate ↦ subst IsJournaled (sym duplicate.same) j
      | inr made ↦ subst IsJournaled (sym (ap (λ m. m.1) made.written)) (
          write-IsJournaled cx _ db
            (reversed-IsProper cx original_id q authority db (c, db') made j) j)
    ]

-- Every call, whether it succeeds, fails or is denied, leaves each record reading back as the end of
-- its chain: the changes of its journal, or its version one alone.
pub perform-IsJournaled :
    (cx : MemoryContext) (call : Call) (authority : MemoryAuthority) (db : MemoryDb)
    → IsJournaled db
    → IsJournaled (perform cx call authority db).1
unfolding perform apply reverse
perform-IsJournaled cx (applying q) authority db j =
    authorized-holds IsJournaled cx authority db (stage_change cx q authority db) j
      (λ events. noted-IsJournaled db events j)
      (λ c db' h. staged-IsJournaled cx q authority db c db' j h)
perform-IsJournaled cx (reversing original_id q) authority db j =
    authorized-holds IsJournaled cx authority db (reverse_change cx original_id q authority db) j
      (λ events. noted-IsJournaled db events j)
      (λ c db' h. reversed-IsJournaled cx original_id q authority db c db' j h)
