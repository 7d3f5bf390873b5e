-- ===== src/Memory/Proper.antt =====
-- A call that succeeds makes a write whose target and state are those of the tables.
use mathlib.Core.Path.{subst}
use gnomon.Prelude.{
  ℕ, ◌≡◌, inl, inr, refl, sym, ◌∙◌, arith, false, Option, some, ok, ◌==◌, Bool-cases, Result-cases,
  some_inj, ok_inj,
}
use gnomon.Memory.Model.{
  MemoryTarget, MemoryChangeProposal, MemoryAuthority, MemoryState, KnowledgeRecord, MemoryTask,
  MemoryDb,
}
use gnomon.Memory.Records.{MemoryContext, get_task, get_record, task_of, state}
use gnomon.Memory.Prepare.{Prepared, check_target, state_before}
use gnomon.Memory.Service.{proposal_writing}
use gnomon.Memory.Tables.{find-key}
use gnomon.Memory.Fit.{IsOrdered, OwnHypothesis, IsFit}
use gnomon.Memory.Chain.{IsJournaled, IsProper, Chain-holds}
use gnomon.Memory.Staged.{IsPrepared}
use gnomon.Memory.Own.{validate_state-formed, sorted-content, sorted-own, after-own}

-- The state that a record reads back fits it.
pub read-IsFit :
    (kind : MemoryTarget) (id : ℕ) (r : KnowledgeRecord) (db : MemoryDb) (s : MemoryState)
    → IsJournaled db
    → get_record kind id db ≡ some r
    → state r db ≡ ok s
    → IsFit kind (some r) s
read-IsFit kind id r db s journaled found read =
    let old = journaled.chained kind id r found in
    subst (λ x. IsFit kind (some r) x) (ok_inj (sym old.reads ∙ read))
      (Chain-holds _ _ _ _ _ old.chain)

pub state_before-some :
    (target : Option KnowledgeRecord) (r : KnowledgeRecord) (before : Option MemoryState)
    (db : MemoryDb)
    → target ≡ some r
    → state_before target db ≡ ok before
    → (s : MemoryState) × (before ≡ some s) × (state r db ≡ ok s)
unfolding state_before
state_before-some target r before db here b = elim (Result-cases (state r db)) [
  | inl (s, read) ↦
      let b' : state_before (some r) db ≡ ok before =
        subst (λ t. state_before t db ≡ ok before) here b in
      (s, ground arith, read)
  | inr (e, bad) ↦
      let b' : state_before (some r) db ≡ ok before =
        subst (λ t. state_before t db ≡ ok before) here b in
      absurd (ground arith)
]

check_target-task :
    (q : MemoryChangeProposal) (task : MemoryTask) (target : Option KnowledgeRecord)
    (r : KnowledgeRecord)
    → target ≡ some r
    → check_target q task target ≡ ok tt
    → task_of r ≡ task.id
unfolding check_target
check_target-task q task target r here h =
    let h' : check_target q task (some r) ≡ ok tt =
      subst (λ t. check_target q task t ≡ ok tt) here h in
    elim (Bool-cases (task_of r == task.id)) [
      | inl own ↦ ground arith
      | inr foreign ↦ absurd (ground arith)
    ]

pub get_task-id :
    (id : ℕ) (db : MemoryDb) (task : MemoryTask) → get_task id db.tasks ≡ some task → task.id ≡ id
unfolding get_task
get_task-id id db task h = find-key (λ t. t.id) id db.tasks task h

pub staged-IsProper :
    (cx : MemoryContext) (q : MemoryChangeProposal) (authority : MemoryAuthority) (db : MemoryDb)
    (p : Prepared)
    → IsPrepared q authority db p
    → IsJournaled db
    → IsProper (proposal_writing q authority p) db
staged-IsProper cx q authority db p f journaled =
    let fits : (r : KnowledgeRecord)
        → p.target ≡ some r
        → (s : MemoryState) → p.before ≡ some s
        → OwnHypothesis (some r) s =
      λ r here s there.
        let (s', there', read) = state_before-some p.target r p.before db here f.before in
        let fit =
          read-IsFit q.target_type q.target_id r db s' journaled (sym f.target ∙ here) read in
        subst (λ x. OwnHypothesis (some r) x) (some_inj (sym there' ∙ there)) fit.own in
    let reads : (r : KnowledgeRecord)
        → p.target ≡ some r
        → (s : MemoryState) × (p.before ≡ some s) =
      λ r here.
        let (s', there', read) = state_before-some p.target r p.before db here f.before in
        (s', there') in
    let own =
      sorted-own p.target f.unsorted
        (after-own p.target q db p.before f.unsorted fits reads f.made) in
    record {
      at_target = f.target;
      fit = record {
        formed =
            validate_state-formed f.task q.target_type q.target_id p.before p.after false db
              p.provenance f.validated;
        ordered =
            subst (λ x. IsOrdered x.content) (sym f.after)
              (sorted-content f.unsorted.content f.unsorted refl);
        own = subst (λ x. OwnHypothesis p.target x) (sym f.after) own;
      };
      before = f.before;
      task = λ r here.
          check_target-task q f.task p.target r here f.checked
          ∙ get_task-id authority.task_id db f.task f.found;
    }
