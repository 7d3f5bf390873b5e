-- ===== src/Memory/Staged.antt =====
-- What a proposal that succeeds has found and checked.
use mathlib.Core.Path.{subst}
use gnomon.Prelude.{
  ◌≡◌, ◌⊎◌, inl, inr, refl, arith, false, Option, none, some, ok, Option-cases, Result-cases,
  ok_inj, bind_ok, then_ok,
}
use gnomon.Security.Store.{or_raise}
use gnomon.Memory.Model.{
  MemoryChangeProposal, MemoryAuthority, MemoryState, MemoryChange, MemoryTask, MemoryDb,
}
use gnomon.Memory.Records.{MemoryContext, get_task, get_record}
use gnomon.Memory.Checks.{validate_state}
use gnomon.Memory.Prepare.{
  Prepared, check_target, state_before, state_after, check_automated, sort_links, prepare,
}
use gnomon.Memory.Write.{write}
use gnomon.Memory.Service.{locked, get_change, retry, proposal_writing, stage_change}

pub record IsPrepared (q : MemoryChangeProposal) (authority : MemoryAuthority) (db : MemoryDb)
    (p : Prepared) : Type 0 where
  pub task : MemoryTask
  pub found : get_task authority.task_id db.tasks ≡ some task
  pub target : p.target ≡ get_record q.target_type q.target_id db
  pub checked : check_target q task p.target ≡ ok tt
  pub before : state_before p.target db ≡ ok p.before
  pub unsorted : MemoryState
  pub made : state_after q p.before ≡ ok unsorted
  pub after : p.after ≡ sort_links unsorted
  pub automated : check_automated q authority task ≡ ok tt
  pub validated :
      validate_state task q.target_type q.target_id p.before p.after false db ≡ ok p.provenance

pub or_raise-ok : {E A : Type 0} (o : Option A) (e : E) (a : A) → or_raise o e ≡ ok a → o ≡ some a
or_raise-ok none e a h = cc
or_raise-ok (some b) e a h = cc

pub prepare-IsPrepared :
    (q : MemoryChangeProposal) (authority : MemoryAuthority) (db : MemoryDb) (p : Prepared)
    → prepare q authority db ≡ ok p
    → IsPrepared q authority db p
unfolding prepare
prepare-IsPrepared q authority db p h =
    let (task, found, h1) = bind_ok _ _ p h in
    let (checked, h2) = then_ok _ _ p h1 in
    let (before, read, h3) = bind_ok _ _ p h2 in
    let (unsorted, made, h4) = bind_ok _ _ p h3 in
    let (automated, h5) = then_ok _ _ p h4 in
    let (provenance, validated, h6) = bind_ok _ _ p h5 in
    subst (λ x. IsPrepared q authority db x) (ok_inj h6)
      (record {
        task = task;
        found = or_raise-ok _ _ _ found;
        target = refl;
        checked = checked;
        before = read;
        unsorted = unsorted;
        made = made;
        after = refl;
        automated = automated;
        validated = validated;
      })

-- A proposal is a repetition, or it is prepared and written.
pub record IsRepeated (q : MemoryChangeProposal) (authority : MemoryAuthority) (db : MemoryDb)
    (c : MemoryChange) (db' : MemoryDb) : Type 0 where
  pub known : get_change q.change_id db.changes ≡ some c
  pub same : db' ≡ db

pub record IsStaged (cx : MemoryContext) (q : MemoryChangeProposal) (authority : MemoryAuthority)
    (db : MemoryDb) (made : MemoryChange × MemoryDb) : Type 0 where
  pub new : get_change q.change_id db.changes ≡ none
  pub prepared : Prepared
  pub facts : IsPrepared q authority db prepared
  pub written : made ≡ write cx (proposal_writing q authority prepared) db

retry-same :
    (q : MemoryChangeProposal) (authority : MemoryAuthority) (prior c : MemoryChange)
    → retry q authority prior ≡ ok c
    → prior ≡ c
unfolding retry
retry-same q authority prior c h = let (passed, same) = then_ok _ _ c h in ok_inj same

pub stage_change-cases :
    (cx : MemoryContext) (q : MemoryChangeProposal) (authority : MemoryAuthority) (db : MemoryDb)
    (c : MemoryChange) (db' : MemoryDb)
    → stage_change cx q authority db ≡ ok (c, db')
    → IsRepeated q authority db c db' ⊎ IsStaged cx q authority db (c, db')
unfolding stage_change
stage_change-cases cx q authority db c db' h = elim (Result-cases (locked authority db)) [
  | inr (e, refused) ↦ absurd (ground arith)
  | inl (task, held) ↦ elim (Option-cases (get_change q.change_id db.changes)) [
    | inr (prior, known) ↦ elim (Result-cases (retry q authority prior)) [
      | inr (e, reused) ↦ absurd (ground arith)
      | inl (change, retried) ↦
          let same = retry-same q authority prior change retried in
          inl (record { known = ground arith; same = ground arith })
    ]
    | inl new ↦ elim (Result-cases (prepare q authority db)) [
      | inr (e, refused) ↦ absurd (ground arith)
      | inl (p, prepared) ↦ inr (record {
        new = new;
        prepared = p;
        facts = prepare-IsPrepared q authority db p prepared;
        written = ground arith;
      })
    ]
  ]
]
