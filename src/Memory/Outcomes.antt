-- ===== src/Memory/Outcomes.antt =====
-- What a reversal that succeeds has found and checked.
use mathlib.Core.Path.{subst}
use gnomon.Prelude.{
  ℕ, ◌≡◌, ◌⊎◌, inl, inr, arith, true, false, not, none, some, List, ok, leb, is_none, find,
  Option-cases, Bool-cases, ◌||◌, Result-cases, is_blank, ◌+◌, ◌==◌, holds→,
}
use gnomon.Security.Capability.{memory_mutation}
use gnomon.Security.Store.{require_locked_capability}
use gnomon.Memory.Model.{
  MemoryReversal, MemoryAuthority, MemoryState, MemoryState-discrete, MemoryChange, KnowledgeRecord,
  MemoryTask, MemoryDb,
}
use gnomon.Memory.Records.{MemoryContext, get_task, get_record, task_of, version_of, state}
use gnomon.Memory.Checks.{same_state, validate_state}
use gnomon.Memory.Write.{write}
use gnomon.Memory.Service.{
  locked, get_change, is_operator, is_reversal_of, restored_state, check_reversal, unchanged_record,
  reversal_writing, reverse_found, reverse_change, reversal_window,
}

pub record IsReversed (cx : MemoryContext) (original_id : ℕ) (q : MemoryReversal)
    (authority : MemoryAuthority) (db : MemoryDb) (made : MemoryChange × MemoryDb) : Type 0 where
  pub task : MemoryTask
  pub found : get_task authority.task_id db.tasks ≡ some task
  pub operator : is_operator authority.actor ≡ true
  pub original : MemoryChange
  pub known : get_change original_id db.changes ≡ some original
  pub own : original.task_id ≡ task.id
  pub forward : is_none original.reverses_change_id ≡ true
  pub new : get_change q.change_id db.changes ≡ none
  pub in_time : leb (original.timestamp + reversal_window) cx.now ≡ false
  pub row : KnowledgeRecord
  pub at_target : get_record original.target_type original.target_id db ≡ some row
  pub row_task : task_of row ≡ task.id
  pub row_version : version_of row ≡ original.version
  pub before : MemoryState
  pub read : state row db ≡ ok before
  pub unchanged : before ≡ original.resulting_state
  pub provenance : List ℕ
  pub validated :
      validate_state task original.target_type original.target_id
        (some before)
        (restored_state original before)
        true
        db
      ≡ ok provenance
  pub written : made ≡ write cx (reversal_writing q authority original row before provenance) db

-- A reversal that was made already.
pub record IsDuplicate (original_id : ℕ) (db : MemoryDb) (c : MemoryChange) (db' : MemoryDb)
    : Type 0 where
  pub known : find (is_reversal_of original_id) db.changes ≡ some c
  pub same : db' ≡ db

in_time_of :
    (cx : MemoryContext) (q : MemoryReversal) (original : MemoryChange)
    (changes : List MemoryChange)
    → check_reversal cx q original changes ≡ ok tt
    → (get_change q.change_id changes ≡ none)
      × (leb (original.timestamp + reversal_window) cx.now ≡ false)
unfolding check_reversal
in_time_of cx q original changes h = elim (Option-cases (get_change q.change_id changes)) [
  | inl none_yet ↦ (none_yet, ground arith)
  | inr (c, there) ↦ absurd (ground arith)
]

row_of :
    (task : MemoryTask) (original : MemoryChange) (db : MemoryDb) (r : KnowledgeRecord)
    → unchanged_record task original db ≡ ok r
    → (get_record original.target_type original.target_id db ≡ some r)
      × (task_of r ≡ task.id)
      × (version_of r ≡ original.version)
unfolding unchanged_record
row_of task original db r h =
    elim (Option-cases (get_record original.target_type original.target_id db)) [
      | inl missing ↦ absurd (ground arith)
      | inr (r', found) ↦
          elim (Bool-cases
            (not (task_of r' == task.id) || not (version_of r' == original.version))) [
              | inl stale ↦ absurd (ground arith)
              | inr current ↦
                  let same : r' ≡ r = ground arith in
                  subst
                    (λ x.
                      (get_record original.target_type original.target_id db ≡ some x)
                      × (task_of x ≡ task.id)
                      × (version_of x ≡ original.version))
                    same (found, ground arith, ground arith)
            ]
    ]

found-IsReversed :
    (cx : MemoryContext) (original_id : ℕ) (q : MemoryReversal) (authority : MemoryAuthority)
    (db : MemoryDb) (task : MemoryTask) (original : MemoryChange) (c : MemoryChange)
    (db' : MemoryDb)
    → get_task authority.task_id db.tasks ≡ some task
    → is_operator authority.actor ≡ true
    → get_change original_id db.changes ≡ some original
    → original.task_id ≡ task.id
    → is_none original.reverses_change_id ≡ true
    → reverse_found cx q authority task original db ≡ ok (c, db')
    → IsReversed cx original_id q authority db (c, db')
unfolding reverse_found
found-IsReversed cx original_id q authority db task original c db' found operator known own forward
      h =
    elim (Result-cases (check_reversal cx q original db.changes)) [
      | inr (e, refused) ↦ absurd (ground arith)
      | inl (u, checked) ↦ elim (Result-cases (unchanged_record task original db)) [
        | inr (e, refused) ↦ absurd (ground arith)
        | inl (r, held) ↦ elim (Result-cases (state r db)) [
          | inr (e, refused) ↦ absurd (ground arith)
          | inl (before, read) ↦ elim (Bool-cases (same_state before original.resulting_state)) [
            | inr differs ↦ absurd (ground arith)
            | inl same ↦
                elim (Result-cases (
                  validate_state task original.target_type original.target_id (some before)
                    (restored_state original before) true db)) [
                      | inr (e, refused) ↦ absurd (ground arith)
                      | inl (provenance, validated) ↦
                          let (new, in_time) = in_time_of cx q original db.changes checked in
                          let (at_target, row_task, row_version) = row_of task original db r held in
                          record {
                            task = task;
                            found = found;
                            operator = operator;
                            original = original;
                            known = known;
                            own = own;
                            forward = forward;
                            new = new;
                            in_time = in_time;
                            row = r;
                            at_target = at_target;
                            row_task = row_task;
                            row_version = row_version;
                            before = before;
                            read = read;
                            unchanged =
                                holds→ (MemoryState-discrete before original.resulting_state) same;
                            provenance = provenance;
                            validated = validated;
                            written = ground arith;
                          }
                    ]
          ]
        ]
      ]
    ]

locked-found :
    (authority : MemoryAuthority) (db : MemoryDb) (task : MemoryTask)
    → locked authority db ≡ ok task
    → get_task authority.task_id db.tasks ≡ some task
unfolding locked
locked-found authority db task h = elim (Option-cases (get_task authority.task_id db.tasks)) [
  | inl missing ↦ absurd (ground arith)
  | inr (t, there) ↦
      elim (Result-cases (require_locked_capability db.security memory_mutation none)) [
        | inl (current, passed) ↦ ground arith
        | inr (e, denied) ↦ absurd (ground arith)
      ]
]

pub reverse_change-cases :
    (cx : MemoryContext) (original_id : ℕ) (q : MemoryReversal) (authority : MemoryAuthority)
    (db : MemoryDb) (c : MemoryChange) (db' : MemoryDb)
    → reverse_change cx original_id q authority db ≡ ok (c, db')
    → IsDuplicate original_id db c db' ⊎ IsReversed cx original_id q authority db (c, db')
unfolding reverse_change
reverse_change-cases cx original_id q authority db c db' h =
    elim (Bool-cases (not (is_operator authority.actor) || is_blank q.reason)) [
      | inl barred ↦ absurd (ground arith)
      | inr may ↦ elim (Result-cases (locked authority db)) [
        | inr (e, refused) ↦ absurd (ground arith)
        | inl (task, held) ↦ elim (Option-cases (get_change original_id db.changes)) [
          | inl missing ↦ absurd (ground arith)
          | inr (original, known) ↦ elim (Bool-cases (original.task_id == task.id)) [
            | inr foreign ↦ absurd (ground arith)
            | inl own ↦ elim (Bool-cases (is_none original.reverses_change_id)) [
              | inr backward ↦ absurd (ground arith)
              | inl forward ↦ elim (Option-cases (find (is_reversal_of original_id) db.changes)) [
                | inr (duplicate, there) ↦
                    inl (record { known = ground arith; same = ground arith })
                | inl none_yet ↦ inr (
                    found-IsReversed cx original_id q authority db task original c db'
                      (locked-found authority db task held) (ground arith) known (ground arith)
                      forward (ground arith))
              ]
            ]
          ]
        ]
      ]
    ]
