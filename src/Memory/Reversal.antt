-- ===== src/Memory/Reversal.antt =====
-- What a reversal puts back.
use mathlib.Core.Path.{subst}
use gnomon.Prelude.{
  ℕ, ◌+◌, ◌≡◌, inl, inr, refl, sym, ap, ◌∙◌, arith, none, some, ◌∷◌, ok, find, some_inj, ok_inj,
}
use gnomon.Memory.Model.{
  MemoryTarget, MemoryChangeProposal, MemoryReversal, MemoryAuthority, MemoryState, MemoryChange,
  KnowledgeRecord, MemoryDb,
}
use gnomon.Memory.Records.{MemoryContext, get_record, version_of, state}
use gnomon.Memory.Write.{previous_version_of, change_row, write}
use gnomon.Memory.Service.{
  get_change, is_reversal_of, restored_state, stage_change, reverse_change, apply, reverse,
  proposal_writing,
}
use gnomon.Memory.Chain.{IsJournaled}
use gnomon.Memory.Journal.{changes_after}
use gnomon.Memory.Staged.{stage_change-cases}
use gnomon.Memory.Outcomes.{IsReversed, reverse_change-cases}
use gnomon.Memory.Proper.{staged-IsProper, state_before-some}
use gnomon.Memory.ReadBack.{write-IsWritten}
use gnomon.Memory.Invariant.{reversed-IsProper, staged-IsJournaled}
use gnomon.Memory.Answers.{authorized-ok}

-- The key holds a record of the version that reads back as the state.
pub record Holds (kind : MemoryTarget) (id version : ℕ) (s : MemoryState) (db : MemoryDb)
    : Type 0 where
  pub row : KnowledgeRecord
  pub found : get_record kind id db ≡ some row
  pub at : version_of row ≡ version
  pub reads : state row db ≡ ok s

reversed-Holds :
    (cx : MemoryContext) (original_id : ℕ) (q : MemoryReversal) (authority : MemoryAuthority)
    (db : MemoryDb) (c : MemoryChange) (db' : MemoryDb)
    (f : IsReversed cx original_id q authority db (c, db'))
    → IsJournaled db
    → Holds f.original.target_type f.original.target_id
        (f.original.version + 1)
        (restored_state f.original f.original.resulting_state)
        db'
reversed-Holds cx original_id q authority db c db' f j =
    let proper = reversed-IsProper cx original_id q authority db (c, db') f j in
    let w = write-IsWritten cx _ db proper.at_target proper.fit in
    subst
      (λ d.
        Holds f.original.target_type f.original.target_id (f.original.version + 1)
          (restored_state f.original f.original.resulting_state) d)
      (sym (ap (λ m. m.1) f.written))
      (record {
        row = w.row;
        found = w.found;
        at = w.version ∙ ap (λ n. n + 1) f.row_version;
        reads = w.reads ∙ ap (λ s. ok (restored_state f.original s)) f.unchanged;
      })

-- A reversal that is the first of its change leaves the record, under the next version, in the state
-- that the change had found; a creation is undone by a logical deletion.
pub reverse-restores :
    (cx : MemoryContext) (original_id : ℕ) (q : MemoryReversal) (authority : MemoryAuthority)
    (db : MemoryDb) (original c : MemoryChange) (db' : MemoryDb)
    → IsJournaled db
    → get_change original_id db.changes ≡ some original
    → find (is_reversal_of original_id) db.changes ≡ none
    → reverse cx original_id q authority db ≡ (ok c, db')
    → Holds original.target_type original.target_id
        (original.version + 1)
        (restored_state original original.resulting_state)
        db'
unfolding reverse
reverse-restores cx original_id q authority db original c db' j known first h =
    elim (reverse_change-cases cx original_id q authority db c db'
      (authorized-ok cx authority db (reverse_change cx original_id q authority db) c db' h)) [
        | inl duplicate ↦ let k = duplicate.known in absurd (ground arith)
        | inr f ↦
            let same : f.original ≡ original = some_inj (sym f.known ∙ known) in
            subst
              (λ o.
                Holds o.target_type o.target_id (o.version + 1) (restored_state o o.resulting_state)
                  db')
              same (reversed-Holds cx original_id q authority db c db' f j)
      ]

put_back :
    (c : MemoryChange) (kind : MemoryTarget) (id version : ℕ) (s : MemoryState) (db : MemoryDb)
    → c.target_type ≡ kind
    → c.target_id ≡ id
    → c.version ≡ version + 1
    → c.previous_state ≡ some s
    → Holds c.target_type c.target_id (c.version + 1) (restored_state c c.resulting_state) db
    → Holds kind id (version + 2) s db
unfolding restored_state
put_back c kind id version s db k i v p h = record {
  row = h.row;
  found =
      subst (λ x. get_record x id db ≡ some h.row) k
        (subst (λ x. get_record c.target_type x db ≡ some h.row) i h.found);
  at = h.at ∙ omega (arith, v);
  reads =
      let same : restored_state c c.resulting_state ≡ s = rw (p) refl in
      h.reads ∙ ap (λ x. ok x) same;
}

-- A change of a record that is then reversed puts its state back, whatever the change was.
pub apply-reverse :
    (cx cx' : MemoryContext) (q : MemoryChangeProposal) (undo : MemoryReversal)
    (authority authority' : MemoryAuthority) (db db' db'' : MemoryDb) (c c' : MemoryChange)
    (r : KnowledgeRecord) (s : MemoryState)
    → IsJournaled db
    → get_change q.change_id db.changes ≡ none
    → find (is_reversal_of q.change_id) db.changes ≡ none
    → get_record q.target_type q.target_id db ≡ some r
    → state r db ≡ ok s
    → apply cx q authority db ≡ (ok c, db')
    → reverse cx' q.change_id undo authority' db' ≡ (ok c', db'')
    → Holds q.target_type q.target_id (version_of r + 2) s db''
unfolding apply get_change change_row write
apply-reverse cx cx' q undo authority authority' db db' db'' c c' r s j new unreversed found read h
      back =
    let body = authorized-ok cx authority db (stage_change cx q authority db) c db' h in
    elim (stage_change-cases cx q authority db c db' body) [
      | inl repeated ↦ let k = repeated.known in absurd (ground arith)
      | inr staged ↦
          let j' = staged-IsJournaled cx q authority db c db' j body in
          let proper = staged-IsProper cx q authority db staged.prepared staged.facts j in
          let w = proposal_writing q authority staged.prepared in
          let row : change_row cx w ≡ c = sym (ap (λ m. m.0) staged.written) in
          let logged : db'.changes ≡ c ∷ db.changes =
            ap (λ m. m.1.changes) staged.written
            ∙ (changes_after cx w db proper j ∙ ap (λ x. x ∷ db.changes) row) in
          let id : c.change_id ≡ q.change_id = ap (λ x. x.change_id) (sym row) in
          let forward : c.reverses_change_id ≡ none = ap (λ x. x.reverses_change_id) (sym row) in
          let known : get_change q.change_id db'.changes ≡ some c = rw (logged) (ground arith) in
          let first : find (is_reversal_of q.change_id) db'.changes ≡ none =
            rw (logged, forward) unreversed in
          let here = staged.facts.target ∙ found in
          let (s', there, read') =
            state_before-some staged.prepared.target r staged.prepared.before db here
              staged.facts.before in
          let same : s' ≡ s = ok_inj (sym read' ∙ read) in
          let previous : c.previous_state ≡ some s =
            ap (λ x. x.previous_state) (sym row) ∙ (there ∙ ap (λ x. some x) same) in
          let version : c.version ≡ version_of r + 1 =
            ap (λ x. x.version) (sym row) ∙ ap (λ t. previous_version_of t + 1) here in
          let held =
            reverse-restores cx' q.change_id undo authority' db' c c' db'' j' known first back in
          put_back c q.target_type q.target_id (version_of r) s db''
            (ap (λ x. x.target_type) (sym row)) (ap (λ x. x.target_id) (sym row)) version previous
            held
    ]
