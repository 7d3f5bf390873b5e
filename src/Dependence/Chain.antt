-- ===== src/Dependence/Chain.antt =====
-- Chains of changes, and how `_validated_history` reads them.
use gnomon.Prelude.{
  ℕ, suc, ◌+◌, ◌<◌, ◌≡◌, ◌≢◌, ◌⊎◌, inl, inr, refl, sym, ap, ◌∙◌, arith, true, false, Option, none,
  some, List, [], ◌∷◌, ◌++◌, ok, ltb, All, length, length-append, →holds, Bool-cases, All-append,
}
use gnomon.Dependence.Model.{
  creation, Operation, SourceRelationship, SourceRelationshipChange, SourceRelationship-discrete,
}
use gnomon.Dependence.History.{
  is_creation, follows, entry_fits, replay_history, ends_at, validated_history, insert_by_revision,
  order_by_revision,
}

-- The newest change first: each leads to the state that the next newer one started from, and the
-- oldest is the creation.
abbrev pub Chain : SourceRelationship → List SourceRelationshipChange → Type 0
Chain current [] = ⊥
Chain current (c ∷ older) =
    (c.resulting_state ≡ current)
    × (c.revision ≡ current.revision)
    × (c.change_id ≡ current.latest_change_id)
    × (c.relationship_id ≡ current.relationship_id)
    × (c.task_id ≡ current.task_id)
    × (((older ≡ [])
          × (c.operation ≡ creation)
          × (c.previous_state ≡ none)
          × (c.previous_revision ≡ 0)
          × (c.revision ≡ 1))
        ⊎ ((before : SourceRelationship) × (c.operation ≢ creation)
            × (c.previous_state ≡ some before)
            × (c.previous_revision ≡ before.revision)
            × (c.revision ≡ before.revision + 1)
            × (before.relationship_id ≡ current.relationship_id)
            × (before.task_id ≡ current.task_id)
            × Chain before older))

replay-snoc :
    (p : SourceRelationship) (k : ℕ) (o : Option SourceRelationship)
    (cs : List SourceRelationshipChange) (c : SourceRelationshipChange) (r : SourceRelationship)
    → replay_history p k o cs ≡ ok (some r)
    → entry_fits p (k + length cs) (some r) c ≡ true
    → replay_history p k o (cs ++ c ∷ []) ≡ ok (some c.resulting_state)
unfolding replay_history
replay-snoc p k o [] c r h fits =
    let same : o ≡ some r = cc in
    let at : k + 0 ≡ k = omega arith in
    let fits_here : entry_fits p k (some r) c ≡ true = rw at at fits in rw (same, fits_here) refl
replay-snoc p k o (x ∷ cs) c r h fits = elim (Bool-cases (entry_fits p k o x)) [
  | inr bad ↦ absurd (ground arith)
  | inl good ↦
      let at : k + suc (length cs) ≡ k + 1 + length cs = omega arith in
      rw good (replay-snoc p (k + 1) (some x.resulting_state) cs c r (rw good at h) (rw at at fits))
]

-- Oldest first, as the query orders them.
abbrev pub oldest_first : List SourceRelationshipChange → List SourceRelationshipChange
oldest_first [] = []
oldest_first (c ∷ older) = oldest_first older ++ c ∷ []

length-oldest_first : (log : List SourceRelationshipChange) → length (oldest_first log) ≡ length log
length-oldest_first [] = refl
length-oldest_first (c ∷ log) =
    omega (arith, length-append (oldest_first log) (c ∷ []), length-oldest_first log)

-- The revision counts the changes.
Chain-length :
    (current : SourceRelationship) (log : List SourceRelationshipChange)
    → Chain current log
    → current.revision ≡ length log
Chain-length current [] h = absurd h
Chain-length current (c ∷ older)
      (res, rev, id, rel, task, inl (nothing, op, prev, prev_rev, first)) =
    rw nothing (omega arith)
Chain-length current (c ∷ older)
      (res, rev, id, rel, task, inr (b, op, prev, prev_rev, next, r, t, chain)) =
    omega (arith, Chain-length b older chain)

not_creation : (o : Operation) → o ≢ creation → is_creation o ≡ false
not_creation o h = ground arith

Chain-positive :
    (current : SourceRelationship) (log : List SourceRelationshipChange)
    → Chain current log
    → 0 < length log
Chain-positive current [] h = absurd h
Chain-positive current (c ∷ older) h = omega arith

replay_one :
    (p : SourceRelationship) (c : SourceRelationshipChange)
    → entry_fits p 1 none c ≡ true
    → replay_history p 1 none (c ∷ []) ≡ ok (some c.resulting_state)
unfolding replay_history
replay_one p c h = rw h refl

module _ (p current : SourceRelationship) (c : SourceRelationshipChange)
    (own : p.relationship_id ≡ current.relationship_id) (task_own : p.task_id ≡ current.task_id)
    (res : c.resulting_state ≡ current) (rev : c.revision ≡ current.revision)
    (id : c.change_id ≡ current.latest_change_id)
    (rel : c.relationship_id ≡ current.relationship_id) (task : c.task_id ≡ current.task_id) where
  first_fits :
      c.operation ≡ creation
      → c.previous_state ≡ none
      → c.previous_revision ≡ 0
      → c.revision ≡ 1
      → entry_fits p 1 none c ≡ true
  unfolding entry_fits follows
  first_fits op prev prev_rev first =
      let res_rel = ap (λ s. s.relationship_id) res in
      let res_task = ap (λ s. s.task_id) res in
      let res_rev = ap (λ s. s.revision) res in
      let res_id = ap (λ s. s.latest_change_id) res in rw (op, prev) (ground arith)

  next_fits :
      (n : ℕ) (before : SourceRelationship)
      → c.operation ≢ creation
      → c.previous_state ≡ some before
      → c.previous_revision ≡ before.revision
      → c.revision ≡ before.revision + 1
      → before.revision ≡ n
      → 0 < n
      → entry_fits p (1 + n) (some before) c ≡ true
  unfolding entry_fits follows
  next_fits n before op prev prev_rev next count positive =
      let res_rel = ap (λ s. s.relationship_id) res in
      let res_task = ap (λ s. s.task_id) res in
      let res_rev = ap (λ s. s.revision) res in
      let res_id = ap (λ s. s.latest_change_id) res in
      let same = →holds (SourceRelationship-discrete before before) refl in
      let changed = not_creation c.operation op in rw (prev, same) (ground arith)

-- The projection of the check is only read for its identifiers, so a chain of an older state is
-- replayed alike.
Chain-replay :
    (p current : SourceRelationship) (log : List SourceRelationshipChange)
    → p.relationship_id ≡ current.relationship_id
    → p.task_id ≡ current.task_id
    → Chain current log
    → replay_history p 1 none (oldest_first log) ≡ ok (some current)
Chain-replay p current [] own task h = absurd h
Chain-replay p current (c ∷ older) own task_own
      (res, rev, id, rel, task, inl (nothing, op, prev, prev_rev, first)) =
    rw nothing (
      replay_one p c
        (first_fits p current c own task_own res rev id rel task op prev prev_rev first)
      ∙ ap (λ s. ok (some s)) res)
Chain-replay p current (c ∷ older) own task_own
      (res, rev, id, rel, task, inr (b, op, prev, prev_rev, next, r, t, chain)) =
    let before = Chain-replay p b older (own ∙ sym r) (task_own ∙ sym t) chain in
    let count = Chain-length b older chain ∙ sym (length-oldest_first older) in
    let positive = Chain-positive b older chain in
    replay-snoc p 1 none (oldest_first older) c b before (
      next_fits p current c own task_own res rev id rel task (length (oldest_first older)) b op prev
        prev_rev next count (omega (arith, length-oldest_first older)))
    ∙ ap (λ s. ok (some s)) res

insert-last :
    (c : SourceRelationshipChange) (xs : List SourceRelationshipChange)
    → All (λ x. x.revision < c.revision) xs
    → insert_by_revision c xs ≡ xs ++ c ∷ []
unfolding insert_by_revision
insert-last c [] h = refl
insert-last c (x ∷ xs) h =
    let first = h.0 in
    let below : ltb x.revision c.revision ≡ true = ground arith in
    rw (below, insert-last c xs h.1) refl

Chain-bound :
    (current : SourceRelationship) (log : List SourceRelationshipChange) (n : ℕ)
    → Chain current log
    → current.revision < n
    → All (λ x. x.revision < n) (oldest_first log)
Chain-bound current [] n h k = tt
Chain-bound current (c ∷ older) n
      (res, rev, id, rel, task, inl (nothing, op, prev, prev_rev, first)) k =
    rw nothing (omega arith, tt)
Chain-bound current (c ∷ older) n
      (res, rev, id, rel, task, inr (b, op, prev, prev_rev, next, r, t, chain)) k =
    All-append (λ x. x.revision < n) (oldest_first older) (c ∷ [])
      (Chain-bound b older n chain (omega arith)) (omega arith, tt)

Chain-order :
    (current : SourceRelationship) (log : List SourceRelationshipChange)
    → Chain current log
    → order_by_revision log ≡ oldest_first log
unfolding order_by_revision insert_by_revision
Chain-order current [] h = absurd h
Chain-order current (c ∷ older)
      (res, rev, id, rel, task, inl (nothing, op, prev, prev_rev, first)) =
    rw nothing refl
Chain-order current (c ∷ older)
      (res, rev, id, rel, task, inr (b, op, prev, prev_rev, next, r, t, chain)) =
    rw (Chain-order b older chain)
      (insert-last c (oldest_first older) (Chain-bound b older c.revision chain (omega arith)))

-- A chain that ends in the stored row passes the check, and the check returns it oldest first.
pub Chain-validated :
    (current : SourceRelationship) (log : List SourceRelationshipChange)
    → Chain current log
    → validated_history current (order_by_revision log) ≡ ok (oldest_first log)
unfolding validated_history ends_at
Chain-validated current log h =
    let ordered = Chain-order current log h in
    let replayed = Chain-replay current current log refl refl h in
    let same = →holds (SourceRelationship-discrete current current) refl in
    rw (ordered, replayed, same) refl
