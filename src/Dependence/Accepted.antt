-- ===== src/Dependence/Accepted.antt =====
-- What `_validated_history` accepts.
use gnomon.Prelude.{
  ℕ, ◌+◌, ◌<◌, ◌≡◌, ◌≢◌, ◌⊎◌, inl, inr, refl, sym, ap, ◌∙◌, arith, true, false, Option, none, some,
  List, [], ◌∷◌, ◌++◌, ok, ◌==◌, some_inj, holds, holds→, Bool-cases, Result-cases,
}
use mathlib.Core.Path.{subst, subst₂}
use gnomon.Dependence.Model.{
  creation, Operation, SourceRelationship, SourceRelationshipChange, SourceRelationship-discrete,
}
use gnomon.Dependence.History.{
  is_creation, is_some_state, follows, entry_fits, replay_history, ends_at, validated_history,
}
use gnomon.Dependence.Chain.{Chain, oldest_first}

-- The loop's variables after the records of a log.
abbrev Reached :
    SourceRelationship → ℕ → Option SourceRelationship → List SourceRelationshipChange → Type 0
Reached p k o log =
    ((k ≡ 1) × (o ≡ none) × (log ≡ []))
    ⊎ ((r : SourceRelationship) × (o ≡ some r)
        × Chain r log
        × (k ≡ r.revision + 1)
        × (0 < r.revision)
        × (r.relationship_id ≡ p.relationship_id)
        × (r.task_id ≡ p.task_id))

creation_known : (o : Operation) → is_creation o ≡ true → o ≡ creation
creation_known o h = ground arith

creation_not : (o : Operation) → is_creation o ≡ false → o ≢ creation
creation_not o h e = ground arith

no_state : (o : Option SourceRelationship) → is_some_state o ≡ false → o ≡ none
no_state o h = ground arith

follows_known :
    (o : Option SourceRelationship) (r : SourceRelationship)
    → follows o (some r) ≡ true
    → o ≡ some r
unfolding follows
follows_known none r h = absurd (ground arith)
follows_known (some s) r h = ap some (holds→ (SourceRelationship-discrete s r) h)

first_Reached :
    (p : SourceRelationship) (c : SourceRelationshipChange)
    → entry_fits p 1 none c ≡ true
    → Reached p 2 (some c.resulting_state) (c ∷ [])
unfolding entry_fits
first_Reached p c fits = inr (
  c.resulting_state,
  refl,
  (
    refl,
    ground arith,
    ground arith,
    ground arith,
    ground arith,
    inl (
      refl,
      creation_known c.operation (ground arith),
      no_state c.previous_state (ground arith),
      ground arith,
      ground arith,
    ),
  ),
  ground arith,
  ground arith,
  ground arith,
  ground arith,
)

next_Reached :
    (p r : SourceRelationship) (k : ℕ) (c : SourceRelationshipChange)
    (log : List SourceRelationshipChange)
    → entry_fits p k (some r) c ≡ true
    → Chain r log
    → k ≡ r.revision + 1
    → 0 < r.revision
    → r.relationship_id ≡ p.relationship_id
    → r.task_id ≡ p.task_id
    → Reached p (k + 1) (some c.resulting_state) (c ∷ log)
unfolding entry_fits
next_Reached p r k c log fits chain next positive own task =
    let later : (k == 1) ≡ false = ground arith in
    inr (
      c.resulting_state,
      refl,
      (
        refl,
        ground arith,
        ground arith,
        ground arith,
        ground arith,
        inr (
          r,
          creation_not c.operation (ground arith),
          follows_known c.previous_state r (ground arith),
          ground arith,
          ground arith,
          ground arith,
          ground arith,
          chain,
        ),
      ),
      ground arith,
      ground arith,
      ground arith,
      ground arith,
    )

step_Reached :
    (p : SourceRelationship) (k : ℕ) (o : Option SourceRelationship) (c : SourceRelationshipChange)
    (log : List SourceRelationshipChange)
    → entry_fits p k o c ≡ true
    → Reached p k o log
    → Reached p (k + 1) (some c.resulting_state) (c ∷ log)
step_Reached p k o c log fits (inl (start, empty, fresh)) =
    let here : entry_fits p 1 none c ≡ true =
      subst₂ (λ a b. entry_fits p a b c ≡ true) start empty fits in
    rw (start, fresh) (first_Reached p c here)
step_Reached p k o c log fits (inr (r, known, chain, next, positive, own, task)) =
    let here : entry_fits p k (some r) c ≡ true =
      subst (λ b. entry_fits p k b c ≡ true) known fits in
    next_Reached p r k c log here chain next positive own task

append_one :
    (xs : List SourceRelationshipChange) (c : SourceRelationshipChange)
    (ys : List SourceRelationshipChange)
    → (xs ++ c ∷ []) ++ ys ≡ xs ++ c ∷ ys
append_one [] c ys = refl
append_one (x ∷ xs) c ys = ap (λ t. x ∷ t) (append_one xs c ys)

append_nil : (xs : List SourceRelationshipChange) → xs ++ [] ≡ xs
append_nil [] = refl
append_nil (x ∷ xs) = ap (λ t. x ∷ t) (append_nil xs)

replay-Reached :
    (p : SourceRelationship) (k : ℕ) (o o' : Option SourceRelationship)
    (cs log : List SourceRelationshipChange)
    → replay_history p k o cs ≡ ok o'
    → Reached p k o log
    → (log' : List SourceRelationshipChange) × (oldest_first log' ≡ oldest_first log ++ cs)
      × (k' : ℕ) × Reached p k' o' log'
unfolding replay_history
replay-Reached p k o o' [] log h reached =
    let same : o ≡ o' = ground arith in
    (log, sym (append_nil (oldest_first log)), k, subst (λ b. Reached p k b log) same reached)
replay-Reached p k o o' (c ∷ cs) log h reached = elim (Bool-cases (entry_fits p k o c)) [
  | inr bad ↦ absurd (ground arith)
  | inl fits ↦
      let (log', whole, k', end) =
        replay-Reached p (k + 1) (some c.resulting_state) o' cs (c ∷ log)
          (rw (fits, replay_history) at h) (step_Reached p k o c log fits reached) in
      (log', whole ∙ append_one (oldest_first log) c cs, k', end)
]

-- The integrity check accepts chains only: records that pass are, oldest first, a chain of changes
-- from a creation to the stored row, and the check returns them as they are.
pub validated_history-Chain :
    (r : SourceRelationship) (cs out : List SourceRelationshipChange)
    → validated_history r cs ≡ ok out
    → (out ≡ cs) × (log : List SourceRelationshipChange) × (cs ≡ oldest_first log) × Chain r log
unfolding validated_history ends_at
validated_history-Chain r cs out h = elim (Result-cases (replay_history r 1 none cs)) [
  | inr (e, bad) ↦ absurd (ground arith)
  | inl (none, replayed) ↦ absurd (ground arith)
  | inl (some last, replayed) ↦
      let (log, whole, k, reached) =
        replay-Reached r 1 none (some last) cs [] replayed (inl (refl, refl, refl)) in
      elim (Bool-cases (holds (SourceRelationship-discrete last r))) [
        | inr apart ↦ absurd (ground arith)
        | inl same ↦
            let ends = holds→ (SourceRelationship-discrete last r) same in
            (
              ground arith,
              log,
              sym whole,
              elim reached [
                | inl (start, empty, fresh) ↦ absurd (ground arith)
                | inr (s, known, chain, next, positive, own, task) ↦
                    subst (λ x. Chain x log) (sym (some_inj known) ∙ ends) chain
              ],
            )
      ]
]
