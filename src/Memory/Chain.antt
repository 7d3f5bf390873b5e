-- ===== src/Memory/Chain.antt =====
-- The journal of a record as a chain of versions.
use mathlib.Core.Path.{subst}
use gnomon.Prelude.{
  ℕ, ◌+◌, ◌≡◌, ◌⊎◌, inl, inr, sym, ap, ◌∙◌, arith, Bool, true, ◌&&◌, Option, none, some, List, [],
  ◌∷◌, ok, ◌==◌, keep, some_inj, In,
}
use gnomon.Memory.Model.{
  MemoryTarget, claim, assessment, MemoryState, MemoryChange, KnowledgeRecord, MemoryDb,
}
use gnomon.Memory.Records.{get_record, task_of, version_of, state}
use gnomon.Memory.Prepare.{state_before}
use gnomon.Memory.Write.{Writing}
use gnomon.Memory.History.{same_target}
use gnomon.Memory.Fit.{kind-cases, IsFit}

abbrev pub is_about : MemoryTarget → ℕ → MemoryChange → Bool
is_about kind id c = same_target c.target_type kind && c.target_id == id

-- The changes of one record, the newest first.
unfoldable pub log_of : MemoryTarget → ℕ → List MemoryChange → List MemoryChange
log_of kind id changes = keep (is_about kind id) changes

-- A chain of changes of a task that ends in a version and a state: every change makes the next
-- version of the state that the change before it left. It begins with a creation, or with the
-- version one that a migration gave to an older record.
abbrev pub Chain : ℕ → (MemoryState → Type 0) → ℕ → MemoryState → List MemoryChange → Type 0
Chain task P version s [] = (version ≡ 1) × P s
Chain task P version s (c ∷ rest) =
    P s
    × (c.task_id ≡ task)
    × (c.version ≡ version)
    × (c.proposed_state ≡ s)
    × (c.resulting_state ≡ s)
    × (version ≡ c.previous_version + 1)
    × (((c.previous_state ≡ none) × (c.previous_version ≡ 0) × (rest ≡ []))
        ⊎ ((previous : MemoryState) × (c.previous_state ≡ some previous)
            × Chain task P c.previous_version previous rest))

-- The record reads back as the end of its chain.
pub record IsChained (kind : MemoryTarget) (id : ℕ) (r : KnowledgeRecord) (db : MemoryDb)
    : Type 0 where
  pub current : MemoryState
  pub reads : state r db ≡ ok current
  pub chain :
      Chain (task_of r) (IsFit kind (some r)) (version_of r) current (log_of kind id db.changes)

pub record IsJournaled (db : MemoryDb) : Type 0 where
  pub chained :
      (kind : MemoryTarget) (id : ℕ) (r : KnowledgeRecord)
      → get_record kind id db ≡ some r
      → IsChained kind id r db
  pub fresh :
      (kind : MemoryTarget) (id : ℕ) → get_record kind id db ≡ none → log_of kind id db.changes ≡ []

-- A write whose target, state and investigation are those of the tables.
pub record IsProper (w : Writing) (db : MemoryDb) : Type 0 where
  pub at_target : w.target ≡ get_record w.kind w.target_id db
  pub fit : IsFit w.kind w.target w.after
  pub before : state_before w.target db ≡ ok w.before
  pub task : (r : KnowledgeRecord) → w.target ≡ some r → task_of r ≡ w.authority.task_id

pub Chain-map :
    (task : ℕ) (P Q : MemoryState → Type 0) (version : ℕ) (s : MemoryState)
    (log : List MemoryChange)
    → ((x : MemoryState) → P x → Q x)
    → Chain task P version s log
    → Chain task Q version s log
Chain-map task P Q version s [] f h = (h.0, f s h.1)
Chain-map task P Q version s (c ∷ rest) f (p, own, at, proposed, resulting, step, past) = (
  f s p,
  own,
  at,
  proposed,
  resulting,
  step,
  elim past [
    | inl creation ↦ inl creation
    | inr (previous, is, earlier) ↦
        inr (previous, is, Chain-map task P Q c.previous_version previous rest f earlier)
  ],
)

pub Chain-holds :
    (task : ℕ) (P : MemoryState → Type 0) (version : ℕ) (s : MemoryState) (log : List MemoryChange)
    → Chain task P version s log
    → P s
Chain-holds task P version s [] h = h.1
Chain-holds task P version s (c ∷ rest) h = h.0

-- The state before any change of a chain could be held.
pub Chain-previous :
    (task : ℕ) (P : MemoryState → Type 0) (version : ℕ) (s : MemoryState) (log : List MemoryChange)
    → Chain task P version s log
    → (c : MemoryChange) → In c log
    → (p : MemoryState) → c.previous_state ≡ some p
    → P p
Chain-previous task P version s [] h c member p is = absurd member
Chain-previous task P version s (d ∷ rest) (q, own, at, proposed, resulting, step, past) c member p
      is =
    elim past [
      | inl (no_state, zero_version, nothing) ↦ elim member [
        | inl here ↦
            let clash : c.previous_state ≡ none = ap (λ x. x.previous_state) here ∙ no_state in
            absurd (ground arith)
        | inr later ↦ absurd (subst (λ l. In c l) nothing later)
      ]
      | inr (previous, held, earlier) ↦ elim member [
        | inl here ↦
            let same = some_inj (sym is ∙ (ap (λ x. x.previous_state) here ∙ held)) in
            subst P (sym same) (Chain-holds task P d.previous_version previous rest earlier)
        | inr later ↦ Chain-previous task P d.previous_version previous rest earlier c later p is
      ]
    ]

pub own_change : (kind : MemoryTarget) (id : ℕ) → (same_target kind kind && id == id) ≡ true
own_change claim id = ground arith
own_change assessment id = ground arith

pub is_about-same :
    (kind : MemoryTarget) (id : ℕ) (c : MemoryChange)
    → is_about kind id c ≡ true
    → (c.target_type ≡ kind) × (c.target_id ≡ id)
is_about-same kind id c h = elim (kind-cases kind) [
  | inl k ↦ elim (kind-cases c.target_type) [
    | inl t ↦ (t ∙ sym k, ground arith)
    | inr t ↦ absurd (ground arith)
  ]
  | inr k ↦ elim (kind-cases c.target_type) [
    | inl t ↦ absurd (ground arith)
    | inr t ↦ (t ∙ sym k, ground arith)
  ]
]

pub before_read :
    (target : Option KnowledgeRecord) (r : KnowledgeRecord) (before : Option MemoryState)
    (db : MemoryDb) (s : MemoryState)
    → target ≡ some r
    → state_before target db ≡ ok before
    → state r db ≡ ok s
    → before ≡ some s
unfolding state_before
before_read target r before db s here b reads =
    let b' : state_before (some r) db ≡ ok before =
      subst (λ t. state_before t db ≡ ok before) here b in
    ground arith
