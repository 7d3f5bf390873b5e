-- ===== src/Memory/Replay.antt =====
-- The history of a record whose journal is a chain.
use mathlib.Core.Path.{subst}
use gnomon.Prelude.{
  ℕ, ◌+◌, ◌≤◌, ◌≡◌, inl, inr, refl, sym, ap, ◌∙◌, arith, true, false, some, List, [], ◌∷◌, ◌++◌, ok,
  Result-cases, All, All-append, Bool-cases,
}
use gnomon.Memory.Model.{MemoryTarget, MemoryState, MemoryChange}
use gnomon.Memory.Chain.{Chain}
use gnomon.Memory.History.{
  comes_before, insert_change, order_changes, same_target, follows, check_change, replay,
}

-- A log, oldest first.
abbrev pub oldest_first : List MemoryChange → List MemoryChange
oldest_first [] = []
oldest_first (c ∷ log) = oldest_first log ++ c ∷ []

Chain-below :
    (task : ℕ) (P : MemoryState → Type 0) (version : ℕ) (s : MemoryState) (log : List MemoryChange)
    → Chain task P version s log
    → (bound : ℕ) → version ≤ bound
    → All (λ c. c.version ≤ bound) log
Chain-below task P version s [] h bound le = tt
Chain-below task P version s (c ∷ rest) (p, own, at, proposed, resulting, step, past) bound le = (
  omega (arith, at),
  elim past [
    | inl (no_state, zero_version, nothing) ↦
        subst (λ l. All (λ x. x.version ≤ bound) l) (sym nothing) tt
    | inr (previous, is, earlier) ↦
        Chain-below task P c.previous_version previous rest earlier bound (omega (arith, step, le))
  ],
)

oldest-All :
    (P : MemoryChange → Type 0) (log : List MemoryChange) → All P log → All P (oldest_first log)
oldest-All P [] h = tt
oldest-All P (c ∷ log) h = All-append P (oldest_first log) (c ∷ []) (oldest-All P log h.1) (h.0, tt)

insert_change_last :
    (c : MemoryChange) (xs : List MemoryChange)
    → All (λ x. x.version + 1 ≤ c.version) xs
    → insert_change c xs ≡ xs ++ c ∷ []
insert_change_last c [] h = refl
insert_change_last c (x ∷ xs) h =
    let above : comes_before c x ≡ false = let le = h.0 in ground arith in
    rw (above, insert_change_last c xs h.1) refl

All-map :
    (P Q : MemoryChange → Type 0) (xs : List MemoryChange)
    → ((x : MemoryChange) → P x → Q x)
    → All P xs
    → All Q xs
All-map P Q [] f h = tt
All-map P Q (x ∷ xs) f h = (f x h.0, All-map P Q xs f h.1)

-- The older changes of a chain have smaller versions.
pub older-versions :
    (task : ℕ) (P : MemoryState → Type 0) (version : ℕ) (s : MemoryState) (c : MemoryChange)
    (rest : List MemoryChange)
    → Chain task P version s (c ∷ rest)
    → All (λ x. x.version + 1 ≤ version) (oldest_first rest)
older-versions task P version s c rest (p, own, at, proposed, resulting, step, past) = elim past [
  | inl (no_state, zero_version, nothing) ↦
      subst (λ l. All (λ x. x.version + 1 ≤ version) (oldest_first l)) (sym nothing) tt
  | inr (previous, is, earlier) ↦
      let below =
        Chain-below task P c.previous_version previous rest earlier c.previous_version
          (omega arith) in
      oldest-All _ rest (
        All-map (λ x. x.version ≤ c.previous_version) (λ x. x.version + 1 ≤ version) rest
          (λ x le. omega (arith, le, step)) below)
]

-- Ordering by version and time is reading the chain backwards.
pub sort-Chain :
    (task : ℕ) (P : MemoryState → Type 0) (version : ℕ) (s : MemoryState) (log : List MemoryChange)
    → Chain task P version s log
    → order_changes log ≡ oldest_first log
sort-Chain task P version s [] h = refl
sort-Chain task P version s (c ∷ rest) (p, own, at, proposed, resulting, step, past) = elim past [
  | inl (no_state, zero_version, nothing) ↦
      subst (λ l. insert_change c (order_changes l) ≡ oldest_first l ++ c ∷ []) (sym nothing) refl
  | inr (previous, is, earlier) ↦
      let sorted = sort-Chain task P c.previous_version previous rest earlier in
      let under =
        older-versions task P version s c rest
          (p, own, at, proposed, resulting, step, inr (previous, is, earlier)) in
      ap (λ l. insert_change c l) sorted
      ∙ insert_change_last c (oldest_first rest)
          (subst (λ v. All (λ x. x.version + 1 ≤ v) (oldest_first rest)) (sym at) under)
]

-- The state that a list of changes ends in.
abbrev pub end_state : MemoryState → List MemoryChange → MemoryState
end_state s [] = s
end_state s (c ∷ rest) = end_state c.resulting_state rest

pub replay-snoc :
    (kind : MemoryTarget) (v0 v : ℕ) (s0 : MemoryState) (rest : List MemoryChange)
    (c : MemoryChange)
    → replay kind v0 s0 rest ≡ ok v
    → same_target c.target_type kind ≡ true
    → follows v (some (end_state s0 rest)) c ≡ true
    → check_change kind c ≡ ok tt
    → replay kind v0 s0 (rest ++ c ∷ []) ≡ ok c.version
unfolding replay
replay-snoc kind v0 v s0 [] c h same next sound =
    let at : v0 ≡ v = ground arith in
    let next' : follows v0 (some s0) c ≡ true =
      subst (λ x. follows x (some s0) c ≡ true) (sym at) next in
    rw (same, next', sound) refl
replay-snoc kind v0 v s0 (d ∷ rest) c h same next sound =
    elim (Bool-cases (same_target d.target_type kind)) [
      | inr foreign ↦ absurd (ground arith)
      | inl own ↦ elim (Bool-cases (follows v0 (some s0) d)) [
        | inr broken ↦ absurd (ground arith)
        | inl linked ↦ elim (Result-cases (check_change kind d)) [
          | inr (e, bad) ↦ absurd (ground arith)
          | inl (u, good) ↦
              rw (own, linked, good)
                (replay-snoc kind d.version v d.resulting_state rest c (ground arith) same next
                  sound)
        ]
      ]
    ]
