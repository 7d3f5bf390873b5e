-- ===== src/Memory/Accepted.antt =====
-- What the checks of memory_service.history find in a chain of changes.
use mathlib.Core.Path.{subst}
use gnomon.Prelude.{
  ℕ, ◌+◌, ◌≤◌, ◌≡◌, ◌⊎◌, inl, inr, refl, sym, ap, ◌∙◌, arith, true, Option, none, some, List, [],
  ◌∷◌, ◌++◌, ok, All, →holds,
}
use gnomon.Memory.Model.{MemoryTarget, MemoryState, MemoryState-discrete, MemoryChange}
use gnomon.Memory.Fit.{kind-cases}
use gnomon.Memory.Chain.{Chain}
use gnomon.Memory.Replay.{oldest_first, end_state, replay-snoc}
use gnomon.Memory.History.{same_target, is_well_formed, baseline, follows, check_change, replay}

-- What `history` finds in a chain.
pub record Accepted (kind : MemoryTarget) (log : List MemoryChange) (version : ℕ) (s : MemoryState)
    : Type 0 where
  pub first : MemoryChange
  pub rest : List MemoryChange
  pub split : oldest_first log ≡ first ∷ rest
  pub base : ℕ
  pub legacy : Option MemoryState
  pub based : baseline first ≡ ok (base, legacy)
  pub own : first.target_type ≡ kind
  pub sound : check_change kind first ≡ ok tt
  pub replayed : replay kind first.version first.resulting_state rest ≡ ok version
  pub ends : end_state first.resulting_state rest ≡ s
  pub later : (legacy ≡ none) ⊎ (2 ≤ version)

end-snoc :
    (s : MemoryState) (rest : List MemoryChange) (c : MemoryChange)
    → end_state s (rest ++ c ∷ []) ≡ c.resulting_state
end-snoc s [] c = refl
end-snoc s (d ∷ rest) c = end-snoc d.resulting_state rest c

module _ (kind : MemoryTarget) (task : ℕ) (P : MemoryState → Type 0)
    (formed : (s : MemoryState) → P s → is_well_formed kind s ≡ true) where
  sound-change :
      (c : MemoryChange) (s : MemoryState)
      → P s
      → c.proposed_state ≡ s
      → c.resulting_state ≡ s
      → check_change kind c ≡ ok tt
  unfolding check_change
  sound-change c s p proposed resulting =
      let a : is_well_formed kind c.proposed_state ≡ true =
        subst (λ x. is_well_formed kind x ≡ true) (sym proposed) (formed s p) in
      let b : is_well_formed kind c.resulting_state ≡ true =
        subst (λ x. is_well_formed kind x ≡ true) (sym resulting) (formed s p) in
      let same =
        →holds (MemoryState-discrete c.proposed_state c.resulting_state)
          (proposed ∙ sym resulting) in
      rw (a, b, same) refl

  own-target : (c : MemoryChange) → c.target_type ≡ kind → same_target c.target_type kind ≡ true
  own-target c own = elim (kind-cases kind) [ inl k ↦ rw (own, k) refl | inr k ↦ rw (own, k) refl ]

  linked :
      (c : MemoryChange) (v : ℕ) (s : MemoryState)
      → c.previous_version ≡ v
      → c.version ≡ v + 1
      → c.previous_state ≡ some s
      → follows v (some s) c ≡ true
  unfolding follows
  linked c v s before at is =
      let same = →holds (MemoryState-discrete s s) refl in rw (is, same) (ground arith)

  pub accept :
      (version : ℕ) (s : MemoryState) (c : MemoryChange) (rest : List MemoryChange)
      → Chain task P version s (c ∷ rest)
      → All (λ x. x.target_type ≡ kind) (c ∷ rest)
      → Accepted kind (c ∷ rest) version s
  unfolding baseline replay
  accept version s c [] (p, own, at, proposed, resulting, step, past) kinds = elim past [
    | inl (no_state, zero_version, nothing) ↦ record {
      first = c;
      rest = [];
      split = refl;
      base = 0;
      legacy = none;
      based = rw (no_state) (ground arith);
      own = kinds.0;
      sound = sound-change c s p proposed resulting;
      replayed = ap (λ v. ok v) at;
      ends = resulting;
      later = inl refl;
    }
    | inr (previous, is, (at_one, q)) ↦
        let good : is_well_formed c.target_type previous ≡ true =
          subst (λ k. is_well_formed k previous ≡ true) (sym kinds.0) (formed previous q) in
        record {
          first = c;
          rest = [];
          split = refl;
          base = 1;
          legacy = some previous;
          based = rw (is, good) (ground arith);
          own = kinds.0;
          sound = sound-change c s p proposed resulting;
          replayed = ap (λ v. ok v) at;
          ends = resulting;
          later = inr (omega (arith, step, at_one));
        }
  ]
  accept version s c (d ∷ rest) (p, own, at, proposed, resulting, step, past) kinds = elim past [
    | inl (no_state, zero_version, nothing) ↦ absurd (cc)
    | inr (previous, is, earlier) ↦
        let a = accept c.previous_version previous d rest earlier kinds.1 in
        let next : follows c.previous_version (some (end_state a.first.resulting_state a.rest)) c
            ≡ true =
          linked c c.previous_version (end_state a.first.resulting_state a.rest) refl (at ∙ step)
            (is ∙ ap (λ x. some x) (sym a.ends)) in
        record {
          first = a.first;
          rest = a.rest ++ c ∷ [];
          split = ap (λ l. l ++ c ∷ []) a.split;
          base = a.base;
          legacy = a.legacy;
          based = a.based;
          own = a.own;
          sound = a.sound;
          replayed =
              replay-snoc kind a.first.version c.previous_version a.first.resulting_state a.rest c
                a.replayed (own-target c kinds.0) next (sound-change c s p proposed resulting)
              ∙ ap (λ v. ok v) at;
          ends = end-snoc a.first.resulting_state a.rest c ∙ resulting;
          later = elim a.later [
            | inl none_kept ↦ inl none_kept
            | inr two ↦ inr (omega (arith, two, step))
          ];
        }
  ]
