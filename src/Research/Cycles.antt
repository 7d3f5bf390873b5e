-- ===== src/Research/Cycles.antt =====
-- Laws of the list of cycles: how many are active, and that their numbers are distinct.
use gnomon.Prelude.{
  ℕ, ◌+◌, ◌≤◌, ◌<◌, ◌≡◌, ◌≢◌, inl, inr, refl, arith, false, not, ◌&&◌, List, [], ◌∷◌, ◌++◌, ltb,
  ◌==◌, if◌then◌else◌, any, All, All-append, sym, Bool-cases,
}
use mathlib.Core.Path.{subst}
use gnomon.Research.Model.{ResearchCycle, is_active}
use gnomon.Research.Edit.{update_cycle, last_number}

unfoldable pub active_count : List ResearchCycle → ℕ
active_count [] = 0
active_count (c ∷ cycles) = (if is_active c.status then 1 else 0) + active_count cycles

abbrev pub IsNumbered : List ResearchCycle → Type 0
IsNumbered [] = Unit
IsNumbered (c ∷ cycles) = All (λ x. x.number ≢ c.number) cycles × IsNumbered cycles

pub active_none :
    (cycles : List ResearchCycle)
    → any (λ c. is_active c.status) cycles ≡ false
    → active_count cycles ≡ 0
unfolding active_count
active_none [] h = refl
active_none (c ∷ cycles) h = let rest = active_none cycles (ground arith) in ground arith

pub active_append :
    (xs ys : List ResearchCycle) → active_count (xs ++ ys) ≡ active_count xs + active_count ys
unfolding active_count
active_append [] ys = omega arith
active_append (c ∷ xs) ys = omega (arith, active_append xs ys)

module _ (number : ℕ) (f : ResearchCycle → ResearchCycle) where
  All-update :
      (k : ℕ) (cycles : List ResearchCycle)
      → ((c : ResearchCycle) → (f c).number ≡ c.number)
      → All (λ x. x.number ≢ k) cycles
      → All (λ x. x.number ≢ k) (update_cycle number f cycles)
  unfolding update_cycle
  All-update k [] keeps h = h
  All-update k (c ∷ cycles) keeps h = elim (Bool-cases (c.number == number)) [
    | inl here ↦ rw here ((λ e. let same = keeps c in h.0 (ground arith)), h.1)
    | inr there ↦ rw there (h.0, All-update k cycles keeps h.1)
  ]

  pub IsNumbered-update :
      (cycles : List ResearchCycle)
      → ((c : ResearchCycle) → (f c).number ≡ c.number)
      → IsNumbered cycles
      → IsNumbered (update_cycle number f cycles)
  unfolding update_cycle
  IsNumbered-update [] keeps h = h
  IsNumbered-update (c ∷ cycles) keeps h = elim (Bool-cases (c.number == number)) [
    | inl here ↦ rw (here, keeps c) h
    | inr there ↦
        rw there (All-update c.number cycles keeps h.0, IsNumbered-update cycles keeps h.1)
  ]

  -- An update that ends a cycle makes none active.
  pub active-end :
      (cycles : List ResearchCycle)
      → ((c : ResearchCycle) → is_active (f c).status ≡ false)
      → active_count (update_cycle number f cycles) ≤ active_count cycles
  unfolding active_count update_cycle
  active-end [] ends = omega arith
  active-end (c ∷ cycles) ends =
      let rest = active-end cycles ends in
      let over = ends c in
      elim (Bool-cases (c.number == number)) [
        | inl here ↦ rw (here, over) (omega arith)
        | inr there ↦ rw there (omega arith)
      ]

  others_idle :
      (cycles : List ResearchCycle)
      → All (λ x. x.number ≢ number) cycles
      → any (λ c. is_active c.status && not (c.number == number)) cycles ≡ false
      → active_count cycles ≡ 0
  unfolding active_count
  others_idle [] apart h = refl
  others_idle (c ∷ cycles) apart h =
      let here = apart.0 in let rest = others_idle cycles apart.1 (ground arith) in ground arith

  -- Where every other cycle is idle, one is active at most after the update.
  pub active-start :
      (cycles : List ResearchCycle)
      → IsNumbered cycles
      → any (λ c. is_active c.status && not (c.number == number)) cycles ≡ false
      → active_count (update_cycle number f cycles) ≤ 1
  unfolding active_count update_cycle
  active-start [] numbered h = omega arith
  active-start (c ∷ cycles) numbered h = elim (Bool-cases (c.number == number)) [
    | inl here ↦
        let same : c.number ≡ number = ground arith in
        let apart = subst (λ k. All (λ x. x.number ≢ k) cycles) same numbered.0 in
        let idle = others_idle cycles apart (ground arith) in
        rw here (elim (Bool-cases (is_active (f c).status)) [
          | inl on ↦ rw on (omega arith)
          | inr off ↦ rw off (omega arith)
        ])
    | inr there ↦
        let rest = active-start cycles numbered.1 (ground arith) in
        let idle : is_active c.status ≡ false = ground arith in rw (there, idle) (omega arith)
  ]

last_number_above :
    (n : ℕ) (cycles : List ResearchCycle) → last_number cycles < n → All (λ c. c.number ≢ n) cycles
unfolding last_number
last_number_above n [] h = tt
last_number_above n (c ∷ cycles) h = elim (Bool-cases (ltb (last_number cycles) c.number)) [
  | inl more ↦ ((λ e. absurd (ground arith)), last_number_above n cycles (ground arith))
  | inr less ↦ ((λ e. absurd (ground arith)), last_number_above n cycles (ground arith))
]

IsNumbered-last :
    (xs : List ResearchCycle) (c : ResearchCycle)
    → IsNumbered xs
    → All (λ x. x.number ≢ c.number) xs
    → IsNumbered (xs ++ c ∷ [])
IsNumbered-last [] c h k = (tt, tt)
IsNumbered-last (x ∷ xs) c h k = (
  All-append (λ y. y.number ≢ x.number) xs (c ∷ []) h.0 ((λ e. k.0 (sym e)), tt),
  IsNumbered-last xs c h.1 k.1,
)

-- The next number is new.
pub IsNumbered-next :
    (cycles : List ResearchCycle) (c : ResearchCycle)
    → c.number ≡ last_number cycles + 1
    → IsNumbered cycles
    → IsNumbered (cycles ++ c ∷ [])
IsNumbered-next cycles c next h =
    IsNumbered-last cycles c h (last_number_above c.number cycles (omega arith))
