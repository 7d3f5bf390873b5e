-- ===== src/Provider/Rows.antt =====
-- Laws of the rows: what a lookup and a count see after an update.
use gnomon.Prelude.{
  ℕ, ◌+◌, ◌≤◌, ◌≡◌, ◌≢◌, refl, arith, ◌&&◌, Option, none, some, List, [], ◌∷◌, ◌==◌, if◌then◌else◌,
}
use gnomon.Provider.Attempts.{
  Attempt, is_charged, get_attempt, update_attempt, is_overdue, expire, expire_overdue,
  charged_count,
}

-- What one row adds to its task's count.
abbrev pub weight : ℕ → Attempt → ℕ
weight task_id a = if a.task_id == task_id && is_charged a.status then 1 else 0

abbrev pub change : (Attempt → Attempt) → Option Attempt → Option Attempt
change f none = none
change f (some a) = some (f a)

abbrev pub settle_overdue : (task_id now : ℕ) → Attempt → Attempt
settle_overdue task_id now a = if is_overdue task_id now a then expire now a else a

pub get-cons :
    (j : ℕ) (a : Attempt) (rows : List Attempt)
    → get_attempt j (a ∷ rows) ≡ (if a.operation_id == j then some a else get_attempt j rows)
unfolding get_attempt
get-cons j a rows = refl

pub get-update :
    (id j : ℕ) (f : Attempt → Attempt) (rows : List Attempt)
    → ((a : Attempt) → (f a).operation_id ≡ a.operation_id)
    → get_attempt j (update_attempt id f rows)
      ≡ (if id == j then change f (get_attempt j rows) else get_attempt j rows)
unfolding get_attempt update_attempt
get-update id j f [] keeps = ground arith
get-update id j f (a ∷ rows) keeps = ground (arith, keeps a, get-update id j f rows keeps)

pub get-expire :
    (j task_id now : ℕ) (rows : List Attempt)
    → get_attempt j (expire_overdue task_id now rows)
      ≡ change (settle_overdue task_id now) (get_attempt j rows)
unfolding get_attempt expire_overdue
get-expire j task_id now [] = refl
get-expire j task_id now (a ∷ rows) = ground (arith, get-expire j task_id now rows)

pub charged-update :
    (task_id id : ℕ) (f : Attempt → Attempt) (a : Attempt) (rows : List Attempt)
    → get_attempt id rows ≡ some a
    → charged_count task_id (update_attempt id f rows) + weight task_id a
      ≡ charged_count task_id rows + weight task_id (f a)
unfolding get_attempt update_attempt charged_count
charged-update task_id id f a [] h = cc
charged-update task_id id f a (b ∷ rows) h = ground (arith, charged-update task_id id f a rows)

-- An expiry only takes charges away, and from its own task alone.
pub charged-expire :
    (t task_id now : ℕ) (rows : List Attempt)
    → charged_count t (expire_overdue task_id now rows) ≤ charged_count t rows
unfolding expire_overdue charged_count
charged-expire t task_id now [] = omega arith
charged-expire t task_id now (a ∷ rows) = ground (arith, charged-expire t task_id now rows)

pub charged-expire_ne :
    (t task_id now : ℕ) (rows : List Attempt)
    → t ≢ task_id
    → charged_count t (expire_overdue task_id now rows) ≡ charged_count t rows
unfolding expire_overdue charged_count
charged-expire_ne t task_id now [] ne = refl
charged-expire_ne t task_id now (a ∷ rows) ne = ground (arith, charged-expire_ne t task_id now rows)
