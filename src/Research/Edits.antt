-- ===== src/Research/Edits.antt =====
-- How a property of every investigation passes through `repository.edit`.
use gnomon.Prelude.{
  ℕ, ◌+◌, ◌≡◌, inl, inr, arith, none, some, List, [], ◌∷◌, Result, ok, ◌==◌, All, holds, Bool-cases,
  Option-cases, Result-cases,
}
use gnomon.Security.Capability.{SecurityCapability}
use gnomon.Security.Store.{require_capability}
use gnomon.Research.Model.{
  ResearchTask, ResearchTask-discrete, CycleAttempt, ResearchDb, ResearchError,
}
use gnomon.Research.Edit.{Edited, get_task, replace_task, revised, edit, allowed}

module _ (P : ResearchTask → Type 0) where
  found-All :
      (id : ℕ) (tasks : List ResearchTask) (t : ResearchTask)
      → All P tasks
      → get_task id tasks ≡ some t
      → P t
  unfolding get_task
  found-All id [] t h found = absurd (ground arith)
  found-All id (x ∷ tasks) t h found = elim (Bool-cases (x.id == id)) [
    | inl here ↦ let same : x ≡ t = ground arith in rw (← same) h.0
    | inr there ↦ found-All id tasks t h.1 (ground arith)
  ]

  replace-All :
      (task : ResearchTask) (tasks : List ResearchTask)
      → P task
      → All P tasks
      → All P (replace_task task tasks)
  unfolding replace_task
  replace-All task [] p h = h
  replace-All task (x ∷ tasks) p h = elim (Bool-cases (x.id == task.id)) [
    | inl here ↦ rw here (p, h.1)
    | inr there ↦ rw there (h.0, replace-All task tasks p h.1)
  ]

  module _ (keeps : (t : ResearchTask) (n : ℕ) → P t → P (record t { revision = n })) where
    revised-P : (before t : ResearchTask) → P t → P (revised before t)
    revised-P before t p = elim (Bool-cases (holds (ResearchTask-discrete t before))) [
      | inl same ↦ rw same p
      | inr moved ↦ rw moved (keeps t (before.revision + 1) p)
    ]

    pub edit-All :
        (id : ℕ) (body : ResearchTask → List CycleAttempt → Edited) (db db' : ResearchDb)
        → ((t t' : ResearchTask) (a a' : List CycleAttempt) → body t a ≡ ok (t', a') → P t → P t')
        → edit id body db ≡ ok db'
        → All P db.tasks
        → All P db'.tasks
    unfolding edit
    edit-All id body db db' sound h all = elim (Option-cases (get_task id db.tasks)) [
      | inl missing ↦ absurd (ground arith)
      | inr (t, found) ↦ elim (Result-cases (body t db.attempts)) [
        | inr (e, raised) ↦ absurd (ground arith)
        | inl ((t', a'), done) ↦
            let next : P (revised t t') =
              revised-P t t' (sound t t' db.attempts a' done (found-All id db.tasks t all found)) in
            let written : db'.tasks ≡ replace_task (revised t t') db.tasks = ground arith in
            rw written (replace-All (revised t t') db.tasks next all)
      ]
    ]

pub allowed-cases :
    (capability : SecurityCapability) (db : ResearchDb) (m : Result ResearchError ResearchDb)
    (db' : ResearchDb)
    → allowed capability db m ≡ ok db'
    → m ≡ ok db'
allowed-cases capability db m db' h =
    elim (Result-cases (require_capability db.security capability none)) [
      | inl (s, granted) ↦ ground arith
      | inr (e, denied) ↦ absurd (ground arith)
    ]
