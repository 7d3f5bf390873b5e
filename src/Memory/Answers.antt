-- ===== src/Memory/Answers.antt =====
-- The body of a call behind its authorization.
use gnomon.Prelude.{◌≡◌, arith, not, ◌||◌, Result, ok, Bool-cases, inl, inr, Result-cases}
use gnomon.Memory.Model.{MemoryAuthority, MemoryChange, MemoryDb, MemoryError}
use gnomon.Memory.Records.{MemoryContext, authorized, is_model}

pub authorized-ok :
    (cx : MemoryContext) (authority : MemoryAuthority) (db : MemoryDb)
    (body : Result MemoryError (MemoryChange × MemoryDb)) (c : MemoryChange) (db' : MemoryDb)
    → authorized cx authority db body ≡ (ok c, db')
    → body ≡ ok (c, db')
unfolding authorized
authorized-ok cx authority db body c db' h =
    elim (Bool-cases (not authority.can_commit || is_model authority.actor)) [
      | inl denied ↦ absurd (ground arith)
      | inr may ↦ elim (Result-cases body) [
        | inl ((c', db''), made) ↦ ground arith
        | inr (e, made) ↦ absurd (ground arith)
      ]
    ]
