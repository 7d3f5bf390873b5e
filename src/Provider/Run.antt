-- ===== src/Provider/Run.antt =====
-- Sequences of calls under one configured limit, and the effect of each call.
use Prim.Native.String.{String}
use gnomon.Prelude.{ℕ, ◌≡◌, ◌⊎◌, inl, inr, Option, List, [], ◌∷◌}
use gnomon.Audit.Events.{EventPayload}
use gnomon.Provider.Attempts.{ProviderDb}
use gnomon.Provider.Service.{FinalStatus, reserve, dispatch, finish, recover}
use gnomon.Provider.Effects.{
  Update, Reservation, reserve-effect, dispatch-effect, finish-effect, recover-effect,
}

pub data Command : Type 0 where
  reserving : (now task_id operation_id timeout_seconds : ℕ) → Command
  dispatching : (now operation_id : ℕ) → Command
  finishing : (now operation_id : ℕ) → FinalStatus → Option String → Option EventPayload → Command
  recovering : (now task_id operation_id : ℕ) → Command

-- The operation that a command is about.
abbrev pub target : Command → ℕ
target (reserving now task_id operation_id timeout) = operation_id
target (dispatching now operation_id) = operation_id
target (finishing now operation_id status reason payload) = operation_id
target (recovering now task_id operation_id) = operation_id

module _ (limit : ℕ) where
  unfoldable pub apply : Command → ProviderDb → ProviderDb
  apply (reserving now task_id operation_id timeout) db =
      (reserve now task_id operation_id limit timeout db).1
  apply (dispatching now operation_id) db = (dispatch now operation_id db).1
  apply (finishing now operation_id status reason payload) db =
      (finish now operation_id status reason payload db).1
  apply (recovering now task_id operation_id) db = (recover now task_id operation_id db).1

  unfoldable pub run : List Command → ProviderDb → ProviderDb
  run [] db = db
  run (c ∷ commands) db = run commands (apply c db)

  -- Every call leaves the database alone, moves one attempt, or makes a reservation.
  pub data Effect (id : ℕ) (db db' : ProviderDb) : Type 0 where
    unchanged : db' ≡ db → Effect id db db'
    updated : Update id db db' → Effect id db db'
    reserved :
        (now task_id timeout : ℕ)
        → Reservation now task_id id limit timeout db db'
        → Effect id db db'

  moved_or_not : {id : ℕ} {db db' : ProviderDb} → (db' ≡ db) ⊎ Update id db db' → Effect id db db'
  moved_or_not (inl same) = unchanged same
  moved_or_not (inr u) = updated u

  pub apply-Effect : (c : Command) (db : ProviderDb) → Effect (target c) db (apply c db)
  unfolding apply
  apply-Effect (reserving now task_id operation_id timeout) db =
      elim (reserve-effect now task_id operation_id limit timeout db) [
        | inl same ↦ unchanged same
        | inr r ↦ reserved now task_id timeout r
      ]
  apply-Effect (dispatching now operation_id) db =
      moved_or_not (dispatch-effect now operation_id db)
  apply-Effect (finishing now operation_id status reason payload) db =
      moved_or_not (finish-effect now operation_id status reason payload db)
  apply-Effect (recovering now task_id operation_id) db =
      moved_or_not (recover-effect now task_id operation_id db)
