-- ===== src/Provider/Lifecycle.antt =====
-- The end of an attempt: terminal statuses, repeated outcomes and the operator's recovery.
use Prim.Native.String.{String}
use gnomon.Prelude.{
  ℕ, ◌≡◌, inl, inr, refl, arith, Bool, true, false, Option, none, some, List, [], ◌∷◌, ok, elem,
  ◌==◌, ==_iff, Bool-cases, Result-cases, same_found,
}
use gnomon.Audit.Events.{EventType, EventPayload}
use gnomon.Provider.Attempts.{
  AttemptStatus, Attempt, ProviderDb, succeeded, failed, expired, get_attempt, charged_count,
}
use gnomon.Provider.Rows.{get-cons, get-update, get-expire, charged-update}
use gnomon.Provider.Service.{
  FinalStatus, final_status, final_time, is_final, accepts, success, failure, uncertain,
  lock_attempt, finish, finish_locked, recover, payload_or,
}
use gnomon.Provider.Effects.{Move, sends, expires, ends, lock_attempt-found}
use gnomon.Provider.Run.{Command, target, apply, run, unchanged, updated, reserved, apply-Effect}

abbrev pub is_terminal : AttemptStatus → Bool
is_terminal succeeded = true
is_terminal failed = true
is_terminal expired = true
is_terminal _ = false

not-Move : (s t : AttemptStatus) (e : EventType) → is_terminal s ≡ true → ¬ Move s t e
not-Move s t e h (sends p q r) = ground arith
not-Move s t e h (expires p q r) = ground arith
not-Move s t e h (ends f a q r) = ground arith

module _ (limit : ℕ) (id : ℕ) (a : Attempt) (done : is_terminal a.status ≡ true) where
  apply-terminal :
      (c : Command) (db : ProviderDb)
      → get_attempt id db.attempts ≡ some a
      → get_attempt id (apply limit c db).attempts ≡ some a
  apply-terminal c db found = elim (apply-Effect limit c db) [
    | unchanged same ↦ rw same found
    | updated u ↦
        let key = get-update (target c) id u.write db.attempts u.keeps_id in
        let other = u.found in
        let same : target c ≡ id → u.row ≡ a = λ e. same_found u.found (rw (← e) at found) in
        rw (u.written, key)
          (elim (Bool-cases (target c == id)) [
            | inl own ↦
                let row = same ((==_iff _ _).0 own) in
                absurd (not-Move u.row.status _ u.event (rw row done) u.move)
            | inr distinct ↦ rw distinct found
          ])
    | reserved now t timeout r ↦
        let new = r.new in
        let kept = get-expire id t now db.attempts in
        rw (r.written, get-cons, kept, found)
          (elim (Bool-cases (target c == id)) [
            | inl own ↦ let same = (==_iff (target c) id).0 own in absurd (ground arith)
            | inr distinct ↦ rw distinct (ground arith)
          ])
  ]

  -- An attempt that has succeeded, failed or expired keeps its whole row through any calls.
  pub run-terminal :
      (commands : List Command) (db : ProviderDb)
      → get_attempt id db.attempts ≡ some a
      → get_attempt id (run limit commands db).attempts ≡ some a
  unfolding run
  run-terminal [] db found = found
  run-terminal (c ∷ commands) db found = run-terminal commands _ (apply-terminal c db found)

outcome_write : ℕ → Attempt → Attempt
outcome_write now r = record r {
  status = final_status uncertain;
  finished_at = none;
  error_reason = some "provider_outcome_unknown";
}

-- The operator's recovery changes no task's count of charged attempts, whatever it returns: an
-- unknown outcome is not refunded.
pub recover-charged :
    (now task_id id t : ℕ) (db : ProviderDb)
    → charged_count t (recover now task_id id db).1.attempts ≡ charged_count t db.attempts
unfolding recover finish finish_locked outcome_write
recover-charged now task_id id t db = elim (Result-cases (lock_attempt id db)) [
  | inr (e, failing) ↦ ground arith
  | inl (a, locked) ↦
      let found = lock_attempt-found id db a locked in
      let moved = charged-update t id (outcome_write now) a db.attempts found in ground arith
]

final-IsFinal : (f : FinalStatus) → is_final (final_status f) f ≡ true
final-IsFinal success = refl
final-IsFinal failure = refl
final-IsFinal uncertain = refl

abbrev final_write : ℕ → FinalStatus → Option String → Attempt → Attempt
final_write now status reason r = record r {
  status = final_status status;
  finished_at = final_time now status;
  error_reason = reason;
}

lock_attempt-known :
    (id : ℕ) (db : ProviderDb) (a : Attempt)
    → lock_attempt id db ≡ ok a
    → elem a.task_id db.tasks ≡ true
unfolding lock_attempt
lock_attempt-known id db a h = ground arith

lock_written :
    (now id : ℕ) (status : FinalStatus) (reason : Option String) (payload : EventPayload)
    (a : Attempt) (db : ProviderDb)
    → is_final a.status status ≡ false
    → elem a.task_id db.tasks ≡ true
    → get_attempt id db.attempts ≡ some a
    → (finish_locked now id status reason payload a db).0 ≡ ok tt
    → lock_attempt id (finish_locked now id status reason payload a db).1
      ≡ ok (final_write now status reason a)
unfolding finish_locked lock_attempt
lock_written now id status reason payload a db open_still known found h =
    elim (Bool-cases (accepts a.status status)) [
      | inr conflict ↦ absurd (ground arith)
      | inl accepted ↦
          let key = get-update id id (final_write now status reason) db.attempts (λ r. refl) in
          ground arith
    ]

finish_locked-settled :
    (now id : ℕ) (status : FinalStatus) (reason : Option String) (payload : EventPayload)
    (a : Attempt) (db : ProviderDb)
    → lock_attempt id db ≡ ok a
    → (finish_locked now id status reason payload a db).0 ≡ ok tt
    → (b : Attempt) × (lock_attempt id (finish_locked now id status reason payload a db).1 ≡ ok b)
      × (is_final b.status status ≡ true)
unfolding finish_locked
finish_locked-settled now id status reason payload a db locked h =
    elim (Bool-cases (is_final a.status status)) [
      | inl already ↦ (a, ground arith, already)
      | inr open_still ↦
          let found = lock_attempt-found id db a locked in
          let known = lock_attempt-known id db a locked in
          (
            final_write now status reason a,
            lock_written now id status reason payload a db open_still known found h,
            final-IsFinal status,
          )
    ]

-- After an accepted outcome the attempt is there, under that outcome.
finish-settled :
    (now id : ℕ) (status : FinalStatus) (reason : Option String) (payload : Option EventPayload)
    (db : ProviderDb)
    → (finish now id status reason payload db).0 ≡ ok tt
    → (a : Attempt) × (lock_attempt id (finish now id status reason payload db).1 ≡ ok a)
      × (is_final a.status status ≡ true)
unfolding finish
finish-settled now id status reason payload db h = elim (Result-cases (lock_attempt id db)) [
  | inr (e, failing) ↦ absurd (ground arith)
  | inl (a, locked) ↦ elim (Bool-cases ((payload_or id payload).operation_id == id)) [
    | inr other ↦ absurd (ground arith)
    | inl own ↦
        let done : (finish_locked now id status reason (payload_or id payload) a db).0 ≡ ok tt =
          ground arith in
        rw (locked, own, finish)
          (finish_locked-settled now id status reason (payload_or id payload) a db locked done)
  ]
]

finish_noop :
    (now id : ℕ) (status : FinalStatus) (reason : Option String) (payload : Option EventPayload)
    (a : Attempt) (db : ProviderDb)
    → lock_attempt id db ≡ ok a
    → is_final a.status status ≡ true
    → (payload_or id payload).operation_id ≡ id
    → finish now id status reason payload db ≡ (ok tt, db)
unfolding finish finish_locked
finish_noop now id status reason payload a db locked already own = ground arith

-- A repeated outcome is accepted and changes nothing, at any time and with any reason: the row, the
-- budget and the audit events stay as the first one left them.
pub finish_again :
    (now id : ℕ) (status : FinalStatus) (reason : Option String) (payload : Option EventPayload)
    (db : ProviderDb)
    → (finish now id status reason payload db).0 ≡ ok tt
    → (now' : ℕ) (reason' : Option String) (payload' : Option EventPayload)
    → (payload_or id payload').operation_id ≡ id
    → let db' = (finish now id status reason payload db).1 in
      finish now' id status reason' payload' db' ≡ (ok tt, db')
finish_again now id status reason payload db h now' reason' payload' own =
    let (a, locked, already) = finish-settled now id status reason payload db h in
    finish_noop now' id status reason' payload' a _ locked already own
