-- ===== src/Provider/Effects.antt =====
-- What a call can do to the database: nothing, one row's move with its event, or a reservation.
use Prim.Native.String.{String}
use gnomon.Prelude.{
  ℕ, ◌<◌, ◌≡◌, ◌⊎◌, inl, inr, refl, arith, true, not, Option, none, some, ◌∷◌, ok, leb, ltb, ◌==◌,
  ==_iff, ◌||◌, elem, Option-cases, Bool-cases, Result-cases,
}
use gnomon.Audit.Events.{
  EventType, EventPayload, report_draft_dispatched, report_draft_expired, report_draft_reserved,
  operation_only,
}
use gnomon.Security.Capability.{provider_dispatch}
use gnomon.Security.Store.{require_capability}
use gnomon.Provider.Attempts.{
  AttemptStatus, is_pending, expire, pending, dispatched, expired, Attempt, ProviderDb, get_attempt,
  update_attempt, charged_count,
}
use gnomon.Provider.Service.{
  FinalStatus, final_status, final_event, accepts, is_final, final_time, uncertain, payload_or,
  is_unknown, is_dispatched, recovery_payload, audit, lock_attempt, dispatch_locked, finish_locked,
  with_expired, new_attempt, reserve, dispatch, finish, recover,
}

-- The moves of one attempt, each with the event that records it.
pub data Move (s t : AttemptStatus) (e : EventType) : Type 0 where
  sends : s ≡ pending → t ≡ dispatched → e ≡ report_draft_dispatched → Move s t e
  expires : s ≡ pending → t ≡ expired → e ≡ report_draft_expired → Move s t e
  ends :
      (f : FinalStatus) → accepts s f ≡ true → t ≡ final_status f → e ≡ final_event f → Move s t e

-- One row is moved, and an event for it is staged.
pub record Update (id : ℕ) (db db' : ProviderDb) : Type 0 where
  pub now : ℕ
  pub row : Attempt
  pub write : Attempt → Attempt
  pub event : EventType
  pub payload : EventPayload
  pub found : get_attempt id db.attempts ≡ some row
  pub keeps_id : (a : Attempt) → (write a).operation_id ≡ a.operation_id
  pub keeps_task : (write row).task_id ≡ row.task_id
  pub move : Move row.status (write row).status event
  pub about : payload.operation_id ≡ id
  pub written :
      db'
      ≡ audit now row event payload (record db { attempts = update_attempt id write db.attempts })

pub record Reservation (now task_id id limit timeout : ℕ) (db db' : ProviderDb) : Type 0 where
  pub new : get_attempt id db.attempts ≡ none
  pub room : charged_count task_id (with_expired task_id now db).attempts < limit
  pub written :
      let flushed = with_expired task_id now db in
      let a = new_attempt task_id id now timeout in
      db'
      ≡ audit now a report_draft_reserved
          (operation_only id)
          (record flushed { attempts = a ∷ flushed.attempts })

pub reserve-effect :
    (now task_id id limit timeout : ℕ) (db : ProviderDb)
    → ((reserve now task_id id limit timeout db).1 ≡ db)
      ⊎ Reservation now task_id id limit timeout db (reserve now task_id id limit timeout db).1
unfolding reserve
reserve-effect now task_id id limit timeout db = elim (Bool-cases (elem task_id db.tasks)) [
  | inr missing ↦ inl (ground arith)
  | inl known ↦ elim (Option-cases (get_attempt id db.attempts)) [
    | inr (a, used) ↦ inl (ground arith)
    | inl new ↦
        elim (Bool-cases
          (leb limit (charged_count task_id (with_expired task_id now db).attempts))) [
            | inl full ↦ inl (ground arith)
            | inr room ↦ inr (record { new = new; room = ground arith; written = ground arith })
          ]
  ]
]

pending_of : (s : AttemptStatus) → is_pending s ≡ true → s ≡ pending
pending_of s h = ground arith

pub lock_attempt-found :
    (id : ℕ) (db : ProviderDb) (a : Attempt)
    → lock_attempt id db ≡ ok a
    → get_attempt id db.attempts ≡ some a
unfolding lock_attempt
lock_attempt-found id db a h = ground arith

dispatch_locked-effect :
    (now id : ℕ) (a : Attempt) (db : ProviderDb)
    → get_attempt id db.attempts ≡ some a
    → ((dispatch_locked now id a db).1 ≡ db) ⊎ Update id db (dispatch_locked now id a db).1
unfolding dispatch_locked
dispatch_locked-effect now id a db found = elim (Bool-cases (is_pending a.status)) [
  | inr moved ↦ inl (ground arith)
  | inl waiting ↦ elim (Bool-cases (leb a.expires_at now)) [
    | inl late ↦ inr (record {
      now = now;
      row = a;
      write = expire now;
      event = report_draft_expired;
      payload = operation_only id;
      found = found;
      keeps_id = λ r. refl;
      keeps_task = refl;
      move = expires (pending_of a.status waiting) refl refl;
      about = refl;
      written = ground arith;
    })
    | inr timely ↦ inr (record {
      now = now;
      row = a;
      write = λ r. record r { status = dispatched };
      event = report_draft_dispatched;
      payload = operation_only id;
      found = found;
      keeps_id = λ r. refl;
      keeps_task = refl;
      move = sends (pending_of a.status waiting) refl refl;
      about = refl;
      written = ground arith;
    })
  ]
]

pub dispatch-effect :
    (now id : ℕ) (db : ProviderDb)
    → ((dispatch now id db).1 ≡ db) ⊎ Update id db (dispatch now id db).1
unfolding dispatch
dispatch-effect now id db =
    elim (Result-cases (require_capability db.security provider_dispatch none)) [
      | inr (e, denied) ↦ inl (ground arith)
      | inl (s, granted) ↦ elim (Result-cases (lock_attempt id db)) [
        | inr (e, failed) ↦ inl (ground arith)
        | inl (a, locked) ↦
            rw (granted, locked, dispatch)
              (dispatch_locked-effect now id a db (lock_attempt-found id db a locked))
      ]
    ]

finish_locked-effect :
    (now id : ℕ) (status : FinalStatus) (reason : Option String) (payload : EventPayload)
    (a : Attempt) (db : ProviderDb)
    → get_attempt id db.attempts ≡ some a
    → payload.operation_id ≡ id
    → ((finish_locked now id status reason payload a db).1 ≡ db)
      ⊎ Update id db (finish_locked now id status reason payload a db).1
unfolding finish_locked
finish_locked-effect now id status reason payload a db found about =
    elim (Bool-cases (is_final a.status status)) [
      | inl already ↦ inl (ground arith)
      | inr open_still ↦ elim (Bool-cases (accepts a.status status)) [
        | inr conflict ↦ inl (ground arith)
        | inl accepted ↦ inr (record {
          now = now;
          row = a;
          write = λ r. record r {
            status = final_status status;
            finished_at = final_time now status;
            error_reason = reason;
          };
          event = final_event status;
          payload = payload;
          found = found;
          keeps_id = λ r. refl;
          keeps_task = refl;
          move = ends status accepted refl refl;
          about = about;
          written = ground arith;
        })
      ]
    ]

pub finish-effect :
    (now id : ℕ) (status : FinalStatus) (reason : Option String) (payload : Option EventPayload)
    (db : ProviderDb)
    → ((finish now id status reason payload db).1 ≡ db)
      ⊎ Update id db (finish now id status reason payload db).1
unfolding finish
finish-effect now id status reason payload db = elim (Result-cases (lock_attempt id db)) [
  | inr (e, failed) ↦ inl (ground arith)
  | inl (a, locked) ↦ elim (Bool-cases ((payload_or id payload).operation_id == id)) [
    | inr other ↦ inl (ground arith)
    | inl own ↦
        rw (locked, own, finish)
          (finish_locked-effect now id status reason (payload_or id payload) a db
            (lock_attempt-found id db a locked) ((==_iff _ _).0 own))
  ]
]

pub recover-effect :
    (now task_id id : ℕ) (db : ProviderDb)
    → ((recover now task_id id db).1 ≡ db) ⊎ Update id db (recover now task_id id db).1
unfolding recover
recover-effect now task_id id db = elim (Result-cases (lock_attempt id db)) [
  | inr (e, failed) ↦ inl (ground arith)
  | inl (a, locked) ↦ elim (Bool-cases (a.task_id == task_id)) [
    | inr other ↦ inl (ground arith)
    | inl own ↦ elim (Bool-cases (is_unknown a.status)) [
      | inl known ↦ inl (ground arith)
      | inr open_still ↦ elim (Bool-cases (not (is_dispatched a.status) || ltb now a.expires_at)) [
        | inl early ↦ inl (ground arith)
        | inr overdue ↦
            rw (locked, own, open_still, overdue, recover)
              (finish-effect now id uncertain (some "provider_outcome_unknown")
                (some (recovery_payload id)) db)
      ]
    ]
  ]
]
