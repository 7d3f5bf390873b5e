-- ===== src/Provider/Dispatch.antt =====
-- How often an operation is dispatched to the remote provider, as the audit events tell it: the
-- caller does the remote work only after `dispatch` returns.
use gnomon.Prelude.{
  ℕ, ◌+◌, ◌≤◌, ◌≡◌, inl, inr, refl, arith, Bool, true, false, ◌&&◌, Option, none, some, List, [],
  ◌∷◌, ◌==◌, ==_iff, Bool-cases, if◌then◌else◌,
}
use gnomon.Audit.Events.{EventType, ResearchEvent, report_draft_dispatched, stage}
use gnomon.Provider.Attempts.{
  AttemptStatus, Attempt, ProviderDb, is_pending, get_attempt, is_overdue, expiry_events,
}
use gnomon.Provider.Rows.{change, settle_overdue, get-cons, get-update, get-expire}
use gnomon.Provider.Service.{success, failure, uncertain}
use gnomon.Provider.Effects.{Move, sends, expires, ends, Update, Reservation}
use gnomon.Provider.Run.{Command, target, run, unchanged, updated, reserved, apply-Effect}

abbrev pub is_sent : EventType → Bool
is_sent report_draft_dispatched = true
is_sent _ = false

-- The dispatch events of an operation.
abbrev pub sent_count : ℕ → List ResearchEvent → ℕ
sent_count id [] = 0
sent_count id (e ∷ events) =
    (if is_sent e.event_type && e.payload.operation_id == id then 1 else 0) + sent_count id events

-- The dispatches that an operation may have had: none before it has left the pending status.
abbrev pub allowance : Option Attempt → ℕ
allowance none = 0
allowance (some a) = if is_pending a.status then 0 else 1

abbrev pub IsSentOnce : ProviderDb → Type 0
IsSentOnce db = (id : ℕ) → sent_count id db.events ≤ allowance (get_attempt id db.attempts)

sent-expiry :
    (id task_id now : ℕ) (rows : List Attempt) (events : List ResearchEvent)
    → sent_count id (expiry_events task_id now rows events) ≡ sent_count id events
unfolding expiry_events stage
sent-expiry id task_id now [] events = refl
sent-expiry id task_id now (a ∷ rows) events = elim (Bool-cases (is_overdue task_id now a)) [
  | inl overdue ↦ rw (overdue, sent-expiry id task_id now rows) (omega arith)
  | inr fresh ↦ rw (fresh, sent-expiry id task_id now rows)
]

allowance-expire :
    (task_id now : ℕ) (o : Option Attempt)
    → allowance o ≤ allowance (change (settle_overdue task_id now) o)
allowance-expire task_id now none = omega arith
allowance-expire task_id now (some a) = ground arith

-- A dispatch event comes from a pending attempt only, and no move leads back to pending.
move-sent :
    (s t : AttemptStatus) (e : EventType)
    → Move s t e
    → (is_pending t ≡ false) × (is_sent e ≡ true → is_pending s ≡ true)
move-sent s t e (sends p q r) = (ground arith, ground arith)
move-sent s t e (expires p q r) = (ground arith, ground arith)
move-sent s t e (ends success h q r) = (ground arith, ground arith)
move-sent s t e (ends failure h q r) = (ground arith, ground arith)
move-sent s t e (ends uncertain h q r) = (ground arith, ground arith)

Update-IsSentOnce :
    (id : ℕ) (db db' : ProviderDb) → Update id db db' → IsSentOnce db → IsSentOnce db'
unfolding stage
Update-IsSentOnce id db db' u once j =
    let (left, origin) = move-sent u.row.status (u.write u.row).status u.event u.move in
    let known = once j in
    let found = u.found in
    let about = u.about in
    let key = get-update id j u.write db.attempts u.keeps_id in
    rw (u.written, key)
      (elim (Bool-cases (id == j)) [
        | inl own ↦
            let same = (==_iff id j).0 own in
            let here : get_attempt j db.attempts ≡ some u.row = rw (← same) found in
            let before : sent_count j db.events ≤ allowance (some u.row) = rw here at known in
            rw (own, here)
              (elim (Bool-cases (is_sent u.event)) [
                | inl sending ↦ let waiting = origin sending in ground arith
                | inr silent ↦ ground arith
              ])
        | inr other ↦ ground arith
      ])

new_is_unsent :
    (id j : ℕ) (db : ProviderDb)
    → id ≡ j
    → get_attempt id db.attempts ≡ none
    → sent_count j db.events ≤ allowance (get_attempt j db.attempts)
    → sent_count j db.events ≡ 0
new_is_unsent id j db same new known =
    let here : get_attempt j db.attempts ≡ none = rw (← same) new in
    let bound : sent_count j db.events ≤ 0 = rw here at known in omega arith

Reservation-IsSentOnce :
    (now task_id id limit timeout : ℕ) (db db' : ProviderDb)
    → Reservation now task_id id limit timeout db db'
    → IsSentOnce db
    → IsSentOnce db'
unfolding stage
Reservation-IsSentOnce now task_id id limit timeout db db' r once j =
    let known = once j in
    let new = r.new in
    let quiet = sent-expiry j task_id now db.attempts db.events in
    let kept = get-expire j task_id now db.attempts in
    let more = allowance-expire task_id now (get_attempt j db.attempts) in
    rw (r.written, get-cons)
      (elim (Bool-cases (id == j)) [
        | inl own ↦
            let same = (==_iff id j).0 own in
            let none_sent : sent_count j db.events ≡ 0 = new_is_unsent id j db same new known in
            rw own (omega arith)
        | inr other ↦ rw (other, kept) (omega arith)
      ])

-- Whatever calls are made, in whatever order, no operation is dispatched twice: from a database
-- where each operation has at most the dispatches that its attempt allows (none, unless the
-- attempt has left the pending status, and then one), to a database that is so again.
pub run-IsSentOnce :
    (limit : ℕ) (commands : List Command) (db : ProviderDb)
    → IsSentOnce db
    → IsSentOnce (run limit commands db)
unfolding run
run-IsSentOnce limit [] db once = once
run-IsSentOnce limit (c ∷ commands) db once =
    run-IsSentOnce limit commands _ (elim (apply-Effect limit c db) [
      | unchanged same ↦ rw same once
      | updated u ↦ Update-IsSentOnce (target c) db _ u once
      | reserved now t timeout r ↦ Reservation-IsSentOnce now t (target c) limit timeout db _ r once
    ])
