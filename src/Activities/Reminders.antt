-- ===== src/Activities/Reminders.antt =====
-- The reminder scan of activity_service.py, run once and run twice.
use seraphim.Common.{
  ℕ, ◌≡◌, refl, ap, ◌⊎◌, inl, inr, Bool-cases, Bool, true, false, [], ◌∷◌, ◌++◌, arith, count,
  length,
}
use mathlib.Core.List.{append-nil}
use seraphim.Common.Table.{Table}
use seraphim.Models.{Db, Activity, ActivityStatus}
use seraphim.Session.{Fault, ok, err, request, ◌>>=◌, pure}
use seraphim.Activities.{apply_status_transition, same_status, is_listed, is_running, is_reopen}
use seraphim.Activities.Changes.{is_due, reminders, reminded, mark_reminded, scan_due_reminders}

not_due_twice :
    (now later : ℕ) (a : Activity)
    → is_due now a ≡ true
    → is_due later (mark_reminded now a) ≡ false
not_due_twice now later a h = ground (arith, h)

-- The rows that are due at `later` but were not at `now`.
reminders-reminded : (now : ℕ) (rows : Table Activity) → reminders now (reminded now rows) ≡ []
unfolding reminders reminded
reminders-reminded now [] = refl
reminders-reminded now ((key, a) ∷ rows) = ground (arith, reminders-reminded now rows)

reminded-reminded :
    (now : ℕ) (rows : Table Activity) → reminded now (reminded now rows) ≡ reminded now rows
unfolding reminded
reminded-reminded now [] = refl
reminded-reminded now ((key, a) ∷ rows) = ground (arith, reminded-reminded now rows)

abbrev pub due_row : ℕ → ℕ × Activity → Bool
due_row now (key, a) = is_due now a

length-reminders :
    (now : ℕ) (rows : Table Activity) → length (reminders now rows) ≡ count (due_row now) rows
unfolding reminders count
length-reminders now [] = refl
length-reminders now ((key, a) ∷ rows) = ground (arith, length-reminders now rows)

abbrev scanned : ℕ → Db → Db
scanned now db = record db {
  activities = reminded now db.activities;
  outbox = db.outbox ++ reminders now db.activities;
}

scan-request :
    (now : ℕ) (db : Db)
    → request (scan_due_reminders now) db
      ≡ (ok (length (reminders now db.activities)), scanned now db)
unfolding request scan_due_reminders pure ◌>>=◌
scan-request now db = refl

-- A scan answers the number of the activities that are due (past their due date, still to be done,
-- assigned and not reminded yet); a second scan at the same time answers 0 and changes nothing.
pub scan_due_reminders-twice :
    (now : ℕ) (db : Db)
    → let once = request (scan_due_reminders now) db in
      (once.0 ≡ ok (count (due_row now) db.activities))
      × (request (scan_due_reminders now) once.1 ≡ (ok 0, once.1))
scan_due_reminders-twice now db = rw (scan-request now db) (
  ap ok (length-reminders now db.activities),
  rw (scan-request now (scanned now db)) (
      rw (reminders-reminded now db.activities) (
        rw (reminded-reminded now db.activities)
          (rw (append-nil (db.outbox ++ reminders now db.activities)) refl))),
)

-- Without the role admin, taking an activity whose status is completed or cancelled to another
-- status fails: the transition is a reopening that needs an admin, or it is invalid.
pub apply_status_transition-closed :
    (now : ℕ) (new : ActivityStatus) (a : Activity)
    → is_listed a.status ≡ true
    → is_running a.status ≡ false
    → same_status a.status new ≡ false
    → (apply_status_transition now false new a ≡ err Fault.reopen_needs_admin)
      ⊎ (apply_status_transition now false new a ≡ err Fault.invalid_transition)
unfolding apply_status_transition
apply_status_transition-closed now new a listed closed differs =
    elim (Bool-cases (is_reopen a.status new)) [
      | inl reopen ↦ inl (ground (arith, listed, closed, differs, reopen))
      | inr other ↦ inr (ground (arith, listed, closed, differs, other))
    ]
