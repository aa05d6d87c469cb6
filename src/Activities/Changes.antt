-- ===== src/Activities/Changes.antt =====
-- `update`, `reassign`, `delete` and `scan_due_reminders` of activity_service.py.
use seraphim.Common.{
  ℕ, Bool, false, not, ◌&&◌, Option, none, some, List, [], ◌∷◌, ◌++◌, leb, length, is_some,
  if◌then◌else◌,
}
use seraphim.Common.Table.{Table, find, remove}
use seraphim.Common.Text.{Text}
use seraphim.Models.{Db, Activity, ActivityStatus, AuditAction, Outbox}
use seraphim.Session.{
  Fault, Result, ok, err, Tx, pure, lift, gets, or_raise, raise_unless, ◌>>=◌, ◌>>◌, modify, commit,
}
use seraphim.Activities.{
  activity_types, activity_priorities, among, assignable, targetable, due_ok, is_running,
  same_status, snapshot, add_audit, put_activity, get_detail, apply_status_transition,
}

-- The fields of a partial update. `none` is a field that was not sent; for the fields that cannot be
-- cleared it is also a null. `some none` clears the field.
pub record ActivityUpdate : Type 0 where
  pub activity_type : Option Text
  pub subject : Option Text
  pub details : Option (Option Text)
  pub activity_date : Option ℕ
  pub due_date : Option (Option ℕ)
  pub priority : Option Text
  pub target_contact_id : Option (Option ℕ)
  pub status : Option ActivityStatus

abbrev pub and_then {ℓ} : {A B : Type ℓ} → Result A → (A → Result B) → Result B
and_then (ok a) f = f a
and_then (err e) f = err e

abbrev pub set_type : Option Text → Activity → Result Activity
set_type none a = ok a
set_type (some text) a =
    if among text activity_types
    then ok (record a { activity_type = text })
    else err Fault.invalid_activity_type

abbrev or_else {ℓ} : {A : Type ℓ} → Option A → A → A
or_else none a = a
or_else (some b) a = b

abbrev pub set_due : Option (Option ℕ) → Activity → Activity
set_due none a = a
set_due (some due) a = record a { due_date = due; reminder_sent_at = none }

-- Subject, details and dates.
abbrev pub set_plain : ActivityUpdate → Activity → Activity
set_plain data_ a = set_due data_.due_date (record a {
  subject = or_else data_.subject a.subject;
  details = or_else data_.details a.details;
  activity_date = or_else data_.activity_date a.activity_date;
})

abbrev pub set_priority : Option Text → Activity → Result Activity
set_priority none a = ok a
set_priority (some text) a =
    if among text activity_priorities
    then ok (record a { priority = text })
    else err Fault.invalid_priority

abbrev pub set_target : (Option ℕ → Bool) → Option (Option ℕ) → Activity → Result Activity
set_target known none a = ok a
set_target known (some target) a =
    if known target then ok (record a { target_contact_id = target }) else err Fault.target_deleted

abbrev pub set_status : ℕ → Bool → Option ActivityStatus → Activity → Result Activity
set_status now is_admin none a = ok a
set_status now is_admin (some new) a = apply_status_transition now is_admin new a

abbrev pub checked : ℕ → Activity → Result Activity
checked now a =
    if due_ok a.due_date a.activity_date
    then ok (record a { updated_at = now })
    else err Fault.due_before_start

-- The fields that were sent, in the order of the source, and the check across fields.
unfoldable pub apply_update :
    ℕ → Bool → (Option ℕ → Bool) → ActivityUpdate → Activity → Result Activity
apply_update now is_admin known data_ a0 = and_then (set_type data_.activity_type a0) λ a1.
    and_then (set_priority data_.priority (set_plain data_ a1)) λ a2.
      and_then (set_target known data_.target_contact_id a2)
        λ a3. and_then (set_status now is_admin data_.status a3) λ a4. checked now a4

-- The second audit row, where the status changed.
abbrev pub audit_status : ℕ → ℕ → ActivityStatus → ActivityStatus → Db → Db
audit_status actor_id key old new db =
    if same_status old new
    then db
    else add_audit actor_id (AuditAction.status_change old new) key none none db

unfoldable pub update : ℕ → ℕ → ActivityUpdate → ℕ → Bool → Tx Activity
unfolding apply_update get_detail
update now activity_id data_ actor_id is_admin = do
  row ← gets (λ db. find activity_id db.activities)
  a ← or_raise Fault.activity_not_found row
  known ← gets targetable
  a' ← lift (apply_update now is_admin known data_ a)
  modify (put_activity activity_id a')
  modify
      (add_audit actor_id AuditAction.update activity_id (some (snapshot a)) (some (snapshot a')))
  modify (audit_status actor_id activity_id a.status a'.status)
  commit
  get_detail activity_id

abbrev pub reassigned : ℕ → Option ℕ → Activity → Activity
reassigned now assignee_user_id a = record a {
  assignee_user_id = assignee_user_id;
  updated_at = now;
}

unfoldable pub reassign : ℕ → ℕ → Option ℕ → ℕ → Tx Activity
unfolding get_detail
reassign now activity_id assignee_user_id actor_id = do
  row ← gets (λ db. find activity_id db.activities)
  a ← or_raise Fault.activity_not_found row
  assignee ← gets (λ db. assignable db assignee_user_id)
  raise_unless assignee Fault.assignee_inactive
  let a' = reassigned now assignee_user_id a
  modify (put_activity activity_id a')
  modify
      (add_audit actor_id AuditAction.reassign activity_id (some (snapshot a)) (some (snapshot a')))
  commit
  get_detail activity_id

unfoldable pub delete : ℕ → ℕ → Tx (Unit {0})
delete activity_id actor_id = do
  row ← gets (λ db. find activity_id db.activities)
  a ← or_raise Fault.activity_not_found row
  modify (λ db. record db { activities = remove activity_id db.activities })
  modify (add_audit actor_id AuditAction.delete activity_id (some (snapshot a)) none)
  commit

abbrev past_due : ℕ → Option ℕ → Bool
past_due now none = false
past_due now (some due) = leb due now

-- The WHERE clauses of the reminder scan.
abbrev pub is_due : ℕ → Activity → Bool
is_due now a =
    past_due now a.due_date
    && is_running a.status
    && not (is_some a.reminder_sent_at)
    && is_some a.assignee_user_id

abbrev pub reminder : ℕ → ℕ → Activity → Outbox
reminder now key a = record {
  run_at = now;
  activity_id = key;
  assignee_user_id = a.assignee_user_id;
  subject = a.subject;
  due_date = a.due_date;
  target_contact_id = a.target_contact_id;
}

-- The outbox rows of the due activities, and the activities marked as reminded.
unfoldable pub reminders : ℕ → Table Activity → List Outbox
reminders now [] = []
reminders now ((key, a) ∷ rows) =
    let rest = reminders now rows in if is_due now a then reminder now key a ∷ rest else rest

abbrev pub mark_reminded : ℕ → Activity → Activity
mark_reminded now a = if is_due now a then record a { reminder_sent_at = some now } else a

unfoldable pub reminded : ℕ → Table Activity → Table Activity
reminded now [] = []
reminded now ((key, a) ∷ rows) = (key, mark_reminded now a) ∷ reminded now rows

unfoldable pub scan_due_reminders : ℕ → Tx ℕ
unfolding reminders reminded
scan_due_reminders now = do
  rows ← gets (λ db. reminders now db.activities)
  modify (λ db. record db { activities = reminded now db.activities; outbox = db.outbox ++ rows })
  commit
  pure (length rows)
