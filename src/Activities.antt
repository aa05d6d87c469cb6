-- ===== src/Activities.antt =====
-- backend/app/services/activity_service.py, class ActivityService: the assignable follow-up
-- activities. The display names that `get_detail` joins to an activity are left out.
pub mod Changes
pub mod Rows
pub mod Reminders
pub mod Serve
use seraphim.Common.{
  ℕ, ◌+◌, suc, Bool, true, false, not, ◌&&◌, Option, none, some, List, [], ◌∷◌, ◌++◌, ltb, leb, any,
  is_some, if◌then◌else◌,
}
use seraphim.Common.Table.{Table, find, put, fresh, remove}
use seraphim.Common.Text.{Text, codes, text_eq, is_empty}
use seraphim.Models.{
  Db, Activity, ActivityStatus, AuditAction, AuditLog, Contact, Outbox, Snapshot, User,
}
use seraphim.Session.{
  Fault, Result, ok, err, Tx, pure, lift, gets, or_raise, raise_unless, ◌>>=◌, ◌>>◌, modify, commit,
}

-- ACTIVITY_TYPES and ACTIVITY_PRIORITIES.
abbrev pub activity_types : List Text
activity_types =
    codes "call"
    ∷ codes "visit"
    ∷ codes "follow_up"
    ∷ codes "meeting"
    ∷ codes "email"
    ∷ codes "note"
    ∷ codes "other"
    ∷ []

abbrev pub activity_priorities : List Text
activity_priorities = codes "low" ∷ codes "normal" ∷ codes "high" ∷ codes "urgent" ∷ []

abbrev pub among : Text → List Text → Bool
among text words = any (text_eq text) words

-- `status in ACTIVITY_STATUSES`.
abbrev pub is_listed : ActivityStatus → Bool
is_listed (ActivityStatus.other text) = false
is_listed _ = true

abbrev pub is_completed : ActivityStatus → Bool
is_completed ActivityStatus.completed = true
is_completed _ = false

-- The statuses of an activity that is still to be done.
abbrev pub is_running : ActivityStatus → Bool
is_running ActivityStatus.scheduled = true
is_running ActivityStatus.in_progress = true
is_running _ = false

unfoldable pub same_status : ActivityStatus → ActivityStatus → Bool
same_status ActivityStatus.scheduled ActivityStatus.scheduled = true
same_status ActivityStatus.in_progress ActivityStatus.in_progress = true
same_status ActivityStatus.completed ActivityStatus.completed = true
same_status ActivityStatus.cancelled ActivityStatus.cancelled = true
same_status (ActivityStatus.other s) (ActivityStatus.other t) = text_eq s t
same_status _ _ = false

-- _FORWARD_TRANSITIONS.
abbrev pub is_forward : ActivityStatus → ActivityStatus → Bool
is_forward ActivityStatus.scheduled ActivityStatus.in_progress = true
is_forward ActivityStatus.scheduled ActivityStatus.cancelled = true
is_forward ActivityStatus.in_progress ActivityStatus.completed = true
is_forward ActivityStatus.in_progress ActivityStatus.cancelled = true
is_forward _ _ = false

-- _REOPEN_TRANSITIONS.
abbrev pub is_reopen : ActivityStatus → ActivityStatus → Bool
is_reopen ActivityStatus.completed ActivityStatus.scheduled = true
is_reopen ActivityStatus.cancelled ActivityStatus.scheduled = true
is_reopen _ _ = false

-- `_apply_status_transition`; `is_admin` is `role == "admin"`.
unfoldable pub apply_status_transition : ℕ → Bool → ActivityStatus → Activity → Result Activity
unfolding same_status
apply_status_transition now is_admin new a =
    if same_status a.status new
    then ok a
    else if is_forward a.status new
    then ok (record a {
      completed_at = if is_completed new then some now else a.completed_at;
      status = new;
    })
    else if is_reopen a.status new
    then (if is_admin
        then ok (record a { completed_at = none; status = new })
        else err Fault.reopen_needs_admin)
    else err Fault.invalid_transition

abbrev pub snapshot : Activity → Snapshot
snapshot a = record {
  activity_type = a.activity_type;
  subject = a.subject;
  status = a.status;
  priority = a.priority;
  assignee_user_id = a.assignee_user_id;
  target_contact_id = a.target_contact_id;
  due_date = a.due_date;
  activity_date = a.activity_date;
  completed_at = a.completed_at;
}

-- `record` of the audit service: a row in the same session.
abbrev pub add_audit : ℕ → AuditAction → ℕ → Option Snapshot → Option Snapshot → Db → Db
add_audit actor_id action entity_id before after db =
    let row : AuditLog = record {
      actor_id = actor_id;
      action = action;
      entity_id = entity_id;
      before = before;
      after = after;
    } in
    record db { audit = db.audit ++ row ∷ [] }

abbrev pub put_activity : ℕ → Activity → Db → Db
put_activity key a db = record db { activities = put key a db.activities }

abbrev active_user : Option User → Bool
active_user none = false
active_user (some user) = user.is_active

-- No id, or the id of an active user.
abbrev pub assignable : Db → Option ℕ → Bool
assignable db none = true
assignable db (some id) = active_user (find id db.users)

abbrev not_deleted : Option Contact → Bool
not_deleted none = false
not_deleted (some contact) = not contact.is_deleted

abbrev pub targetable : Db → Option ℕ → Bool
targetable db none = true
targetable db (some id) = not_deleted (find id db.contacts)

-- `due_date` is none or not before `activity_date`.
abbrev pub due_ok : Option ℕ → ℕ → Bool
due_ok none activity_date = true
due_ok (some due) activity_date = not (ltb due activity_date)

unfoldable pub get_detail : ℕ → Tx Activity
get_detail activity_id = do
  row ← gets (λ db. find activity_id db.activities)
  or_raise Fault.activity_not_found row

-- The fields of a request. An empty status or priority counts as none.
pub record ActivityCreate : Type 0 where
  pub activity_type : Text
  pub subject : Text
  pub details : Option Text
  pub activity_date : Option ℕ
  pub due_date : Option ℕ
  pub status : Option ActivityStatus
  pub priority : Option Text
  pub assignee_user_id : Option ℕ
  pub target_contact_id : Option ℕ

abbrev pub or_scheduled : Option ActivityStatus → ActivityStatus
or_scheduled none = ActivityStatus.scheduled
or_scheduled (some (ActivityStatus.other [])) = ActivityStatus.scheduled
or_scheduled (some status) = status

abbrev or_normal : Option Text → Text
or_normal none = codes "normal"
or_normal (some []) = codes "normal"
or_normal (some (c ∷ priority)) = c ∷ priority

abbrev or_now : ℕ → Option ℕ → ℕ
or_now now none = now
or_now now (some at) = at

abbrev pub new_activity : ℕ → ActivityCreate → ℕ → Activity
new_activity now data_ actor_id = record {
  activity_type = data_.activity_type;
  subject = data_.subject;
  details = data_.details;
  activity_date = or_now now data_.activity_date;
  due_date = data_.due_date;
  status = or_scheduled data_.status;
  priority = or_normal data_.priority;
  assignee_user_id = data_.assignee_user_id;
  target_contact_id = data_.target_contact_id;
  created_by_id = some actor_id;
  completed_at = if is_completed (or_scheduled data_.status) then some now else none;
  reminder_sent_at = none;
  updated_at = now;
}

unfoldable pub create : ℕ → ActivityCreate → ℕ → Tx Activity
unfolding get_detail
create now data_ actor_id = do
  let a = new_activity now data_ actor_id
  raise_unless (among data_.activity_type activity_types) Fault.invalid_activity_type
  raise_unless (is_listed a.status) Fault.invalid_status
  raise_unless (among a.priority activity_priorities) Fault.invalid_priority
  assignee ← gets (λ db. assignable db data_.assignee_user_id)
  raise_unless assignee Fault.assignee_inactive
  target ← gets (λ db. targetable db data_.target_contact_id)
  raise_unless target Fault.target_deleted
  raise_unless (due_ok a.due_date a.activity_date) Fault.due_before_start
  key ← gets (λ db. fresh db.activities)
  modify (put_activity key a)
  modify (add_audit actor_id AuditAction.create key none (some (snapshot a)))
  commit
  get_detail key
