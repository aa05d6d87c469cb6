-- ===== src/Tests/FollowUps.antt =====
-- Follow-up activities.
use seraphim.Common.{ℕ, ◌≡◌, true, false, none, some, List, [], ◌∷◌, count}
use seraphim.Common.Table.{find}
use seraphim.Common.Text.{codes}
use seraphim.Models.{Db, Activity, ActivityStatus}
use seraphim.Session.{ok, request}
use seraphim.Activities.{ActivityCreate}
use seraphim.Activities.Changes.{ActivityUpdate, scan_due_reminders}
use seraphim.Activities.Rows.{Sound}
use seraphim.Activities.Serve.{ActivityRequest, serve_activities, serve_activities-Sound}
use seraphim.Activities.Reminders.{due_row, scan_due_reminders-twice}
use seraphim.Requests.{empty}

abbrev call_visitor : ActivityCreate
call_visitor = record {
  activity_type = codes "call";
  subject = codes "Welcome";
  details = none;
  activity_date = none;
  due_date = some 2000;
  status = none;
  priority = none;
  assignee_user_id = some 3;
  target_contact_id = none;
}

abbrev begin_ : ActivityUpdate
begin_ = record {
  activity_type = none;
  subject = none;
  details = none;
  activity_date = none;
  due_date = none;
  priority = none;
  target_contact_id = none;
  status = some ActivityStatus.in_progress;
}

abbrev staffed : Db
staffed = record empty { users = (3, record { is_active = true; is_admin = false }) ∷ [] }

abbrev week : List (ℕ × ActivityRequest)
week =
    (1000, ActivityRequest.create_ call_visitor 3)
    ∷ (2500, ActivityRequest.remind)
    ∷ (2600, ActivityRequest.update_ 1 begin_ 3 false)
    ∷ (
      2700,
      ActivityRequest.update_ 1 (record begin_ { status = some ActivityStatus.completed }) 3 false,
    )
    ∷ []

empty-Sound : Sound empty.activities
unfolding find
empty-Sound = record { sound = λ i a e. cc }

serve_activities-Sound_example : Sound (serve_activities week staffed).activities
serve_activities-Sound_example = serve_activities-Sound week staffed empty-Sound

scan_due_reminders-twice_example :
    let once = request (scan_due_reminders 2500) (serve_activities week staffed) in
    (once.0 ≡ ok (count (due_row 2500) (serve_activities week staffed).activities))
    × (request (scan_due_reminders 2500) once.1 ≡ (ok 0, once.1))
scan_due_reminders-twice_example = scan_due_reminders-twice 2500 (serve_activities week staffed)

abbrev done : Activity
done = record {
  activity_type = codes "call";
  subject = codes "Welcome";
  details = none;
  activity_date = 1000;
  due_date = none;
  status = ActivityStatus.completed;
  priority = codes "normal";
  assignee_user_id = none;
  target_contact_id = none;
  created_by_id = none;
  completed_at = some 1500;
  reminder_sent_at = none;
  updated_at = 1500;
}
