-- ===== src/Review.antt =====
-- backend/app/services/task_service.py, class TaskService: the volunteers' actions on a task. One
-- function for each method; a request runs it by `request`. The row lock makes the requests on one
-- task run one after the other.
pub mod Queue
pub mod Next
pub mod Outcomes
pub mod Skippers
pub mod Approving
pub mod Errors
pub mod Assign
pub mod Open
pub mod Steps
use seraphim.Common.{
  ℕ, ◌+◌, ◌≡◌, Bool, true, false, not, ◌&&◌, ◌||◌, Option, none, some, List, [], ◌∷◌, ◌++◌, ltb,
  leb, ◌==◌, where_, any, count, is_some, if◌then◌else◌,
}
use seraphim.Common.Table.{find, put, fresh}
use seraphim.Common.Text.{Text, is_empty}
use seraphim.Models.{Db, Task, TaskAction, TaskStatus, ActionKind, Detection, PitStatus, PitQueue}
use seraphim.Session.{
  Fault, Result, Tx, pure, raise, lift, gets, or_raise, ◌>>=◌, ◌>>◌, modify, commit, rollback,
  raise_unless, one_or_none,
}
use seraphim.Attendance.{ReviewWorld, member_name, log_attendance, update_volunteer_stats}

-- An action of the volunteer on the task.
abbrev pub acted : ℕ → ℕ → TaskAction → Bool
acted task_id volunteer_id a = a.task_id == task_id && a.volunteer_id == volunteer_id

-- The kinds under the partial unique index uq_task_action_approval.
abbrev pub is_approval : ActionKind → Bool
is_approval ActionKind.confirm = true
is_approval ActionKind.edit = true
is_approval ActionKind.add = true
is_approval _ = false

abbrev pub is_skip : ActionKind → Bool
is_skip ActionKind.skip = true
is_skip _ = false

abbrev pub is_override : ActionKind → Bool
is_override ActionKind.admin_override = true
is_override _ = false

abbrev pub approval_by : ℕ → ℕ → TaskAction → Bool
approval_by task_id volunteer_id a = acted task_id volunteer_id a && is_approval a.action

abbrev pub approval_on : ℕ → TaskAction → Bool
approval_on task_id a = a.task_id == task_id && is_approval a.action

abbrev pub skip_by : ℕ → ℕ → TaskAction → Bool
skip_by task_id volunteer_id a = acted task_id volunteer_id a && is_skip a.action

abbrev pub skip_on : ℕ → TaskAction → Bool
skip_on task_id a = a.task_id == task_id && is_skip a.action

-- `task.status in ("pending", "skipped")`.
abbrev pub is_open : TaskStatus → Bool
is_open TaskStatus.pending = true
is_open TaskStatus.skipped = true
is_open _ = false

abbrev pub new_action : ℕ → ℕ → ActionKind → Option Text → TaskAction
new_action task_id volunteer_id kind reason = record {
  task_id = task_id;
  volunteer_id = volunteer_id;
  action = kind;
  reason = reason;
}

abbrev pub add_action : TaskAction → Db → Db
add_action a db = record db { actions = db.actions ++ a ∷ [] }

abbrev pub set_task : ℕ → Task → Db → Db
set_task task_id task db = record db { tasks = put task_id task db.tasks }

abbrev pub set_detection : ℕ → Detection → Db → Db
set_detection key d db = record db { detections = put key d db.detections }

-- The checks that confirm, edit and add begin with. A volunteer with two actions on the task, two
-- skips say, makes the query for the existing action raise.
unfoldable pub open_task : ℕ → ℕ → Tx Task
open_task task_id volunteer_id = do
  row ← gets (λ db. find task_id db.tasks)
  task ← or_raise Fault.task_not_found row
  raise_unless (is_open task.status) Fault.task_not_pending
  mine ← gets (λ db. where_ (acted task_id volunteer_id) db.actions)
  existing ← lift (one_or_none mine)
  raise_unless (not (is_some existing)) Fault.already_acted
  pure task

-- `detection.matched_name = f"member:{member_id}"`, and for an added face `is_enrolled`.
abbrev assigned : ActionKind → ℕ → Detection → Detection
assigned ActionKind.add member_id d = record d {
  matched_name = some (member_name member_id);
  is_enrolled = true;
}
assigned _ member_id d = record d { matched_name = some (member_name member_id) }

abbrev assign_found : ActionKind → ℕ → ℕ → Option Detection → Db → Db
assign_found kind member_id key none db = db
assign_found kind member_id key (some d) db = set_detection key (assigned kind member_id d) db

-- A confirmation leaves the detection as it is.
unfoldable pub assign_member : ActionKind → Option ℕ → ℕ → Db → Db
assign_member kind none key db = db
assign_member kind (some member_id) key db =
    assign_found kind member_id key (find key db.detections) db

abbrev pub approved : Task → Task
approved task = record task {
  current_approvals = task.current_approvals + 1;
  status =
      if leb task.required_approvals (task.current_approvals + 1)
      then TaskStatus.resolved
      else TaskStatus.pending;
}

-- Recording the action, assigning the member, counting the approval and setting the status.
unfoldable pub record_approval : ActionKind → ℕ → ℕ → Option ℕ → Task → Db → Db
unfolding assign_member
record_approval kind task_id volunteer_id member task db = set_task task_id (approved task) (
    assign_member kind member task.detection_id
      (add_action (new_action task_id volunteer_id kind none) db))

-- The commit under the unique index: a second approval of the volunteer is rolled back.
commit_approval : ℕ → ℕ → Tx (Unit {0})
commit_approval task_id volunteer_id = do
  mine ← gets (λ db. count (approval_by task_id volunteer_id) db.actions)
  if leb mine 1 then commit else (do rollback; raise Fault.already_acted)

-- What confirm, edit and add end with.
unfoldable pub resolve : ReviewWorld → ℕ → ActionKind → ℕ → Task → Tx (Unit {0})
resolve w month kind volunteer_id task =
    if leb task.required_approvals (task.current_approvals + 1)
    then (do log_attendance w task.detection_id; update_volunteer_stats month volunteer_id kind)
    else pure tt

unfoldable pub approve : ReviewWorld → ℕ → ActionKind → ℕ → ℕ → Option ℕ → Task → Tx (Unit {0})
unfolding record_approval resolve commit_approval
approve w month kind task_id volunteer_id member task = do
  modify (record_approval kind task_id volunteer_id member task)
  resolve w month kind volunteer_id task
  commit_approval task_id volunteer_id

unfoldable pub confirm_task : ReviewWorld → ℕ → ℕ → ℕ → Tx (Unit {0})
unfolding open_task approve
confirm_task w month task_id volunteer_id = do
  task ← open_task task_id volunteer_id
  approve w month ActionKind.confirm task_id volunteer_id none task

-- `_require_member`.
abbrev require_member : ℕ → Tx (Unit {0})
require_member member_id = do
  member ← gets (λ db. find member_id db.contacts)
  raise_unless (is_some member) Fault.member_not_found

unfoldable pub edit_task : ReviewWorld → ℕ → ℕ → ℕ → ℕ → Tx (Unit {0})
unfolding open_task approve
edit_task w month task_id volunteer_id member_id = do
  task ← open_task task_id volunteer_id
  require_member member_id
  approve w month ActionKind.edit task_id volunteer_id (some member_id) task

unfoldable pub add_task : ReviewWorld → ℕ → ℕ → ℕ → ℕ → Tx (Unit {0})
unfolding open_task approve
add_task w month task_id volunteer_id member_id = do
  task ← open_task task_id volunteer_id
  require_member member_id
  approve w month ActionKind.add task_id volunteer_id (some member_id) task

-- The volunteers of the skips of a task, each once: COUNT(DISTINCT volunteer_id).
abbrev pub seen_skip : ℕ → ℕ → List TaskAction → Bool
seen_skip task_id volunteer_id actions = any (skip_by task_id volunteer_id) actions

unfoldable pub unique_skippers : ℕ → List TaskAction → ℕ
unique_skippers task_id [] = 0
unique_skippers task_id (a ∷ actions) =
    (if skip_on task_id a && not (seen_skip task_id a.volunteer_id actions) then 1 else 0)
    + unique_skippers task_id actions

-- `if reason:`
abbrev with_reason : Option Text → List Text → List Text
with_reason none reasons = reasons
with_reason (some reason) reasons = if is_empty reason then reasons else reasons ++ reason ∷ []

-- Four skips by two volunteers send the task to the pit; else it is pending again, whatever its
-- status was.
abbrev pub skipped_task : Option Text → Bool → Task → Task
skipped_task reason to_pit task = record task {
  skip_count = task.skip_count + 1;
  skip_reasons = with_reason reason task.skip_reasons;
  status = if to_pit then TaskStatus.pit else TaskStatus.pending;
  pit_status = if to_pit then some PitStatus.awaiting else task.pit_status;
}

abbrev pub new_pit : ℕ → PitQueue
new_pit task_id = record { task_id = task_id; admin_action = none; resolved_at = none }

abbrev pub to_pit_queue : ℕ → Bool → Db → Db
to_pit_queue task_id false db = db
to_pit_queue task_id true db = record db {
  pit_queue = put (fresh db.pit_queue) (new_pit task_id) db.pit_queue;
}

abbrev pub goes_to_pit : ℕ → Task → List TaskAction → Bool
goes_to_pit task_id task actions =
    leb 4 (task.skip_count + 1) && leb 2 (unique_skippers task_id actions)

-- The mutations of a skip: the action is flushed before the skippers are counted.
unfoldable pub record_skip : ℕ → ℕ → Option Text → Task → Db → Db
record_skip task_id volunteer_id reason task db =
    let flushed = add_action (new_action task_id volunteer_id ActionKind.skip reason) db in
    let pit = goes_to_pit task_id task flushed.actions in
    to_pit_queue task_id pit (set_task task_id (skipped_task reason pit task) flushed)

unfoldable pub skip_task : ℕ → ℕ → Option Text → Tx (Unit {0})
unfolding record_skip
skip_task task_id volunteer_id reason = do
  row ← gets (λ db. find task_id db.tasks)
  task ← or_raise Fault.task_not_found row
  mine ← gets (λ db. count (skip_by task_id volunteer_id) db.actions)
  raise_unless (not (leb 2 mine)) Fault.skipped_twice
  modify (record_skip task_id volunteer_id reason task)
  commit

-- Recording the override and setting the status.
unfoldable pub record_override : ℕ → ℕ → Task → Db → Db
record_override task_id admin_id task db =
    set_task task_id (record task { status = TaskStatus.resolved })
      (add_action (new_action task_id admin_id ActionKind.admin_override none) db)

unfoldable pub admin_override : ReviewWorld → ℕ → ℕ → Tx (Unit {0})
unfolding record_override
admin_override w task_id admin_id = do
  row ← gets (λ db. find task_id db.tasks)
  task ← or_raise Fault.task_not_found row
  modify (record_override task_id admin_id task)
  log_attendance w task.detection_id
  commit
