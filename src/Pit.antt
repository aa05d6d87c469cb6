-- ===== src/Pit.antt =====
-- backend/app/routers/pit.py: the admin's answers to the tasks in the pit, and the expiry of tasks
-- by the background worker of backend/app/services/queue_manager.py.
pub mod Attend
pub mod Steps
use seraphim.Common.{
  ℕ, Bool, true, false, Option, none, some, List, [], ◌∷◌, ltb, ◌&&◌, ◌==◌, where_, take,
  if◌then◌else◌,
}
use seraphim.Common.Table.{find, put}
use seraphim.Common.Text.{is_empty}
use seraphim.Models.{Db, Task, TaskStatus, PitStatus, PitAction, PitQueue, Detection, SampleSource}
use seraphim.Session.{
  Fault, Tx, pure, raise, lift, gets, or_raise, ◌>>=◌, ◌>>◌, modify, commit, one_or_none,
}
use seraphim.Enrollment.{World, Crop, enroll_contact_face}
use seraphim.Attendance.{member_name, add_participant, face_participant}
use seraphim.Review.{set_task, set_detection}
use seraphim.Review.Queue.{is_pending}

abbrev pub is_pit : TaskStatus → Bool
is_pit TaskStatus.pit = true
is_pit _ = false

abbrev in_pit : Option Task → Option Task
in_pit none = none
in_pit (some task) = if is_pit task.status then some task else none

-- `not task or task.status != "pit"` is a 404.
unfoldable pub pit_task : ℕ → Tx Task
pit_task task_id = do
  row ← gets (λ db. find task_id db.tasks)
  or_raise Fault.pit_task_not_found (in_pit row)

-- A detection whose image path is not empty.
abbrev with_image : Option Detection → Option Detection
with_image none = none
with_image (some d) = if is_empty d.image_path then none else some d

abbrev of_task : ℕ → ℕ × PitQueue → Bool
of_task task_id (i, p) = p.task_id == task_id

abbrev answer_row : PitAction → ℕ → Option (ℕ × PitQueue) → Db → Db
answer_row action now none db = db
answer_row action now (some (key, p)) db = record db {
  pit_queue =
      put key (record p { admin_action = some action; resolved_at = some now }) db.pit_queue;
}

-- The pit row of the task gets the answer; two rows make the query raise.
unfoldable pub answer : PitAction → ℕ → ℕ → Tx (Unit {0})
answer action now task_id = do
  rows ← gets (λ db. where_ (of_task task_id) db.pit_queue)
  found ← lift (one_or_none rows)
  modify (answer_row action now found)

abbrev pub answered : PitStatus → Task → Task
answered pit_status task = record task {
  pit_status = some pit_status;
  status = TaskStatus.resolved;
}

-- `delete_pit_task` and `mark_non_person`: alike but for the two words that they write.
close_pit : PitStatus → PitAction → ℕ → ℕ → Tx (Unit {0})
unfolding pit_task answer
close_pit pit_status action now task_id = do
  task ← pit_task task_id
  modify (set_task task_id (answered pit_status task))
  answer action now task_id
  commit

unfoldable pub delete_pit_task : ℕ → ℕ → Tx (Unit {0})
unfolding close_pit
delete_pit_task now task_id = close_pit PitStatus.deleted PitAction.delete now task_id

unfoldable pub mark_non_person : ℕ → ℕ → Tx (Unit {0})
unfolding close_pit
mark_non_person now task_id = close_pit PitStatus.non_person PitAction.non_person now task_id

-- What the disk and OpenCV gave for the image of a pit task.
pub data Image : Type 0 where
  missing undecodable : Image
  decoded : Crop → Image

abbrev decode : Image → Tx Crop
decode Image.missing = raise Fault.image_missing
decode Image.undecodable = raise Fault.image_undecodable
decode (Image.decoded crop) = pure crop

abbrev pub enrolled_detection : ℕ → Detection → Detection
enrolled_detection contact_id d = record d {
  matched_name = some (member_name contact_id);
  is_enrolled = true;
}

abbrev pub attend : ℕ → ℕ → Option ℕ → Db → Db
attend contact_id detection_id none db = db
attend contact_id detection_id (some event_id) db =
    add_participant (face_participant contact_id event_id detection_id) db

-- The mutations that follow the enrollment.
unfoldable pub record_enroll : ℕ → ℕ → Task → Detection → Db → Db
unfolding add_participant
record_enroll task_id contact_id task d db = attend contact_id task.detection_id d.event_id (
    set_detection task.detection_id (enrolled_detection contact_id d)
      (set_task task_id (answered PitStatus.enrolled task) db))

unfoldable pub enroll_pit_task : World → Image → ℕ → ℕ → ℕ → Tx (Unit {0})
unfolding pit_task answer record_enroll
enroll_pit_task world image now task_id contact_id = do
  task ← pit_task task_id
  row ← gets (λ db. find task.detection_id db.detections)
  d ← or_raise Fault.no_detection_image (with_image row)
  crop ← decode image
  enroll_contact_face world contact_id crop SampleSource.detection
  modify (record_enroll task_id contact_id task d)
  answer PitAction.enroll now task_id
  commit

-- `_process_expired_tasks`: at most fifty rows a run.
abbrev overdue : ℕ → ℕ × Task → Bool
overdue now (i, task) = is_pending task.status && ltb task.expiry_date now

expire_row : ℕ → Option Task → Db → Db
expire_row task_id none db = db
expire_row task_id (some task) db =
    set_task task_id (record task { status = TaskStatus.expired }) db

expire_rows : List (ℕ × Task) → Db → Db
unfolding expire_row
expire_rows [] db = db
expire_rows ((task_id, task) ∷ rows) db =
    expire_rows rows (expire_row task_id (find task_id db.tasks) db)

expire_all : List (ℕ × Task) → Tx Bool
unfolding expire_rows
expire_all [] = pure false
expire_all (row ∷ rows) = do modify (expire_rows (row ∷ rows)); commit; pure true

unfoldable pub process_expired_tasks : ℕ → Tx Bool
unfolding expire_all
process_expired_tasks now = do
  rows ← gets (λ db. take 50 (where_ (overdue now) db.tasks))
  expire_all rows
