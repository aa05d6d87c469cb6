-- ===== src/Invariants/TaskRows.antt =====
-- An invariant of the tasks and their actions alone: what each operation does to these two tables.
use seraphim.Common.{ℕ, ◌≡◌, true, not, Option, none, some, List, [], ◌∷◌, ◌++◌, count, leb}
use seraphim.Common.Table.{Table, find, put, fresh}
use seraphim.Common.Text.{Text}
use seraphim.Models.{Db, Task, TaskAction, TaskStatus, ActionKind, PitStatus, Tier}
use seraphim.Attendance.Frame.{AttendanceAside}
use seraphim.Review.{
  acted, is_approval, is_open, add_action, set_task, set_detection, skip_by, new_action, approved,
  skipped_task, goes_to_pit, record_approval, record_skip, record_override,
}
use seraphim.Review.Assign.{
  assign_member-SameRows, to_pit_queue-SameRows, add_participant-SameTasks,
}
use seraphim.Review.Steps.{ReviewSteps}
use seraphim.Pit.{answered, record_enroll, enrolled_detection}
use seraphim.Pit.Attend.{attend-SameTasks}
use seraphim.Pit.Steps.{PitSteps}
use seraphim.Pipeline.{new_task}
use seraphim.Pipeline.Steps.{PipelineSteps}
use seraphim.Requests.Serve.{Steps}

pub record TaskSteps (Q : Table Task → List TaskAction → Type 0) : Type 0 where
  pub approve :
      (kind : ActionKind) (i v : ℕ) (task : Task) (tasks : Table Task) (actions : List TaskAction)
      → is_approval kind ≡ true
      → is_open task.status ≡ true
      → find i tasks ≡ some task
      → count (acted i v) actions ≡ 0
      → Q tasks actions
      → Q (put i (approved task) tasks) (actions ++ new_action i v kind none ∷ [])
  pub skip :
      (i v : ℕ) (reason : Option Text) (task : Task) (tasks : Table Task)
      (actions : List TaskAction)
      → find i tasks ≡ some task
      → not (leb 2 (count (skip_by i v) actions)) ≡ true
      → Q tasks actions
      → let longer = actions ++ new_action i v ActionKind.skip reason ∷ [] in
        Q (put i (skipped_task reason (goes_to_pit i task longer) task) tasks) longer
  pub override :
      (i admin : ℕ) (task : Task) (tasks : Table Task) (actions : List TaskAction)
      → find i tasks ≡ some task
      → Q tasks actions
      → Q
          (put i (record task { status = TaskStatus.resolved }) tasks)
          (actions ++ new_action i admin ActionKind.admin_override none ∷ [])
  pub close :
      (i : ℕ) (pit_status : PitStatus) (task : Task) (tasks : Table Task)
      (actions : List TaskAction)
      → find i tasks ≡ some task
      → Q tasks actions
      → Q (put i (answered pit_status task) tasks) actions
  pub expire :
      (i : ℕ) (task : Task) (tasks : Table Task) (actions : List TaskAction)
      → find i tasks ≡ some task
      → Q tasks actions
      → Q (put i (record task { status = TaskStatus.expired }) tasks) actions
  pub insert :
      (now detection_id : ℕ) (tier : Tier) (tasks : Table Task) (actions : List TaskAction)
      → Q tasks actions
      → Q (put (fresh tasks) (new_task now detection_id tier) tasks) actions

module _ {Q : Table Task → List TaskAction → Type 0} (steps : TaskSteps Q) where
  abbrev OfRows : Db → Type 0
  OfRows db = Q db.tasks db.actions

  attendance : AttendanceAside OfRows
  attendance = record {
    enrollment = λ db subjects samples h. h;
    logs = λ db logs h. h;
    participant =
        λ p db h. let same = add_participant-SameTasks p db in rw same.tasks (rw same.actions h);
  }

  review : ReviewSteps OfRows
  review = record {
    attendance = attendance;
    score = λ kind v month db approval h. h;
    approve = λ kind i v member t db approval open_ row untouched h.
        unfold record_approval in
        let same =
          assign_member-SameRows kind member t.detection_id
            (add_action (new_action i v kind none) db) in
        rw same.tasks
          (rw same.actions (steps.approve kind i v t _ _ approval open_ row untouched h));
    skip = λ i v reason t db row few h.
        unfold record_skip in
        let flushed = add_action (new_action i v ActionKind.skip reason) db in
        let to_pit = goes_to_pit i t flushed.actions in
        let same =
          to_pit_queue-SameRows i to_pit (set_task i (skipped_task reason to_pit t) flushed) in
        rw same.tasks (rw same.actions (steps.skip i v reason t _ _ row few h));
    override = λ i admin t db row h. unfold record_override in steps.override i admin t _ _ row h;
  }

  pit : PitSteps OfRows
  pit = record {
    enrollment = λ db subjects samples h. h;
    rows = λ db rows h. h;
    close = λ i p t db row h. steps.close i p t _ _ row h;
    enroll = λ i c t d db row h.
        unfold record_enroll in
        let same = attend-SameTasks c t.detection_id d.event_id (
          set_detection t.detection_id (enrolled_detection c d)
            (set_task i (answered PitStatus.enrolled t) db)) in
        rw same.tasks (rw same.actions (steps.close i PitStatus.enrolled t _ _ row h));
    expire = λ i t db row h. steps.expire i t _ _ row h;
  }

  pipeline : PipelineSteps OfRows
  pipeline = record {
    detection = λ d db h. h;
    task = λ now key tier db h. steps.insert now key tier _ _ h;
    participant = attendance.participant;
  }

  pub of_rows : Steps OfRows
  of_rows = record { review = review; pit = pit; pipeline = pipeline }
