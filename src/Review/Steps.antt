-- ===== src/Review/Steps.antt =====
-- What to show of an invariant so that every method of TaskService keeps it.
use seraphim.Common.{ℕ, ◌≡◌, refl, true, not, Option, none, some, count, leb}
use seraphim.Common.Table.{find}
use seraphim.Common.Text.{Text}
use seraphim.Models.{Db, Task, ActionKind}
use seraphim.Session.{Result, Session, commit}
use seraphim.Session.Keeps.{
  Keeps, Holds, keeps_rules, Keeps-modify, Keeps-bind, Keeps-commit, Keeps-if, Keeps-pure,
}
use seraphim.Session.Rules.{gets-then, or_raise-then, raise_unless-then, modify-then}
use seraphim.Attendance.{ReviewWorld, log_attendance, update_volunteer_stats, bump_stat}
use seraphim.Attendance.Frame.{AttendanceAside, log_attendance-Keeps}
use seraphim.Review.{
  is_approval, acted, skip_by, is_open, record_approval, resolve, commit_approval, approve,
  confirm_task, edit_task, add_task, skip_task, record_skip, admin_override, record_override,
}
use seraphim.Review.Open.{IsOpened, open_task-then, require_member-then}

pub record ReviewSteps (P : Db → Type 0) : Type 0 where
  pub attendance : AttendanceAside P
  pub score :
      (kind : ActionKind) (volunteer_id month : ℕ) (db : Db)
      → is_approval kind ≡ true
      → P db
      → P (record db { stats = bump_stat kind volunteer_id month db.stats })
  pub approve :
      (kind : ActionKind) (task_id volunteer_id : ℕ) (member : Option ℕ) (task : Task) (db : Db)
      → is_approval kind ≡ true
      → is_open task.status ≡ true
      → find task_id db.tasks ≡ some task
      → count (acted task_id volunteer_id) db.actions ≡ 0
      → P db
      → P (record_approval kind task_id volunteer_id member task db)
  pub skip :
      (task_id volunteer_id : ℕ) (reason : Option Text) (task : Task) (db : Db)
      → find task_id db.tasks ≡ some task
      → not (leb 2 (count (skip_by task_id volunteer_id) db.actions)) ≡ true
      → P db
      → P (record_skip task_id volunteer_id reason task db)
  pub override :
      (task_id admin_id : ℕ) (task : Task) (db : Db)
      → find task_id db.tasks ≡ some task
      → P db
      → P (record_override task_id admin_id task db)

module _ {P : Db → Type 0} (steps : ReviewSteps P) where
  abbrev Kept : Result (Unit {0}) × Session → Type 0
  Kept p = Holds P p.1

  score-Keeps :
      (month v : ℕ) (kind : ActionKind)
      → is_approval kind ≡ true
      → Keeps P (update_volunteer_stats month v kind)
  score-Keeps month v kind approval =
      unfold update_volunteer_stats in Keeps-modify _ λ db. steps.score kind v month db approval

  resolve-Keeps :
      (w : ReviewWorld) (month : ℕ) (kind : ActionKind) (v : ℕ) (task : Task)
      → is_approval kind ≡ true
      → Keeps P (resolve w month kind v task)
  resolve-Keeps w month kind v task approval =
      unfold resolve in
      Keeps-if _ _ _
        (Keeps-bind _ _ (log_attendance-Keeps steps.attendance w task.detection_id)
          (λ _. score-Keeps month v kind approval))
        (Keeps-pure tt)

  commit_approval-Keeps : (i v : ℕ) → Keeps P (commit_approval i v)
  commit_approval-Keeps i v = unfold commit_approval in search keeps_rules

  approve-Holds :
      (w : ReviewWorld) (month : ℕ) (kind : ActionKind) (i v : ℕ) (member : Option ℕ) (task : Task)
      (s : Session)
      → is_approval kind ≡ true
      → IsOpened i v s task
      → Holds P s
      → Holds P (approve w month kind i v member task s).1
  approve-Holds w month kind i v member task s approval o h =
      unfold approve in
      modify-then Kept (record_approval kind i v member task) _ s (
        (Keeps-bind (resolve w month kind v task) (λ _. commit_approval i v)
            (resolve-Keeps w month kind v task approval) (λ _. commit_approval-Keeps i v)).at
          (record s { work = record_approval kind i v member task s.work })
          (record {
            committed = h.committed;
            work =
                steps.approve kind i v member task s.work approval o.open_ o.row o.untouched h.work;
          }))

  pub confirm_task-Keeps : (w : ReviewWorld) (month i v : ℕ) → Keeps P (confirm_task w month i v)
  confirm_task-Keeps w month i v = record {
    at = λ s h.
        unfold confirm_task in
        open_task-then i v Kept _ s (λ task o. approve-Holds w month _ i v none task s refl o h)
          (λ _. h);
  }

  pub edit_task-Keeps : (w : ReviewWorld) (month i v m : ℕ) → Keeps P (edit_task w month i v m)
  edit_task-Keeps w month i v m = record {
    at = λ s h.
        unfold edit_task in
        open_task-then i v Kept _ s
          (λ task o.
            require_member-then Kept m _ s (approve-Holds w month _ i v (some m) task s refl o h) h)
          (λ _. h);
  }

  pub add_task-Keeps : (w : ReviewWorld) (month i v m : ℕ) → Keeps P (add_task w month i v m)
  add_task-Keeps w month i v m = record {
    at = λ s h.
        unfold add_task in
        open_task-then i v Kept _ s
          (λ task o.
            require_member-then Kept m _ s (approve-Holds w month _ i v (some m) task s refl o h) h)
          (λ _. h);
  }

  pub skip_task-Keeps : (i v : ℕ) (reason : Option Text) → Keeps P (skip_task i v reason)
  skip_task-Keeps i v reason = record {
    at = λ s h.
        unfold skip_task in
        gets-then Kept _ _ s (
          or_raise-then Kept _ _ _ s
            (λ task row. gets-then Kept _ _ s (
              raise_unless-then Kept _ _ _ s
                (λ few. modify-then Kept (record_skip i v reason task) _ s (
                  commits (record {
                    committed = h.committed;
                    work = steps.skip i v reason task s.work row few h.work;
                  })))
                (λ _. h)))
            (λ _. h));
  }
    where
      commits : {t : Session} → Holds P t → Holds P (commit t).1
      commits {t} k = Keeps-commit.at t k

  pub admin_override-Keeps : (w : ReviewWorld) (i admin : ℕ) → Keeps P (admin_override w i admin)
  admin_override-Keeps w i admin = record {
    at = λ s h.
        unfold admin_override in
        gets-then Kept _ _ s (
          or_raise-then Kept _ _ _ s
            (λ task row. modify-then Kept (record_override i admin task) _ s (
              (Keeps-bind (log_attendance w task.detection_id) (λ _. commit)
                  (log_attendance-Keeps steps.attendance w task.detection_id)
                  (λ _. Keeps-commit)).at
                _
                (record {
                  committed = h.committed;
                  work = steps.override i admin task s.work row h.work;
                })))
            (λ _. h));
  }
