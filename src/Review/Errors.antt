-- ===== src/Review/Errors.antt =====
-- The review requests that fail.
use seraphim.Common.{
  ℕ, ◌≤◌, ◌≡◌, refl, true, Option, none, some, List, [], ◌∷◌, arith, leb, count, count-snoc,
}
use seraphim.Common.Text.{Text}
use seraphim.Models.{Db, Task, TaskAction, ActionKind}
use seraphim.Session.{Fault, Result, ok, err, Session, Tx, ◌>>=◌, ◌>>◌, modify, commit, request}
use seraphim.Session.Atomic.{Atomic, Atomic-then, Atomic-Quiet, Atomic-if, Quiet-pure, atomic_rules}
use seraphim.Session.Keeps.{Keeps, Keeps-if, Keeps-bind, Keeps-modify, Keeps-pure}
use seraphim.Session.Rules.{bind-then, modify-then}
use seraphim.Attendance.{ReviewWorld, log_attendance, update_volunteer_stats}
use seraphim.Attendance.Atomic.{log_attendance-Atomic}
use seraphim.Attendance.Frame.{AttendanceAside, log_attendance-Keeps}
use seraphim.Review.{
  acted, approval_by, new_action, add_action, commit_approval, resolve, record_approval, approve,
  confirm_task, edit_task, add_task, skip_task, admin_override,
}
use seraphim.Review.Assign.{assign_member-SameRows, add_participant-SameTasks}
use seraphim.Review.Open.{open_task-then, require_member-then}

approval_by-le-acted :
    (i v : ℕ) (actions : List TaskAction)
    → count (approval_by i v) actions ≤ count (acted i v) actions
unfolding count
approval_by-le-acted i v [] = omega arith
approval_by-le-acted i v (a ∷ actions) = ground (arith, approval_by-le-acted i v actions)

score-total :
    (month v : ℕ) (kind : ActionKind) (s : Session)
    → (b : Unit {0}) × ((update_volunteer_stats month v kind s).0 ≡ ok b)
unfolding update_volunteer_stats modify
score-total month v kind s = (tt, refl)

resolve-Atomic :
    (w : ReviewWorld) (month : ℕ) (kind : ActionKind) (v : ℕ) (t : Task)
    → Atomic (resolve w month kind v t)
resolve-Atomic w month kind v t =
    unfold resolve in
    Atomic-if _ _ _
      (Atomic-then _ _ (log_attendance-Atomic w t.detection_id) (λ _. score-total month v kind))
      (Atomic-Quiet _ (Quiet-pure tt))

module _ (i v : ℕ) where
  abbrev AtMostOne : Db → Type 0
  AtMostOne db = count (approval_by i v) db.actions ≤ 1

  aside : AttendanceAside AtMostOne
  aside = record {
    enrollment = λ db subjects samples h. h;
    logs = λ db logs h. h;
    participant = λ p db h. rw (add_participant-SameTasks p db).actions h;
  }

  score-AtMostOne :
      (month : ℕ) (kind : ActionKind) → Keeps AtMostOne (update_volunteer_stats month v kind)
  score-AtMostOne month kind = unfold update_volunteer_stats in Keeps-modify _ (λ db h. h)

  resolve-AtMostOne :
      (w : ReviewWorld) (month : ℕ) (kind : ActionKind) (t : Task)
      → Keeps AtMostOne (resolve w month kind v t)
  resolve-AtMostOne w month kind t =
      unfold resolve in
      Keeps-if _ _ _
        (Keeps-bind _ _ (log_attendance-Keeps aside w t.detection_id)
          (λ _. score-AtMostOne month kind))
        (Keeps-pure tt)

  commit_approval-ok : (s : Session) → AtMostOne s.work → (commit_approval i v s).0 ≡ ok tt
  unfolding commit_approval ◌>>=◌
  commit_approval-ok s h = rw (within h) refl
    where
      within : {n : ℕ} → n ≤ 1 → leb n 1 ≡ true
      within h = ground arith

  abbrev Unchanged : Db → Result (Unit {0}) × Session → Type 0
  Unchanged db p = (e : Fault) → p.0 ≡ err e → p.1.committed ≡ db

  record_approval-AtMostOne :
      (kind : ActionKind) (member : Option ℕ) (t : Task) (db : Db)
      → count (acted i v) db.actions ≡ 0
      → AtMostOne (record_approval kind i v member t db)
  record_approval-AtMostOne kind member t db untouched =
      unfold record_approval in
      let a = new_action i v kind none in
      let same = assign_member-SameRows kind member t.detection_id (add_action a db) in
      rw same.actions (
        ground (
          arith,
          count-snoc (approval_by i v) db.actions a,
          untouched,
          approval_by-le-acted i v db.actions,
        ))

  approve-Unchanged :
      (w : ReviewWorld) (month : ℕ) (kind : ActionKind) (member : Option ℕ) (t : Task) (db : Db)
      → count (acted i v) db.actions ≡ 0
      → Unchanged db (approve w month kind i v member t (record { committed = db; work = db }))
  approve-Unchanged w month kind member t db untouched =
      let s : Session = record { committed = db; work = record_approval kind i v member t db } in
      let few = record_approval-AtMostOne kind member t db untouched in
      let none_yet : AtMostOne db = omega (arith, untouched, approval_by-le-acted i v db.actions) in
      let kept =
        (resolve-AtMostOne w month kind t).at s (record { committed = none_yet; work = few }) in
      unfold approve in
      modify-then (Unchanged db) (record_approval kind i v member t) _
        (record { committed = db; work = db })
        (bind-then (Unchanged db) (resolve w month kind v t) _ s
          (λ a u ran e raised. absurd (cc (commit_approval-ok u (rw ran at kept).work, raised)))
          (λ x u ran e raised.
            rw ran at ((resolve-Atomic w month kind v t).unless_raised s x (rw ran refl))))

-- What the routes of TaskService run.
pub data ReviewRequest : Type 0 where
  confirm : ReviewRequest
  edit add : (member_id : ℕ) → ReviewRequest
  skip : (reason : Option Text) → ReviewRequest
  override : ReviewRequest

abbrev pub run_review : ReviewWorld → ℕ → ℕ → ℕ → ReviewRequest → Tx (Unit {0})
run_review w month i v ReviewRequest.confirm = confirm_task w month i v
run_review w month i v (ReviewRequest.edit m) = edit_task w month i v m
run_review w month i v (ReviewRequest.add m) = add_task w month i v m
run_review w month i v (ReviewRequest.skip reason) = skip_task i v reason
run_review w month i v ReviewRequest.override = admin_override w i v

skip_task-Atomic : (i v : ℕ) (reason : Option Text) → Atomic (skip_task i v reason)
skip_task-Atomic i v reason = unfold skip_task in search atomic_rules depth 9

commit-total : (s : Session) → (b : Unit {0}) × ((commit s).0 ≡ ok b)
unfolding commit
commit-total s = (tt, refl)

logged-Atomic : (w : ReviewWorld) (key : ℕ) → Atomic (log_attendance w key >> commit)
logged-Atomic w key = Atomic-then _ _ (log_attendance-Atomic w key) (λ _. commit-total)

admin_override-Atomic : (w : ReviewWorld) (i v : ℕ) → Atomic (admin_override w i v)
admin_override-Atomic w i v = unfold admin_override in search (atomic_rules, logged-Atomic) depth 9

run_review-Unchanged :
    (w : ReviewWorld) (month i v : ℕ) (r : ReviewRequest) (db : Db)
    → Unchanged i v db (run_review w month i v r (record { committed = db; work = db }))
run_review-Unchanged w month i v ReviewRequest.confirm db =
    unfold confirm_task in
    open_task-then i v (Unchanged i v db) _ (record { committed = db; work = db })
      (λ t o. approve-Unchanged i v w month ActionKind.confirm none t db o.untouched)
      (λ x e raised. refl)
run_review-Unchanged w month i v (ReviewRequest.edit m) db =
    unfold edit_task in
    open_task-then i v (Unchanged i v db) _ (record { committed = db; work = db })
      (λ t o.
        require_member-then (Unchanged i v db) m _ (record { committed = db; work = db })
          (approve-Unchanged i v w month ActionKind.edit (some m) t db o.untouched)
          (λ e raised. refl))
      (λ x e raised. refl)
run_review-Unchanged w month i v (ReviewRequest.add m) db =
    unfold add_task in
    open_task-then i v (Unchanged i v db) _ (record { committed = db; work = db })
      (λ t o.
        require_member-then (Unchanged i v db) m _ (record { committed = db; work = db })
          (approve-Unchanged i v w month ActionKind.add (some m) t db o.untouched)
          (λ e raised. refl))
      (λ x e raised. refl)
run_review-Unchanged w month i v (ReviewRequest.skip reason) db =
    (skip_task-Atomic i v reason).unless_raised (record { committed = db; work = db })
run_review-Unchanged w month i v ReviewRequest.override db =
    (admin_override-Atomic w i v).unless_raised (record { committed = db; work = db })

-- A confirm, edit, add, skip or admin_override request that fails, with whatever error, leaves the
-- committed rows as they were.
pub failed_review-unchanged :
    (w : ReviewWorld) (month i v : ℕ) (r : ReviewRequest) (db : Db) (e : Fault)
    → (request (run_review w month i v r) db).0 ≡ err e
    → (request (run_review w month i v r) db).1 ≡ db
unfolding request
failed_review-unchanged w month i v r db e failed = run_review-Unchanged w month i v r db e failed
