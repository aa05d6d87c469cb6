-- ===== src/Pit/Steps.antt =====
-- What to show of an invariant so that the pit router and the expiry worker keep it.
use seraphim.Common.{ℕ, arith, ◌≡◌, Option, none, some, List, [], ◌∷◌, Option-cases, inl, inr}
use seraphim.Common.Table.{Table, find}
use seraphim.Models.{Db, Task, TaskStatus, PitStatus, PitAction, PitQueue, Detection, SampleSource}
use seraphim.Session.{Fault, Result, err, Session, Tx, ◌>>=◌, ◌>>◌, modify, commit, request}
use seraphim.Session.Keeps.{Keeps, Holds, keeps_rules, Keeps-modify, Keeps-bind}
use seraphim.Session.Rules.{
  After, bind-after, or_raise-last, gets-then, or_raise-then, bind-then, modify-then,
}
use seraphim.Enrollment.{World, Crop, enroll_contact_face}
use seraphim.Enrollment.Frame.{EnrollmentAside, enroll_contact_face-Keeps}
use seraphim.Review.{set_task}
use seraphim.Pit.{
  Image, pit_task, in_pit, answer, answer_row, answered, close_pit, delete_pit_task,
  mark_non_person, enroll_pit_task, record_enroll, expire_rows, expire_all, process_expired_tasks,
  decode,
}

pub record PitSteps (P : Db → Type 0) : Type 0 where
  pub enrollment : EnrollmentAside P
  pub rows : (db : Db) (rows : Table PitQueue) → P db → P (record db { pit_queue = rows })
  pub close :
      (task_id : ℕ) (pit_status : PitStatus) (task : Task) (db : Db)
      → find task_id db.tasks ≡ some task
      → P db
      → P (set_task task_id (answered pit_status task) db)
  pub enroll :
      (task_id contact_id : ℕ) (task : Task) (d : Detection) (db : Db)
      → find task_id db.tasks ≡ some task
      → P db
      → P (record_enroll task_id contact_id task d db)
  pub expire :
      (task_id : ℕ) (task : Task) (db : Db)
      → find task_id db.tasks ≡ some task
      → P db
      → P (set_task task_id (record task { status = TaskStatus.expired }) db)

in_pit-eq-some : (o : Option Task) (task : Task) → in_pit o ≡ some task → o ≡ some task
in_pit-eq-some none task h = cc
in_pit-eq-some (some t) task h = ground arith

pit_task-then :
    {B : Type 0} (R : Result B × Session → Type 0) (task_id : ℕ) (f : Task → Tx B) (s : Session)
    → ((task : Task) → find task_id s.work.tasks ≡ some task → R (f task s))
    → R (err Fault.pit_task_not_found, s)
    → R ((pit_task task_id >>= f) s)
unfolding pit_task
pit_task-then R task_id f s found absent = bind-after R (pit_task task_id) f s (
    gets-then (After R f) _ _ s (
      or_raise-last (After R f) _ _ s (λ task e. found task (in_pit-eq-some _ task e))
        (λ _. absent)))

decode-then :
    {B : Type 0} (R : Result B × Session → Type 0) (image : Image) (f : Crop → Tx B) (s : Session)
    → ((crop : Crop) → R (f crop s))
    → ((e : Fault) → R (err e, s))
    → R ((decode image >>= f) s)
unfolding ◌>>=◌
decode-then R Image.missing f s decoded failed = failed Fault.image_missing
decode-then R Image.undecodable f s decoded failed = failed Fault.image_undecodable
decode-then R (Image.decoded crop) f s decoded failed = decoded crop

module _ {P : Db → Type 0} (steps : PitSteps P) where
  abbrev Kept : {A : Type 0} → Result A × Session → Type 0
  Kept p = Holds P p.1

  expire_rows-P : (rows : List (ℕ × Task)) (db : Db) → P db → P (expire_rows rows db)
  unfolding expire_rows
  expire_rows-P [] db h = h
  expire_rows-P ((task_id, task) ∷ rows) db h =
      expire_rows-P rows _ (elim (Option-cases (find task_id db.tasks)) [
        | inl absent ↦ rw absent h
        | inr (t, row) ↦ rw row (steps.expire task_id t db row h)
      ])

  expire_all-Keeps : (rows : List (ℕ × Task)) → Keeps P (expire_all rows)
  expire_all-Keeps [] = unfold expire_all in search keeps_rules
  expire_all-Keeps (row ∷ rows) =
      unfold expire_all in
      Keeps-bind _ _ (Keeps-modify (expire_rows (row ∷ rows)) (expire_rows-P (row ∷ rows)))
        (λ _. search keeps_rules)

  answer_row-P :
      (action : PitAction) (now : ℕ) (found : Option (ℕ × PitQueue)) (db : Db)
      → P db
      → P (answer_row action now found db)
  answer_row-P action now none db h = h
  answer_row-P action now (some (key, p)) db h = steps.rows db _ h

  answer-Keeps : (action : PitAction) (now task_id : ℕ) → Keeps P (answer action now task_id)
  answer-Keeps action now task_id =
      unfold answer in
      search (
        keeps_rules,
        λ (found : Option (ℕ × PitQueue)). Keeps-modify _ (answer_row-P action now found),
      )

  finish-Keeps :
      (action : PitAction) (now task_id : ℕ) → Keeps P (answer action now task_id >> commit)
  finish-Keeps action now task_id = search (keeps_rules, answer-Keeps)

  close_pit-Keeps :
      (pit_status : PitStatus) (action : PitAction) (now task_id : ℕ)
      → Keeps P (close_pit pit_status action now task_id)
  close_pit-Keeps pit_status action now task_id = record {
    at = λ s h.
        unfold close_pit in
        pit_task-then Kept task_id _ s
          (λ task row. modify-then Kept (set_task task_id (answered pit_status task)) _ s (
            (finish-Keeps action now task_id).at _ (record {
              committed = h.committed;
              work = steps.close task_id pit_status task s.work row h.work;
            })))
          h;
  }

  pub delete_pit_task-Keeps : (now task_id : ℕ) → Keeps P (delete_pit_task now task_id)
  delete_pit_task-Keeps now task_id = unfold delete_pit_task in close_pit-Keeps _ _ now task_id

  pub mark_non_person-Keeps : (now task_id : ℕ) → Keeps P (mark_non_person now task_id)
  mark_non_person-Keeps now task_id = unfold mark_non_person in close_pit-Keeps _ _ now task_id

  -- The enrollment may commit before the task changes, and leaves the task as it was read.
  after_enroll :
      (world : World) (crop : Crop) (now task_id contact_id : ℕ) (task : Task) (d : Detection)
      (s : Session)
      → Holds P s
      → Holds (λ db. find task_id db.tasks ≡ some task) s
      → Kept (
          (enroll_contact_face world contact_id crop SampleSource.detection
              >> (modify (record_enroll task_id contact_id task d)
                  >> (answer PitAction.enroll now task_id >> commit)))
            s)
  after_enroll world crop now task_id contact_id task d s h row =
      let enrolled = enroll_contact_face world contact_id crop SampleSource.detection in
      let kept =
        (enroll_contact_face-Keeps steps.enrollment world contact_id crop SampleSource.detection).at
          s h in
      let kept_row =
        (enroll_contact_face-Keeps {P = λ db. find task_id db.tasks ≡ some task} (λ _ _ _ k. k)
            world contact_id crop SampleSource.detection).at
          s row in
      bind-then Kept enrolled _ s
        (λ a t e. modify-then Kept (record_enroll task_id contact_id task d) _ t (
          (finish-Keeps PitAction.enroll now task_id).at _ (record {
            committed = (rw e at kept).committed;
            work =
                steps.enroll task_id contact_id task d t.work (rw e at kept_row).work
                  (rw e at kept).work;
          })))
        (λ x t e. rw e at kept)

  -- A request that enrolls a pit task. It starts from the committed rows.
  pub enroll_pit_task-keeps :
      (world : World) (image : Image) (now task_id contact_id : ℕ) (db : Db)
      → P db
      → P (request (enroll_pit_task world image now task_id contact_id) db).1
  enroll_pit_task-keeps world image now task_id contact_id db h =
      let s : Session = record { committed = db; work = db } in
      let kept : Holds P s = record { committed = h; work = h } in
      let ended : Kept (enroll_pit_task world image now task_id contact_id s) =
        unfold enroll_pit_task in
        pit_task-then Kept task_id _ s
          (λ task row. gets-then Kept _ _ s (
            or_raise-then Kept _ _ _ s
              (λ d _.
                decode-then Kept image _ s
                  (λ crop.
                    after_enroll world crop now task_id contact_id task d s kept
                      (record { committed = row; work = row }))
                  (λ _. kept))
              (λ _. kept)))
          kept in
      unfold request in ended.committed

  pub process_expired_tasks-Keeps : (now : ℕ) → Keeps P (process_expired_tasks now)
  process_expired_tasks-Keeps now =
      unfold process_expired_tasks in search (keeps_rules, expire_all-Keeps)
