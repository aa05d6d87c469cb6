-- ===== src/Review/Approving.antt =====
-- What a confirmation leaves: the first of two, the last, and the last where the enrollment fails.
use seraphim.Common.{
  if◌then◌else◌, ap, ◌∙◌, ◌==◌, ◌&&◌, Bool-cases, inl, inr, ℕ, suc, ◌+◌, ◌≤◌, ◌<◌, ◌≡◌, ◌⊎◌, refl,
  Bool, true, false, none, some, List, [], ◌∷◌, ◌++◌, arith, leb, where_, any, count, count-snoc,
}
use seraphim.Common.Table.{find}
use seraphim.Common.Text.{Text, is_empty}
use seraphim.Models.{
  Participant, ParticipantStatus, Source, VolunteerStat, Db, Task, TaskAction, TaskStatus,
  ActionKind, Detection, Contact, ComprefaceSubject,
}
use seraphim.Session.{Fault, ok, err, Session, ◌>>=◌, pure, one_or_none, request}
use seraphim.Enrollment.{Crop, check_quality, subject_id_str, has_subject_id, live_subject_of}
use seraphim.Enrollment.Fails.{is_image}
use seraphim.Attendance.{
  add_participant, attends, score, ReviewWorld, member_name, face_participant, enrolled_subject,
  maybe_auto_enroll, update_volunteer_stats, bump_stat,
}
use seraphim.Attendance.Runs.{
  attended, attended_in, log_attendance-member, maybe_auto_enroll-nothing, maybe_auto_enroll-fails,
}
use seraphim.Review.Assign.{add_participant-aside}
use seraphim.Review.{
  acted, approval_by, is_open, open_task, confirm_task, approve, resolve, approved, record_approval,
  commit_approval, new_action, add_action, set_task,
}

-- What the attendance of contact `c` at event `e` adds to the rows: a participant, unless the contact
-- is one, and a log entry.
abbrev pub came : ℕ → ℕ → ℕ → Detection → Db → Db
came c e key d db = record db {
  participants =
      if any (λ (p : Participant). p.contact_id == c && p.event_id == e) db.participants
      then db.participants
      else db.participants
        ++ record {
          contact_id = c;
          event_id = e;
          detection_id = some key;
          status = ParticipantStatus.attended;
          source = Source.face;
        }
          ∷ [];
  logs =
      db.logs
      ++ record {
        detection_id = key;
        timestamp = d.timestamp;
        camera_id = d.camera_id;
        matched_name = d.matched_name;
        confidence = d.confidence;
        tier = d.tier;
        event_id = d.event_id;
      }
        ∷ [];
}

-- The first row of a volunteer and month; zeros where there is none.
abbrev pub stat_of : ℕ → ℕ → List VolunteerStat → VolunteerStat
stat_of u m [] = record {
  volunteer_id = u;
  month = m;
  tasks_confirmed = 0;
  tasks_edited = 0;
  tasks_added = 0;
  total_points = 0;
}
stat_of u m (s ∷ rest) = if s.volunteer_id == u && s.month == m then s else stat_of u m rest

abbrev pub plus_confirmed : VolunteerStat → VolunteerStat
plus_confirmed s = record s {
  tasks_confirmed = s.tasks_confirmed + 1;
  total_points = s.total_points + 1;
}

attended-came : (c e key : ℕ) (d : Detection) (db : Db) → attended c e key d db ≡ came c e key d db
unfolding add_participant
attended-came c e key d db = elim (Bool-cases (any (attends c e) db.participants)) [
  | inl there ↦ rw there refl
  | inr missing ↦ rw missing refl
]

stat_of-bump_stat :
    (v month u m : ℕ) (stats : List VolunteerStat)
    → stat_of u m (bump_stat ActionKind.confirm v month stats)
      ≡ (if u == v && m == month then plus_confirmed (stat_of u m stats) else stat_of u m stats)
unfolding bump_stat score
stat_of-bump_stat v month u m [] = ground arith
stat_of-bump_stat v month u m (s ∷ stats) = ground (arith, stat_of-bump_stat v month u m stats)

untouched-where_ :
    (p : TaskAction → Bool) (actions : List TaskAction)
    → count p actions ≡ 0
    → where_ p actions ≡ []
unfolding where_ count
untouched-where_ p [] h = refl
untouched-where_ p (a ∷ actions) h = ground (arith, untouched-where_ p actions)

approval_by-le-acted :
    (i v : ℕ) (actions : List TaskAction)
    → count (approval_by i v) actions ≤ count (acted i v) actions
unfolding count
approval_by-le-acted i v [] = omega arith
approval_by-le-acted i v (a ∷ actions) = ground (arith, approval_by-le-acted i v actions)

module _ (w : ReviewWorld) (month i v : ℕ) (t : Task) (db : Db) (row : find i db.tasks ≡ some t)
    (open_ : is_open t.status ≡ true) (untouched : count (acted i v) db.actions ≡ 0) where
  abbrev opening : Session
  opening = record { committed = db; work = db }

  -- The action and the approval, with this status of the task.
  abbrev moved : TaskStatus → Session
  moved status = record {
    committed = db;
    work =
        set_task i (record t { current_approvals = t.current_approvals + 1; status = status })
          (add_action (new_action i v ActionKind.confirm none) db);
  }

  abbrev confirming : Session
  confirming = record {
    committed = db;
    work = set_task i (approved t) (add_action (new_action i v ActionKind.confirm none) db);
  }

  confirm_task-approve :
      confirm_task w month i v opening
      ≡ (resolve w month ActionKind.confirm v t >>= λ _. commit_approval i v) confirming
  unfolding ◌>>=◌ confirm_task approve open_task one_or_none record_approval
  confirm_task-approve =
      rw row (rw open_ (rw (untouched-where_ (acted i v) db.actions untouched) refl))

  one_approval :
      count (approval_by i v) (db.actions ++ new_action i v ActionKind.confirm none ∷ []) ≤ 1
  one_approval = ground (
    arith,
    count-snoc (approval_by i v) db.actions (new_action i v ActionKind.confirm none),
    untouched,
    approval_by-le-acted i v db.actions,
  )

  -- The commit of a volunteer with at most one approval on the task.
  commits :
      (s : Session)
      → count (approval_by i v) s.work.actions ≤ 1
      → commit_approval i v s ≡ (ok tt, record s { committed = s.work })
  unfolding commit_approval ◌>>=◌
  commits s h = rw (within h) refl
    where
      within : {n : ℕ} → n ≤ 1 → leb n 1 ≡ true
      within h = ground arith

  -- Confirming an open task on which the volunteer has not acted, which needs more approvals still:
  -- the request succeeds, the task has one approval more and is pending, the action is recorded,
  -- and nothing else is changed.
  pub confirm_task-first :
      t.current_approvals + 1 < t.required_approvals
      → request (confirm_task w month i v) db ≡ (
        ok tt,
        set_task i
            (record t { current_approvals = t.current_approvals + 1; status = TaskStatus.pending })
            (add_action (new_action i v ActionKind.confirm none) db),
      )
  unfolding request resolve pure ◌>>=◌
  confirm_task-first short =
      let below : leb t.required_approvals (t.current_approvals + 1) ≡ false = ground arith in
      rw confirm_task-approve (rw below (rw (commits (moved TaskStatus.pending) one_approval) refl))

  module _ (c e : ℕ) (d : Detection) (enough : t.required_approvals ≤ t.current_approvals + 1)
      (seen : find t.detection_id db.detections ≡ some d) (at_event : d.event_id ≡ some (suc e))
      (matched : d.matched_name ≡ some (member_name c)) where
    reached : leb t.required_approvals (t.current_approvals + 1) ≡ true
    reached = ground (arith, enough)

    -- The rows when the attendance is logged.
    abbrev logged : Session
    logged = attended_in c (suc e) t.detection_id d (moved TaskStatus.resolved)

    abbrev scored : Db → Db
    scored x = record x { stats = bump_stat ActionKind.confirm v month x.stats }

    confirm_task-last :
        (s : Session)
        → maybe_auto_enroll w d c logged ≡ (ok tt, s)
        → count (approval_by i v) s.work.actions ≤ 1
        → request (confirm_task w month i v) db ≡ (ok tt, scored s.work)
    unfolding request resolve update_volunteer_stats ◌>>=◌
    confirm_task-last s enrolled one = rw confirm_task-approve (
        rw reached (
          rw
            (log_attendance-member w t.detection_id c e d (moved TaskStatus.resolved) seen at_event
              matched)
            (rw enrolled (rw (commits (record s { work = scored s.work }) one) refl))))

    confirm_task-raises :
        (fault : Fault) (s : Session)
        → maybe_auto_enroll w d c logged ≡ (err fault, s)
        → request (confirm_task w month i v) db ≡ (err fault, s.committed)
    unfolding request resolve update_volunteer_stats ◌>>=◌
    confirm_task-raises fault s raised = rw confirm_task-approve (
        rw reached (
          rw
            (log_attendance-member w t.detection_id c e d (moved TaskStatus.resolved) seen at_event
              matched)
            (rw raised refl)))

    same_subjects : logged.work.subjects ≡ db.subjects
    same_subjects =
        add_participant-aside (λ x. x.subjects ≡ db.subjects)
          (face_participant c (suc e) t.detection_id) (moved TaskStatus.resolved).work (λ ps. refl)

    same_contacts : logged.work.contacts ≡ db.contacts
    same_contacts =
        add_participant-aside (λ x. x.contacts ≡ db.contacts)
          (face_participant c (suc e) t.detection_id) (moved TaskStatus.resolved).work (λ ps. refl)

    logged_once : count (approval_by i v) logged.work.actions ≤ 1
    logged_once =
        add_participant-aside (λ x. count (approval_by i v) x.actions ≤ 1)
          (face_participant c (suc e) t.detection_id) (moved TaskStatus.resolved).work
          (λ ps. one_approval)

    none_before : count (approval_by i v) db.actions ≤ 1
    none_before = omega (arith, approval_by-le-acted i v db.actions, untouched)

    -- Confirming an open task on which the volunteer has not acted, with the last approval that it
    -- needed, where its detection names a contact and an event other than 0, and the detection has
    -- no image or the contact has one subject row that is active with samples: the request
    -- succeeds, and leaves the action, the task resolved with one approval more, the contact as
    -- attended at the event by its face (unless it is a participant), a log entry with the data of
    -- the detection, and one confirmed task and one point more for the volunteer in this month, and
    -- changes nothing else.
    pub confirm_task-resolves :
        (is_empty d.image_path ≡ true)
          ⊎ ((x : ℕ × ComprefaceSubject) × (where_ (enrolled_subject (subject_id_str c)) db.subjects
                ≡ x ∷ []))
        → (stats : List VolunteerStat) × (request (confirm_task w month i v) db ≡ (
          ok tt,
          record (came c (suc e) t.detection_id d (moved TaskStatus.resolved).work) {
            stats = stats;
          },
        ))
          × ((u m : ℕ)
              → stat_of u m stats ≡ (
                  if u == v && m == month
                  then plus_confirmed (stat_of u m db.stats)
                  else stat_of u m db.stats))
    confirm_task-resolves nothing = (
      bump_stat ActionKind.confirm v month db.stats,
      confirm_task-last logged (maybe_auto_enroll-nothing w d c logged (rw same_subjects nothing))
            logged_once
          ∙ ap (λ x. (ok tt, scored x))
              (attended-came c (suc e) t.detection_id d (moved TaskStatus.resolved).work),
      λ u m. stat_of-bump_stat v month u m db.stats,
    )

    module _ (crop : Crop) (contact : Contact) (paths : Text × Text)
        (pictured : is_empty d.image_path ≡ false) (read : w.image ≡ some crop)
        (sharp : check_quality crop ≡ true) (known : find c db.contacts ≡ some contact)
        (no_subject : any (live_subject_of c) db.subjects ≡ false)
        (no_id : any (has_subject_id (subject_id_str c)) db.subjects ≡ false)
        (saved : w.world.saved ≡ some paths) (failed : is_image w.world.reply ≡ false) where
      -- Confirming an open task on which the volunteer has not acted, with the last approval that
      -- it needed, where its detection names a contact and an event other than 0, the contact has
      -- no live subject and its subject id is not taken, the image is read and passes the quality
      -- gate, the crop is saved, and CompreFace fails or gives no image id: the request raises, in
      -- the handler of the failure, and the database is as it was.
      pub confirm_task-lost :
          request (confirm_task w month i v) db ≡ (err Fault.missing_greenlet, db)
      confirm_task-lost =
          confirm_task-raises Fault.missing_greenlet (record { committed = db; work = db })
            (maybe_auto_enroll-fails w c d crop contact paths logged pictured read sharp
              (rw same_contacts known) (rw same_subjects no_subject) (rw same_subjects no_id) saved
              failed)
