-- ===== src/Tests/Reviews.antt =====
-- Reviews of one face.
use seraphim.Common.{
  if◌then◌else◌, ◌==◌, ◌&&◌, List, ℕ, ◌≡◌, ◌≤◌, refl, true, false, none, some, [], arith, inl,
  count, any, where_, ◌↔◌, ◌⊎◌,
}
use seraphim.Common.Table.{find, put, fresh}
use seraphim.Common.Text.{codes}
use seraphim.Models.{VolunteerStat, Task, TaskStatus, ActionKind}
use seraphim.Session.{ok, err, Fault, request, ◌>>=◌, pure, one_or_none}
use seraphim.Enrollment.{check_quality, subject_id_str}
use seraphim.Attendance.{
  log_attendance, maybe_auto_enroll, update_volunteer_stats, member_id, member_name,
}
use seraphim.Attendance.Names.{member_id-member_name}
use seraphim.Dedup.{is_duplicate, hash_face}
use seraphim.Pit.{is_pit}
use seraphim.Pipeline.{process_face_crop, record_face, route}
use seraphim.Review.{
  confirm_task, edit_task, add_task, skip_task, open_task, approve, resolve, record_skip,
  unique_skippers, approval_on, approval_by, set_task, add_action, new_action, skip_by, acted,
}
use seraphim.Enrollment.{live_subject_of, has_subject_id}
use seraphim.Review.Approving.{
  came, stat_of, plus_confirmed, confirm_task-first, confirm_task-resolves, confirm_task-lost,
}
use seraphim.Review.Errors.{ReviewRequest, run_review, failed_review-unchanged}
use seraphim.Review.Outcomes.{skipped_twice-multiple_rows}
use seraphim.Review.Next.{IsNext, get_next_task-IsNext}
use seraphim.Review.Queue.{get_next_task}
use seraphim.Review.Skippers.{skip_task-outcome, TwoSkippers}
use seraphim.Requests.{serve, handle, empty}
use seraphim.Invariants.Approvals.{Counted, serve-Counted}
use seraphim.Invariants.Skips.{Skipped, serve-Skipped}
use seraphim.Invariants.Resolutions.{Settled, serve-Settled, override_on}
use seraphim.Invariants.Participants.{Once, serve-Once}
use seraphim.Invariants.Points.{Balanced, serve-Balanced}
use seraphim.Invariants.Life.{Life}
use seraphim.Invariants.Dual.{empty-Counted, empty-Settled, serve-approved}
use seraphim.Tests.Rows.{
  day, fresh_db, half_db, imageless_db, pending_task, half_task, skipped_db, her_face, grace,
  clear_face, at_review,
}

abbrev day_task : Task
day_task = record pending_task {
  status = TaskStatus.resolved;
  current_approvals = 2;
  skip_count = 1;
  expiry_date = 2679300;
}

day-resolved : find 1 (serve day empty).tasks ≡ some day_task
unfolding serve handle request find put fresh process_face_crop is_duplicate check_quality
    record_face route skip_task record_skip confirm_task open_task approve resolve ◌>>=◌ pure
    one_or_none log_attendance maybe_auto_enroll update_volunteer_stats unique_skippers count any
    where_ hash_face member_id
day-resolved = refl

day-no_override : count (override_on 1) (serve day empty).actions ≡ 0
unfolding serve handle request find put fresh process_face_crop is_duplicate check_quality
    record_face route skip_task record_skip confirm_task open_task approve resolve ◌>>=◌ pure
    one_or_none log_attendance maybe_auto_enroll update_volunteer_stats unique_skippers count any
    where_ hash_face member_id
day-no_override = refl

serve-approved_example :
    (2 ≤ count (approval_on 1) (serve day empty).actions)
    × ((v : ℕ) → count (approval_by 1 v) (serve day empty).actions ≤ 1)
serve-approved_example = serve-approved day 1 day_task day-resolved refl refl day-no_override

serve-Counted_example : Counted (serve day empty).tasks (serve day empty).actions
serve-Counted_example = serve-Counted day empty empty-Counted

serve-Settled_example : Settled (serve day empty).tasks (serve day empty).actions
serve-Settled_example = serve-Settled day empty empty-Settled

empty-Skipped : Skipped empty.tasks empty.actions
unfolding count find
empty-Skipped = record {
  counted = λ i t e. cc;
  unknown = λ i e. refl;
  twice = λ i v. omega arith;
  in_pit = λ i t e p. absurd (cc (e));
}

serve-Skipped_example : Skipped (serve day empty).tasks (serve day empty).actions
serve-Skipped_example = serve-Skipped day empty empty-Skipped

empty-Once : Once empty.participants
unfolding count
empty-Once = record { once = λ c e. omega arith }

serve-Once_example : Once (serve day empty).participants
serve-Once_example = serve-Once day empty empty-Once

empty-Balanced : Balanced empty.stats
unfolding count any
empty-Balanced = record { balanced = refl; one_row = λ v m. omega arith }

serve-Balanced_example : Balanced (serve day empty).stats
serve-Balanced_example = serve-Balanced day empty empty-Balanced

fresh_db-row : find 1 fresh_db.tasks ≡ some pending_task
unfolding find
fresh_db-row = refl

half_db-row : find 1 half_db.tasks ≡ some half_task
unfolding find
half_db-row = refl

get_next_task-IsNext_example : IsNext half_db 1000 2 (get_next_task half_db 1000 2)
get_next_task-IsNext_example = get_next_task-IsNext half_db 1000 2

fresh_db-untouched : count (acted 1 1) fresh_db.actions ≡ 0
unfolding count
fresh_db-untouched = refl

half_db-untouched : count (acted 1 2) half_db.actions ≡ 0
unfolding count
half_db-untouched = refl

confirm_task-first_example :
    request (confirm_task at_review 11 1 1) fresh_db
    ≡ (ok tt, set_task 1 half_task (add_action (new_action 1 1 ActionKind.confirm none) fresh_db))
confirm_task-first_example =
    confirm_task-first at_review 11 1 1 pending_task fresh_db fresh_db-row refl fresh_db-untouched
      (omega arith)

seen : find 1 half_db.detections ≡ some her_face
unfolding find
seen = refl

confirm_task-lost_example :
    request (confirm_task at_review 11 1 2) half_db ≡ (err Fault.missing_greenlet, half_db)
confirm_task-lost_example =
    confirm_task-lost at_review 11 1 2 half_task half_db half_db-row refl half_db-untouched 7 4
      her_face (omega arith) seen refl refl clear_face grace (codes "7/0.jpg", codes "7/t0.jpg")
      refl refl sharp known no_subject no_id refl refl
  where
    sharp : check_quality clear_face ≡ true
    sharp = unfold check_quality in refl

    known : find 7 half_db.contacts ≡ some grace
    known = unfold find in refl

    no_subject : any (live_subject_of 7) half_db.subjects ≡ false
    no_subject = unfold any in refl

    no_id : any (has_subject_id (subject_id_str 7)) half_db.subjects ≡ false
    no_id = unfold any in refl

confirm_task-resolves_example :
    (stats : List VolunteerStat) × (request (confirm_task at_review 11 1 2) imageless_db ≡ (
      ok tt,
      record (came 7 5 1
          (record her_face { image_path = [] })
          (set_task 1
            (record half_task { status = TaskStatus.resolved; current_approvals = 2 })
            (add_action (new_action 1 2 ActionKind.confirm none) imageless_db))) { stats = stats },
    ))
    × ((u m : ℕ)
        → stat_of u m stats ≡ (
            if u == 2 && m == 11
            then plus_confirmed (stat_of u m imageless_db.stats)
            else stat_of u m imageless_db.stats))
confirm_task-resolves_example =
    confirm_task-resolves at_review 11 1 2 half_task imageless_db (unfold find in refl) refl
      half_db-untouched 7 4 (record her_face { image_path = [] }) (omega arith)
      (unfold find in refl) refl refl (inl refl)

skipped_twice : 2 ≤ count (skip_by 1 1) skipped_db.actions
unfolding count
skipped_twice = omega arith

skipped_twice-multiple_rows_example :
    (request (confirm_task at_review 11 1 1) skipped_db ≡ (err Fault.multiple_rows, skipped_db))
    × (request (edit_task at_review 11 1 1 7) skipped_db ≡ (err Fault.multiple_rows, skipped_db))
    × (request (add_task at_review 11 1 1 7) skipped_db ≡ (err Fault.multiple_rows, skipped_db))
skipped_twice-multiple_rows_example =
    skipped_twice-multiple_rows 1 1 (record pending_task { skip_count = 3 }) skipped_db
      (unfold find in refl) refl skipped_twice at_review 11 7

skip_task-outcome_example :
    (request (skip_task 1 2 none) skipped_db).0 ≡ ok tt
    × ((u : Task) × (find 1 (request (skip_task 1 2 none) skipped_db).1.tasks ≡ some u)
        × ((is_pit u.status ≡ true)
            ↔ ((3 ≤ 3) × TwoSkippers 1 (request (skip_task 1 2 none) skipped_db).1.actions))
        × ((u.status ≡ TaskStatus.pit) ⊎ (u.status ≡ TaskStatus.pending)))
skip_task-outcome_example =
    skip_task-outcome 1 2 none (record pending_task { skip_count = 3 }) skipped_db
      (unfold find in refl) once
  where
    once : count (skip_by 1 2) skipped_db.actions ≤ 1
    once = unfold count in omega arith

member_id-member_name_example : member_id (some (member_name 27)) ≡ some 27
member_id-member_name_example = member_id-member_name 27

half_db-acted :
    (request (run_review at_review 11 1 1 ReviewRequest.confirm) half_db).0
    ≡ err Fault.already_acted
unfolding request confirm_task open_task one_or_none find where_ ◌>>=◌
half_db-acted = refl

failed_review-unchanged_example :
    (request (run_review at_review 11 1 1 ReviewRequest.confirm) half_db).1 ≡ half_db
failed_review-unchanged_example =
    failed_review-unchanged at_review 11 1 1 ReviewRequest.confirm half_db Fault.already_acted
      half_db-acted
