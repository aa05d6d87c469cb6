-- ===== src/Attendance.antt =====
-- The synthetic names "member:<id>" of a detection, and `_log_attendance`, `_maybe_auto_enroll` and
-- `_update_volunteer_stats` of backend/app/services/task_service.py.
pub mod Names
pub mod Frame
pub mod Runs
pub mod Atomic
use seraphim.Common.{
  ℕ, ◌+◌, ◌≡◌, Bool, true, false, not, ◌&&◌, Option, none, some, List, [], ◌∷◌, ◌++◌, ltb, ◌==◌,
  where_, any, is_some, get_elem?, if◌then◌else◌,
}
use seraphim.Common.Table.{find}
use seraphim.Common.Text.{Text, codes, show, parse_int, split, starts_with, is_empty}
use seraphim.Models.{
  Db, ComprefaceSubject, Detection, ActionKind, Log, Participant, ParticipantStatus, SampleSource,
  Source, SubjectStatus, VolunteerStat,
}
use seraphim.Session.{
  Fault, Result, Tx, pure, gets, lift, ◌>>=◌, ◌>>◌, modify, swallow, one_or_none,
}
use seraphim.Enrollment.{World, Crop, has_subject_id, subject_id_str, enroll_contact_face}

-- f"member:{member_id}".
unfoldable pub member_name : ℕ → Text
member_name id = codes "member:" ++ show id

abbrev parse_piece : Option Text → Option ℕ
parse_piece none = none
parse_piece (some s) = parse_int s

-- `int(name.split(":")[1])` of a name that starts with "member:"; a ValueError or an IndexError is
-- `none`, as in the source.
unfoldable pub member_id : Option Text → Option ℕ
member_id none = none
member_id (some name) =
    if starts_with (codes "member:") name then parse_piece (get_elem? (split b':' name) 1) else none

-- `not detection.event_id`: 0 counts as no event.
abbrev pub truthy : Option ℕ → Option ℕ
truthy none = none
truthy (some n) = if n == 0 then none else some n

-- What the world answers while a task is resolved: the image that `cv2.imread` reads, `none` where
-- it reads none, and what the enrollment meets.
pub record ReviewWorld : Type 0 where
  pub image : Option Crop
  pub world : World

abbrev pub log_row : ℕ → Detection → Log
log_row detection_id d = record {
  detection_id = detection_id;
  timestamp = d.timestamp;
  camera_id = d.camera_id;
  matched_name = d.matched_name;
  confidence = d.confidence;
  tier = d.tier;
  event_id = d.event_id;
}

abbrev pub add_log : Log → Db → Db
add_log l db = record db { logs = db.logs ++ l ∷ [] }

abbrev is_active : SubjectStatus → Bool
is_active SubjectStatus.active = true
is_active _ = false

-- The subject is active and has samples.
abbrev pub enrolled_subject : Text → ℕ × ComprefaceSubject → Bool
enrolled_subject text (i, s) =
    has_subject_id text (i, s) && is_active s.enrollment_status && ltb 0 s.sample_count

enroll_crop : World → ℕ → Option Crop → Tx (Unit {0})
enroll_crop world contact_id none = pure tt
enroll_crop world contact_id (some crop) =
    swallow (enroll_contact_face world contact_id crop SampleSource.detection >> pure tt)

enroll_unless : ReviewWorld → ℕ → Bool → Tx (Unit {0})
enroll_unless w contact_id true = pure tt
enroll_unless w contact_id false = enroll_crop w.world contact_id w.image

-- `_maybe_auto_enroll`.
unfoldable pub maybe_auto_enroll : ReviewWorld → Detection → ℕ → Tx (Unit {0})
unfolding enroll_crop enroll_unless
maybe_auto_enroll w detection contact_id = if is_empty detection.image_path then pure tt else do
  rows ← gets (λ db. where_ (enrolled_subject (subject_id_str contact_id)) db.subjects)
  found ← lift (one_or_none rows)
  enroll_unless w contact_id (is_some found)

abbrev pub attends : ℕ → ℕ → Participant → Bool
attends contact_id event_id p = p.contact_id == contact_id && p.event_id == event_id

abbrev pub face_participant : ℕ → ℕ → ℕ → Participant
face_participant contact_id event_id detection_id = record {
  contact_id = contact_id;
  event_id = event_id;
  detection_id = some detection_id;
  status = ParticipantStatus.attended;
  source = Source.face;
}

-- The pre-SELECT on (contact_id, event_id), and the insert where it finds nothing.
unfoldable pub add_participant : Participant → Db → Db
add_participant p db =
    if any (attends p.contact_id p.event_id) db.participants
    then db
    else record db { participants = db.participants ++ p ∷ [] }

log_member : ReviewWorld → ℕ → Detection → ℕ → Option ℕ → Tx (Unit {0})
unfolding maybe_auto_enroll add_participant
log_member w detection_id d event_id none = modify (add_log (log_row detection_id d))
log_member w detection_id d event_id (some contact_id) = do
  modify (add_participant (face_participant contact_id event_id detection_id))
  modify (add_log (log_row detection_id d))
  maybe_auto_enroll w d contact_id

log_event : ReviewWorld → ℕ → Detection → Option ℕ → Tx (Unit {0})
unfolding log_member
log_event w detection_id d none = pure tt
log_event w detection_id d (some event_id) =
    log_member w detection_id d event_id (member_id d.matched_name)

log_detection : ReviewWorld → ℕ → Option Detection → Tx (Unit {0})
unfolding log_event
log_detection w detection_id none = pure tt
log_detection w detection_id (some d) = log_event w detection_id d (truthy d.event_id)

-- `_log_attendance`.
unfoldable pub log_attendance : ReviewWorld → ℕ → Tx (Unit {0})
unfolding log_detection
log_attendance w detection_id = do
  detection ← gets (λ db. find detection_id db.detections)
  log_detection w detection_id detection

-- The points of an action: an edit scores 2.
unfoldable pub points : ActionKind → ℕ
points ActionKind.edit = 2
points _ = 1

abbrev pub is_stat : ℕ → ℕ → VolunteerStat → Bool
is_stat volunteer_id month s = s.volunteer_id == volunteer_id && s.month == month

abbrev pub new_stat : ℕ → ℕ → VolunteerStat
new_stat volunteer_id month = record {
  volunteer_id = volunteer_id;
  month = month;
  tasks_confirmed = 0;
  tasks_edited = 0;
  tasks_added = 0;
  total_points = 0;
}

unfoldable pub score : ActionKind → VolunteerStat → VolunteerStat
unfolding points
score ActionKind.confirm s = record s {
  tasks_confirmed = s.tasks_confirmed + 1;
  total_points = s.total_points + 1;
}
score ActionKind.edit s = record s {
  tasks_edited = s.tasks_edited + 1;
  total_points = s.total_points + 2;
}
score ActionKind.add s = record s {
  tasks_added = s.tasks_added + 1;
  total_points = s.total_points + 1;
}
score kind s = record s { total_points = s.total_points + points kind }

-- The row of the volunteer and month scores; there is a new row where there was none.
unfoldable pub bump_stat : ActionKind → ℕ → ℕ → List VolunteerStat → List VolunteerStat
unfolding score
bump_stat kind volunteer_id month [] = score kind (new_stat volunteer_id month) ∷ []
bump_stat kind volunteer_id month (s ∷ rest) =
    if is_stat volunteer_id month s
    then score kind s ∷ rest
    else s ∷ bump_stat kind volunteer_id month rest

-- `_update_volunteer_stats`; `month` is the month that the clock shows.
unfoldable pub update_volunteer_stats : ℕ → ℕ → ActionKind → Tx (Unit {0})
update_volunteer_stats month volunteer_id kind =
    modify (λ db. record db { stats = bump_stat kind volunteer_id month db.stats })
