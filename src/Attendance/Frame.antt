-- ===== src/Attendance/Frame.antt =====
-- Logging attendance writes participants, logs, subjects and samples; scoring writes statistics.
use seraphim.Common.{ℕ, Bool, true, false, Option, none, some, List, ◌++◌, [], ◌∷◌}
use seraphim.Models.{Db, Detection, Participant, Log}
use seraphim.Session.{modify}
use seraphim.Session.Keeps.{Keeps, keeps_rules, Keeps-modify}
use seraphim.Enrollment.{World, Crop}
use seraphim.Enrollment.Frame.{EnrollmentAside, enroll_contact_face-Keeps}
use seraphim.Attendance.{
  ReviewWorld, log_attendance, log_detection, log_event, log_member, maybe_auto_enroll,
  enroll_unless, enroll_crop, add_participant, add_log,
}

-- `P` survives what logging attendance may write.
pub record AttendanceAside (P : Db → Type 0) : Type 0 where
  pub enrollment : EnrollmentAside P
  pub logs : (db : Db) (logs : List Log) → P db → P (record db { logs = logs })
  pub participant : (p : Participant) (db : Db) → P db → P (add_participant p db)

module _ {P : Db → Type 0} (aside : AttendanceAside P) where
  add_log-Keeps : (l : Log) → Keeps P (modify (add_log l))
  add_log-Keeps l = Keeps-modify _ λ db h. aside.logs db (db.logs ++ l ∷ []) h

  add_participant-Keeps : (p : Participant) → Keeps P (modify (add_participant p))
  add_participant-Keeps p = Keeps-modify _ (aside.participant p)

  enroll_crop-Keeps : (world : World) (c : ℕ) (o : Option Crop) → Keeps P (enroll_crop world c o)
  enroll_crop-Keeps world c none = unfold enroll_crop in search keeps_rules
  enroll_crop-Keeps world c (some crop) =
      unfold enroll_crop in search (keeps_rules, enroll_contact_face-Keeps aside.enrollment)

  enroll_unless-Keeps : (w : ReviewWorld) (c : ℕ) (b : Bool) → Keeps P (enroll_unless w c b)
  enroll_unless-Keeps w c true = unfold enroll_unless in search keeps_rules
  enroll_unless-Keeps w c false = unfold enroll_unless in enroll_crop-Keeps w.world c w.image

  maybe_auto_enroll-Keeps :
      (w : ReviewWorld) (d : Detection) (c : ℕ) → Keeps P (maybe_auto_enroll w d c)
  maybe_auto_enroll-Keeps w d c =
      unfold maybe_auto_enroll in search (keeps_rules, enroll_unless-Keeps)

  log_member-Keeps :
      (w : ReviewWorld) (i : ℕ) (d : Detection) (e : ℕ) (m : Option ℕ)
      → Keeps P (log_member w i d e m)
  log_member-Keeps w i d e none = unfold log_member in add_log-Keeps _
  log_member-Keeps w i d e (some c) =
      unfold log_member in
      search (keeps_rules, add_log-Keeps, add_participant-Keeps, maybe_auto_enroll-Keeps)

  log_event-Keeps :
      (w : ReviewWorld) (i : ℕ) (d : Detection) (e : Option ℕ) → Keeps P (log_event w i d e)
  log_event-Keeps w i d none = unfold log_event in search keeps_rules
  log_event-Keeps w i d (some e) = unfold log_event in log_member-Keeps w i d e _

  log_detection-Keeps :
      (w : ReviewWorld) (i : ℕ) (o : Option Detection) → Keeps P (log_detection w i o)
  log_detection-Keeps w i none = unfold log_detection in search keeps_rules
  log_detection-Keeps w i (some d) = unfold log_detection in log_event-Keeps w i d _

  pub log_attendance-Keeps : (w : ReviewWorld) (i : ℕ) → Keeps P (log_attendance w i)
  log_attendance-Keeps w i = unfold log_attendance in search (keeps_rules, log_detection-Keeps)
