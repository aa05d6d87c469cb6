-- ===== src/Attendance/Atomic.antt =====
-- Where logging attendance raises, and what it has committed by then.
use seraphim.Common.{ℕ, Bool, true, false, Option, none, some}
use seraphim.Models.{Detection, SampleSource}
use seraphim.Session.Atomic.{
  Atomic, Atomic-Quiet, Atomic-swallow, Atomic-then, pure_total, Quiet-modify, atomic_rules,
}
use seraphim.Enrollment.{World, Crop}
use seraphim.Enrollment.Atomic.{enroll_contact_face-Atomic}
use seraphim.Attendance.{
  ReviewWorld, log_attendance, log_detection, log_event, log_member, maybe_auto_enroll,
  enroll_unless, enroll_crop,
}

enroll_crop-Atomic : (world : World) (c : ℕ) (o : Option Crop) → Atomic (enroll_crop world c o)
enroll_crop-Atomic world c none = unfold enroll_crop in search atomic_rules
enroll_crop-Atomic world c (some crop) =
    unfold enroll_crop in
    Atomic-swallow _ (
      Atomic-then _ _ (enroll_contact_face-Atomic world c crop SampleSource.detection)
        (λ a s. pure_total tt s))

enroll_unless-Atomic : (w : ReviewWorld) (c : ℕ) (b : Bool) → Atomic (enroll_unless w c b)
enroll_unless-Atomic w c true = unfold enroll_unless in search atomic_rules
enroll_unless-Atomic w c false = unfold enroll_unless in enroll_crop-Atomic w.world c w.image

maybe_auto_enroll-Atomic :
    (w : ReviewWorld) (d : Detection) (c : ℕ) → Atomic (maybe_auto_enroll w d c)
maybe_auto_enroll-Atomic w d c =
    unfold maybe_auto_enroll in search (atomic_rules, enroll_unless-Atomic) depth 8

log_member-Atomic :
    (w : ReviewWorld) (i : ℕ) (d : Detection) (e : ℕ) (m : Option ℕ) → Atomic (log_member w i d e m)
log_member-Atomic w i d e none = unfold log_member in Atomic-Quiet _ (Quiet-modify _)
log_member-Atomic w i d e (some c) =
    unfold log_member in search (atomic_rules, maybe_auto_enroll-Atomic) depth 8

log_event-Atomic :
    (w : ReviewWorld) (i : ℕ) (d : Detection) (e : Option ℕ) → Atomic (log_event w i d e)
log_event-Atomic w i d none = unfold log_event in search atomic_rules
log_event-Atomic w i d (some e) = unfold log_event in log_member-Atomic w i d e _

log_detection-Atomic :
    (w : ReviewWorld) (i : ℕ) (o : Option Detection) → Atomic (log_detection w i o)
log_detection-Atomic w i none = unfold log_detection in search atomic_rules
log_detection-Atomic w i (some d) = unfold log_detection in log_event-Atomic w i d _

pub log_attendance-Atomic : (w : ReviewWorld) (i : ℕ) → Atomic (log_attendance w i)
log_attendance-Atomic w i =
    unfold log_attendance in search (atomic_rules, log_detection-Atomic) depth 8
