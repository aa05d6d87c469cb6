-- ===== src/Attendance/Runs.antt =====
-- What logging attendance comes to for a detection of a member at an event.
use seraphim.Common.{
  ℕ, suc, ◌≡◌, ◌⊎◌, inl, inr, Bool-cases, refl, true, false, some, [], ◌∷◌, any, where_, arith,
}
use seraphim.Common.Table.{Table, find}
use seraphim.Common.Text.{Text, is_empty}
use seraphim.Models.{Db, Contact, Detection, ComprefaceSubject, SampleSource}
use seraphim.Session.{Fault, ok, err, handle_logged, Session, ◌>>=◌, pure, one_or_none}
use seraphim.Enrollment.{
  Crop, Reply, check_quality, subject_id_str, live_subject_of, has_subject_id,
}
use seraphim.Enrollment.Fails.{failure, is_image, enroll_contact_face-fails}
use seraphim.Attendance.{
  ReviewWorld, member_name, member_id, log_attendance, log_detection, log_event, log_member,
  maybe_auto_enroll, enroll_unless, enroll_crop, enrolled_subject, truthy, add_log, log_row,
  add_participant, face_participant,
}
use seraphim.Attendance.Names.{member_id-member_name}

-- The participant and the log entry.
abbrev pub attended : ℕ → ℕ → ℕ → Detection → Db → Db
attended c e key d db = add_log (log_row key d) (add_participant (face_participant c e key) db)

abbrev pub attended_in : ℕ → ℕ → ℕ → Detection → Session → Session
attended_in c e key d s = record s { work = attended c e key d s.work }

module _ (w : ReviewWorld) (key c e : ℕ) (d : Detection) (s : Session)
    (seen : find key s.work.detections ≡ some d) (at_event : d.event_id ≡ some (suc e))
    (matched : d.matched_name ≡ some (member_name c)) where
  pub log_attendance-member :
      log_attendance w key s ≡ maybe_auto_enroll w d c (attended_in c (suc e) key d s)
  unfolding log_attendance log_detection log_event log_member ◌>>=◌
  log_attendance-member =
      let named : member_id d.matched_name ≡ some c = rw matched (member_id-member_name c) in
      let held : truthy d.event_id ≡ some (suc e) = rw at_event (ground arith) in
      rw seen (rw held (rw named refl))

not_enrolled :
    (text : Text) (rows : Table ComprefaceSubject)
    → any (has_subject_id text) rows ≡ false
    → where_ (enrolled_subject text) rows ≡ []
unfolding where_ any
not_enrolled text [] h = refl
not_enrolled text (x ∷ rows) h = ground (arith, not_enrolled text rows)

-- Nothing is enrolled without an image, or for a contact with an active subject with samples.
pub maybe_auto_enroll-nothing :
    (w : ReviewWorld) (d : Detection) (c : ℕ) (s : Session)
    → (is_empty d.image_path ≡ true)
      ⊎ ((x : ℕ × ComprefaceSubject) × (where_ (enrolled_subject (subject_id_str c)) s.work.subjects
            ≡ x ∷ []))
    → maybe_auto_enroll w d c s ≡ (ok tt, s)
unfolding maybe_auto_enroll enroll_unless one_or_none pure ◌>>=◌
maybe_auto_enroll-nothing w d c s (inl no_image) = rw no_image refl
maybe_auto_enroll-nothing w d c s (inr (x, one)) = elim (Bool-cases (is_empty d.image_path)) [
  | inl no_image ↦ rw no_image refl
  | inr pictured ↦ rw pictured (rw one refl)
]

failure_handled :
    (r : Reply) (s : Session) → handle_logged (err (failure r)) s ≡ (err Fault.missing_greenlet, s)
failure_handled Reply.raised s = refl
failure_handled Reply.no_image s = refl
failure_handled (Reply.image id) s = refl

module _ (w : ReviewWorld) (c : ℕ) (d : Detection) (crop : Crop) (contact : Contact)
    (paths : Text × Text) (s : Session) (pictured : is_empty d.image_path ≡ false)
    (read : w.image ≡ some crop) (sharp : check_quality crop ≡ true)
    (known : find c s.work.contacts ≡ some contact)
    (no_subject : any (live_subject_of c) s.work.subjects ≡ false)
    (no_id : any (has_subject_id (subject_id_str c)) s.work.subjects ≡ false)
    (saved : w.world.saved ≡ some paths) (failed : is_image w.world.reply ≡ false) where
  -- The session is back at the committed rows, and the handler raises.
  pub maybe_auto_enroll-fails :
      maybe_auto_enroll w d c s ≡ (err Fault.missing_greenlet, record s { work = s.committed })
  unfolding maybe_auto_enroll enroll_unless enroll_crop one_or_none ◌>>=◌
  maybe_auto_enroll-fails = rw pictured (
      rw (not_enrolled (subject_id_str c) s.work.subjects no_id) (
        rw read (
          rw
            (enroll_contact_face-fails w.world c crop SampleSource.detection contact paths s sharp
              known no_subject no_id saved failed)
            (failure_handled w.world.reply (record s { work = s.committed })))))
