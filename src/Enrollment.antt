-- ===== src/Enrollment.antt =====
-- backend/app/services/enrollment.py and quality_gate.py: enrolling a face crop for a contact.
-- CompreFace, OpenCV and the disk are not modelled: a run of `enroll_contact_face` takes what they
-- answered as a `World`.
pub mod Frame
pub mod Atomic
pub mod Fails
use seraphim.Common.{
  ℕ, Bool, true, false, not, ◌&&◌, ◌||◌, Option, none, some, [], ◌∷◌, ◌++◌, ltb, ◌==◌, count,
  where_, any, is_some, if◌then◌else◌,
}
use seraphim.Common.Table.{find, put, fresh}
use seraphim.Common.Text.{Text, codes, show, text_eq}
use seraphim.Models.{Db, ComprefaceSubject, FaceSample, SampleSource, SubjectStatus}
use seraphim.Session.{
  Fault, Tx, pure, raise, lift, gets, or_raise, ◌>>=◌, ◌>>◌, modify, commit, rollback, raise_unless,
  one_or_none,
}

-- A decoded image: its shape, and the variance of its Laplacian in hundredths.
pub record Crop : Type 0 where
  pub height : ℕ
  pub width : ℕ
  pub blur : ℕ

abbrev pub min_face_size : ℕ
min_face_size = 100

abbrev pub min_blur_score : ℕ
min_blur_score = 10000

-- `FaceQualityGate.check`, without the reason.
unfoldable pub check_quality : Crop → Bool
check_quality crop =
    if ltb crop.height min_face_size || ltb crop.width min_face_size
    then false
    else not (ltb crop.blur min_blur_score)

-- What `add_subject`, the read of the stored file and `add_example` did between them.
pub data Reply : Type 0 where
  raised no_image : Reply
  image : Text → Reply

-- `saved`: the paths that `save_enrollment` returned, `none` where it raised.
pub record World : Type 0 where
  pub saved : Option (Text × Text)
  pub reply : Reply

unfoldable pub subject_id_str : ℕ → Text
subject_id_str contact_id = codes "contact_" ++ show contact_id

abbrev pub is_purged : SubjectStatus → Bool
is_purged SubjectStatus.purged = true
is_purged _ = false

abbrev pub opt_eq : Option ℕ → ℕ → Bool
opt_eq none n = false
opt_eq (some m) n = m == n

abbrev pub opt_text_eq : Option Text → Text → Bool
opt_text_eq none t = false
opt_text_eq (some s) t = text_eq s t

-- WHERE contact_id = ? AND enrollment_status != 'purged'.
abbrev pub live_subject_of : ℕ → ℕ × ComprefaceSubject → Bool
live_subject_of contact_id (i, s) =
    opt_eq s.contact_id contact_id && not (is_purged s.enrollment_status)

-- WHERE compreface_subject_id = ?.
abbrev pub has_subject_id : Text → ℕ × ComprefaceSubject → Bool
has_subject_id text (i, s) = opt_text_eq s.compreface_subject_id text

abbrev new_subject : ℕ → ComprefaceSubject
new_subject contact_id = record {
  compreface_subject_id = some (subject_id_str contact_id);
  contact_id = some contact_id;
  enrollment_status = SubjectStatus.pending;
  sample_count = 0;
  purged_at = none;
}

-- A flush that fails: the transaction is rolled back.
flush_failed : Tx (ℕ × ComprefaceSubject)
flush_failed = do rollback; raise Fault.integrity_error

add_subject : ℕ → Tx (ℕ × ComprefaceSubject)
add_subject contact_id = do
  key ← gets (λ db. fresh db.subjects)
  modify (λ db. record db { subjects = put key (new_subject contact_id) db.subjects })
  pure (key, new_subject contact_id)

-- The flush of a new subject: the column compreface_subject_id is unique.
insert_subject : ℕ → Tx (ℕ × ComprefaceSubject)
unfolding flush_failed add_subject
insert_subject contact_id = do
  taken ← gets (λ db. any (has_subject_id (subject_id_str contact_id)) db.subjects)
  if taken then flush_failed else add_subject contact_id

-- The candidate of the second lookup counts unless it is purged.
abbrev unless_purged : Option (ℕ × ComprefaceSubject) → Option (ℕ × ComprefaceSubject)
unless_purged none = none
unless_purged (some (i, s)) = if is_purged s.enrollment_status then none else some (i, s)

second_lookup : ℕ → Option (ℕ × ComprefaceSubject) → Tx (Option (ℕ × ComprefaceSubject))
second_lookup contact_id (some found) = pure (some found)
second_lookup contact_id none = do
  rows ← gets (λ db. where_ (has_subject_id (subject_id_str contact_id)) db.subjects)
  candidate ← lift (one_or_none rows)
  pure (unless_purged candidate)

or_insert : ℕ → Option (ℕ × ComprefaceSubject) → Tx (ℕ × ComprefaceSubject)
unfolding insert_subject
or_insert contact_id (some found) = pure found
or_insert contact_id none = insert_subject contact_id

-- Step 3: resolve or create the subject.
resolve_subject : ℕ → Tx (ℕ × ComprefaceSubject)
unfolding second_lookup or_insert
resolve_subject contact_id = do
  rows ← gets (λ db. where_ (live_subject_of contact_id) db.subjects)
  found ← lift (one_or_none rows)
  candidate ← second_lookup contact_id found
  or_insert contact_id candidate

abbrev pub count_samples : Db → Text → ℕ
count_samples db text = count (λ s. text_eq s.compreface_subject_id text) db.samples

-- The inserts and updates of the last step. The row of the sample gets no contact_id.
abbrev pub sample_row : ℕ → SampleSource → Text × Text → Text → FaceSample
sample_row contact_id source paths image_id = record {
  compreface_subject_id = subject_id_str contact_id;
  contact_id = none;
  image_path = paths.0;
  thumb_path = paths.1;
  source = source;
  compreface_image_id = some image_id;
}

abbrev activate : ℕ → ℕ × ComprefaceSubject → Db → Db
activate contact_id (key, subject) db = record db {
  subjects =
      put key
        (record subject {
          sample_count = count_samples db (subject_id_str contact_id);
          enrollment_status = SubjectStatus.active;
        })
        db.subjects;
}

finish_enrollment : ℕ → SampleSource → ℕ × ComprefaceSubject → Text × Text → Reply → Tx FaceSample
finish_enrollment contact_id source subject paths Reply.raised = do
  rollback
  raise Fault.enrollment_failed
finish_enrollment contact_id source subject paths Reply.no_image = do
  rollback
  raise Fault.no_image_id
finish_enrollment contact_id source subject paths (Reply.image image_id) = do
  let sample = sample_row contact_id source paths image_id
  modify (λ db. record db { samples = db.samples ++ sample ∷ [] })
  modify (activate contact_id subject)
  commit
  pure sample

-- `EnrollmentService.enroll_contact_face`.
unfoldable pub enroll_contact_face : World → ℕ → Crop → SampleSource → Tx FaceSample
unfolding check_quality resolve_subject finish_enrollment
enroll_contact_face world contact_id crop source = do
  raise_unless (check_quality crop) Fault.quality_failed
  contact ← gets (λ db. find contact_id db.contacts)
  raise_unless (is_some contact) Fault.contact_not_found
  (key, subject) ← resolve_subject contact_id
  raise_unless (not (is_some subject.purged_at)) Fault.subject_purged
  paths ← or_raise Fault.storage_error world.saved
  finish_enrollment contact_id source (key, subject) paths world.reply
