-- ===== src/Consent/Purge.antt =====
-- backend/app/services/biometric_purge.py: the erasure of what is kept of a contact's face. The disk
-- and CompreFace are answers that are passed in: how many files each deletion removed and how many
-- errors it met, and whether CompreFace deleted the subject (or did not know it).
use seraphim.Common.{
  ℕ, ◌+◌, Bool, true, false, not, ◌&&◌, any, Option, none, some, List, [], ◌∷◌, ◌==◌, where_,
  update_rows, length, is_some, if◌then◌else◌,
}
use seraphim.Common.Table.{find}
use seraphim.Common.Text.{Text, text_eq, is_empty}
use seraphim.Consent.{
  BiometricConsent, Biometrics, ConsentAction, FaceDetection, Logged, PurgeDetail, audited, is_of,
}
use seraphim.Models.{ComprefaceSubject, FaceSample, SubjectStatus}
use seraphim.Session.{Fault, Result, ok, err, one_or_none}

-- What was deleted, and the errors.
pub record Erased : Type 0 where
  pub files : ℕ
  pub errors : ℕ

pub record PurgeWorld : Type 0 where
  pub now : ℕ
  pub erase_enrolled : Text → Erased
  pub erase_image : Text → Erased
  pub deletes_subject : Text → Bool

abbrev pub no_file : Erased
no_file = record { files = 0; errors = 0 }

abbrev pub both_erased : Erased → Erased → Erased
both_erased a b = record { files = a.files + b.files; errors = a.errors + b.errors }

abbrev pub truthy : Option Text → Option Text
truthy none = none
truthy (some []) = none
truthy (some (c ∷ s)) = some (c ∷ s)

abbrev pub if_named {ℓ} : {A : Type ℓ} → A → (Text → A) → Option Text → A
if_named default f none = default
if_named default f (some id) = f id

abbrev pub erase_path : PurgeWorld → Text → Erased
erase_path w path = if is_empty path then no_file else w.erase_image path

unfoldable pub erase_samples : PurgeWorld → List FaceSample → Erased
erase_samples w [] = no_file
erase_samples w (s ∷ samples) =
    both_erased (both_erased (erase_path w s.image_path) (erase_path w s.thumb_path))
      (erase_samples w samples)

unfoldable pub erase_crops : PurgeWorld → List FaceDetection → Erased
erase_crops w [] = no_file
erase_crops w (d ∷ detections) = both_erased (erase_path w d.image_path) (erase_crops w detections)

abbrev same_subject : Text → Option Text → Bool
same_subject id none = false
same_subject id (some s) = text_eq s id

abbrev pub linked_to : Text → FaceDetection → Bool
linked_to id d = same_subject id d.compreface_subject_id && not (is_some d.deleted_at)

abbrev pub is_linked : Option Text → FaceDetection → Bool
is_linked none d = false
is_linked (some id) d = linked_to id d

abbrev pub anonymised : ℕ → FaceDetection → FaceDetection
anonymised now d = record d {
  image_path = [];
  deleted_at = some now;
  compreface_subject_id = none;
  matched_name = none;
}

abbrev pub sample_of : ℕ → FaceSample → Bool
sample_of id s = is_of id s.contact_id

abbrev pub subject_of : ℕ → ComprefaceSubject → Bool
subject_of id s = is_of id s.contact_id

abbrev pub stamped : ComprefaceSubject → ComprefaceSubject
stamped s = record s {
  enrollment_status = SubjectStatus.purged;
  compreface_subject_id = none;
  sample_count = 0;
}

abbrev pub is_clean : PurgeDetail → Bool
is_clean d = d.compreface_deleted && d.errors == 0

abbrev purged_if : Bool → ℕ → Option ℕ → Option ℕ
purged_if clean now old = if clean then some now else old

-- The consent row after a purge; a contact without one gets a stub.
abbrev pub noted : ℕ → Bool → PurgeDetail → Option BiometricConsent → BiometricConsent
noted now clean detail (some c) = record c {
  purged_at = purged_if clean now c.purged_at;
  purge_detail = some detail;
  updated_at = now;
}
noted now clean detail none = record {
  consent_given = false;
  consented_at = none;
  basis_note = none;
  recorded_at = now;
  recorded_by_id = none;
  retention_until = none;
  deletion_requested_at = none;
  deletion_requested_by_id = none;
  purged_at = purged_if clean now none;
  purge_detail = some detail;
  updated_at = now;
}

pub data PurgeStatus : Type 0 where
  already_purged purged partial_failure : PurgeStatus

abbrev outcome : Bool → PurgeStatus
outcome clean = if clean then PurgeStatus.purged else PurgeStatus.partial_failure

abbrev pub purge_action : Bool → ConsentAction
purge_action clean =
    if clean then ConsentAction.biometric_purged else ConsentAction.biometric_purge_failed

abbrev pub finish_purge :
    ℕ → Option ℕ → ℕ → Bool → PurgeDetail → Biometrics → Result PurgeStatus × Biometrics
finish_purge now actor id clean detail db = (
  ok (outcome clean),
  audited actor (purge_action clean) id none (Logged.of_detail detail)
      (noted now clean detail (find id db.consents)) db,
)

abbrev pub subject_id : Option ComprefaceSubject → Option Text
subject_id none = none
subject_id (some s) = s.compreface_subject_id

-- What a fresh purge finds and erases, before the rows change.
abbrev pub fresh_detail : PurgeWorld → ℕ → Option Text → Biometrics → PurgeDetail
fresh_detail w id subject db =
    let samples = where_ (sample_of id) db.samples in
    let linked = where_ (is_linked (truthy subject)) db.detections in
    let erased =
      both_erased (if_named no_file w.erase_enrolled (truthy subject))
        (both_erased (erase_samples w samples) (erase_crops w linked)) in
    let deleted = if_named true w.deletes_subject (truthy subject) in
    record {
      files_deleted = erased.files;
      samples_deleted = length samples;
      detections_cleared = length linked;
      compreface_deleted = deleted;
      errors = erased.errors + (if deleted then 0 else 1);
      subject_id = subject;
    }

abbrev pub erased_rows : ℕ → ℕ → Option Text → Biometrics → Biometrics
erased_rows now id subject db = record db {
  samples = where_ (λ s. not (sample_of id s)) db.samples;
  detections = update_rows (is_linked (truthy subject)) (anonymised now) db.detections;
  subjects = update_rows (subject_of id) stamped db.subjects;
}

-- `_fresh_purge`.
abbrev pub fresh_purge :
    PurgeWorld
    → ℕ
    → Option ℕ
    → Option ComprefaceSubject
    → Biometrics
    → Result PurgeStatus × Biometrics
fresh_purge w id actor subject db =
    let detail = fresh_detail w id (subject_id subject) db in
    finish_purge w.now actor id (is_clean detail) detail
      (erased_rows w.now id (subject_id subject) db)

-- `_retry_partial`: the rows were erased before; only the errors of this attempt count.
abbrev pub retry_partial :
    PurgeWorld → ℕ → Option ℕ → PurgeDetail → Biometrics → Result PurgeStatus × Biometrics
retry_partial w id actor detail db =
    let extra = if_named no_file w.erase_enrolled (truthy detail.subject_id) in
    let deleted = if_named true w.deletes_subject (truthy detail.subject_id) in
    let errors = (if extra.errors == 0 then 0 else 1) + (if deleted then 0 else 1) in
    let new = record detail {
      compreface_deleted = deleted;
      errors = detail.errors + errors;
      files_deleted = detail.files_deleted + extra.files;
    } in
    finish_purge w.now actor id (deleted && errors == 0) new db

abbrev is_complete : Option ℕ → PurgeDetail → Bool
is_complete purged_at detail = is_some purged_at && detail.compreface_deleted

abbrev pub purge_known :
    PurgeWorld
    → ℕ
    → Option ℕ
    → Option ComprefaceSubject
    → Option ℕ
    → Option PurgeDetail
    → Biometrics
    → Result PurgeStatus × Biometrics
purge_known w id actor subject purged_at none db = fresh_purge w id actor subject db
purge_known w id actor subject purged_at (some detail) db =
    if is_complete purged_at detail
    then (ok PurgeStatus.already_purged, db)
    else retry_partial w id actor detail db

abbrev pub is_contact : ℕ → Biometrics → Bool
is_contact id db = any (λ j. j == id) db.contacts

-- Without a consent row the stub's foreign key needs the contact. Where there is none the session is
-- lost; what the disk and CompreFace deleted before is gone.
abbrev pub first_purge :
    PurgeWorld
    → ℕ
    → Option ℕ
    → Option ComprefaceSubject
    → Biometrics
    → Result PurgeStatus × Biometrics
first_purge w id actor subject db =
    if is_contact id db then fresh_purge w id actor subject db else (err Fault.integrity_error, db)

abbrev pub purge_row :
    PurgeWorld
    → ℕ
    → Option ℕ
    → Option BiometricConsent
    → Option ComprefaceSubject
    → Biometrics
    → Result PurgeStatus × Biometrics
purge_row w id actor none subject db = first_purge w id actor subject db
purge_row w id actor (some c) subject db =
    purge_known w id actor subject c.purged_at c.purge_detail db

abbrev pub purge_subject :
    PurgeWorld
    → ℕ
    → Option ℕ
    → Result (Option ComprefaceSubject)
    → Biometrics
    → Result PurgeStatus × Biometrics
purge_subject w id actor (err e) db = (err e, db)
purge_subject w id actor (ok subject) db = purge_row w id actor (find id db.consents) subject db

unfoldable pub purge : PurgeWorld → ℕ → Option ℕ → Biometrics → Result PurgeStatus × Biometrics
unfolding erase_samples erase_crops
purge w id actor db = purge_subject w id actor (one_or_none (where_ (subject_of id) db.subjects)) db
