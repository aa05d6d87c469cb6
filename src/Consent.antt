-- ===== src/Consent.antt =====
-- backend/app/services/biometric_consent.py: the consent of a contact. The table is keyed by the
-- contact, of which it has one row. Times are days. The caller commits.
pub mod Grants
pub mod Purge
pub mod Erasure
pub mod Emptied
pub mod Repeats
pub mod Marks
pub mod Lasting
use seraphim.Common.{
  ℕ, ◌+◌, ◌*◌, Bool, true, false, not, ◌&&◌, Option, none, some, List, [], ◌∷◌, ◌++◌, ◌==◌, count,
  any, where_, is_some, if◌then◌else◌,
}
use seraphim.Common.Table.{Table, find, put}
use seraphim.Common.Text.{Text}
use seraphim.Models.{ComprefaceSubject, FaceSample, SubjectStatus}
use seraphim.Session.{Fault, Result, ok, err, one_or_none}

-- `purge_detail`: the subject that CompreFace was to delete, and whether it did.
pub record PurgeDetail : Type 0 where
  pub files_deleted : ℕ
  pub samples_deleted : ℕ
  pub detections_cleared : ℕ
  pub compreface_deleted : Bool
  pub errors : ℕ
  pub subject_id : Option Text

pub record BiometricConsent : Type 0 where
  pub consent_given : Bool
  pub consented_at : Option ℕ
  pub basis_note : Option Text
  pub recorded_at : ℕ
  pub recorded_by_id : Option ℕ
  pub retention_until : Option ℕ
  pub deletion_requested_at : Option ℕ
  pub deletion_requested_by_id : Option ℕ
  pub purged_at : Option ℕ
  pub purge_detail : Option PurgeDetail
  pub updated_at : ℕ

pub data ConsentStatus : Type 0 where
  none_ purged given revoked pending : ConsentStatus

pub data ConsentAction : Type 0 where
  consent_recorded consent_updated consent_revoked deletion_requested : ConsentAction
  biometric_purged biometric_purge_failed : ConsentAction

-- `_snapshot`.
pub record ConsentSnapshot : Type 0 where
  pub consent_given : Bool
  pub consented_at : Option ℕ
  pub basis_note : Option Text
  pub retention_until : Option ℕ
  pub deletion_requested_at : Option ℕ
  pub purged_at : Option ℕ

abbrev pub snapshot_of : BiometricConsent → ConsentSnapshot
snapshot_of c = record {
  consent_given = c.consent_given;
  consented_at = c.consented_at;
  basis_note = c.basis_note;
  retention_until = c.retention_until;
  deletion_requested_at = c.deletion_requested_at;
  purged_at = c.purged_at;
}

-- What an entry of the log says of the new state: a snapshot_of of the row, or what was purged.
pub data Logged : Type 0 where
  of_row : ConsentSnapshot → Logged
  of_detail : PurgeDetail → Logged

pub record ConsentAudit : Type 0 where
  pub actor_id : Option ℕ
  pub action : ConsentAction
  pub contact_id : ℕ
  pub before : Option ConsentSnapshot
  pub after : Logged

-- The rows: which contacts there are, and what is kept of their faces. A detection has its image and
-- the subject that it was matched with.
pub record FaceDetection : Type 0 where
  pub image_path : Text
  pub compreface_subject_id : Option Text
  pub matched_name : Option Text
  pub deleted_at : Option ℕ

pub record Biometrics : Type 0 where
  pub contacts : List ℕ
  pub consents : Table BiometricConsent
  pub samples : List FaceSample
  pub subjects : List ComprefaceSubject
  pub detections : List FaceDetection
  pub audit : List ConsentAudit

abbrev pub is_of : ℕ → Option ℕ → Bool
is_of id none = false
is_of id (some n) = n == id

abbrev pub resolve_flags : Option ℕ → Bool → Option ℕ → ConsentStatus
resolve_flags (some t) consent_given consented_at = ConsentStatus.purged
resolve_flags none true consented_at = ConsentStatus.given
resolve_flags none false (some t) = ConsentStatus.revoked
resolve_flags none false none = ConsentStatus.pending

-- `_resolve_status`, and "none" where there is no row.
abbrev pub resolve_status : Option BiometricConsent → ConsentStatus
resolve_status none = ConsentStatus.none_
resolve_status (some c) = resolve_flags c.purged_at c.consent_given c.consented_at

pub record StatusView : Type 0 where
  pub status : ConsentStatus
  pub row : Option BiometricConsent
  pub enrolled_photo_count : ℕ
  pub subject_active : Bool

abbrev pub is_active_subject : ℕ → ComprefaceSubject → Bool
is_active_subject id s =
    is_of id s.contact_id && (elim s.enrollment_status [ SubjectStatus.active ↦ true | _ ↦ false ])

abbrev pub view : Biometrics → ℕ → Result (Option ComprefaceSubject) → Result StatusView
view db id (err e) = err e
view db id (ok subject) = ok (record {
  status = resolve_status (find id db.consents);
  row = find id db.consents;
  enrolled_photo_count = count (λ s. is_of id s.contact_id) db.samples;
  subject_active = is_some subject;
})

unfoldable pub get_status : Biometrics → ℕ → Result StatusView
get_status db id = view db id (one_or_none (where_ (is_active_subject id) db.subjects))

-- The row is written, and the change is logged.
abbrev pub audited :
    Option ℕ
    → ConsentAction
    → ℕ
    → Option ConsentSnapshot
    → Logged
    → BiometricConsent
    → Biometrics
    → Biometrics
audited actor action id before after row db = record db {
  consents = put id row db.consents;
  audit =
      db.audit
      ++ record {
        actor_id = actor;
        action = action;
        contact_id = id;
        before = before;
        after = after;
      }
        ∷ [];
}

abbrev snapshots : Option BiometricConsent → Option ConsentSnapshot
snapshots none = none
snapshots (some c) = some (snapshot_of c)

-- A change of a row that is there, or the first row.
abbrev pub saved :
    ℕ → ConsentAction → ℕ → Option BiometricConsent → BiometricConsent → Biometrics → Biometrics
saved actor action id before row db =
    audited (some actor) action id (snapshots before) (Logged.of_row (snapshot_of row)) row db
