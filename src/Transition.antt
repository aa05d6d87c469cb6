-- ===== src/Transition.antt =====
-- backend/app/services/fr_transition.py: subjects and detections of the legacy system are mapped to the
-- contacts, and their contacts get consent rows. The digits of a legacy name are decimal.
pub mod Backfill
use seraphim.Common.{
  ℕ, zero, suc, ◌+◌, Bool, true, false, not, ◌&&◌, Option, none, some, List, [], ◌∷◌, ◌==◌, any,
  count, where_, map, length, is_some, if◌then◌else◌,
}
use seraphim.Common.Table.{Table, find, put}
use seraphim.Common.Text.{Text, codes, parse_int, show}
use seraphim.Consent.{BiometricConsent}
use seraphim.Models.{SubjectStatus}

pub record LegacySubject : Type 0 where
  pub subject_name : Text
  pub contact_id : Option ℕ
  pub enrollment_status : SubjectStatus

-- The value of an AdminSetting: a dict that may have "value", or a legacy scalar.
pub data SettingValue : Type 0 where
  dict_ : Option Bool → SettingValue
  scalar : Bool → SettingValue

-- The external ids of the contacts, the subjects, the matched names of the detections, the consents
-- and the setting "enroll_without_consent".
pub record Legacy : Type 0 where
  pub contacts : Table (Option ℕ)
  pub subjects : Table LegacySubject
  pub matched_names : Table (Option Text)
  pub consents : Table BiometricConsent
  pub enroll_without_consent : Option SettingValue

pub record RemapReport : Type 0 where
  pub subjects_remapped : ℕ
  pub subjects_orphaned : ℕ
  pub detections_event_remapped : ℕ
  pub detections_name_remapped : ℕ
  pub orphaned_subject_ids : List ℕ

pub record ConsentBackfillReport : Type 0 where
  pub consent_rows_created : ℕ
  pub already_had_consent : ℕ
  pub enroll_without_consent_set : Bool

-- What follows a prefix.
unfoldable pub drop_prefix : Text → Text → Option Text
drop_prefix [] s = some s
drop_prefix (c ∷ p) [] = none
drop_prefix (c ∷ p) (d ∷ s) = let rest = drop_prefix p s in if c == d then rest else none

abbrev number_of : Option Text → Option ℕ
number_of none = none
number_of (some s) = parse_int s

-- `_MEMBER_PREFIX`.
unfoldable pub external_id : Text → Option ℕ
unfolding drop_prefix
external_id name = number_of (drop_prefix (codes "member:") name)

abbrev is_external : ℕ → Option ℕ → Bool
is_external k none = false
is_external k (some n) = n == k

abbrev or_here : Option ℕ → Bool → ℕ → Option ℕ
or_here (some later) here id = some later
or_here none here id = if here then some id else none

-- `ext_to_contact.get`: the last contact with the id.
unfoldable pub contact_by_external : ℕ → Table (Option ℕ) → Option ℕ
contact_by_external k [] = none
contact_by_external k ((id, external) ∷ rows) =
    or_here (contact_by_external k rows) (is_external k external) id

abbrev by_external : Table (Option ℕ) → Option ℕ → Option ℕ
by_external contacts none = none
by_external contacts (some k) = contact_by_external k contacts

-- The contact that a legacy name stands for.
unfoldable pub contact_named : Table (Option ℕ) → Text → Option ℕ
unfolding contact_by_external external_id
contact_named contacts name = by_external contacts (external_id name)

abbrev pub is_unmapped : ℕ × LegacySubject → Bool
is_unmapped (id, s) = not (is_some s.contact_id)

abbrev pub is_remapped : Table (Option ℕ) → ℕ × LegacySubject → Bool
is_remapped contacts row = is_unmapped row && is_some (contact_named contacts row.1.subject_name)

abbrev pub remap_subject : Table (Option ℕ) → ℕ × LegacySubject → ℕ × LegacySubject
remap_subject contacts row =
    if is_remapped contacts row
    then (row.0, record row.1 { contact_id = contact_named contacts row.1.subject_name })
    else row

abbrev named_contact : Table (Option ℕ) → Option Text → Option ℕ
named_contact contacts none = none
named_contact contacts (some name) = contact_named contacts name

abbrev renamed : Option Text → Option ℕ → Option Text
renamed old none = old
renamed old (some id) = some (show id)

abbrev pub remap_name : Table (Option ℕ) → ℕ × Option Text → ℕ × Option Text
remap_name contacts (id, name) = (id, renamed name (named_contact contacts name))

abbrev is_active : SubjectStatus → Bool
is_active status = elim status [ SubjectStatus.active ↦ true | _ ↦ false ]

abbrev pub is_orphaned : ℕ × LegacySubject → Bool
is_orphaned row = is_unmapped row && is_active row.1.enrollment_status

unfoldable pub remap_subjects : Legacy → RemapReport × Legacy
unfolding contact_named
remap_subjects db =
    let subjects = map (remap_subject db.contacts) db.subjects in
    let orphans = where_ is_orphaned subjects in
    (
      record {
        subjects_remapped = count (is_remapped db.contacts) db.subjects;
        subjects_orphaned = length orphans;
        detections_event_remapped = 0;
        detections_name_remapped =
            count (λ row. is_some (named_contact db.contacts row.1)) db.matched_names;
        orphaned_subject_ids = map (λ row. row.0) orphans;
      },
      record db {
        subjects = subjects;
        matched_names = map (remap_name db.contacts) db.matched_names;
      },
    )

-- A consent row of a contact that was enrolled before the cutover.
abbrev pub unknown_consent : ℕ → BiometricConsent
unknown_consent now = record {
  consent_given = false;
  consented_at = some now;
  basis_note = some (codes "pre-cutover-unknown");
  recorded_at = now;
  recorded_by_id = none;
  retention_until = none;
  deletion_requested_at = none;
  deletion_requested_by_id = none;
  purged_at = none;
  purge_detail = none;
  updated_at = now;
}

-- The contacts of the active subjects.
unfoldable pub qualifying : Table LegacySubject → List ℕ
qualifying [] = []
qualifying ((id, s) ∷ rows) =
    let rest = qualifying rows in
    elim s.contact_id [
      | none ↦ rest
      | some contact ↦ if is_active s.enrollment_status then contact ∷ rest else rest
    ]

-- How many rows were created, how many were there, and the rows.
pub record Backfilled : Type 0 where
  pub created : ℕ
  pub already : ℕ
  pub rows : Table BiometricConsent

unfoldable pub backfill_rows : ℕ → List ℕ → Table BiometricConsent → Backfilled
backfill_rows now [] rows = record { created = 0; already = 0; rows = rows }
backfill_rows now (contact ∷ contacts) rows =
    let old = backfill_rows now contacts rows in
    let new = backfill_rows now contacts (put contact (unknown_consent now) rows) in
    if is_some (find contact rows)
    then record old { already = old.already + 1 }
    else record new { created = new.created + 1 }

-- Where nobody qualifies only the setting changes.
unfoldable pub backfill_consent : ℕ → Legacy → ConsentBackfillReport × Legacy
unfolding backfill_rows qualifying
backfill_consent now db =
    let done = backfill_rows now (qualifying db.subjects) db.consents in
    (
      record {
        consent_rows_created = done.created;
        already_had_consent = done.already;
        enroll_without_consent_set = true;
      },
      record db {
        consents = done.rows;
        enroll_without_consent = some (SettingValue.dict_ (some true));
      },
    )

abbrev setting_bool : Option SettingValue → Bool
setting_bool none = false
setting_bool (some (SettingValue.dict_ none)) = false
setting_bool (some (SettingValue.dict_ (some b))) = b
setting_bool (some (SettingValue.scalar b)) = b

unfoldable pub get_enroll_without_consent : Legacy → Bool
get_enroll_without_consent db = setting_bool db.enroll_without_consent
