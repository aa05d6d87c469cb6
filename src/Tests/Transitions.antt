-- ===== src/Tests/Transitions.antt =====
-- The transition of two legacy subjects, of which one has a contact.
use seraphim.Common.{any, count, false, ℕ, ◌≡◌, is_some, refl, true, none, some, [], ◌∷◌, where_}
use seraphim.Common.Table.{find}
use seraphim.Common.Text.{codes, parse_int, show}
use seraphim.Consent.{ConsentStatus, resolve_status}
use seraphim.Models.{SubjectStatus}
use seraphim.Transition.{
  Legacy, LegacySubject, backfill_consent, contact_named, drop_prefix, external_id,
  contact_by_external, get_enroll_without_consent, remap_subjects,
}
use seraphim.Transition.Backfill.{
  backfill_consent-backfill_consent, filled, has_contact, is_enrolled,
}

abbrev subject : ℕ → LegacySubject
subject n = record {
  subject_name = codes "member:42";
  contact_id = none;
  enrollment_status = SubjectStatus.active;
}

abbrev legacy : Legacy
legacy = record {
  contacts = (7, some 42) ∷ (8, none) ∷ [];
  subjects = (1, subject 42) ∷ (2, record (subject 42) { subject_name = codes "member:9" }) ∷ [];
  matched_names = (5, some (codes "member:42")) ∷ [];
  consents = [];
  enroll_without_consent = none;
}

abbrev mapped : Legacy
mapped = (remap_subjects legacy).1

maps : (remap_subjects legacy).0.orphaned_subject_ids ≡ 2 ∷ []
unfolding remap_subjects contact_named external_id drop_prefix parse_int contact_by_external where_
maps = refl

renames : mapped.matched_names ≡ (5, some (codes "7")) ∷ []
unfolding remap_subjects contact_named external_id drop_prefix parse_int contact_by_external show
renames = refl

backfill_consent-backfill_consent_example :
    let after = (backfill_consent 100 mapped).1 in
    ((id : ℕ)
      → find id after.consents
        ≡ filled 100 (any (is_enrolled id) mapped.subjects) (find id mapped.consents))
    × ((id : ℕ)
        → is_some (find id mapped.consents) ≡ false
        → any (is_enrolled id) mapped.subjects ≡ true
        → resolve_status (find id after.consents) ≡ ConsentStatus.revoked)
    × (get_enroll_without_consent after ≡ true)
    × (backfill_consent 200 after ≡ (
      record {
        consent_rows_created = 0;
        already_had_consent = count has_contact mapped.subjects;
        enroll_without_consent_set = true;
      },
      after,
    ))
backfill_consent-backfill_consent_example = backfill_consent-backfill_consent 100 200 mapped
