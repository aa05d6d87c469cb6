-- ===== src/Consent/Emptied.antt =====
-- Which rows a first purge leaves of a contact, and what `get_status` reports.
use seraphim.Common.{ℕ, ◌≡◌, Bool, true, false, not, Option, none, some, count, where_, is_some}
use seraphim.Common.Table.{find}
use seraphim.Consent.{BiometricConsent, Biometrics, get_status}
use seraphim.Consent.Erasure.{status_of}
use seraphim.Consent.Purge.{PurgeWorld, is_linked, sample_of, subject_id, truthy}
use seraphim.Models.{ComprefaceSubject}
use seraphim.Session.{ok}

abbrev pub is_new : Option BiometricConsent → Bool
is_new none = true
is_new (some c) = not (is_some c.purge_detail)

module _ (w : PurgeWorld) (id : ℕ) (actor : Option ℕ) (db : Biometrics) where
  -- The rows that carry the contact's id are gone, and its status row stays.
  abbrev Emptied : Option ComprefaceSubject → Biometrics → Type 0
  Emptied subject after =
      (get_status after id
        ≡ ok (record {
          status = status_of id after;
          row = find id after.consents;
          enrolled_photo_count = 0;
          subject_active = false;
        }))
      × (after.samples ≡ where_ (λ s. not (sample_of id s)) db.samples)
      × (count (is_linked (truthy (subject_id subject))) after.detections ≡ 0)
