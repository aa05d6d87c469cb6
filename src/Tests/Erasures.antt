-- ===== src/Tests/Erasures.antt =====
-- The purge of a contact whose CompreFace subject is deleted at the second attempt.
use seraphim.Common.{
  ℕ, ◌≡◌, refl, Bool, true, false, none, some, List, [], ◌∷◌, count, any, where_, update_rows,
}
use seraphim.Common.Table.{find, put}
use seraphim.Common.Text.{codes, text_eq}
use seraphim.Consent.{Biometrics, ConsentStatus}
use seraphim.Consent.Erasure.{status_of}
use seraphim.Consent.Lasting.{ConsentRequest, serve_consents, serve_consents-status_of}
use seraphim.Consent.Purge.{PurgeStatus, PurgeWorld, erase_crops, erase_samples, purge}
use seraphim.Consent.Repeats.{purge-purge}
use seraphim.Models.{ComprefaceSubject, SampleSource, SubjectStatus}
use seraphim.Session.{ok, one_or_none}

abbrev world : ℕ → Bool → PurgeWorld
world now deletes = record {
  now = now;
  erase_enrolled = λ id. record { files = 2; errors = 0 };
  erase_image = λ path. record { files = 1; errors = 0 };
  deletes_subject = λ id. deletes;
}

abbrev subject : ComprefaceSubject
subject = record {
  compreface_subject_id = some (codes "c1");
  contact_id = some 1;
  enrollment_status = SubjectStatus.active;
  sample_count = 1;
  purged_at = none;
}

abbrev before : Biometrics
before = record {
  contacts = 1 ∷ [];
  consents = [];
  samples =
      record {
        compreface_subject_id = codes "c1";
        contact_id = some 1;
        image_path = codes "a.jpg";
        thumb_path = [];
        source = SampleSource.manual;
        compreface_image_id = none;
      }
      ∷ [];
  subjects = subject ∷ [];
  detections =
      record {
        image_path = codes "d.jpg";
        compreface_subject_id = some (codes "c1");
        matched_name = none;
        deleted_at = none;
      }
      ∷ [];
  audit = [];
}

abbrev failed : Biometrics
failed = (purge (world 10 false) 1 (some 8) before).1

fails : (purge (world 10 false) 1 (some 8) before).0 ≡ ok PurgeStatus.partial_failure
unfolding purge find put where_ update_rows text_eq one_or_none erase_samples erase_crops count any
fails = refl

retries : (purge (world 20 true) 1 (some 8) failed).0 ≡ ok PurgeStatus.purged
unfolding purge find put where_ update_rows text_eq one_or_none erase_samples erase_crops count any
retries = refl

abbrev purged : Biometrics
purged = (purge (world 20 true) 1 (some 8) failed).1

purge-purge_example :
    (status_of 1 purged ≡ ConsentStatus.purged)
    × (purge (world 30 false) 1 none purged ≡ (ok PurgeStatus.already_purged, purged))
purge-purge_example = purge-purge (world 20 true) (world 30 false) 1 (some 8) none failed retries

was_purged : status_of 1 purged ≡ ConsentStatus.purged
unfolding purge find put where_ update_rows text_eq one_or_none erase_samples erase_crops count any
was_purged = refl

abbrev consents : List ConsentRequest
consents =
    ConsentRequest.record_ (record { now = 40; default_years = 2 }) 1 8 none none
    ∷ ConsentRequest.revoke_ (record { now = 50; default_years = 2 }) 1 8
    ∷ ConsentRequest.purge_ (world 60 false) 1 (some 8)
    ∷ []

serve_consents-status_of_example :
    status_of 1 (serve_consents consents purged) ≡ ConsentStatus.purged
serve_consents-status_of_example = serve_consents-status_of 1 consents purged was_purged
