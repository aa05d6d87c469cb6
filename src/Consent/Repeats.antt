-- ===== src/Consent/Repeats.antt =====
-- A purge after a purge.
use seraphim.Common.{
  ℕ, ◌≡◌, refl, Bool, true, ◌&&◌, Option, none, some, where_, is_some, Bool-cases, inl, inr,
}
use seraphim.Common.Table.{find}
use seraphim.Consent.{
  BiometricConsent, Biometrics, ConsentStatus, PurgeDetail, resolve_flags, resolve_status,
}
use seraphim.Consent.Erasure.{
  and_left, detail_deleted, again, is_erased, mapped_one, row-Marks, stamped_rows, status_of,
}
use seraphim.Consent.Purge.{
  is_contact, PurgeStatus, PurgeWorld, fresh_purge, purge, purge_known, purge_row, purge_subject,
  subject_of,
}
use seraphim.Models.{ComprefaceSubject}
use seraphim.Session.{Result, ok, err, one_or_none}

-- The contact has one subject, or none.
abbrev HasOne : ℕ → Biometrics → Type 0
HasOne id db =
    (subject : Option ComprefaceSubject) × (one_or_none (where_ (subject_of id) db.subjects)
      ≡ ok subject)

module _ (w : PurgeWorld) (id : ℕ) (actor : Option ℕ) (db : Biometrics) (here : HasOne id db) where
  fresh-HasOne :
      (subject : Option ComprefaceSubject) → HasOne id (fresh_purge w id actor subject db).1
  fresh-HasOne subject =
      let (later, e) = mapped_one (where_ (subject_of id) db.subjects) here.0 here.1 in
      (later, rw (stamped_rows id db.subjects) e)

  known-HasOne :
      (subject : Option ComprefaceSubject) (purged_at : Option ℕ) (detail : Option PurgeDetail)
      → HasOne id (purge_known w id actor subject purged_at detail db).1
  known-HasOne subject purged_at none = fresh-HasOne subject
  known-HasOne subject purged_at (some detail) =
      elim (Bool-cases (is_some purged_at && detail.compreface_deleted)) [
        | inl done ↦ rw done here
        | inr partial ↦ rw partial here
      ]

  row-HasOne :
      (subject : Option ComprefaceSubject) (row : Option BiometricConsent)
      → HasOne id (purge_row w id actor row subject db).1
  row-HasOne subject none = elim (Bool-cases (is_contact id db)) [
    | inl there ↦ rw there (fresh-HasOne subject)
    | inr missing ↦ rw missing here
  ]
  row-HasOne subject (some c) = known-HasOne subject c.purged_at c.purge_detail

again_at :
    (w : PurgeWorld) (id : ℕ) (actor : Option ℕ) (db : Biometrics)
    → HasOne id db
    → is_erased (find id db.consents) ≡ true
    → purge w id actor db ≡ (ok PurgeStatus.already_purged, db)
unfolding purge
again_at w id actor db (subject, one) h =
    rw one (again w id actor (find id db.consents) subject db h)

flags_purged :
    (purged_at : Option ℕ) (given : Bool) (consented_at : Option ℕ)
    → is_some purged_at ≡ true
    → resolve_flags purged_at given consented_at ≡ ConsentStatus.purged
flags_purged none given consented_at h = absurd (cc h)
flags_purged (some t) given consented_at h = refl

erased_flags :
    (c : Option BiometricConsent) → is_erased c ≡ true → resolve_status c ≡ ConsentStatus.purged
erased_flags none h = absurd (cc h)
erased_flags (some c) h =
    flags_purged c.purged_at c.consent_given c.consented_at
      (and_left (is_some c.purged_at) (detail_deleted c.purge_detail) h)

-- The purge was complete: the contact still has one subject, and its row is marked.
abbrev Completed : ℕ → Biometrics → Type 0
Completed id after = HasOne id after × (is_erased (find id after.consents) ≡ true)

subject-Completed :
    (w : PurgeWorld) (id : ℕ) (actor : Option ℕ) (db : Biometrics)
    (subjects : Result (Option ComprefaceSubject))
    → one_or_none (where_ (subject_of id) db.subjects) ≡ subjects
    → (purge_subject w id actor subjects db).0 ≡ ok PurgeStatus.purged
    → Completed id (purge_subject w id actor subjects db).1
subject-Completed w id actor db (err e) one h = absurd (cc h)
subject-Completed w id actor db (ok subject) one h = (
  row-HasOne w id actor db (subject, one) subject (find id db.consents),
  row-Marks w id actor db (find id db.consents) subject h,
)

purge-Completed :
    (w : PurgeWorld) (id : ℕ) (actor : Option ℕ) (db : Biometrics)
    → (purge w id actor db).0 ≡ ok PurgeStatus.purged
    → Completed id (purge w id actor db).1
unfolding purge
purge-Completed w id actor db h =
    subject-Completed w id actor db (one_or_none (where_ (subject_of id) db.subjects)) refl h

-- A purge that answers "purged" leaves the contact with the status "purged", and a purge after it, at
-- any time and whatever the disk and CompreFace would answer, says that it is done and changes nothing.
pub purge-purge :
    (w later : PurgeWorld) (id : ℕ) (actor by : Option ℕ) (db : Biometrics)
    → (purge w id actor db).0 ≡ ok PurgeStatus.purged
    → let after = (purge w id actor db).1 in
      (status_of id after ≡ ConsentStatus.purged)
      × (purge later id by after ≡ (ok PurgeStatus.already_purged, after))
purge-purge w later id actor by db h =
    let after = (purge w id actor db).1 in
    let (one, erased) = purge-Completed w id actor db h in
    (erased_flags (find id after.consents) erased, again_at later id by after one erased)
