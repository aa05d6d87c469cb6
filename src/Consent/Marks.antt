-- ===== src/Consent/Marks.antt =====
-- A consent row that says that the contact was purged keeps saying so.
use seraphim.Common.{
  ℕ, ◌≡◌, refl, Bool, true, false, Option, none, some, ◌==◌, ◌&&◌, ◌+◌, any, is_some, if◌then◌else◌,
  arith, Bool-cases, inl, inr,
}
use seraphim.Common.Table.{find, find-put}
use seraphim.Common.Text.{Text}
use seraphim.Consent.{
  BiometricConsent, Biometrics, ConsentAction, ConsentStatus, Logged, PurgeDetail, ConsentSnapshot,
  snapshot_of, audited, resolve_flags, resolve_status,
}
use seraphim.Consent.Grants.{
  amended, granted, new_consent, ConsentWorld, change_row, record_consent, record_row,
  update_consent,
}
use seraphim.Consent.Purge.{
  is_contact, erased_rows, fresh_detail, if_named, is_clean, no_file, purge_action, subject_id,
  truthy, PurgeWorld, finish_purge, fresh_purge, noted, purge_known, purge_subject, retry_partial,
}
use seraphim.Models.{ComprefaceSubject}
use seraphim.Session.{Result, ok, err}

-- The row says that the contact was purged.
abbrev pub marked : Option BiometricConsent → Bool
marked none = false
marked (some c) = is_some c.purged_at

flags_marked :
    (purged_at : Option ℕ) (given : Bool) (consented_at : Option ℕ)
    → resolve_flags purged_at given consented_at ≡ ConsentStatus.purged
    → is_some purged_at ≡ true
flags_marked (some t) given consented_at h = refl
flags_marked none true consented_at h = cc h
flags_marked none false (some t) h = cc h
flags_marked none false none h = cc h

marked_flags :
    (purged_at : Option ℕ) (given : Bool) (consented_at : Option ℕ)
    → is_some purged_at ≡ true
    → resolve_flags purged_at given consented_at ≡ ConsentStatus.purged
marked_flags none given consented_at h = cc h
marked_flags (some t) given consented_at h = refl

pub marked_status :
    (c : Option BiometricConsent) → resolve_status c ≡ ConsentStatus.purged → marked c ≡ true
marked_status none h = cc h
marked_status (some c) h = flags_marked c.purged_at c.consent_given c.consented_at h

pub status_marked :
    (c : Option BiometricConsent) → marked c ≡ true → resolve_status c ≡ ConsentStatus.purged
status_marked none h = cc h
status_marked (some c) h = marked_flags c.purged_at c.consent_given c.consented_at h

abbrev pub is_marked : ℕ → Biometrics → Bool
is_marked id db = marked (find id db.consents)

module _ (id : ℕ) where
  -- A row is written that is marked if the old one was.
  audited_marked :
      (actor : Option ℕ) (action : ConsentAction) (other : ℕ) (before : Option ConsentSnapshot)
      (logged : Logged) (row : BiometricConsent) (db : Biometrics)
      → (is_marked other db ≡ true → is_some row.purged_at ≡ true)
      → is_marked id db ≡ true
      → is_marked id (audited actor action other before logged row db) ≡ true
  audited_marked actor action other before logged row db keeps h =
      rw (find-put other id row db.consents) (elim (Bool-cases (other == id)) [
        | inl same ↦ (let e : other ≡ id = ground (arith, same) in rw same (keeps (rw e h)))
        | inr different ↦ rw different h
      ])

  pub change_marked :
      (other actor : ℕ) (action : ConsentAction) (f : BiometricConsent → BiometricConsent)
      (row : Option BiometricConsent) (db : Biometrics)
      → ((c : BiometricConsent) → (f c).purged_at ≡ c.purged_at)
      → find other db.consents ≡ row
      → is_marked id db ≡ true
      → is_marked id (change_row other actor action f row db).1 ≡ true
  change_marked other actor action f none db keeps found h = h
  change_marked other actor action f (some c) db keeps found h =
      audited_marked (some actor) action other (some (snapshot_of c))
        (Logged.of_row (snapshot_of (f c))) (f c) db (λ m. rw (keeps c) (rw found at m)) h

  finish_marked :
      (now : ℕ) (actor : Option ℕ) (other : ℕ) (clean : Bool) (detail : PurgeDetail)
      (row : Option BiometricConsent) (db : Biometrics)
      → find other db.consents ≡ row
      → is_marked other db ≡ true
      → is_some (noted now clean detail row).purged_at ≡ true
  finish_marked now actor other clean detail none db found h = cc (rw found at h)
  finish_marked now actor other clean detail (some c) db found h =
      let old : is_some c.purged_at ≡ true = rw found at h in
      elim (Bool-cases clean) [ inl yes_ ↦ rw yes_ refl | inr no_ ↦ rw no_ old ]

  end_marked :
      (now : ℕ) (actor : Option ℕ) (other : ℕ) (clean : Bool) (detail : PurgeDetail)
      (db : Biometrics)
      → is_marked id db ≡ true
      → is_marked id (finish_purge now actor other clean detail db).1 ≡ true
  end_marked now actor other clean detail db h =
      audited_marked actor (purge_action clean) other none (Logged.of_detail detail)
        (noted now clean detail (find other db.consents)) db
        (λ m. finish_marked now actor other clean detail (find other db.consents) db refl m) h

  fresh_marked :
      (w : PurgeWorld) (other : ℕ) (actor : Option ℕ) (subject : Option ComprefaceSubject)
      (db : Biometrics)
      → is_marked id db ≡ true
      → is_marked id (fresh_purge w other actor subject db).1 ≡ true
  fresh_marked w other actor subject db h =
      let detail = fresh_detail w other (subject_id subject) db in
      end_marked w.now actor other (is_clean detail) detail
        (erased_rows w.now other (subject_id subject) db) h

  retry_marked :
      (w : PurgeWorld) (other : ℕ) (actor : Option ℕ) (detail : PurgeDetail) (db : Biometrics)
      → is_marked id db ≡ true
      → is_marked id (retry_partial w other actor detail db).1 ≡ true
  retry_marked w other actor detail db h =
      let extra = if_named no_file w.erase_enrolled (truthy detail.subject_id) in
      let deleted = if_named true w.deletes_subject (truthy detail.subject_id) in
      let errors = (if extra.errors == 0 then 0 else 1) + (if deleted then 0 else 1) in
      let new : PurgeDetail = record detail {
        compreface_deleted = deleted;
        errors = detail.errors + errors;
        files_deleted = detail.files_deleted + extra.files;
      } in
      end_marked w.now actor other (deleted && errors == 0) new db h

  known_marked :
      (w : PurgeWorld) (other : ℕ) (actor : Option ℕ) (subject : Option ComprefaceSubject)
      (purged_at : Option ℕ) (detail : Option PurgeDetail) (db : Biometrics)
      → is_marked id db ≡ true
      → is_marked id (purge_known w other actor subject purged_at detail db).1 ≡ true
  known_marked w other actor subject purged_at none db h = fresh_marked w other actor subject db h
  known_marked w other actor subject purged_at (some detail) db h =
      elim (Bool-cases (is_some purged_at && detail.compreface_deleted)) [
        | inl done ↦ rw done h
        | inr partial ↦ rw partial (retry_marked w other actor detail db h)
      ]

  pub purge_marked :
      (w : PurgeWorld) (other : ℕ) (actor : Option ℕ) (subject : Result (Option ComprefaceSubject))
      (row : Option BiometricConsent) (db : Biometrics)
      → find other db.consents ≡ row
      → is_marked id db ≡ true
      → is_marked id (purge_subject w other actor subject db).1 ≡ true
  purge_marked w other actor (err e) row db found h = h
  purge_marked w other actor (ok subject) none db found h =
      elim (Bool-cases (is_contact other db)) [
        | inl there ↦ rw found (rw there (fresh_marked w other actor subject db h))
        | inr missing ↦ rw found (rw missing h)
      ]
  purge_marked w other actor (ok subject) (some c) db found h =
      rw found (known_marked w other actor subject c.purged_at c.purge_detail db h)

  record_marked :
      (w : ConsentWorld) (other actor : ℕ) (basis : Option Text) (years : Option ℕ)
      (row : Option BiometricConsent) (db : Biometrics)
      → find other db.consents ≡ row
      → is_marked id db ≡ true
      → is_marked id (record_row w other actor basis years row db).1 ≡ true
  record_marked w other actor basis years none db found h =
      audited_marked (some actor) ConsentAction.consent_recorded other none
        (Logged.of_row (snapshot_of (new_consent w actor basis years)))
        (new_consent w actor basis years) db (λ m. cc (rw found at m)) h
  record_marked w other actor basis years (some c) db found h =
      elim (Bool-cases (is_some c.purged_at)) [
        | inl purged ↦ rw purged h
        | inr open_ ↦ rw open_ (
            audited_marked (some actor) ConsentAction.consent_updated other (some (snapshot_of c))
              (Logged.of_row (snapshot_of (granted w actor basis years c)))
              (granted w actor basis years c) db (λ m. rw found at m) h)
      ]

  pub record_consent_marked :
      (w : ConsentWorld) (other actor : ℕ) (basis : Option Text) (years : Option ℕ)
      (db : Biometrics)
      → is_marked id db ≡ true
      → is_marked id (record_consent w other actor basis years db).1 ≡ true
  unfolding record_consent
  record_consent_marked w other actor basis years db h =
      elim (Bool-cases (any (λ j. j == other) db.contacts)) [
        | inl there ↦
            rw there (record_marked w other actor basis years (find other db.consents) db refl h)
        | inr missing ↦ rw missing h
      ]

  pub update_consent_marked :
      (w : ConsentWorld) (other actor : ℕ) (basis : Option Text) (until : Option ℕ)
      (is_admin : Bool) (db : Biometrics)
      → is_marked id db ≡ true
      → is_marked id (update_consent w other actor basis until is_admin db).1 ≡ true
  unfolding update_consent
  update_consent_marked w other actor basis until is_admin db h =
      elim (Bool-cases (any (λ j. j == other) db.contacts)) [
        | inl there ↦ rw there (
            change_marked other actor ConsentAction.consent_updated (amended w basis until is_admin)
              (find other db.consents) db (λ c. refl) refl h)
        | inr missing ↦ rw missing h
      ]
