-- ===== src/Transition/Backfill.antt =====
-- What a backfill leaves of the consents.
use seraphim.Common.{
  ℕ, suc, ◌+◌, ◌≡◌, refl, ap, ◌∙◌, arith, inl, inr, Bool-cases, Bool, true, false, Option, none,
  some, List, [], ◌∷◌, ◌==◌, ==_refl, ◌||◌, ◌&&◌, any, count, length, is_some, if◌then◌else◌,
}
use seraphim.Common.Table.{Table, find, put, find-put}
use seraphim.Common.Text.{codes}
use seraphim.Models.{SubjectStatus}
use seraphim.Consent.{BiometricConsent, ConsentStatus, resolve_status}
use seraphim.Transition.{
  Legacy, LegacySubject, backfill_consent, backfill_rows, get_enroll_without_consent, qualifying,
  unknown_consent,
}

abbrev pub is_among : ℕ → List ℕ → Bool
is_among id ids = any (λ j. j == id) ids

abbrev pub filled : ℕ → Bool → Option BiometricConsent → Option BiometricConsent
filled now among (some c) = some c
filled now among none =
    if among
    then some (record {
      consent_given = false;
      consented_at = some now;
      basis_note = some (codes "pre-cutover-unknown");
      recorded_at = now;
      recorded_by_id = none;
      retention_until = none;
      deletion_requested_at = none;
      deletion_requested_by_id = none;
      purged_at = none;
      purge_detail = none;
      updated_at = now;
    })
    else none

filled_as_before : (now : ℕ) (row : Option BiometricConsent) → row ≡ filled now false row
filled_as_before now none = refl
filled_as_before now (some c) = refl

filled_there :
    (now : ℕ) (a b : Bool) (row : Option BiometricConsent)
    → is_some row ≡ true
    → filled now a row ≡ filled now b row
filled_there now a b none h = absurd (cc h)
filled_there now a b (some c) h = refl

filled_missing :
    (now : ℕ) (row : Option BiometricConsent)
    → is_some row ≡ false
    → some (unknown_consent now) ≡ filled now true row
filled_missing now none h = refl
filled_missing now (some c) h = absurd (cc h)

find-backfill_rows :
    (now id : ℕ) (ids : List ℕ) (rows : Table BiometricConsent)
    → find id (backfill_rows now ids rows).rows ≡ filled now (is_among id ids) (find id rows)
unfolding backfill_rows any
find-backfill_rows now id [] rows = filled_as_before now (find id rows)
find-backfill_rows now id (j ∷ ids) rows = elim (Bool-cases (is_some (find j rows))) [
  | inl there ↦ rw there (
      find-backfill_rows now id ids rows ∙ elim (Bool-cases (j == id)) [
        | inl same ↦
            (let e : j ≡ id = ground (arith, same) in
              filled_there now (is_among id ids) (j == id || is_among id ids) (find id rows)
                (rw e at there))
        | inr other ↦ rw other refl
      ])
  | inr missing ↦ rw missing (
      find-backfill_rows now id ids (put j (unknown_consent now) rows)
      ∙ rw (find-put j id (unknown_consent now) rows) (elim (Bool-cases (j == id)) [
        | inl same ↦
            (let e : j ≡ id = ground (arith, same) in
              rw same (filled_missing now (find id rows) (rw e at missing)))
        | inr other ↦ rw other refl
      ]))
]

-- Where each contact has a row, nothing is created.
abbrev AllThere : List ℕ → Table BiometricConsent → Type 0
AllThere ids rows = (id : ℕ) → is_among id ids ≡ true → is_some (find id rows) ≡ true

backfill_rows-AllThere :
    (now : ℕ) (ids : List ℕ) (rows : Table BiometricConsent)
    → AllThere ids rows
    → backfill_rows now ids rows ≡ record { created = 0; already = length ids; rows = rows }
unfolding backfill_rows any
backfill_rows-AllThere now [] rows h = refl
backfill_rows-AllThere now (j ∷ ids) rows h =
    let there = h j (rw (==_refl j) refl) in
    let rest = backfill_rows-AllThere now ids rows (λ id among. h id (ground (arith, among))) in
    let more : length ids + 1 ≡ suc (length ids) = omega arith in
    rw there (rw rest (ap (λ n. record { created = 0; already = n; rows = rows }) more))

filled-is_some : (now : ℕ) (row : Option BiometricConsent) → is_some (filled now true row) ≡ true
filled-is_some now none = refl
filled-is_some now (some c) = refl

backfilled-AllThere :
    (now : ℕ) (ids : List ℕ) (rows : Table BiometricConsent)
    → AllThere ids (backfill_rows now ids rows).rows
backfilled-AllThere now ids rows id among =
    rw (find-backfill_rows now id ids rows) (rw among (filled-is_some now (find id rows)))

-- An active subject with this contact.
abbrev pub is_enrolled : ℕ → ℕ × LegacySubject → Bool
is_enrolled id (key, s) = elim s.contact_id [
  | none ↦ false
  | some contact ↦
      contact == id && elim s.enrollment_status [ SubjectStatus.active ↦ true | _ ↦ false ]
]

-- An active subject with a contact.
abbrev pub has_contact : ℕ × LegacySubject → Bool
has_contact (key, s) =
    is_some s.contact_id && elim s.enrollment_status [ SubjectStatus.active ↦ true | _ ↦ false ]

is_among-qualifying :
    (id : ℕ) (rows : Table LegacySubject)
    → is_among id (qualifying rows) ≡ any (is_enrolled id) rows
unfolding qualifying any
is_among-qualifying id [] = refl
is_among-qualifying id (row ∷ rows) = ground (arith, is_among-qualifying id rows)

length-qualifying : (rows : Table LegacySubject) → length (qualifying rows) ≡ count has_contact rows
unfolding qualifying count
length-qualifying [] = refl
length-qualifying (row ∷ rows) = ground (arith, length-qualifying rows)

revoked_missing :
    (now : ℕ) (row : Option BiometricConsent)
    → is_some row ≡ false
    → resolve_status (filled now true row) ≡ ConsentStatus.revoked
revoked_missing now none h = refl
revoked_missing now (some c) h = absurd (cc h)

-- After a backfill a contact that had a consent row has this row; another one, if it is the contact of
-- an active subject, has a new row, without consent and with the note "pre-cutover-unknown", and its
-- status is "revoked" though it never gave a consent; and the rest have no row. Enrolling without
-- consent is then allowed. A backfill after it, at any time, creates nothing, counts a row for each
-- active subject with a contact, and changes nothing.
pub backfill_consent-backfill_consent :
    (now later : ℕ) (db : Legacy)
    → let after = (backfill_consent now db).1 in
      ((id : ℕ)
        → find id after.consents
          ≡ filled now (any (is_enrolled id) db.subjects) (find id db.consents))
      × ((id : ℕ)
          → is_some (find id db.consents) ≡ false
          → any (is_enrolled id) db.subjects ≡ true
          → resolve_status (find id after.consents) ≡ ConsentStatus.revoked)
      × (get_enroll_without_consent after ≡ true)
      × (backfill_consent later after ≡ (
        record {
          consent_rows_created = 0;
          already_had_consent = count has_contact db.subjects;
          enroll_without_consent_set = true;
        },
        after,
      ))
unfolding backfill_consent get_enroll_without_consent
backfill_consent-backfill_consent now later db =
    let ids = qualifying db.subjects in
    let found : (id : ℕ)
        → find id (backfill_rows now ids db.consents).rows
          ≡ filled now (any (is_enrolled id) db.subjects) (find id db.consents) =
      λ id.
        rw (find-backfill_rows now id ids db.consents)
          (rw (is_among-qualifying id db.subjects) refl) in
    (
      λ id. found id,
      λ id missing enrolled.
          rw (found id) (rw enrolled (revoked_missing now (find id db.consents) missing)),
      refl,
      rw
          (backfill_rows-AllThere later ids (backfill_rows now ids db.consents).rows
            (backfilled-AllThere now ids db.consents))
          (rw (length-qualifying db.subjects) refl),
    )
