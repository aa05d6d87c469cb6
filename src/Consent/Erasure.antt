-- ===== src/Consent/Erasure.antt =====
-- What a purge erases, and a purge after it.
use seraphim.Common.{
  ℕ, ◌+◌, ◌≡◌, refl, Bool, true, false, not, ◌&&◌, Option, none, some, List, [], ◌∷◌, ◌==◌, count,
  where_, update_rows, map, is_some, if◌then◌else◌, arith, Bool-cases, inl, inr,
  count-update_rows_self, ==_refl,
}
use seraphim.Common.Table.{find, find-put}
use seraphim.Common.Text.{Text}
use seraphim.Consent.{
  BiometricConsent, Biometrics, ConsentStatus, PurgeDetail, is_active_subject, resolve_status,
}
use seraphim.Consent.Purge.{
  is_contact, fresh_detail, if_named, is_clean, no_file, subject_id, PurgeStatus, PurgeWorld,
  anonymised, erased_rows, finish_purge, fresh_purge, is_linked, noted, purge_known, purge_row,
  stamped, subject_of, truthy, retry_partial,
}
use seraphim.Models.{ComprefaceSubject, FaceSample}
use seraphim.Session.{Result, ok, one_or_none}

pub and_left : (a b : Bool) → a && b ≡ true → a ≡ true
and_left true b h = refl
and_left false b h = absurd (cc h)

-- The status of the contact, and the mark that a complete purge leaves.
abbrev pub status_of : ℕ → Biometrics → ConsentStatus
status_of id db = resolve_status (find id db.consents)

abbrev pub detail_deleted : Option PurgeDetail → Bool
detail_deleted none = false
detail_deleted (some d) = d.compreface_deleted

abbrev pub is_erased : Option BiometricConsent → Bool
is_erased none = false
is_erased (some c) = is_some c.purged_at && detail_deleted c.purge_detail

pub count-where_not :
    (p : FaceSample → Bool) (rows : List FaceSample) → count p (where_ (λ s. not (p s)) rows) ≡ 0
unfolding count where_
count-where_not p [] = refl
count-where_not p (x ∷ rows) = ground (arith, count-where_not p rows)

pub no_active :
    (id : ℕ) (rows : List ComprefaceSubject)
    → count (is_active_subject id) (update_rows (subject_of id) stamped rows) ≡ 0
unfolding count update_rows
no_active id [] = refl
no_active id (s ∷ rows) = elim (Bool-cases (subject_of id s)) [
  | inl mine ↦ rw mine (ground (arith, mine, no_active id rows))
  | inr other ↦ rw other (ground (arith, other, no_active id rows))
]

pub no_linked :
    (now : ℕ) (subject : Option Text) (db : Biometrics)
    → count (is_linked subject) (update_rows (is_linked subject) (anonymised now) db.detections) ≡ 0
no_linked now none db =
    count-update_rows_self (is_linked none) (anonymised now) db.detections (λ d. refl)
no_linked now (some id) db =
    count-update_rows_self (is_linked (some id)) (anonymised now) db.detections (λ d. refl)

pub stamped_rows :
    (id : ℕ) (rows : List ComprefaceSubject)
    → where_ (subject_of id) (update_rows (subject_of id) stamped rows)
      ≡ map stamped (where_ (subject_of id) rows)
unfolding where_ update_rows
stamped_rows id [] = refl
stamped_rows id (s ∷ rows) = ground (arith, stamped_rows id rows)

-- One subject stays one subject.
pub mapped_one :
    (rows : List ComprefaceSubject) (subject : Option ComprefaceSubject)
    → one_or_none rows ≡ ok subject
    → (later : Option ComprefaceSubject) × (one_or_none (map stamped rows) ≡ ok later)
unfolding one_or_none
mapped_one [] subject h = (none, refl)
mapped_one (s ∷ []) subject h = (some (stamped s), refl)
mapped_one (s ∷ t ∷ rows) subject h = absurd (cc h)

-- A row that is marked as erased answers the next purge.
answered :
    (w : PurgeWorld) (id : ℕ) (actor : Option ℕ) (subject : Option ComprefaceSubject)
    (purged_at : Option ℕ) (detail : Option PurgeDetail) (db : Biometrics)
    → is_some purged_at && detail_deleted detail ≡ true
    → purge_known w id actor subject purged_at detail db ≡ (ok PurgeStatus.already_purged, db)
answered w id actor subject purged_at none db h = ground (arith, h)
answered w id actor subject purged_at (some detail) db h = rw h refl

pub again :
    (w : PurgeWorld) (id : ℕ) (actor : Option ℕ) (row : Option BiometricConsent)
    (subject : Option ComprefaceSubject) (db : Biometrics)
    → is_erased row ≡ true
    → purge_row w id actor row subject db ≡ (ok PurgeStatus.already_purged, db)
again w id actor none subject db h = absurd (cc h)
again w id actor (some c) subject db h = answered w id actor subject c.purged_at c.purge_detail db h

noted_erased :
    (now : ℕ) (detail : PurgeDetail) (row : Option BiometricConsent)
    → detail.compreface_deleted ≡ true
    → is_erased (some (noted now true detail row)) ≡ true
noted_erased now detail none h = h
noted_erased now detail (some c) h = h

-- What the end of a purge leaves: a clean one is marked.
marks :
    (now : ℕ) (actor : Option ℕ) (id : ℕ) (clean : Bool) (detail : PurgeDetail) (db : Biometrics)
    → (clean ≡ true → detail.compreface_deleted ≡ true)
    → (finish_purge now actor id clean detail db).0 ≡ ok PurgeStatus.purged
    → is_erased (find id (finish_purge now actor id clean detail db).1.consents) ≡ true
marks now actor id false detail db deleted h = absurd (cc h)
marks now actor id true detail db deleted h =
    rw (find-put id id (noted now true detail (find id db.consents)) db.consents)
      (rw (==_refl id) (noted_erased now detail (find id db.consents) (deleted refl)))

module _ (w : PurgeWorld) (id : ℕ) (actor : Option ℕ) (db : Biometrics) where
  abbrev pub Marks : Result PurgeStatus × Biometrics → Type 0
  Marks (answer, after) = answer ≡ ok PurgeStatus.purged → is_erased (find id after.consents) ≡ true

  fresh-Marks : (subject : Option ComprefaceSubject) → Marks (fresh_purge w id actor subject db)
  fresh-Marks subject h =
      let detail = fresh_detail w id (subject_id subject) db in
      marks w.now actor id (is_clean detail) detail (erased_rows w.now id (subject_id subject) db)
        (λ clean. and_left detail.compreface_deleted (detail.errors == 0) clean) h

  retry-Marks : (detail : PurgeDetail) → Marks (retry_partial w id actor detail db)
  retry-Marks detail h =
      let extra = if_named no_file w.erase_enrolled (truthy detail.subject_id) in
      let deleted = if_named true w.deletes_subject (truthy detail.subject_id) in
      let errors = (if extra.errors == 0 then 0 else 1) + (if deleted then 0 else 1) in
      let new : PurgeDetail = record detail {
        compreface_deleted = deleted;
        errors = detail.errors + errors;
        files_deleted = detail.files_deleted + extra.files;
      } in
      marks w.now actor id (deleted && errors == 0) new db
        (λ clean. and_left deleted (errors == 0) clean) h

  known-Marks :
      (subject : Option ComprefaceSubject) (purged_at : Option ℕ) (detail : Option PurgeDetail)
      → Marks (purge_known w id actor subject purged_at detail db)
  known-Marks subject purged_at none h = fresh-Marks subject h
  known-Marks subject purged_at (some detail) h =
      elim (Bool-cases (is_some purged_at && detail.compreface_deleted)) [
        | inl done ↦ absurd (cc (rw done at h))
        | inr partial ↦ rw partial (retry-Marks detail (rw partial at h))
      ]

  pub row-Marks :
      (row : Option BiometricConsent) (subject : Option ComprefaceSubject)
      → Marks (purge_row w id actor row subject db)
  row-Marks none subject h = elim (Bool-cases (is_contact id db)) [
    | inl there ↦ rw there (fresh-Marks subject (rw there at h))
    | inr missing ↦ absurd (cc (rw missing at h))
  ]
  row-Marks (some c) subject h = known-Marks subject c.purged_at c.purge_detail h
