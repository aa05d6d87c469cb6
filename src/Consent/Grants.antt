-- ===== src/Consent/Grants.antt =====
-- `record`, `update`, `revoke` and `request_deletion` of biometric_consent.py.
use seraphim.Common.{
  ℕ, ◌+◌, ◌*◌, Bool, true, false, Option, none, some, ◌==◌, any, is_some, if◌then◌else◌,
}
use seraphim.Common.Table.{find}
use seraphim.Common.Text.{Text}
use seraphim.Consent.{BiometricConsent, Biometrics, ConsentAction, saved}
use seraphim.Session.{Fault, Result, ok, err}

abbrev or_else {ℓ} : {A : Type ℓ} → A → Option A → A
or_else default none = default
or_else default (some a) = a

abbrev or_keep {ℓ} : {A : Type ℓ} → Option A → Option A → Option A
or_keep old none = old
or_keep old (some a) = some a

-- `utc_now()`, and `get_biometric_retention_years()` of the settings.
pub record ConsentWorld : Type 0 where
  pub now : ℕ
  pub default_years : ℕ

abbrev retention : ConsentWorld → Option ℕ → Option ℕ
retention w years = some (w.now + 365 * or_else w.default_years years)

abbrev pub granted : ConsentWorld → ℕ → Option Text → Option ℕ → BiometricConsent → BiometricConsent
granted w actor basis years c = record c {
  consent_given = true;
  consented_at = some w.now;
  basis_note = or_keep c.basis_note basis;
  retention_until = retention w years;
  recorded_by_id = some actor;
  updated_at = w.now;
}

abbrev pub new_consent : ConsentWorld → ℕ → Option Text → Option ℕ → BiometricConsent
new_consent w actor basis years = record {
  consent_given = true;
  consented_at = some w.now;
  basis_note = basis;
  recorded_at = w.now;
  recorded_by_id = some actor;
  retention_until = retention w years;
  deletion_requested_at = none;
  deletion_requested_by_id = none;
  purged_at = none;
  purge_detail = none;
  updated_at = w.now;
}

abbrev pub record_row :
    ConsentWorld
    → ℕ
    → ℕ
    → Option Text
    → Option ℕ
    → Option BiometricConsent
    → Biometrics
    → Result (Unit {0}) × Biometrics
record_row w id actor basis years none db =
    (ok tt, saved actor ConsentAction.consent_recorded id none (new_consent w actor basis years) db)
record_row w id actor basis years (some c) db =
    if is_some c.purged_at then (err Fault.consent_purged, db) else (
      ok tt,
      saved actor ConsentAction.consent_updated id (some c) (granted w actor basis years c) db,
    )

-- `record`.
unfoldable pub record_consent :
    ConsentWorld → ℕ → ℕ → Option Text → Option ℕ → Biometrics → Result (Unit {0}) × Biometrics
record_consent w id actor basis years db =
    if any (λ j. j == id) db.contacts
    then record_row w id actor basis years (find id db.consents) db
    else (err Fault.contact_not_found, db)

abbrev pub change_row :
    ℕ
    → ℕ
    → ConsentAction
    → (BiometricConsent → BiometricConsent)
    → Option BiometricConsent
    → Biometrics
    → Result (Unit {0}) × Biometrics
change_row id actor action f none db = (err Fault.consent_not_found, db)
change_row id actor action f (some c) db = (ok tt, saved actor action id (some c) (f c) db)

abbrev pub amended :
    ConsentWorld → Option Text → Option ℕ → Bool → BiometricConsent → BiometricConsent
amended w basis until is_admin c = record c {
  basis_note = or_keep c.basis_note basis;
  retention_until = if is_admin then or_keep c.retention_until until else c.retention_until;
  updated_at = w.now;
}

-- `update`.
unfoldable pub update_consent :
    ConsentWorld
    → ℕ
    → ℕ
    → Option Text
    → Option ℕ
    → Bool
    → Biometrics
    → Result (Unit {0}) × Biometrics
update_consent w id actor basis until is_admin db =
    if any (λ j. j == id) db.contacts
    then change_row id actor ConsentAction.consent_updated (amended w basis until is_admin)
        (find id db.consents) db
    else (err Fault.contact_not_found, db)

abbrev pub withdrawn : ConsentWorld → BiometricConsent → BiometricConsent
withdrawn w c = record c { consent_given = false; updated_at = w.now }

-- `revoke`.
unfoldable pub revoke : ConsentWorld → ℕ → ℕ → Biometrics → Result (Unit {0}) × Biometrics
revoke w id actor db =
    change_row id actor ConsentAction.consent_revoked (withdrawn w) (find id db.consents) db

abbrev pub flagged : ConsentWorld → ℕ → BiometricConsent → BiometricConsent
flagged w actor c = record c {
  deletion_requested_at = some w.now;
  deletion_requested_by_id = some actor;
  updated_at = w.now;
}

unfoldable pub request_deletion : ConsentWorld → ℕ → ℕ → Biometrics → Result (Unit {0}) × Biometrics
request_deletion w id actor db =
    change_row id actor ConsentAction.deletion_requested (flagged w actor) (find id db.consents) db
