-- ===== src/Consent/Lasting.antt =====
-- The status "purged" under all requests.
use seraphim.Common.{ℕ, ◌≡◌, refl, Bool, true, Option, List, [], ◌∷◌, where_}
use seraphim.Common.Table.{find}
use seraphim.Common.Text.{Text}
use seraphim.Consent.{Biometrics, ConsentAction, ConsentStatus}
use seraphim.Consent.Erasure.{status_of}
use seraphim.Consent.Grants.{
  flagged, withdrawn, ConsentWorld, record_consent, request_deletion, revoke, update_consent,
}
use seraphim.Consent.Purge.{PurgeWorld, purge, subject_of}
use seraphim.Session.{one_or_none}
use seraphim.Consent.Marks.{
  change_marked, is_marked, marked_status, purge_marked, record_consent_marked, status_marked,
  update_consent_marked,
}

pub data ConsentRequest : Type 0 where
  record_ : ConsentWorld → ℕ → ℕ → Option Text → Option ℕ → ConsentRequest
  update : ConsentWorld → ℕ → ℕ → Option Text → Option ℕ → Bool → ConsentRequest
  revoke_ : ConsentWorld → ℕ → ℕ → ConsentRequest
  delete : ConsentWorld → ℕ → ℕ → ConsentRequest
  purge_ : PurgeWorld → ℕ → Option ℕ → ConsentRequest

-- A request that succeeds is committed, and one that fails has changed nothing.
unfoldable pub serve_consent : ConsentRequest → Biometrics → Biometrics
serve_consent (record_ w id actor basis years) db = (record_consent w id actor basis years db).1
serve_consent (update w id actor basis until is_admin) db =
    (update_consent w id actor basis until is_admin db).1
serve_consent (revoke_ w id actor) db = (revoke w id actor db).1
serve_consent (delete w id actor) db = (request_deletion w id actor db).1
serve_consent (purge_ w id actor) db = (purge w id actor db).1

unfoldable pub serve_consents : List ConsentRequest → Biometrics → Biometrics
unfolding serve_consent
serve_consents [] db = db
serve_consents (request ∷ requests) db = serve_consents requests (serve_consent request db)

module _ (id : ℕ) where
  serve_marked :
      (request : ConsentRequest) (db : Biometrics)
      → is_marked id db ≡ true
      → is_marked id (serve_consent request db) ≡ true
  unfolding serve_consent revoke request_deletion purge
  serve_marked (record_ w other actor basis years) db h =
      record_consent_marked id w other actor basis years db h
  serve_marked (update w other actor basis until is_admin) db h =
      update_consent_marked id w other actor basis until is_admin db h
  serve_marked (revoke_ w other actor) db h =
      change_marked id other actor ConsentAction.consent_revoked (withdrawn w)
        (find other db.consents) db (λ c. refl) refl h
  serve_marked (delete w other actor) db h =
      change_marked id other actor ConsentAction.deletion_requested (flagged w actor)
        (find other db.consents) db (λ c. refl) refl h
  serve_marked (purge_ w other actor) db h =
      purge_marked id w other actor (one_or_none (where_ (subject_of other) db.subjects))
        (find other db.consents) db refl h

  all_marked :
      (requests : List ConsentRequest) (db : Biometrics)
      → is_marked id db ≡ true
      → is_marked id (serve_consents requests db) ≡ true
  unfolding serve_consents
  all_marked [] db h = h
  all_marked (request ∷ requests) db h =
      all_marked requests (serve_consent request db) (serve_marked request db h)

-- Whatever requests on consents were served, on any contact: a contact whose status was "purged"
-- before them has the status "purged" afterwards.
pub serve_consents-status_of :
    (id : ℕ) (requests : List ConsentRequest) (db : Biometrics)
    → status_of id db ≡ ConsentStatus.purged
    → status_of id (serve_consents requests db) ≡ ConsentStatus.purged
serve_consents-status_of id requests db h =
    status_marked (find id (serve_consents requests db).consents)
      (all_marked id requests db (marked_status (find id db.consents) h))
