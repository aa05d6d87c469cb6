-- ===== src/Bulk.antt =====
-- backend/app/services/audience.py and bulk_service.py: the contacts of an audience, and the
-- participants that are added, changed and removed for them. Texts of status, role and source are as
-- they come.
pub mod Audiences
pub mod Insertions
use seraphim.Common.{
  ℕ, ◌+◌, ◌-◌, Bool, true, false, not, ◌&&◌, Option, none, some, List, [], ◌∷◌, ◌++◌, ◌==◌, any,
  count, where_, update_rows, length, is_some, leb, if◌then◌else◌,
}
use seraphim.Common.Int.{ℤ, pos, negsuc}
use seraphim.Common.Table.{Table, find}
use seraphim.Common.Text.{Text, codes, text_eq}
use seraphim.Bulk.Audiences.{Audience, Contacts, resolve_audience}
use seraphim.Session.{Fault, Result, ok, err}

pub record Enrolled : Type 0 where
  pub event_id : ℕ
  pub contact_id : ℕ
  pub status : Text
  pub role : Option Text
  pub source : Text
  pub registered_by_id : Option ℕ
  pub created_at : ℕ

pub data BulkAction : Type 0 where
  added status_updated removed : BulkAction

pub record BulkAudit : Type 0 where
  pub actor_id : ℕ
  pub action : BulkAction
  pub event_id : ℕ
  pub rows : ℤ

pub record Enrollments : Type 0 where
  pub contacts : Contacts
  pub events : List ℕ
  pub participants : List Enrolled
  pub audit : List BulkAudit

pub record BulkAdd : Type 0 where
  pub event_id : ℕ
  pub audience : Audience
  pub status : Text
  pub role : Option Text
  pub source : Text

pub record BulkStatus : Type 0 where
  pub event_id : ℕ
  pub audience : Audience
  pub new_status : Text
  pub only_if_status : Option Text

pub record BulkAddResult : Type 0 where
  pub event_id : ℕ
  pub requested : ℕ
  pub inserted : ℕ
  pub skipped : ℕ

pub record BulkPreviewResult : Type 0 where
  pub event_id : ℕ
  pub requested : ℕ
  pub already_enrolled : ℕ
  pub to_be_inserted : ℕ

abbrev pub is_one_of : List ℕ → ℕ → Bool
is_one_of ids id = any (λ j. j == id) ids

abbrev pub enrolled_as : ℕ → ℕ → Enrolled → Bool
enrolled_as event contact p = p.event_id == event && p.contact_id == contact

-- event_id = event AND contact_id IN ids.
abbrev pub enrolled_in : ℕ → List ℕ → Enrolled → Bool
enrolled_in event ids p = p.event_id == event && is_one_of ids p.contact_id

abbrev or_default : Text → Text → Text
or_default default [] = default
or_default default (c ∷ s) = c ∷ s

-- `_require_event`, then the audience.
abbrev pub check_event : Enrollments → ℕ → Audience → Result (List ℕ)
check_event db event audience =
    if is_one_of db.events event
    then resolve_audience db.contacts audience
    else err Fault.event_not_found

abbrev pub new_row : BulkAdd → ℕ → ℕ → ℕ → Enrolled
new_row q caller now contact = record {
  event_id = q.event_id;
  contact_id = contact;
  status = or_default (codes "registered") q.status;
  role = q.role;
  source = or_default (codes "bulk") q.source;
  registered_by_id = some caller;
  created_at = now;
}

-- INSERT ... SELECT ... ON CONFLICT DO NOTHING, and its `rowcount`.
unfoldable pub insert_missing : ℕ → (ℕ → Enrolled) → List ℕ → List Enrolled → ℕ × List Enrolled
insert_missing event row [] rows = (0, rows)
insert_missing event row (id ∷ ids) rows =
    let present = any (enrolled_as event id) rows in
    let (inserted, more) =
      insert_missing event row ids (if present then rows else rows ++ row id ∷ []) in
    (if present then inserted else inserted + 1, more)

-- The clock, the `rowcount` that the driver reports for a number of rows (it may have none, or -1), and
-- whether the commit of the rows with the audit row succeeds.
pub record BulkWorld : Type 0 where
  pub now : ℕ
  pub rowcount : ℕ → Option ℤ
  pub commits : Bool

-- `audit_svc.record` adds its row, and one commit is for both. If it fails, the exception is dropped,
-- the transaction is gone, the second commit has nothing to write, and the answer is the same.
abbrev pub log_bulk : BulkWorld → BulkAudit → List Enrolled → Enrollments → Enrollments
log_bulk w row participants db =
    if w.commits
    then record db { participants = participants; audit = db.audit ++ row ∷ [] }
    else db

-- The rowcount if it is in the range, and the rows that are there otherwise.
abbrev pub count_inserted : Option ℤ → ℕ → ℕ → ℕ
count_inserted none requested existing = existing
count_inserted (some (negsuc n)) requested existing = existing
count_inserted (some (pos n)) requested existing = if leb n requested then n else existing

abbrev pub add_resolved :
    BulkWorld → BulkAdd → ℕ → Enrollments → Result (List ℕ) → Result BulkAddResult × Enrollments
add_resolved w q caller db (err e) = (err e, db)
add_resolved w q caller db (ok ids) =
    let (new, participants) =
      insert_missing q.event_id (new_row q caller w.now) ids db.participants in
    let inserted =
      count_inserted (w.rowcount new) (length ids)
        (count (enrolled_in q.event_id ids) participants) in
    (
      ok (record {
        event_id = q.event_id;
        requested = length ids;
        inserted = inserted;
        skipped = length ids - inserted;
      }),
      log_bulk w
          (record {
            actor_id = caller;
            action = BulkAction.added;
            event_id = q.event_id;
            rows = pos inserted;
          })
          participants db,
    )

unfoldable pub bulk_add_participants :
    BulkWorld → BulkAdd → ℕ → Enrollments → Result BulkAddResult × Enrollments
bulk_add_participants w q caller db =
    add_resolved w q caller db (check_event db q.event_id q.audience)

abbrev or_zero : Option ℤ → ℤ
or_zero none = pos 0
or_zero (some n) = n

abbrev has_status : Option Text → Enrolled → Bool
has_status none p = true
has_status (some s) p = text_eq p.status s

abbrev pub is_matched : BulkStatus → List ℕ → Enrolled → Bool
is_matched q ids p = enrolled_in q.event_id ids p && has_status q.only_if_status p

abbrev pub update_resolved :
    BulkWorld → BulkStatus → ℕ → Enrollments → Result (List ℕ) → Result ℤ × Enrollments
update_resolved w q caller db (err e) = (err e, db)
update_resolved w q caller db (ok ids) =
    let matched = or_zero (w.rowcount (count (is_matched q ids) db.participants)) in
    (
      ok matched,
      log_bulk w
          (record {
            actor_id = caller;
            action = BulkAction.status_updated;
            event_id = q.event_id;
            rows = matched;
          })
          (update_rows (is_matched q ids) (λ p. record p { status = q.new_status }) db.participants)
          db,
    )

-- The rows that it matched, as the driver reports them.
unfoldable pub bulk_update_status :
    BulkWorld → BulkStatus → ℕ → Enrollments → Result ℤ × Enrollments
bulk_update_status w q caller db =
    update_resolved w q caller db (check_event db q.event_id q.audience)

abbrev pub remove_resolved :
    BulkWorld → ℕ → ℕ → Enrollments → Result (List ℕ) → Result ℤ × Enrollments
remove_resolved w event caller db (err e) = (err e, db)
remove_resolved w event caller db (ok ids) =
    let removed = or_zero (w.rowcount (count (enrolled_in event ids) db.participants)) in
    (
      ok removed,
      log_bulk w
          (record {
            actor_id = caller;
            action = BulkAction.removed;
            event_id = event;
            rows = removed;
          })
          (where_ (λ p. not (enrolled_in event ids p)) db.participants) db,
    )

abbrev cancellation : ℕ → Audience → BulkStatus
cancellation event audience = record {
  event_id = event;
  audience = audience;
  new_status = codes "cancelled";
  only_if_status = none;
}

unfoldable pub bulk_remove :
    BulkWorld → ℕ → Audience → Bool → ℕ → Enrollments → Result ℤ × Enrollments
unfolding bulk_update_status
bulk_remove w event audience hard caller db =
    if hard
    then remove_resolved w event caller db (check_event db event audience)
    else bulk_update_status w (cancellation event audience) caller db

abbrev pub preview_resolved : ℕ → Enrollments → Result (List ℕ) → Result BulkPreviewResult
preview_resolved event db (err e) = err e
preview_resolved event db (ok ids) =
    let already = count (enrolled_in event ids) db.participants in
    ok (record {
      event_id = event;
      requested = length ids;
      already_enrolled = already;
      to_be_inserted = length ids - already;
    })

unfoldable pub preview : ℕ → Audience → Enrollments → Result BulkPreviewResult
preview event audience db = preview_resolved event db (check_event db event audience)

-- The row of `bulk_upsert_participants` in place of the old one, whose time of creation stays.
abbrev overwrite : Enrolled → Enrolled → Enrolled
overwrite new old = record new { created_at = old.created_at }

unfoldable pub upsert : Enrolled → List Enrolled → List Enrolled
upsert new [] = new ∷ []
upsert new (p ∷ rows) =
    if enrolled_as new.event_id new.contact_id p
    then overwrite new p ∷ rows
    else p ∷ upsert new rows

-- On SQLite, which takes a row that comes twice. The rows have their defaults; it answers the number
-- of rows given.
unfoldable pub bulk_upsert_participants : List Enrolled → List Enrolled → ℕ × List Enrolled
unfolding upsert
bulk_upsert_participants [] rows = (0, rows)
bulk_upsert_participants (new ∷ news) rows =
    let (done, after) = bulk_upsert_participants news (upsert new rows) in (done + 1, after)
