-- ===== src/Session.antt =====
-- A request against the database: app/database.py's session as the code uses it. `work` is what
-- the session's queries see (its pending changes are flushed before each query), `committed` what
-- other requests see. A request that ends without a commit leaves nothing behind.
pub mod Keeps
pub mod Rules
pub mod Atomic
use seraphim.Common.{if◌then◌else◌, ℕ, ◌≡◌, Bool, true, false, Option, none, some, List, [], ◌∷◌}
use seraphim.Models.{Db}

-- The HTTPExceptions that the modelled code raises, and the exceptions that nothing catches.
pub data Fault : Type 0 where
  task_not_found task_not_pending already_acted skipped_twice : Fault
  member_not_found contact_not_found pit_task_not_found : Fault
  no_detection_image image_missing image_undecodable : Fault
  quality_failed subject_purged no_image_id enrollment_failed : Fault
  admin_required cooldown_active : Fault
  activity_not_found invalid_activity_type invalid_status invalid_priority : Fault
  assignee_inactive target_deleted due_before_start reopen_needs_admin invalid_transition : Fault
  same_contact contact_deleted same_name_unconfirmed merge_failed : Fault
  rule_set_not_found default_rule_set only_active_rule_set : Fault
  group_required group_not_found search_required search_not_found criteria_unavailable : Fault
  no_row event_not_found consent_not_found consent_purged : Fault
  job_type_required invalid_job_type invalid_fmt job_not_found access_denied : Fault
  export_expired export_not_ready export_missing : Fault
  multiple_rows integrity_error storage_error missing_greenlet : Fault

-- The status code of the response; an exception that nothing catches is a 500.
unfoldable pub status_code : Fault → ℕ
status_code Fault.task_not_found = 404
status_code Fault.member_not_found = 404
status_code Fault.contact_not_found = 404
status_code Fault.pit_task_not_found = 404
status_code Fault.image_missing = 404
status_code Fault.task_not_pending = 400
status_code Fault.already_acted = 400
status_code Fault.skipped_twice = 400
status_code Fault.admin_required = 403
status_code Fault.subject_purged = 409
status_code Fault.no_detection_image = 422
status_code Fault.image_undecodable = 422
status_code Fault.quality_failed = 422
status_code Fault.cooldown_active = 429
status_code Fault.activity_not_found = 404
status_code Fault.invalid_activity_type = 422
status_code Fault.invalid_status = 422
status_code Fault.invalid_priority = 422
status_code Fault.assignee_inactive = 422
status_code Fault.target_deleted = 422
status_code Fault.due_before_start = 422
status_code Fault.reopen_needs_admin = 422
status_code Fault.invalid_transition = 422
status_code Fault.no_image_id = 502
status_code Fault.enrollment_failed = 502
status_code Fault.same_contact = 422
status_code Fault.contact_deleted = 409
status_code Fault.same_name_unconfirmed = 409
status_code Fault.merge_failed = 500
status_code Fault.rule_set_not_found = 404
status_code Fault.default_rule_set = 409
status_code Fault.only_active_rule_set = 409
status_code Fault.event_not_found = 404
status_code Fault.consent_not_found = 404
status_code Fault.consent_purged = 409
status_code Fault.group_required = 400
status_code Fault.group_not_found = 404
status_code Fault.search_required = 400
status_code Fault.search_not_found = 404
status_code Fault.criteria_unavailable = 400
status_code Fault.job_type_required = 422
status_code Fault.invalid_job_type = 422
status_code Fault.invalid_fmt = 422
status_code Fault.job_not_found = 404
status_code Fault.access_denied = 403
status_code Fault.export_expired = 410
status_code Fault.export_not_ready = 404
status_code Fault.export_missing = 404
status_code Fault.no_row = 500
status_code Fault.multiple_rows = 500
status_code Fault.integrity_error = 500
status_code Fault.storage_error = 500
status_code Fault.missing_greenlet = 500

pub data Result {ℓ} (A : Type ℓ) : Type ℓ where
  ok : A → Result A
  err : Fault → Result A

pub record Session : Type 0 where
  pub committed : Db
  pub work : Db

abbrev pub Tx : Type 0 → Type 0
Tx A = Session → Result A × Session

module _ {A : Type 0} where
  unfoldable pub pure : A → Tx A
  pure a s = (ok a, s)

  unfoldable pub raise : Fault → Tx A
  raise e s = (err e, s)

  unfoldable pub lift : Result A → Tx A
  lift r s = (r, s)

  -- A value read from the rows that the session sees.
  unfoldable pub gets : (Db → A) → Tx A
  gets f s = (ok (f s.work), s)

  unfoldable pub or_raise : Fault → Option A → Tx A
  or_raise e none s = (err e, s)
  or_raise e (some a) s = (ok a, s)

unfoldable pub modify : (Db → Db) → Tx (Unit {0})
modify f s = (ok tt, record s { work = f s.work })

unfoldable pub commit : Tx (Unit {0})
commit s = (ok tt, record s { committed = s.work })

unfoldable pub rollback : Tx (Unit {0})
rollback s = (ok tt, record s { work = s.committed })

unfoldable pub raise_unless : Bool → Fault → Tx (Unit {0})
raise_unless true e s = (ok tt, s)
raise_unless false e s = (err e, s)

-- The errors that come with a rollback of the session: those after the writes of an enrollment, and a
-- flush that fails. A rollback expires the rows that the session has loaded.
abbrev pub is_rolled_back : Fault → Bool
is_rolled_back Fault.enrollment_failed = true
is_rolled_back Fault.no_image_id = true
is_rolled_back Fault.integrity_error = true
is_rolled_back _ = false

-- The handler reads the id of a row for its log entry. If the row has expired, that read is a query
-- outside a greenlet, which raises.
abbrev pub handle_logged : Result (Unit {0}) → Session → Result (Unit {0}) × Session
handle_logged (ok a) s = (ok tt, s)
handle_logged (err e) s = (if is_rolled_back e then err Fault.missing_greenlet else ok tt, s)

-- `except Exception: logger.exception(..., detection.id, ...)`.
unfoldable pub swallow : Tx (Unit {0}) → Tx (Unit {0})
swallow m s = handle_logged (m s).0 (m s).1

module _ {A B : Type 0} where
  abbrev pub continue : Result A → (A → Tx B) → Session → Result B × Session
  continue (ok a) f s = f a s
  continue (err e) f s = (err e, s)

  infixl 10 ◌>>=◌ ◌>>◌
  -- Opening this opens the transactions above.
  unfoldable pub ◌>>=◌ : Tx A → (A → Tx B) → Tx B
  unfolding pure raise lift gets or_raise modify commit rollback raise_unless swallow
  ◌>>=◌ m f s = continue (m s).0 f (m s).1

  abbrev pub ◌>>◌ : Tx A → Tx B → Tx B
  m >> n = m >>= λ _. n

-- `result.scalar_one_or_none()`: more than one row is an exception.
unfoldable pub one_or_none {ℓ} : {A : Type ℓ} → List A → Result (Option A)
one_or_none [] = ok none
one_or_none (x ∷ []) = ok (some x)
one_or_none (x ∷ y ∷ rest) = err Fault.multiple_rows

-- One request: the session opens on the committed rows, and what it did not commit is lost.
module _ {A : Type 0} where
  unfoldable pub request : Tx A → Db → Result A × Db
  request m db = let s = m (record { committed = db; work = db }) in (s.0, s.1.committed)
