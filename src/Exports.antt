-- ===== src/Exports.antt =====
-- The export jobs of backend/app/routers/export.py and services/queue_manager.py. A job's parameters
-- are left out. Writing the file is an answer that is passed in: the rows and the bytes, or the text of
-- an exception. `is_in_exports` and `is_in_storage` say whether a path stays in
-- those directories, `is_file` whether a file is there.

pub mod Sound
pub mod Serve
pub mod Downloads
use seraphim.Common.{
  ℕ, zero, suc, ◌+◌, ◌-◌, ◌*◌, Bool, true, false, not, ◌&&◌, ◌||◌, Option, none, some, List, [],
  ◌∷◌, ◌++◌, ◌==◌, where_, take, is_some, ltb, leb, if◌then◌else◌,
}
use seraphim.Common.Table.{Table, find, put, fresh}
use seraphim.Common.Text.{Text, codes, is_empty, text_eq}
use seraphim.Session.{Fault, Result, ok, err}

pub data JobStatus : Type 0 where
  pending running ready failed expired : JobStatus

pub record ExportJob : Type 0 where
  pub job_type : Text
  pub fmt : Text
  pub status : JobStatus
  pub requested_by_id : Option ℕ
  pub row_count : Option ℕ
  pub file_path : Option Text
  pub file_bytes : Option ℕ
  pub error : Option Text
  pub expires_at : Option ℕ
  pub created_at : ℕ
  pub finished_at : Option ℕ

pub record ExportAudit : Type 0 where
  pub actor_id : ℕ
  pub job_id : ℕ

pub record Exports : Type 0 where
  pub jobs : Table ExportJob
  pub audit : List ExportAudit

pub record Written : Type 0 where
  pub rows : ℕ
  pub bytes : ℕ

pub data Collected : Type 0 where
  wrote : Written → Collected
  raised : Text → Collected

pub record ExportWorld : Type 0 where
  pub now : ℕ
  pub file_name : ℕ → ExportJob → Text
  pub collect : ExportJob → Collected
  pub is_in_exports : Text → Bool
  pub is_in_storage : Text → Bool
  pub is_file : Text → Bool

abbrev pub is_exported : Text → Bool
is_exported job_type = text_eq job_type (codes "contacts") || text_eq job_type (codes "attendance")

abbrev pub new_job : ℕ → ℕ → Text → Text → ExportJob
new_job now user job_type fmt = record {
  job_type = job_type;
  fmt = fmt;
  status = JobStatus.pending;
  requested_by_id = some user;
  row_count = none;
  file_path = none;
  file_bytes = none;
  error = none;
  expires_at = none;
  created_at = now;
  finished_at = none;
}

abbrev pub add_job : ℕ → ExportJob → Exports → Exports
add_job user job db = record {
  jobs = put (fresh db.jobs) job db.jobs;
  audit = db.audit ++ record { actor_id = user; job_id = fresh db.jobs } ∷ [];
}

unfoldable pub create_export_job : ℕ → ℕ → Text → Text → Exports → Result ℕ × Exports
create_export_job now user job_type fmt db =
    if is_empty job_type
    then (err Fault.job_type_required, db)
    else if not (is_exported job_type)
    then (err Fault.invalid_job_type, db)
    else if not (text_eq fmt (codes "csv"))
    then (err Fault.invalid_fmt, db)
    else (ok (fresh db.jobs), add_job user (new_job now user job_type fmt) db)

abbrev pub is_pending_job : ℕ × ExportJob → Bool
is_pending_job (id, job) = elim job.status [ JobStatus.pending ↦ true | _ ↦ false ]

abbrev earlier : ℕ × ExportJob → Option (ℕ × ExportJob) → ℕ × ExportJob
earlier row none = row
earlier row (some best) = if leb row.1.created_at best.1.created_at then row else best

-- ORDER BY created_at LIMIT 1.
unfoldable pub oldest : Table ExportJob → Option (ℕ × ExportJob)
oldest [] = none
oldest (row ∷ rows) = some (earlier row (oldest rows))

abbrev pub started : ExportJob → ExportJob
started job = record job { status = JobStatus.running }

abbrev pub is_ready : ExportJob → Bool
is_ready job = elim job.status [ JobStatus.ready ↦ true | _ ↦ false ]

abbrev pub failed_job : ℕ → Text → ExportJob → ExportJob
failed_job now message job = record job {
  status = JobStatus.failed;
  error = some (take 500 message);
  finished_at = some now;
}

abbrev pub finished_job : ExportWorld → ℕ → ExportJob → Collected → ExportJob
finished_job w id job (raised message) = failed_job w.now message job
finished_job w id job (wrote file) = record job {
  status = JobStatus.ready;
  file_path = some (codes "exports/" ++ w.file_name id job);
  file_bytes = some file.bytes;
  row_count = some file.rows;
  expires_at = some (job.created_at + 86400);
  finished_at = some w.now;
}

-- The file is not written outside the exports, nor for an unknown type.
abbrev pub written : ExportWorld → ℕ → ExportJob → Collected
written w id job =
    if not (w.is_in_exports (codes "exports/" ++ w.file_name id job))
    then Collected.raised (codes "escapes exports directory")
    else if is_exported job.job_type
    then w.collect job
    else Collected.raised (codes "Unknown export job_type")

abbrev pub finish_job : ExportWorld → ℕ → Option ExportJob → Exports → Exports
finish_job w id none db = db
finish_job w id (some job) db = record db {
  jobs = put id (finished_job w id job (written w id job)) db.jobs;
}

-- The two sessions of `_process_export_jobs`; a worker that stops between them leaves the job running.
abbrev pub start_picked : Option (ℕ × ExportJob) → Exports → Exports
start_picked none db = db
start_picked (some (id, job)) db = record db { jobs = put id (started job) db.jobs }

abbrev pub finish_picked : ExportWorld → Option (ℕ × ExportJob) → Exports → Exports
finish_picked w none db = db
finish_picked w (some (id, job)) db = finish_job w id (find id db.jobs) db

abbrev pub picked : Exports → Option (ℕ × ExportJob)
picked db = oldest (where_ is_pending_job db.jobs)

unfoldable pub process_export_jobs : ExportWorld → Exports → Bool × Exports
unfolding oldest
process_export_jobs w db =
    (is_some (picked db), finish_picked w (picked db) (start_picked (picked db) db))

abbrev is_past : ℕ → Option ℕ → Bool
is_past now none = false
is_past now (some t) = leb t now

abbrev pub is_expirable : ℕ → ℕ × ExportJob → Bool
is_expirable now (id, job) =
    (elim job.status [ JobStatus.ready ↦ true | JobStatus.failed ↦ true | _ ↦ false ])
    && is_past now job.expires_at

abbrev pub expired_job : ℕ × ExportJob → ℕ × ExportJob
expired_job (id, job) = (id, record job { status = JobStatus.expired; file_path = none })

-- UPDATE of the first rows that match.
unfoldable pub update_first :
    ℕ → (ℕ × ExportJob → Bool) → (ℕ × ExportJob → ℕ × ExportJob) → Table ExportJob → Table ExportJob
update_first limit p f [] = []
update_first limit p f (row ∷ rows) =
    let next = update_first (limit - 1) p f rows in
    let other = update_first limit p f rows in
    if p row && ltb 0 limit then f row ∷ next else row ∷ other

-- `_purge_expired_export_jobs`.
unfoldable pub purge_expired_export_jobs : ℕ → Exports → Exports
unfolding update_first
purge_expired_export_jobs now db = record db {
  jobs = update_first 50 (is_expirable now) expired_job db.jobs;
}

abbrev pub is_over : ℕ → Option ℕ → Bool
is_over now none = false
is_over now (some t) = ltb t now

abbrev pub download_file : ExportWorld → Bool → Option Text → Result Text
download_file w done none = err Fault.export_not_ready
download_file w done (some path) =
    if not done || is_empty path
    then err Fault.export_not_ready
    else if not (w.is_in_storage path)
    then err Fault.access_denied
    else if w.is_file path
    then ok path
    else err Fault.export_missing

abbrev is_by : ℕ → Option ℕ → Bool
is_by user none = false
is_by user (some n) = n == user

abbrev pub download_job : ExportWorld → ℕ → Option ExportJob → Result Text
download_job w user none = err Fault.job_not_found
download_job w user (some job) =
    if not (is_by user job.requested_by_id)
    then err Fault.access_denied
    else if is_over w.now job.expires_at
    then err Fault.export_expired
    else download_file w (is_ready job) job.file_path

unfoldable pub download_export_job : ExportWorld → ℕ → ℕ → Exports → Result Text
download_export_job w user id db = download_job w user (find id db.jobs)
