-- ===== src/Exports/Serve.antt =====
-- The jobs are sound whatever requests are served.
use seraphim.Common.{
  ℕ, ◌-◌, ◌≡◌, refl, ◌∙◌, arith, inl, inr, Bool-cases, Bool, true, false, not, ◌&&◌, Option, none,
  some, List, [], ◌∷◌, ==_refl, where_, any, ltb, if◌then◌else◌,
}
use seraphim.Common.Table.{Table, find, put, fresh, find-put}
use seraphim.Common.Text.{Text, is_empty, text_eq, codes}
use seraphim.Exports.{
  Collected, ExportJob, ExportWorld, Exports, add_job, create_export_job, expired_job,
  finish_picked, finished_job, is_exported, is_expirable, is_pending_job, new_job, oldest, picked,
  process_export_jobs, purge_expired_export_jobs, start_picked, started, update_first, written,
}
use seraphim.Session.{Fault, Result, ok, err}
use seraphim.Exports.Sound.{
  Sound, is_sound, is_wrong, none_wrong, oldest-right, pending_columns, put-Sound,
}

pub data ExportRequest : Type 0 where
  create : ℕ → ℕ → Text → Text → ExportRequest
  process : ExportWorld → ExportRequest
  interrupted : ExportRequest
  expire : ℕ → ExportRequest

-- `interrupted` is a worker that stops after it has started a job.
unfoldable pub serve_export : ExportRequest → Exports → Exports
unfolding oldest
serve_export (create now user job_type fmt) db = (create_export_job now user job_type fmt db).1
serve_export (process w) db = (process_export_jobs w db).1
serve_export interrupted db = start_picked (picked db) db
serve_export (expire now) db = purge_expired_export_jobs now db

unfoldable pub serve_exports : List ExportRequest → Exports → Exports
unfolding serve_export
serve_exports [] db = db
serve_exports (request ∷ requests) db = serve_exports requests (serve_export request db)

if-Sound :
    (test : Bool) (a b : Result ℕ × Exports)
    → Sound a.1.jobs
    → Sound b.1.jobs
    → Sound (if test then a else b).1.jobs
if-Sound true a b first second = first
if-Sound false a b first second = second

create-Sound :
    (now user : ℕ) (job_type fmt : Text) (db : Exports)
    → Sound db.jobs
    → Sound (create_export_job now user job_type fmt db).1.jobs
unfolding create_export_job
create-Sound now user job_type fmt db h =
    let done : Result ℕ × Exports =
      (ok (fresh db.jobs), add_job user (new_job now user job_type fmt) db) in
    let no_fmt : Result ℕ × Exports =
      if not (text_eq fmt (codes "csv")) then (err Fault.invalid_fmt, db) else done in
    let no_type : Result ℕ × Exports =
      if not (is_exported job_type) then (err Fault.invalid_job_type, db) else no_fmt in
    if-Sound (is_empty job_type) (err Fault.job_type_required, db) no_type h
      (if-Sound (not (is_exported job_type)) (err Fault.invalid_job_type, db) no_fmt h
        (if-Sound (not (text_eq fmt (codes "csv"))) (err Fault.invalid_fmt, db) done h
          (put-Sound (fresh db.jobs) (new_job now user job_type fmt) db.jobs h refl)))

update_first-Sound :
    (limit now : ℕ) (rows : Table ExportJob)
    → Sound rows
    → Sound (update_first limit (is_expirable now) expired_job rows)
unfolding any update_first
update_first-Sound limit now [] h = refl
update_first-Sound limit now (row ∷ rows) h =
    elim (Bool-cases (is_expirable now row && ltb 0 limit)) [
      | inl chosen ↦ rw chosen (update_first-Sound (limit - 1) now rows (ground (arith, h)))
      | inr other ↦ rw other (ground (arith, h, update_first-Sound limit now rows))
    ]

purge-Sound :
    (now : ℕ) (db : Exports) → Sound db.jobs → Sound (purge_expired_export_jobs now db).jobs
unfolding purge_expired_export_jobs
purge-Sound now db h = update_first-Sound 50 now db.jobs h

started_sound : (row : ℕ × ExportJob) → is_wrong row ≡ false → is_sound (started row.1) ≡ true
started_sound row h =
    pending_columns row.1.status row.1.created_at row.1.expires_at row.1.file_path
      (ground (arith, h)) (ground (arith, h))

finished_sound :
    (w : ExportWorld) (id : ℕ) (job : ExportJob) (c : Collected)
    → is_sound (started job) ≡ true
    → is_sound (finished_job w id (started job) c) ≡ true
finished_sound w id job (Collected.raised message) h = h
finished_sound w id job (Collected.wrote file) h = ground arith

start-Sound :
    (best : Option (ℕ × ExportJob)) (db : Exports)
    → Sound db.jobs
    → ((found : ℕ × ExportJob) → best ≡ some found → is_wrong found ≡ false)
    → Sound (start_picked best db).jobs
start-Sound none db h right = h
start-Sound (some row) db h right =
    put-Sound row.0 (started row.1) db.jobs h (started_sound row (right row refl))

finish-Sound :
    (w : ExportWorld) (best : Option (ℕ × ExportJob)) (db : Exports)
    → Sound db.jobs
    → ((found : ℕ × ExportJob) → best ≡ some found → is_wrong found ≡ false)
    → Sound (finish_picked w best (start_picked best db)).jobs
finish-Sound w none db h right = h
finish-Sound w (some row) db h right =
    let sound = started_sound row (right row refl) in
    let rows = put row.0 (started row.1) db.jobs in
    let back : find row.0 rows ≡ some (started row.1) =
      find-put row.0 row.0 (started row.1) db.jobs ∙ rw (==_refl row.0) refl in
    rw back (
      put-Sound row.0 (finished_job w row.0 (started row.1) (written w row.0 (started row.1))) rows
        (put-Sound row.0 (started row.1) db.jobs h sound)
        (finished_sound w row.0 row.1 (written w row.0 (started row.1)) sound))

serve-Sound :
    (request : ExportRequest) (db : Exports) → Sound db.jobs → Sound (serve_export request db).jobs
unfolding serve_export process_export_jobs
serve-Sound (create now user job_type fmt) db h = create-Sound now user job_type fmt db h
serve-Sound (process w) db h =
    finish-Sound w (picked db) db h
      (λ found e. oldest-right (where_ is_pending_job db.jobs) found (none_wrong db.jobs h) e)
serve-Sound interrupted db h =
    start-Sound (picked db) db h
      (λ found e. oldest-right (where_ is_pending_job db.jobs) found (none_wrong db.jobs h) e)
serve-Sound (expire now) db h = purge-Sound now db h

pub serve_exports-Sound :
    (requests : List ExportRequest) (db : Exports)
    → Sound db.jobs
    → Sound (serve_exports requests db).jobs
unfolding serve_exports
serve_exports-Sound [] db h = h
serve_exports-Sound (request ∷ requests) db h =
    serve_exports-Sound requests (serve_export request db) (serve-Sound request db h)
