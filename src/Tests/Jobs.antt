-- ===== src/Tests/Jobs.antt =====
-- An export job that is written and one that fails.
use seraphim.Common.{ℕ, ◌≡◌, if◌then◌else◌, refl, Bool, true, false, some, List, [], ◌∷◌, where_}
use seraphim.Common.Table.{find, put, fresh}
use seraphim.Common.Text.{codes, text_eq}
use seraphim.Exports.{
  Collected, ExportJob, ExportWorld, Exports, create_export_job, download_export_job, oldest,
  process_export_jobs, purge_expired_export_jobs, update_first,
}
use seraphim.Exports.Downloads.{
  IsOffered, is_failed, no_exports, purge_expired_export_jobs-failed,
  serve_exports-download_export_job,
}
use seraphim.Exports.Serve.{ExportRequest, serve_export, serve_exports}
use seraphim.Session.{ok}

abbrev world : ℕ → Bool → ExportWorld
world now works = record {
  now = now;
  file_name = λ id job. codes "a.csv";
  collect = λ job.
      if works
      then Collected.wrote (record { rows = 3; bytes = 90 })
      else Collected.raised (codes "disk");
  is_in_exports = λ path. true;
  is_in_storage = λ path. true;
  is_file = λ path. true;
}

abbrev requests : List ExportRequest
requests =
    ExportRequest.create 100 8 (codes "contacts") (codes "csv")
    ∷ ExportRequest.create 110 8 (codes "attendance") (codes "csv")
    ∷ ExportRequest.process (world 120 true)
    ∷ ExportRequest.process (world 130 false)
    ∷ ExportRequest.expire 140
    ∷ []

abbrev db : Exports
db = serve_exports requests no_exports

downloads : download_export_job (world 200 true) 8 1 db ≡ ok (codes "exports/a.csv")
unfolding download_export_job serve_exports serve_export create_export_job process_export_jobs
    purge_expired_export_jobs update_first oldest find put fresh where_ text_eq
downloads = refl

serve_exports-download_export_job_example :
    (job : ExportJob) × (find 1 db.jobs ≡ some job) × IsOffered 200 8 (codes "exports/a.csv") job
serve_exports-download_export_job_example =
    serve_exports-download_export_job requests (world 200 true) 8 1 (codes "exports/a.csv")
      downloads

purge_expired_export_jobs-failed_example :
    where_ is_failed (purge_expired_export_jobs 1000000 db).jobs ≡ where_ is_failed db.jobs
purge_expired_export_jobs-failed_example = purge_expired_export_jobs-failed requests 1000000
