-- ===== src/Exports/Downloads.antt =====
-- The download of a job's file, and the failed jobs.
use seraphim.Common.{
  ℕ, ◌+◌, ◌-◌, ◌≡◌, ◌≤◌, refl, arith, inl, inr, Bool-cases, Bool, true, false, not, ◌&&◌, ◌||◌,
  Option, none, some, List, [], ◌∷◌, where_, any, ltb,
}
use seraphim.Common.Table.{Table, find}
use seraphim.Common.Text.{Text, is_empty}
use seraphim.Exports.{
  ExportJob, ExportWorld, Exports, JobStatus, download_export_job, download_file, download_job,
  expired_job, is_expirable, is_over, is_ready, is_by, purge_expired_export_jobs, update_first,
}
use seraphim.Exports.Sound.{Sound, find-Sound, is_sound, is_unsound, sound_columns}
use seraphim.Exports.Serve.{ExportRequest, serve_exports, serve_exports-Sound}
use seraphim.Session.{ok}

abbrev pub no_exports : Exports
no_exports = record { jobs = []; audit = [] }

file_downloaded :
    (w : ExportWorld) (done : Bool) (file : Option Text) (path : Text)
    → download_file w done file ≡ ok path
    → (done ≡ true) × (file ≡ some path)
file_downloaded w done none path h = absurd (cc h)
file_downloaded w done (some name) path h = elim (Bool-cases (not done || is_empty name)) [
  | inl unready ↦ absurd (cc (rw unready at h))
  | inr open_ ↦ elim (Bool-cases (w.is_in_storage name)) [
    | inl inside ↦ elim (Bool-cases (w.is_file name)) [
      | inl there ↦ (ground (arith, open_), cc (rw there at (rw inside at (rw open_ at h))))
      | inr gone ↦ absurd (cc (rw gone at (rw inside at (rw open_ at h))))
    ]
    | inr outside ↦ absurd (cc (rw outside at (rw open_ at h)))
  ]
]

by_user : (user : ℕ) (owner : Option ℕ) → is_by user owner ≡ true → owner ≡ some user
by_user user none h = absurd (cc h)
by_user user (some n) h = let same : n ≡ user = ground (arith, h) in rw same refl

ready_columns :
    (status : JobStatus) (created now : ℕ) (ends : Option ℕ) (file : Option Text)
    → (elim status [ JobStatus.ready ↦ true | _ ↦ false ]) ≡ true
    → sound_columns status created ends file ≡ true
    → is_over now ends ≡ false
    → (status ≡ JobStatus.ready) × (now ≤ created + 86400)
ready_columns JobStatus.pending created now ends file h sound open_ = absurd (cc h)
ready_columns JobStatus.running created now ends file h sound open_ = absurd (cc h)
ready_columns JobStatus.failed created now ends file h sound open_ = absurd (cc h)
ready_columns JobStatus.expired created now ends file h sound open_ = absurd (cc h)
ready_columns JobStatus.ready created now none file h sound open_ = absurd (cc sound)
ready_columns JobStatus.ready created now (some t) file h sound open_ =
    (refl, ground (arith, sound, open_))

-- The job whose file is downloaded.
abbrev pub IsOffered : ℕ → ℕ → Text → ExportJob → Type 0
IsOffered now user path job =
    (job.status ≡ JobStatus.ready)
    × (job.requested_by_id ≡ some user)
    × (job.file_path ≡ some path)
    × (now ≤ job.created_at + 86400)

job_downloaded :
    (w : ExportWorld) (user : ℕ) (job : ExportJob) (path : Text)
    → is_sound job ≡ true
    → download_job w user (some job) ≡ ok path
    → IsOffered w.now user path job
job_downloaded w user job path sound h = elim (Bool-cases (is_by user job.requested_by_id)) [
  | inr other ↦ absurd (cc (rw other at h))
  | inl mine ↦ elim (Bool-cases (is_over w.now job.expires_at)) [
    | inl over ↦ absurd (cc (rw over at (rw mine at h)))
    | inr open_ ↦
        (let (done, file) =
            file_downloaded w (is_ready job) job.file_path path (rw open_ at (rw mine at h)) in
          let (status, time) =
            ready_columns job.status job.created_at w.now job.expires_at job.file_path done sound
              open_ in
          (status, by_user user job.requested_by_id mine, file, time))
  ]
]

found_downloaded :
    (w : ExportWorld) (user id : ℕ) (rows : Table ExportJob) (path : Text) (row : Option ExportJob)
    → Sound rows
    → find id rows ≡ row
    → download_job w user row ≡ ok path
    → (job : ExportJob) × (find id rows ≡ some job) × IsOffered w.now user path job
found_downloaded w user id rows path none sound found h = absurd (cc h)
found_downloaded w user id rows path (some job) sound found h =
    (job, found, job_downloaded w user job path (find-Sound id job rows sound found) h)

no_jobs : Sound no_exports.jobs
unfolding any
no_jobs = refl

-- Whatever jobs were created, processed, interrupted and purged: a download that succeeds is that of
-- the file of a ready job, for the user who requested it, within a day of the job's creation.
pub serve_exports-download_export_job :
    (requests : List ExportRequest) (w : ExportWorld) (user id : ℕ) (path : Text)
    → download_export_job w user id (serve_exports requests no_exports) ≡ ok path
    → (job : ExportJob) × (find id (serve_exports requests no_exports).jobs ≡ some job)
      × IsOffered w.now user path job
unfolding download_export_job
serve_exports-download_export_job requests w user id path h =
    let db = serve_exports requests no_exports in
    found_downloaded w user id db.jobs path (find id db.jobs)
      (serve_exports-Sound requests no_exports no_jobs) refl h

abbrev pub is_failed : ℕ × ExportJob → Bool
is_failed (id, job) = elim job.status [ JobStatus.failed ↦ true | _ ↦ false ]

failed_columns :
    (status : JobStatus) (created : ℕ) (ends : Option ℕ) (file : Option Text)
    → (elim status [ JobStatus.failed ↦ true | _ ↦ false ]) ≡ true
    → sound_columns status created ends file ≡ true
    → ends ≡ none
failed_columns JobStatus.pending created ends file h sound = absurd (cc h)
failed_columns JobStatus.running created ends file h sound = absurd (cc h)
failed_columns JobStatus.ready created ends file h sound = absurd (cc h)
failed_columns JobStatus.expired created ends file h sound = absurd (cc h)
failed_columns JobStatus.failed created none file h sound = refl
failed_columns JobStatus.failed created (some t) file h sound = absurd (cc sound)

kept_failed :
    (now : ℕ) (row : ℕ × ExportJob)
    → is_failed row ≡ true
    → is_unsound row ≡ false
    → is_expirable now row ≡ false
kept_failed now row h sound =
    let never =
      failed_columns row.1.status row.1.created_at row.1.expires_at row.1.file_path h
        (ground (arith, sound)) in
    rw never (ground arith)

update_first-failed :
    (limit now : ℕ) (rows : Table ExportJob)
    → Sound rows
    → where_ is_failed (update_first limit (is_expirable now) expired_job rows)
      ≡ where_ is_failed rows
unfolding any update_first where_
update_first-failed limit now [] h = refl
update_first-failed limit now (row ∷ rows) h =
    elim (Bool-cases (is_expirable now row && ltb 0 limit)) [
      | inl chosen ↦ elim (Bool-cases (is_failed row)) [
        | inl failed_ ↦
            (let never = kept_failed now row failed_ (ground (arith, h)) in
              absurd (ground (arith, chosen, never)))
        | inr other ↦
            rw chosen (rw other (update_first-failed (limit - 1) now rows (ground (arith, h))))
      ]
      | inr other ↦
          rw other (ground (arith, update_first-failed limit now rows (ground (arith, h))))
    ]

-- Whatever jobs were created, processed, interrupted and purged: another purge, at any time, leaves
-- each failed job as it is, so that none of them ever expires.
pub purge_expired_export_jobs-failed :
    (requests : List ExportRequest) (now : ℕ)
    → let db = serve_exports requests no_exports in
      where_ is_failed (purge_expired_export_jobs now db).jobs ≡ where_ is_failed db.jobs
unfolding purge_expired_export_jobs
purge_expired_export_jobs-failed requests now =
    update_first-failed 50 now (serve_exports requests no_exports).jobs
      (serve_exports-Sound requests no_exports no_jobs)
