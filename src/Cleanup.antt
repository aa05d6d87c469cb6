-- ===== src/Cleanup.antt =====
-- backend/app/services/face_cleanup.py: old detections lose their images. The disk is an answer for
-- each round of the loop and each path; the clock stands still during a run, and the driver takes the
-- cutoff with a zone for the column without one. The loop runs on fuel: `none` is a run that has not
-- ended.
pub mod Outcomes
pub mod Ends
use Prim.Native.Nat.{zero, max}
use seraphim.Common.{
  ℕ, suc, ◌+◌, ◌-◌, ◌*◌, Bool, true, false, not, ◌&&◌, ◌||◌, Option, none, some, List, [], ◌∷◌,
  ◌==◌, any, where_, take, length, is_some, ltb, if◌then◌else◌,
}
use seraphim.Common.Table.{Table}
use seraphim.Common.Text.{Text}
use seraphim.Consent.Purge.{Erased}
use seraphim.Models.{PitStatus, Task, TaskStatus}
use seraphim.Session.{Fault, Result, ok, err, one_or_none}

-- The column `image_path` is NOT NULL.
pub record StoredDetection : Type 0 where
  pub created_at : ℕ
  pub is_enrolled : Bool
  pub image_path : Text
  pub deleted_at : Option ℕ

pub record CleanupWorld : Type 0 where
  pub now : ℕ
  pub retention_days : ℕ
  pub erase : ℕ → Text → Erased

pub record CleanupResult : Type 0 where
  pub scanned : ℕ
  pub deleted : ℕ
  pub errors : ℕ
  pub protected_by_task : ℕ
  pub protected_by_pit : ℕ
  pub skipped_missing_file : ℕ

abbrev pub new_result : CleanupResult
new_result = record {
  scanned = 0;
  deleted = 0;
  errors = 0;
  protected_by_task = 0;
  protected_by_pit = 0;
  skipped_missing_file = 0;
}

pub data CleanupStatus : Type 0 where
  deleted_ protected_task protected_pit missing_file error_ : CleanupStatus

-- `created_at < cutoff`; a retention of zero days counts as one.
abbrev pub is_old : CleanupWorld → StoredDetection → Bool
is_old w d = ltb (d.created_at + 86400 * max w.retention_days 1) w.now

abbrev pub is_eligible : CleanupWorld → ℕ × StoredDetection → Bool
is_eligible w (id, d) = not d.is_enrolled && not (is_some d.deleted_at) && is_old w d

-- `_get_eligible_batch`.
abbrev pub batch_limit : ℕ
batch_limit = 100

abbrev pub eligible_batch : CleanupWorld → Table StoredDetection → Table StoredDetection
eligible_batch w rows = take batch_limit (where_ (is_eligible w) rows)

abbrev pub is_pending_of : ℕ → Task → Bool
is_pending_of id t =
    t.detection_id == id && (elim t.status [ TaskStatus.pending ↦ true | _ ↦ false ])

abbrev awaiting : Option PitStatus → Bool
awaiting none = false
awaiting (some PitStatus.awaiting) = true
awaiting (some PitStatus.enrolled) = false
awaiting (some PitStatus.deleted) = false
awaiting (some PitStatus.non_person) = false

abbrev pub is_awaiting_of : ℕ → Task → Bool
is_awaiting_of id t = t.detection_id == id && awaiting t.pit_status

-- What the session has to write of a detection: nothing, or no image and the time of the deletion.
pub data Change : Type 0 where
  kept : Change
  cleared : ℕ → Change

abbrev pub cleaned : CleanupWorld → Erased → CleanupStatus × Change
cleaned w erased =
    if erased.errors == 0
    then (
      if erased.files == 0 then CleanupStatus.missing_file else CleanupStatus.deleted_,
      Change.cleared w.now,
    )
    else (CleanupStatus.error_, Change.kept)

abbrev pub clean_path : CleanupWorld → ℕ → Text → CleanupStatus × Change
clean_path w round [] = (CleanupStatus.missing_file, Change.kept)
clean_path w round (c ∷ path) = cleaned w (w.erase round (c ∷ path))

abbrev pub check_pit :
    CleanupWorld → ℕ → StoredDetection → Result (Option Task) → Result (CleanupStatus × Change)
check_pit w round d (err e) = err e
check_pit w round d (ok (some t)) = ok (CleanupStatus.protected_pit, Change.kept)
check_pit w round d (ok none) = ok (clean_path w round d.image_path)

abbrev pub check_task :
    CleanupWorld
    → ℕ
    → StoredDetection
    → Result (Option Task)
    → Result (Option Task)
    → Result (CleanupStatus × Change)
check_task w round d waiting (err e) = err e
check_task w round d waiting (ok (some t)) = ok (CleanupStatus.protected_task, Change.kept)
check_task w round d waiting (ok none) = check_pit w round d waiting

-- `_process_detection`.
unfoldable pub process_detection :
    CleanupWorld → ℕ → List Task → ℕ → StoredDetection → Result (CleanupStatus × Change)
process_detection w round tasks id d =
    check_task w round d (one_or_none (where_ (is_awaiting_of id) tasks))
      (one_or_none (where_ (is_pending_of id) tasks))

-- The flush before the next query, or that of the commit: the column refuses the null.
abbrev pub flushed : Result (CleanupStatus × Change) → Result CleanupStatus
flushed (err e) = err e
flushed (ok (s, Change.kept)) = ok s
flushed (ok (s, Change.cleared now)) = err Fault.integrity_error

abbrev pub joined : Result CleanupStatus → Result (List CleanupStatus) → Result (List CleanupStatus)
joined (err e) rest = err e
joined (ok s) (err e) = err e
joined (ok s) (ok statuses) = ok (s ∷ statuses)

-- The statuses of a batch.
unfoldable pub process_batch :
    CleanupWorld → ℕ → List Task → Table StoredDetection → Result (List CleanupStatus)
unfolding process_detection
process_batch w round tasks [] = ok []
process_batch w round tasks ((id, d) ∷ batch) =
    joined (flushed (process_detection w round tasks id d)) (process_batch w round tasks batch)

abbrev pub tally : CleanupStatus → CleanupResult → CleanupResult
tally CleanupStatus.deleted_ r = record r { deleted = r.deleted + 1 }
tally CleanupStatus.protected_task r = record r { protected_by_task = r.protected_by_task + 1 }
tally CleanupStatus.protected_pit r = record r { protected_by_pit = r.protected_by_pit + 1 }
tally CleanupStatus.missing_file r = record r { skipped_missing_file = r.skipped_missing_file + 1 }
tally CleanupStatus.error_ r = record r { errors = r.errors + 1 }

unfoldable pub tally_all : List CleanupStatus → CleanupResult → CleanupResult
tally_all [] r = r
tally_all (s ∷ statuses) r = tally_all statuses (tally s r)

abbrev pub count_scanned : ℕ → CleanupResult → CleanupResult
count_scanned n r = record r { scanned = r.scanned + n }

abbrev pub Ended : Type 0
Ended = Option (Result CleanupResult)

-- After the commit of a batch comes the next round, with its number and the counts. What is committed
-- changes no row, and an error is followed by no commit.
abbrev pub after_batch :
    (CleanupResult → Ended) → ℕ → CleanupResult → Result (List CleanupStatus) → Ended
after_batch next found r (err e) = some (err e)
after_batch next found r (ok statuses) = next (tally_all statuses (count_scanned found r))

abbrev pub on_batch :
    (CleanupResult → Ended)
    → Table StoredDetection
    → CleanupResult
    → Result (List CleanupStatus)
    → Ended
on_batch next [] r processed = some (ok r)
on_batch next (first ∷ others) r processed = after_batch next (length (first ∷ others)) r processed

-- The loop from a round on.
unfoldable pub cleanup_rounds :
    ℕ → CleanupWorld → ℕ → List Task → Table StoredDetection → CleanupResult → Ended
unfolding process_batch
cleanup_rounds zero w round tasks rows r = none
cleanup_rounds (suc fuel) w round tasks rows r =
    on_batch (λ counts. cleanup_rounds fuel w (suc round) tasks rows counts) (eligible_batch w rows)
      r (process_batch w round tasks (eligible_batch w rows))

-- `run_cleanup`.
unfoldable pub run_cleanup : ℕ → CleanupWorld → List Task → Table StoredDetection → Ended
unfolding cleanup_rounds
run_cleanup fuel w tasks rows = cleanup_rounds fuel w 0 tasks rows new_result
