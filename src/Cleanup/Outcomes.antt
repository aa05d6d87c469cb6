-- ===== src/Cleanup/Outcomes.antt =====
-- How a cleanup ends, and when it does not.
use seraphim.Common.{
  ℕ, ◌≡◌, ◌≤◌, refl, sym, Bool, true, false, not, ◌&&◌, Option, none, some, List, [], ◌∷◌, ◌==◌,
  any, count, where_, is_some, arith, Bool-cases, inl, inr,
}
use seraphim.Common.Text.{Text, is_empty}
use seraphim.Cleanup.{
  CleanupStatus, CleanupWorld, StoredDetection, check_task, clean_path, flushed, is_awaiting_of,
  is_pending_of, process_detection,
}
use seraphim.Models.{Task}
use seraphim.Session.{Fault, Result, ok, err, one_or_none}

-- No detection has two pending tasks, or two in the pit.
abbrev pub Single : List Task → Type 0
Single tasks =
    (id : ℕ) → (count (is_pending_of id) tasks ≤ 1) × (count (is_awaiting_of id) tasks ≤ 1)

-- No pending task and no task in the pit protects the detection, it has an image, and the disk deletes
-- the files in this round.
abbrev pub is_clearable : CleanupWorld → ℕ → List Task → ℕ × StoredDetection → Bool
is_clearable w round tasks (id, d) =
    not (any (is_pending_of id) tasks)
    && not (any (is_awaiting_of id) tasks)
    && not (is_empty d.image_path)
    && (w.erase round d.image_path).errors == 0

-- At most one row is found, and none if there is none.
abbrev Finds : (Task → Bool) → List Task → Result (Option Task) → Type 0
Finds p tasks r = (found : Option Task) × (r ≡ ok found) × (is_some found ≡ any p tasks)

none_there : (p : Task → Bool) (tasks : List Task) → count p tasks ≡ 0 → where_ p tasks ≡ []
unfolding where_ count
none_there p [] h = refl
none_there p (t ∷ tasks) h = ground (arith, h, none_there p tasks)

finds :
    (p : Task → Bool) (tasks : List Task)
    → count p tasks ≤ 1
    → Finds p tasks (one_or_none (where_ p tasks))
unfolding where_ one_or_none any count
finds p [] h = (none, refl, refl)
finds p (t ∷ tasks) h = elim (Bool-cases (p t)) [
  | inl yes_ ↦ rw yes_ (rw (none_there p tasks (ground (arith, h, yes_))) (some t, refl, refl))
  | inr no_ ↦ rw no_ (finds p tasks (ground (arith, h, no_)))
]

-- A clearable row ends the batch with an error; another one has a status.
abbrev pub Flushes : Bool → Result CleanupStatus → Type 0
Flushes true r = r ≡ err Fault.integrity_error
Flushes false r = (s : CleanupStatus) × (r ≡ ok s)

path-Flushes :
    (w : CleanupWorld) (round : ℕ) (path : Text)
    → Flushes
        (not (is_empty path) && (w.erase round path).errors == 0)
        (flushed (ok (clean_path w round path)))
path-Flushes w round [] = (CleanupStatus.missing_file, refl)
path-Flushes w round (c ∷ path) = elim (Bool-cases ((w.erase round (c ∷ path)).errors == 0)) [
  | inl gone ↦ rw gone refl
  | inr failed ↦ rw failed (CleanupStatus.error_, refl)
]

check-Flushes :
    (w : CleanupWorld) (round : ℕ) (d : StoredDetection) (waiting pending : Option Task)
    → Flushes
        (not (is_some pending)
          && not (is_some waiting)
          && not (is_empty d.image_path)
          && (w.erase round d.image_path).errors == 0)
        (flushed (check_task w round d (ok waiting) (ok pending)))
check-Flushes w round d waiting (some t) = (CleanupStatus.protected_task, refl)
check-Flushes w round d (some t) none = (CleanupStatus.protected_pit, refl)
check-Flushes w round d none none = path-Flushes w round d.image_path

pub row-Flushes :
    (w : CleanupWorld) (round : ℕ) (tasks : List Task) (id : ℕ) (d : StoredDetection)
    → Single tasks
    → Flushes (is_clearable w round tasks (id, d)) (flushed (process_detection w round tasks id d))
unfolding process_detection
row-Flushes w round tasks id d single =
    let (pending, e, there) = finds (is_pending_of id) tasks (single id).0 in
    let (waiting, f, awaited) = finds (is_awaiting_of id) tasks (single id).1 in
    rw e (rw f (rw (sym there) (rw (sym awaited) (check-Flushes w round d waiting pending))))
