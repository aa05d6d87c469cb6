-- ===== src/Cleanup/Ends.antt =====
-- A cleanup that meets an eligible detection ends with an error, or never.
use Prim.Native.Nat.{zero}
use seraphim.Common.{
  ℕ, suc, ◌≡◌, ◌≢◌, ◌≤◌, refl, ap, ◌∙◌, Bool, true, false, ◌||◌, none, some, List, [], ◌∷◌, ◌==◌,
  ◌↔◌, subst, any, count, where_, take, length, arith, Bool-cases, inl, inr, length-where_,
}
use seraphim.Common.Table.{Table}
use seraphim.Cleanup.{
  CleanupResult, CleanupStatus, CleanupWorld, Ended, StoredDetection, cleanup_rounds,
  eligible_batch, flushed, is_eligible, joined, new_result, on_batch, process_batch,
  process_detection, run_cleanup, count_scanned, tally_all,
}
use seraphim.Models.{Task}
use seraphim.Session.{Fault, Result, ok, err}
use seraphim.Cleanup.Outcomes.{Flushes, Single, is_clearable, row-Flushes}

abbrev FlushesAll : Bool → Result (List CleanupStatus) → Type 0
FlushesAll true r = r ≡ err Fault.integrity_error
FlushesAll false r = (statuses : List CleanupStatus) × (r ≡ ok statuses)

joined-Flushes :
    (one all : Bool) (r : Result CleanupStatus) (rest : Result (List CleanupStatus))
    → Flushes one r
    → FlushesAll all rest
    → FlushesAll (one || all) (joined r rest)
joined-Flushes true all r rest h k = rw h refl
joined-Flushes false true r rest (s, h) k = rw h (rw k refl)
joined-Flushes false false r rest (s, h) (statuses, k) = rw h (rw k (s ∷ statuses, refl))

length-take :
    (n : ℕ) (rows : Table StoredDetection) → 1 ≤ length rows → 1 ≤ length (take (suc n) rows)
length-take n [] h = h
length-take n (row ∷ rows) h = omega arith

batch_there :
    (w : CleanupWorld) (rows : Table StoredDetection)
    → 1 ≤ count (is_eligible w) rows
    → 1 ≤ length (eligible_batch w rows)
batch_there w rows h =
    length-take 99 (where_ (is_eligible w) rows)
      (omega (arith, h, length-where_ (is_eligible w) rows))

on_batch-never :
    (next : CleanupResult → Ended) (batch : Table StoredDetection) (counts r : CleanupResult)
    (processed : Result (List CleanupStatus))
    → 1 ≤ length batch
    → ((c : CleanupResult) → next c ≢ some (ok r))
    → on_batch next batch counts processed ≢ some (ok r)
on_batch-never next [] counts r processed there later h = omega (arith, there)
on_batch-never next (first ∷ others) counts r (err e) there later h = cc h
on_batch-never next (first ∷ others) counts r (ok statuses) there later h =
    later (tally_all statuses (count_scanned (length (first ∷ others)) counts)) h

-- What is not empty stays, and no round succeeds.
never_ok :
    (w : CleanupWorld) (tasks : List Task) (fuel round : ℕ) (rows : Table StoredDetection)
    (counts r : CleanupResult)
    → 1 ≤ length (eligible_batch w rows)
    → cleanup_rounds fuel w round tasks rows counts ≢ some (ok r)
unfolding cleanup_rounds
never_ok w tasks zero round rows counts r there h = cc h
never_ok w tasks (suc fuel) round rows counts r there h =
    on_batch-never (λ c. cleanup_rounds fuel w (suc round) tasks rows c) (eligible_batch w rows)
      counts r (process_batch w round tasks (eligible_batch w rows)) there
      (λ c. never_ok w tasks fuel (suc round) rows c r there) h

module _ (w : CleanupWorld) (tasks : List Task) (single : Single tasks) where
  batch-Flushes :
      (round : ℕ) (batch : Table StoredDetection)
      → FlushesAll (any (is_clearable w round tasks) batch) (process_batch w round tasks batch)
  unfolding process_batch any
  batch-Flushes round [] = ([], refl)
  batch-Flushes round ((id, d) ∷ batch) =
      joined-Flushes (is_clearable w round tasks (id, d)) (any (is_clearable w round tasks) batch)
        (flushed (process_detection w round tasks id d)) (process_batch w round tasks batch)
        (row-Flushes w round tasks id d single) (batch-Flushes round batch)

  -- A round without one.
  on_batch-next :
      (next : CleanupResult → Ended) (batch : Table StoredDetection) (r : CleanupResult)
      (processed : Result (List CleanupStatus)) (clear : ℕ × StoredDetection → Bool)
      → 1 ≤ length batch
      → any clear batch ≡ false
      → FlushesAll (any clear batch) processed
      → ((counts : CleanupResult) → next counts ≡ none)
      → on_batch next batch r processed ≡ none
  on_batch-next next [] r processed clear some_there h flushes ends =
      absurd (omega (arith, some_there))
  on_batch-next next (first ∷ others) r processed clear some_there h flushes ends =
      let (statuses, e) : FlushesAll false processed =
        subst (λ b. FlushesAll b processed) h flushes in
      rw e (ends (tally_all statuses (count_scanned (length (first ∷ others)) r)))

  rounds_stuck :
      (fuel round : ℕ) (rows : Table StoredDetection) (r : CleanupResult)
      → 1 ≤ length (eligible_batch w rows)
      → ((later : ℕ) → any (is_clearable w later tasks) (eligible_batch w rows) ≡ false)
      → cleanup_rounds fuel w round tasks rows r ≡ none
  unfolding cleanup_rounds
  rounds_stuck zero round rows r some_there stuck = refl
  rounds_stuck (suc fuel) round rows r some_there stuck =
      on_batch-next (λ counts. cleanup_rounds fuel w (suc round) tasks rows counts)
        (eligible_batch w rows) r (process_batch w round tasks (eligible_batch w rows))
        (is_clearable w round tasks) some_there (stuck round)
        (batch-Flushes round (eligible_batch w rows))
        (λ counts. rounds_stuck fuel (suc round) rows counts some_there stuck)

-- Where no detection has two pending tasks or two in the pit, and there is an eligible detection, but
-- in no round one of the first batch that no task protects, that has an image, and whose files the
-- disk deletes: no number of rounds ends the cleanup.
pub run_cleanup-stuck :
    (fuel : ℕ) (w : CleanupWorld) (tasks : List Task) (rows : Table StoredDetection)
    → Single tasks
    → 1 ≤ count (is_eligible w) rows
    → ((round : ℕ) → any (is_clearable w round tasks) (eligible_batch w rows) ≡ false)
    → run_cleanup fuel w tasks rows ≡ none
unfolding run_cleanup
run_cleanup-stuck fuel w tasks rows single some_there stuck =
    rounds_stuck w tasks single fuel 0 rows new_result (batch_there w rows some_there) stuck

empty_batch :
    (w : CleanupWorld) (rows : Table StoredDetection)
    → count (is_eligible w) rows ≡ 0
    → eligible_batch w rows ≡ []
empty_batch w rows h =
    rw (no_rows (where_ (is_eligible w) rows) (length-where_ (is_eligible w) rows ∙ h)) refl
  where
    no_rows : (found : Table StoredDetection) → length found ≡ 0 → found ≡ []
    no_rows [] e = refl
    no_rows (row ∷ found) e = absurd (omega (arith, e))

ended_at_once :
    (w : CleanupWorld) (tasks : List Task) (fuel : ℕ) (rows : Table StoredDetection)
    → count (is_eligible w) rows ≡ 0
    → run_cleanup (suc fuel) w tasks rows ≡ some (ok new_result)
unfolding run_cleanup cleanup_rounds
ended_at_once w tasks fuel rows h =
    ap
      (λ b.
        on_batch (λ counts. cleanup_rounds fuel w 1 tasks rows counts) b new_result
          (process_batch w 0 tasks (eligible_batch w rows)))
      (empty_batch w rows h)

none_eligible :
    (w : CleanupWorld) (tasks : List Task) (fuel : ℕ) (rows : Table StoredDetection)
    (r : CleanupResult)
    → run_cleanup fuel w tasks rows ≡ some (ok r)
    → count (is_eligible w) rows ≡ 0
unfolding run_cleanup
none_eligible w tasks fuel rows r h = elim (Bool-cases (count (is_eligible w) rows == 0)) [
  | inl nothing ↦ ground (arith, nothing)
  | inr something ↦
      absurd (
        never_ok w tasks fuel 0 rows new_result r (batch_there w rows (ground (arith, something)))
          h)
]

-- A cleanup ends without an error exactly if there is no eligible detection; its counts are then all 0.
pub run_cleanup-ok :
    (fuel : ℕ) (w : CleanupWorld) (tasks : List Task) (rows : Table StoredDetection)
    (r : CleanupResult)
    → (run_cleanup (suc fuel) w tasks rows ≡ some (ok r))
      ↔ ((count (is_eligible w) rows ≡ 0) × (r ≡ new_result))
run_cleanup-ok fuel w tasks rows r = (
  λ h.
      let nothing = none_eligible w tasks (suc fuel) rows r h in
      (nothing, cc (h, ended_at_once w tasks fuel rows nothing)),
  λ (nothing, same). rw same (ended_at_once w tasks fuel rows nothing),
)
