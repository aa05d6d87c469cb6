-- ===== src/Tests/Cleanups.antt =====
-- Cleanups with an old detection that is free, with one that is protected, and with none.
use seraphim.Common.{
  ℕ, ◌≡◌, ◌≤◌, ◌↔◌, refl, Bool, true, false, none, some, [], ◌∷◌, count, any, where_, arith,
}
use seraphim.Common.Table.{Table}
use seraphim.Common.Text.{codes}
use seraphim.Cleanup.{
  CleanupWorld, StoredDetection, eligible_batch, is_eligible, new_result, run_cleanup,
}
use seraphim.Cleanup.Ends.{run_cleanup-ok, run_cleanup-stuck}
use seraphim.Cleanup.Outcomes.{Single, is_clearable}
use seraphim.Models.{Task, TaskStatus}
use seraphim.Session.{ok}

abbrev world : CleanupWorld
world = record {
  now = 1000000;
  retention_days = 0;
  erase = λ round path. record { files = 2; errors = 0 };
}

abbrev detection : ℕ → Bool → StoredDetection
detection created_at enrolled = record {
  created_at = created_at;
  is_enrolled = enrolled;
  image_path = codes "a_thumb.jpg";
  deleted_at = none;
}

-- Detection 1 is enrolled, 2 is old and 3 is new.
abbrev rows : Table StoredDetection
rows = (1, detection 5 true) ∷ (2, detection 5 false) ∷ (3, detection 999999 false) ∷ []

abbrev pending : ℕ → Task
pending id = record {
  detection_id = id;
  status = TaskStatus.pending;
  required_approvals = 1;
  current_approvals = 0;
  skip_count = 0;
  skip_reasons = [];
  pit_status = none;
  expiry_date = 2000000;
}

pending-Single : (id : ℕ) → Single (pending id ∷ [])
unfolding count
pending-Single id = λ j. (ground arith, ground arith)

free : any (is_clearable world 0 (pending 3 ∷ [])) (eligible_batch world rows) ≡ true
unfolding any where_
free = refl

one_eligible : 1 ≤ count (is_eligible world) rows
unfolding count
one_eligible = omega arith

guarded :
    (round : ℕ)
    → any (is_clearable world round (pending 2 ∷ [])) (eligible_batch world rows) ≡ false
unfolding any where_
guarded round = refl

run_cleanup-stuck_example : run_cleanup 5 world (pending 2 ∷ []) rows ≡ none
run_cleanup-stuck_example =
    run_cleanup-stuck 5 world (pending 2 ∷ []) rows (pending-Single 2) one_eligible guarded

run_cleanup-ok_example :
    (run_cleanup 1 world [] rows ≡ some (ok new_result))
    ↔ ((count (is_eligible world) rows ≡ 0) × (new_result ≡ new_result))
run_cleanup-ok_example = run_cleanup-ok 0 world [] rows new_result
