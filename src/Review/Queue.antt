-- ===== src/Review/Queue.antt =====
-- `get_next_task` and `get_task_count` of task_service.py: what a volunteer is shown next.
use seraphim.Common.{
  ℕ, Bool, true, false, not, ◌&&◌, Option, none, some, [], ◌∷◌, ltb, leb, any, count, is_some,
  if◌then◌else◌,
}
use seraphim.Common.Table.{Table, find}
use seraphim.Models.{Db, Task, TaskStatus}
use seraphim.Review.{acted}

abbrev pub is_pending : TaskStatus → Bool
is_pending TaskStatus.pending = true
is_pending _ = false

-- The WHERE clauses, but for the join.
abbrev pub eligible : Db → ℕ → ℕ → ℕ × Task → Bool
eligible db now volunteer_id (task_id, task) =
    is_pending task.status
    && ltb now task.expiry_date
    && not (is_some task.pit_status)
    && not (any (acted task_id volunteer_id) db.actions)

-- The join with the detections: a task without its detection is no row.
abbrev pub taken_at : Db → Task → Option ℕ
taken_at db task = elim (find task.detection_id db.detections) [
  | none ↦ none
  | some d ↦ some d.timestamp
]

abbrev pub keep_earlier : ℕ × (ℕ × Task) → Option (ℕ × (ℕ × Task)) → Option (ℕ × (ℕ × Task))
keep_earlier entry none = some entry
keep_earlier entry (some best) = if leb entry.0 best.0 then some entry else some best

abbrev pub join_row : Option ℕ → ℕ × Task → Option (ℕ × (ℕ × Task)) → Option (ℕ × (ℕ × Task))
join_row none row best = best
join_row (some at) row best = keep_earlier (at, row) best

-- ORDER BY timestamp LIMIT 1, over the rows that pass.
unfoldable pub earliest : Db → ℕ → ℕ → Table Task → Option (ℕ × (ℕ × Task))
earliest db now volunteer_id [] = none
earliest db now volunteer_id (row ∷ rows) =
    let best = earliest db now volunteer_id rows in
    if eligible db now volunteer_id row then join_row (taken_at db row.1) row best else best

abbrev pub drop_time : Option (ℕ × (ℕ × Task)) → Option (ℕ × Task)
drop_time none = none
drop_time (some best) = some best.1

unfoldable pub get_next_task : Db → ℕ → ℕ → Option (ℕ × Task)
unfolding earliest
get_next_task db now volunteer_id = drop_time (earliest db now volunteer_id db.tasks)

unfoldable pub get_task_count : Db → ℕ
get_task_count db = count (λ (row : ℕ × Task). is_pending row.1.status) db.tasks
