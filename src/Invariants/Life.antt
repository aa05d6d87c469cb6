-- ===== src/Invariants/Life.antt =====
-- The life of a task as a step relation, and the requests as steps of it.
use seraphim.Common.{
  ℕ, ◌≤◌, ◌≡◌, refl, Bool, true, Option, some, List, arith, ◌==◌, Bool-cases, inl, inr, sym,
}
use seraphim.Common.Table.{Table, find, put, find-put, fresh, find-fresh}
use seraphim.Common.Text.{Text}
use seraphim.Models.{Db, Task, TaskStatus, PitStatus}
use seraphim.Review.{approved, is_open, skipped_task}
use seraphim.Pit.{answered}
use seraphim.Pipeline.{new_task}
use seraphim.Requests.{Surroundings, Request, serve}
use seraphim.Requests.Serve.{serve-keeps}
use seraphim.Invariants.TaskRows.{TaskSteps, of_rows}

-- What may happen to a task. Only an approval asks for the status that the task has.
pub data TaskStep : Task → Task → Type 0 where
  approve : (t : Task) → is_open t.status ≡ true → TaskStep t (approved t)
  skip :
      (t : Task) (reason : Option Text) (to_pit : Bool) → TaskStep t (skipped_task reason to_pit t)
  override : (t : Task) → TaskStep t (record t { status = TaskStatus.resolved })
  close : (t : Task) (pit_status : PitStatus) → TaskStep t (answered pit_status t)
  expire : (t : Task) → TaskStep t (record t { status = TaskStatus.expired })

pub data Life : Task → Task → Type 0 where
  here : (t : Task) → Life t t
  then_ : {t u v : Task} → Life t u → TaskStep u v → Life t v

-- What no step changes, and what only grows.
pub record Grows (t u : Task) : Type 0 where
  pub detection_id : u.detection_id ≡ t.detection_id
  pub required_approvals : u.required_approvals ≡ t.required_approvals
  pub expiry_date : u.expiry_date ≡ t.expiry_date
  pub current_approvals : t.current_approvals ≤ u.current_approvals
  pub skip_count : t.skip_count ≤ u.skip_count

TaskStep-Grows : {t u v : Task} → Grows t u → TaskStep u v → Grows t v
TaskStep-Grows g (TaskStep.approve u o) = record {
  detection_id = g.detection_id;
  required_approvals = g.required_approvals;
  expiry_date = g.expiry_date;
  current_approvals = omega (arith, g.current_approvals);
  skip_count = g.skip_count;
}
TaskStep-Grows g (TaskStep.skip u reason to_pit) = record {
  detection_id = g.detection_id;
  required_approvals = g.required_approvals;
  expiry_date = g.expiry_date;
  current_approvals = g.current_approvals;
  skip_count = omega (arith, g.skip_count);
}
TaskStep-Grows g (TaskStep.override u) = record {
  detection_id = g.detection_id;
  required_approvals = g.required_approvals;
  expiry_date = g.expiry_date;
  current_approvals = g.current_approvals;
  skip_count = g.skip_count;
}
TaskStep-Grows g (TaskStep.close u p) = record {
  detection_id = g.detection_id;
  required_approvals = g.required_approvals;
  expiry_date = g.expiry_date;
  current_approvals = g.current_approvals;
  skip_count = g.skip_count;
}
TaskStep-Grows g (TaskStep.expire u) = record {
  detection_id = g.detection_id;
  required_approvals = g.required_approvals;
  expiry_date = g.expiry_date;
  current_approvals = g.current_approvals;
  skip_count = g.skip_count;
}

Life-Grows : {t u : Task} → Life t u → Grows t u
Life-Grows (Life.here t) = record {
  detection_id = refl;
  required_approvals = refl;
  expiry_date = refl;
  current_approvals = omega arith;
  skip_count = omega arith;
}
Life-Grows (Life.then_ life step) = TaskStep-Grows (Life-Grows life) step

module _ (i : ℕ) (t : Task) where
  -- The task `t` lives on in the row `i`.
  abbrev LivesIn : Table Task → Type 0
  LivesIn tasks = (u : Task) × (find i tasks ≡ some u) × Life t u

  -- A step of the row `k` is a step of the row `i` or leaves it.
  step_row :
      (k : ℕ) (u u' : Task) (tasks : Table Task)
      → find k tasks ≡ some u
      → TaskStep u u'
      → LivesIn tasks
      → LivesIn (put k u' tasks)
  step_row k u u' tasks row step (v, found, life) = elim (Bool-cases (k == i)) [
    | inl same ↦ (
      u',
      ground (arith, find-put k i u' tasks),
      Life.then_ {u = u} (same_life (ground arith)) step,
    )
    | inr other ↦ (v, ground (arith, find-put k i u' tasks), life)
  ]
    where
      same_life : v ≡ u → Life t u
      same_life e = rw (sym e) life

  life_steps : TaskSteps (λ tasks actions. LivesIn tasks)
  life_steps = record {
    approve = λ kind k v u tasks actions approval open_ row untouched h.
        step_row k u _ tasks row (TaskStep.approve u open_) h;
    skip = λ k v reason u tasks actions row few h.
        step_row k u _ tasks row (TaskStep.skip u reason _) h;
    override = λ k a u tasks actions row h. step_row k u _ tasks row (TaskStep.override u) h;
    close = λ k p u tasks actions row h. step_row k u _ tasks row (TaskStep.close u p) h;
    expire = λ k u tasks actions row h. step_row k u _ tasks row (TaskStep.expire u) h;
    insert = λ now key tier tasks actions (u, found, life). (
      u,
      ground (arith, find-put (fresh tasks) i (new_task now key tier) tasks, find-fresh tasks),
      life,
    );
  }

  pub serve-Life :
      (requests : List (Surroundings × Request)) (db : Db)
      → find i db.tasks ≡ some t
      → (u : Task) × (find i (serve requests db).tasks ≡ some u) × Life t u
  serve-Life requests db row = serve-keeps (of_rows life_steps) requests db (t, row, Life.here t)

  -- Whatever requests were served: a task keeps its detection, the approvals that it requires and
  -- its expiry date, and the counts of its approvals and of its skips do not decrease.
  pub serve-Grows :
      (requests : List (Surroundings × Request)) (db : Db)
      → find i db.tasks ≡ some t
      → (u : Task) × (find i (serve requests db).tasks ≡ some u) × Grows t u
  serve-Grows requests db row =
      let (u, found, life) = serve-Life requests db row in (u, found, Life-Grows life)
