-- ===== src/Invariants/Resolutions.antt =====
-- Why a task is resolved.
use seraphim.Common.{
  ℕ, ◌≡◌, Bool, true, false, ◌&&◌, ◌||◌, none, some, is_some, List, [], ◌∷◌, ◌++◌, arith, count,
  count-snoc, leb, ◌==◌, Bool-cases, inl, inr,
}
use seraphim.Common.Table.{Table, find, put, find-put, fresh}
use seraphim.Models.{Db, Task, TaskAction, TaskStatus, ActionKind}
use seraphim.Review.{is_override, new_action}
use seraphim.Requests.{Surroundings, Request, serve}
use seraphim.Requests.Serve.{serve-keeps}
use seraphim.Invariants.TaskRows.{TaskSteps, of_rows}

abbrev pub is_resolved : TaskStatus → Bool
is_resolved TaskStatus.resolved = true
is_resolved _ = false

abbrev pub override_on : ℕ → TaskAction → Bool
override_on task_id a = a.task_id == task_id && is_override a.action

-- The three reasons for the status resolved.
abbrev pub is_settled : ℕ → Task → List TaskAction → Bool
is_settled i t actions =
    leb t.required_approvals t.current_approvals
    || is_some t.pit_status
    || leb 1 (count (override_on i) actions)

pub record Settled (tasks : Table Task) (actions : List TaskAction) : Type 0 where
  pub settled :
      (i : ℕ) (t : Task)
      → find i tasks ≡ some t
      → is_resolved t.status ≡ true
      → is_settled i t actions ≡ true

Settled-act :
    (tasks : Table Task) (actions : List TaskAction) (a : TaskAction)
    → Settled tasks actions
    → Settled tasks (actions ++ a ∷ [])
Settled-act tasks actions a h = record {
  settled = λ j u e r. ground (arith, count-snoc (override_on j) actions a, h.settled j u);
}

Settled-set :
    (i : ℕ) (t : Task) (tasks : Table Task) (actions : List TaskAction)
    → (is_resolved t.status ≡ true → is_settled i t actions ≡ true)
    → Settled tasks actions
    → Settled (put i t tasks) actions
Settled-set i t tasks actions reason h = record {
  settled = λ j u e r. elim (Bool-cases (i == j)) [
    | inl same ↦ ground (arith, find-put i j t tasks, reason)
    | inr other ↦ ground (arith, find-put i j t tasks, h.settled j u)
  ];
}

Settled-steps : TaskSteps Settled
Settled-steps = record {
  approve = λ kind i v t tasks actions approval open_ row untouched h.
      Settled-set i _ tasks _ (λ r. ground arith) (Settled-act tasks actions _ h);
  skip = λ i v reason t tasks actions row few h.
      Settled-set i _ tasks _ (λ r. ground arith) (Settled-act tasks actions _ h);
  override = λ i a t tasks actions row h.
      Settled-set i _ tasks _
        (λ r. ground (
          arith,
          count-snoc (override_on i) actions (new_action i a ActionKind.admin_override none),
        ))
        (Settled-act tasks actions _ h);
  close = λ i p t tasks actions row h. Settled-set i _ tasks actions (λ r. ground arith) h;
  expire = λ i t tasks actions row h. Settled-set i _ tasks actions (λ r. ground arith) h;
  insert = λ now key tier tasks actions h.
      Settled-set (fresh tasks) _ tasks actions (λ r. ground arith) h;
}

-- Whatever requests were served: if before them each resolved task has at least the approvals that
-- it requires, or a `pit_status`, or an admin_override action, then so it is afterwards.
pub serve-Settled :
    (requests : List (Surroundings × Request)) (db : Db)
    → Settled db.tasks db.actions
    → Settled (serve requests db).tasks (serve requests db).actions
serve-Settled requests db h = serve-keeps (of_rows Settled-steps) requests db h
