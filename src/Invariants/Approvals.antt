-- ===== src/Invariants/Approvals.antt =====
-- Dual approval: `current_approvals` and the approvals in the actions.
use seraphim.Common.{
  ℕ, ◌≤◌, ◌≡◌, refl, true, false, Option, none, some, List, [], ◌∷◌, ◌++◌, arith, count, count-snoc,
}
use seraphim.Common.Table.{Table, find, put, find-put, fresh, find-fresh}
use seraphim.Common.Text.{Text}
use seraphim.Requests.{Surroundings, Request, serve}
use seraphim.Requests.Serve.{serve-keeps}
use seraphim.Invariants.TaskRows.{TaskSteps, of_rows}
use seraphim.Models.{Db, Task, TaskAction, ActionKind}
use seraphim.Review.{acted, is_approval, approval_by, approval_on, new_action, approved}

pub record Counted (tasks : Table Task) (actions : List TaskAction) : Type 0 where
  pub counted :
      (i : ℕ) (t : Task)
      → find i tasks ≡ some t
      → t.current_approvals ≡ count (approval_on i) actions
  pub unknown : (i : ℕ) → find i tasks ≡ none → count (approval_on i) actions ≡ 0
  pub once : (i v : ℕ) → count (approval_by i v) actions ≤ 1

approval_by-le-acted :
    (i v : ℕ) (actions : List TaskAction)
    → count (approval_by i v) actions ≤ count (acted i v) actions
unfolding count
approval_by-le-acted i v [] = omega arith
approval_by-le-acted i v (a ∷ actions) = ground (arith, approval_by-le-acted i v actions)

module _ (i v : ℕ) (kind : ActionKind) (task : Task) (tasks : Table Task)
    (actions : List TaskAction) (row : find i tasks ≡ some task) where
  abbrev longer : List TaskAction
  longer = actions ++ new_action i v kind none ∷ []

  pub Counted-approve :
      is_approval kind ≡ true
      → count (acted i v) actions ≡ 0
      → Counted tasks actions
      → Counted (put i (approved task) tasks) longer
  Counted-approve approval untouched h = record {
    counted = λ j t e. ground (
      arith,
      find-put i j (approved task) tasks,
      count-snoc (approval_on j) actions (new_action i v kind none),
      h.counted j t,
      h.counted i task,
    );
    unknown = λ j e. ground (
      arith,
      find-put i j (approved task) tasks,
      count-snoc (approval_on j) actions (new_action i v kind none),
      h.unknown j,
    );
    once = λ j u. ground (
      arith,
      count-snoc (approval_by j u) actions (new_action i v kind none),
      h.once j u,
      approval_by-le-acted i v actions,
    );
  }

-- An action that is no approval, and a row with as many approvals as before.
pub Counted-act :
    (i v : ℕ) (kind : ActionKind) (reason : Option Text) (tasks : Table Task)
    (actions : List TaskAction)
    → is_approval kind ≡ false
    → Counted tasks actions
    → Counted tasks (actions ++ new_action i v kind reason ∷ [])
Counted-act i v kind reason tasks actions other h = record {
  counted = λ j t e.
      ground
        (arith, count-snoc (approval_on j) actions (new_action i v kind reason), h.counted j t);
  unknown = λ j e.
      ground (arith, count-snoc (approval_on j) actions (new_action i v kind reason), h.unknown j);
  once = λ j u.
      ground (arith, count-snoc (approval_by j u) actions (new_action i v kind reason), h.once j u);
}

pub Counted-set :
    (i : ℕ) (t t' : Task) (tasks : Table Task) (actions : List TaskAction)
    → find i tasks ≡ some t
    → t'.current_approvals ≡ t.current_approvals
    → Counted tasks actions
    → Counted (put i t' tasks) actions
Counted-set i t t' tasks actions row same h = record {
  counted = λ j u e. ground (arith, find-put i j t' tasks, h.counted j u, h.counted i t);
  unknown = λ j e. ground (arith, find-put i j t' tasks, h.unknown j);
  once = h.once;
}

pub Counted-insert :
    (t : Task) (tasks : Table Task) (actions : List TaskAction)
    → t.current_approvals ≡ 0
    → Counted tasks actions
    → Counted (put (fresh tasks) t tasks) actions
Counted-insert t tasks actions none_yet h = record {
  counted = λ j u e. ground (
    arith,
    find-put (fresh tasks) j t tasks,
    find-fresh tasks,
    h.counted j u,
    h.unknown (fresh tasks),
  );
  unknown = λ j e. ground (arith, find-put (fresh tasks) j t tasks, h.unknown j);
  once = h.once;
}

Counted-steps : TaskSteps Counted
Counted-steps = record {
  approve = λ kind i v t tasks actions approval open_ row untouched h.
      Counted-approve i v kind t tasks actions row approval untouched h;
  skip = λ i v reason t tasks actions row few h.
      Counted-set i t _ tasks _ row refl
        (Counted-act i v ActionKind.skip reason tasks actions refl h);
  override = λ i a t tasks actions row h.
      Counted-set i t _ tasks _ row refl
        (Counted-act i a ActionKind.admin_override none tasks actions refl h);
  close = λ i p t tasks actions row h. Counted-set i t _ tasks actions row refl h;
  expire = λ i t tasks actions row h. Counted-set i t _ tasks actions row refl h;
  insert = λ now key tier tasks actions h. Counted-insert _ tasks actions refl h;
}

-- Whatever requests were served: if a task's `current_approvals` is the number of its confirm, edit
-- and add actions, and no volunteer has two such actions on one task, in the database before, then
-- so it is afterwards. (In `Counted`, a task that is not there has no such action.)
pub serve-Counted :
    (requests : List (Surroundings × Request)) (db : Db)
    → Counted db.tasks db.actions
    → Counted (serve requests db).tasks (serve requests db).actions
serve-Counted requests db h = serve-keeps (of_rows Counted-steps) requests db h
