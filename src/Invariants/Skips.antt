-- ===== src/Invariants/Skips.antt =====
-- The skips of a task, its `skip_count` and the pit.
use seraphim.Common.{
  ℕ, ◌+◌, ◌≤◌, ◌≡◌, refl, true, false, not, ◌&&◌, Option, none, some, List, [], ◌∷◌, ◌++◌, arith,
  count, count-snoc, any, any-append, leb, ◌==◌, if◌then◌else◌, Bool-cases, inl, inr,
}
use seraphim.Common.Table.{Table, find, put, find-put, fresh, find-fresh}
use seraphim.Common.Text.{Text}
use seraphim.Models.{Db, Task, TaskAction, ActionKind, PitStatus}
use seraphim.Review.{
  is_skip, skip_by, skip_on, seen_skip, unique_skippers, new_action, approved, skipped_task,
  goes_to_pit, is_approval,
}
use seraphim.Pit.{is_pit}
use seraphim.Requests.{Surroundings, Request, serve}
use seraphim.Requests.Serve.{serve-keeps}
use seraphim.Invariants.TaskRows.{TaskSteps, of_rows}

unique_skippers-snoc :
    (i : ℕ) (actions : List TaskAction) (a : TaskAction)
    → unique_skippers i (actions ++ a ∷ [])
      ≡ unique_skippers i actions
        + (if skip_on i a && not (seen_skip i a.volunteer_id actions) then 1 else 0)
unfolding unique_skippers any
unique_skippers-snoc i [] a = omega arith
unique_skippers-snoc i (b ∷ actions) a = ground (
  arith,
  unique_skippers-snoc i actions a,
  any-append (skip_by i b.volunteer_id) actions (a ∷ []),
)

pub record Skipped (tasks : Table Task) (actions : List TaskAction) : Type 0 where
  pub counted :
      (i : ℕ) (t : Task) → find i tasks ≡ some t → t.skip_count ≡ count (skip_on i) actions
  pub unknown : (i : ℕ) → find i tasks ≡ none → count (skip_on i) actions ≡ 0
  pub twice : (i v : ℕ) → count (skip_by i v) actions ≤ 2
  pub in_pit :
      (i : ℕ) (t : Task)
      → find i tasks ≡ some t
      → is_pit t.status ≡ true
      → (4 ≤ t.skip_count)
        × (2 ≤ unique_skippers i actions)
        × (t.pit_status ≡ some PitStatus.awaiting)

-- A row that keeps its skip count and is not in the pit.
Skipped-set :
    (i : ℕ) (t t' : Task) (tasks : Table Task) (actions : List TaskAction)
    → find i tasks ≡ some t
    → t'.skip_count ≡ t.skip_count
    → is_pit t'.status ≡ false
    → Skipped tasks actions
    → Skipped (put i t' tasks) actions
Skipped-set i t t' tasks actions row same away h = record {
  counted = λ j u e. ground (arith, find-put i j t' tasks, h.counted j u, h.counted i t);
  unknown = λ j e. ground (arith, find-put i j t' tasks, h.unknown j);
  twice = h.twice;
  in_pit = λ j u e pit. ground (arith, find-put i j t' tasks, h.in_pit j u);
}

-- An action that is no skip.
Skipped-act :
    (tasks : Table Task) (actions : List TaskAction) (a : TaskAction)
    → is_skip a.action ≡ false
    → Skipped tasks actions
    → Skipped tasks (actions ++ a ∷ [])
Skipped-act tasks actions a other h = record {
  counted = λ j u e. ground (arith, count-snoc (skip_on j) actions a, h.counted j u);
  unknown = λ j e. ground (arith, count-snoc (skip_on j) actions a, h.unknown j);
  twice = λ j v. ground (arith, count-snoc (skip_by j v) actions a, h.twice j v);
  in_pit = λ j u e pit. ground (arith, unique_skippers-snoc j actions a, h.in_pit j u);
}

Skipped-skip :
    (i v : ℕ) (reason : Option Text) (t : Task) (tasks : Table Task) (actions : List TaskAction)
    → find i tasks ≡ some t
    → not (leb 2 (count (skip_by i v) actions)) ≡ true
    → Skipped tasks actions
    → let longer = actions ++ new_action i v ActionKind.skip reason ∷ [] in
      Skipped (put i (skipped_task reason (goes_to_pit i t longer) t) tasks) longer
Skipped-skip i v reason t tasks actions row few h =
    let a = new_action i v ActionKind.skip reason in
    let t' = skipped_task reason (goes_to_pit i t (actions ++ a ∷ [])) t in
    record {
      counted = λ j u e. ground (
        arith,
        find-put i j t' tasks,
        count-snoc (skip_on j) actions a,
        h.counted j u,
        h.counted i t,
      );
      unknown = λ j e.
          ground (arith, find-put i j t' tasks, count-snoc (skip_on j) actions a, h.unknown j);
      twice = λ j w. ground (arith, count-snoc (skip_by j w) actions a, h.twice j w);
      in_pit = λ j u e pit. elim (Bool-cases (i == j)) [
        | inl same ↦ ground (arith, find-put i j t' tasks)
        | inr other ↦
            ground (arith, find-put i j t' tasks, unique_skippers-snoc j actions a, h.in_pit j u)
      ];
    }

Skipped-insert :
    (t : Task) (tasks : Table Task) (actions : List TaskAction)
    → t.skip_count ≡ 0
    → is_pit t.status ≡ false
    → Skipped tasks actions
    → Skipped (put (fresh tasks) t tasks) actions
Skipped-insert t tasks actions none_yet away h = record {
  counted = λ j u e. ground (
    arith,
    find-put (fresh tasks) j t tasks,
    find-fresh tasks,
    h.counted j u,
    h.unknown (fresh tasks),
  );
  unknown = λ j e. ground (arith, find-put (fresh tasks) j t tasks, h.unknown j);
  twice = h.twice;
  in_pit = λ j u e pit. ground (arith, find-put (fresh tasks) j t tasks, h.in_pit j u);
}

Skipped-steps : TaskSteps Skipped
Skipped-steps = record {
  approve = λ kind i v t tasks actions approval open_ row untouched h.
      Skipped-set i t _ tasks _ row refl (approved_away t)
        (Skipped-act tasks actions _ (approval_is_no_skip kind approval) h);
  skip = λ i v reason t tasks actions row few h. Skipped-skip i v reason t tasks actions row few h;
  override = λ i a t tasks actions row h.
      Skipped-set i t _ tasks _ row refl refl (Skipped-act tasks actions _ refl h);
  close = λ i p t tasks actions row h. Skipped-set i t _ tasks actions row refl refl h;
  expire = λ i t tasks actions row h. Skipped-set i t _ tasks actions row refl refl h;
  insert = λ now key tier tasks actions h. Skipped-insert _ tasks actions refl refl h;
}
  where
    approval_is_no_skip : (kind : ActionKind) → is_approval kind ≡ true → is_skip kind ≡ false
    approval_is_no_skip kind h = ground arith

    approved_away : (t : Task) → is_pit (approved t).status ≡ false
    approved_away t = ground arith

-- Whatever requests were served: if before them each task's `skip_count` is the number of its skips,
-- no volunteer has skipped a task more than twice, and a task with status pit has `skip_count` at
-- least 4, skips by at least two distinct volunteers and `pit_status` awaiting, then so it is
-- afterwards. (In `Skipped`, a task that is not there has no skips.)
pub serve-Skipped :
    (requests : List (Surroundings × Request)) (db : Db)
    → Skipped db.tasks db.actions
    → Skipped (serve requests db).tasks (serve requests db).actions
serve-Skipped requests db h = serve-keeps (of_rows Skipped-steps) requests db h
