-- ===== src/Review/Skippers.antt =====
-- When a skip sends a task to the pit: the count of distinct volunteers, and two different skippers.
use seraphim.Common.{
  ℕ, ◌≤◌, ◌≡◌, ◌≢◌, ◌↔◌, ◌⊎◌, refl, Bool, true, false, not, Option, some, List, [], ◌∷◌, ◌++◌,
  arith, leb, any, count, Bool-cases, inl, inr,
}
use seraphim.Common.Table.{find, find-put}
use seraphim.Common.Text.{Text}
use seraphim.Models.{Db, Task, TaskAction, TaskStatus, ActionKind}
use seraphim.Session.{ok, request, ◌>>=◌}
use seraphim.Review.{
  skip_by, skip_on, seen_skip, unique_skippers, skip_task, record_skip, skipped_task, goes_to_pit,
  new_action, add_action, set_task,
}
use seraphim.Review.Assign.{to_pit_queue-SameRows}
use seraphim.Pit.{is_pit}

-- Two different volunteers have skipped the task.
pub record TwoSkippers (i : ℕ) (actions : List TaskAction) : Type 0 where
  pub one : ℕ
  pub other : ℕ
  pub differ : one ≢ other
  pub one_skipped : seen_skip i one actions ≡ true
  pub other_skipped : seen_skip i other actions ≡ true

module _ (i : ℕ) where
  seen-unique_skippers :
      (u : ℕ) (actions : List TaskAction)
      → seen_skip i u actions ≡ true
      → 1 ≤ unique_skippers i actions
  unfolding any unique_skippers
  seen-unique_skippers u [] h = cc
  seen-unique_skippers u (a ∷ actions) h = ground (arith, seen-unique_skippers u actions)

  some_skipper :
      (actions : List TaskAction)
      → 1 ≤ unique_skippers i actions
      → (u : ℕ) × (seen_skip i u actions ≡ true)
  unfolding any unique_skippers
  some_skipper [] h = absurd (omega arith)
  some_skipper (a ∷ actions) h = elim (Bool-cases (skip_on i a)) [
    | inl skipped ↦ (a.volunteer_id, ground arith)
    | inr other ↦ (let (u, seen) = some_skipper actions (ground arith) in (u, ground arith))
  ]

  two_skippers : (actions : List TaskAction) → 2 ≤ unique_skippers i actions → TwoSkippers i actions
  unfolding any unique_skippers
  two_skippers [] h = absurd (omega arith)
  two_skippers (a ∷ actions) h = elim (Bool-cases (leb 2 (unique_skippers i actions))) [
    | inl before ↦
        (let t = two_skippers actions (ground arith) in
          record {
            one = t.one;
            other = t.other;
            differ = t.differ;
            one_skipped = ground (arith, t.one_skipped);
            other_skipped = ground (arith, t.other_skipped);
          })
    | inr now ↦
        (let (u, seen) = some_skipper actions (ground arith) in
          record {
            one = a.volunteer_id;
            other = u;
            differ = ground arith;
            one_skipped = ground arith;
            other_skipped = ground arith;
          })
  ]

  unique_skippers-two :
      (u w : ℕ) (actions : List TaskAction)
      → u ≢ w
      → seen_skip i u actions ≡ true
      → seen_skip i w actions ≡ true
      → 2 ≤ unique_skippers i actions
  unfolding any unique_skippers
  unique_skippers-two u w [] differ hu hw = cc
  unique_skippers-two u w (a ∷ actions) differ hu hw = ground (
    arith,
    unique_skippers-two u w actions,
    seen-unique_skippers u actions,
    seen-unique_skippers w actions,
  )

  pub unique_skippers-TwoSkippers :
      (actions : List TaskAction)
      → (leb 2 (unique_skippers i actions) ≡ true) ↔ TwoSkippers i actions
  unique_skippers-TwoSkippers actions = (
    λ h. two_skippers actions (ground arith),
    λ t.
        let two =
          unique_skippers-two t.one t.other actions t.differ t.one_skipped t.other_skipped in
        ground (arith, two),
  )

module _ (i v : ℕ) (reason : Option Text) (t : Task) (db : Db) (row : find i db.tasks ≡ some t)
    (few : count (skip_by i v) db.actions ≤ 1) where
  skip_task-request : request (skip_task i v reason) db ≡ (ok tt, record_skip i v reason t db)
  unfolding request skip_task ◌>>=◌
  skip_task-request = rw row (rw (few_enough few) refl)
    where
      few_enough : {n : ℕ} → n ≤ 1 → not (leb 2 n) ≡ true
      few_enough h = ground arith

  abbrev longer : List TaskAction
  longer = db.actions ++ new_action i v ActionKind.skip reason ∷ []

  record_skip-SameTasks :
      (find i (record_skip i v reason t db).tasks
        ≡ some (skipped_task reason (goes_to_pit i t longer) t))
      × ((record_skip i v reason t db).actions ≡ longer)
  record_skip-SameTasks =
      unfold record_skip in
      let flushed = add_action (new_action i v ActionKind.skip reason) db in
      let to_pit = goes_to_pit i t flushed.actions in
      let same =
        to_pit_queue-SameRows i to_pit (set_task i (skipped_task reason to_pit t) flushed) in
      (
        rw same.tasks (ground (arith, find-put i i (skipped_task reason to_pit t) db.tasks)),
        same.actions,
      )

  -- A skip of a task that is there, by a volunteer who skipped it at most once before, succeeds,
  -- whatever status the task has. Afterwards the task is in the pit exactly if it had at least
  -- three skips before and two different volunteers have skipped it, and else its status is
  -- pending.
  pub skip_task-outcome :
      (request (skip_task i v reason) db).0 ≡ ok tt
      × ((u : Task) × (find i (request (skip_task i v reason) db).1.tasks ≡ some u)
          × ((is_pit u.status ≡ true)
              ↔ ((3 ≤ t.skip_count) × TwoSkippers i (request (skip_task i v reason) db).1.actions))
          × ((u.status ≡ TaskStatus.pit) ⊎ (u.status ≡ TaskStatus.pending)))
  skip_task-outcome = rw skip_task-request (
    refl,
    (
      skipped_task reason (goes_to_pit i t longer) t,
      record_skip-SameTasks.0,
      rw record_skip-SameTasks.1 (
        (λ h. (ground arith, (unique_skippers-TwoSkippers i longer).0 (ground arith))),
        (λ (enough, two).
            let many = (unique_skippers-TwoSkippers i longer).1 two in
            ground (arith, enough, many)),
      ),
      pit_or_pending (goes_to_pit i t longer),
    ),
  )
    where
      pit_or_pending :
          (b : Bool)
          → ((skipped_task reason b t).status ≡ TaskStatus.pit)
            ⊎ ((skipped_task reason b t).status ≡ TaskStatus.pending)
      pit_or_pending true = inl refl
      pit_or_pending false = inr refl
