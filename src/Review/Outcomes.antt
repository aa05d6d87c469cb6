-- ===== src/Review/Outcomes.antt =====
-- What a request on a task answers and leaves, on the branches that depend on earlier actions.
use seraphim.Common.{
  ℕ, ◌≤◌, ◌≡◌, refl, true, some, List, [], ◌∷◌, arith, where_, count, length, length-where_,
}
use seraphim.Common.Table.{find}
use seraphim.Models.{Db, Task, TaskAction}
use seraphim.Session.{Fault, err, Tx, ◌>>=◌, one_or_none, request}
use seraphim.Attendance.{ReviewWorld}
use seraphim.Review.{acted, skip_by, is_open, open_task, confirm_task, edit_task, add_task}

one_or_none-many {ℓ} :
    {A : Type ℓ} (xs : List A) → 2 ≤ length xs → one_or_none xs ≡ err Fault.multiple_rows
unfolding one_or_none
one_or_none-many [] h = absurd (omega arith)
one_or_none-many (x ∷ []) h = absurd (omega arith)
one_or_none-many (x ∷ y ∷ xs) h = refl

skip_by-le-acted :
    (i v : ℕ) (actions : List TaskAction) → count (skip_by i v) actions ≤ count (acted i v) actions
unfolding count
skip_by-le-acted i v [] = omega arith
skip_by-le-acted i v (a ∷ actions) = ground (arith, skip_by-le-acted i v actions)

module _ (i v : ℕ) (t : Task) (db : Db) (row : find i db.tasks ≡ some t)
    (open_ : is_open t.status ≡ true) (twice : 2 ≤ count (skip_by i v) db.actions) where
  open_task-twice :
      {B : Type 0} (f : Task → Tx B)
      → request (open_task i v >>= f) db ≡ (err Fault.multiple_rows, db)
  unfolding request ◌>>=◌ open_task
  open_task-twice f = rw row (
      rw open_ (
        rw
          (one_or_none-many (where_ (acted i v) db.actions) (
            omega (
              arith,
              length-where_ (acted i v) db.actions,
              skip_by-le-acted i v db.actions,
              twice,
            )))
          refl))

  -- A volunteer who skipped an open task at least twice cannot confirm, edit or add it: each of
  -- the three requests fails with the exception for several rows, and changes nothing.
  pub skipped_twice-multiple_rows :
      (w : ReviewWorld) (month m : ℕ)
      → (request (confirm_task w month i v) db ≡ (err Fault.multiple_rows, db))
        × (request (edit_task w month i v m) db ≡ (err Fault.multiple_rows, db))
        × (request (add_task w month i v m) db ≡ (err Fault.multiple_rows, db))
  unfolding confirm_task edit_task add_task
  skipped_twice-multiple_rows w month m = (open_task-twice _, open_task-twice _, open_task-twice _)
