-- ===== src/Review/Next.antt =====
-- What `get_next_task` offers.
use mathlib.Core.List.{Memᴰ}
use seraphim.Common.{
  ℕ, ◌≤◌, ◌≡◌, inl, inr, refl, true, Option, none, some, [], ◌∷◌, arith, sym, leb, Bool-cases,
  Option-cases,
}
use seraphim.Common.Table.{Table}
use seraphim.Models.{Db, Task}
use seraphim.Review.Queue.{eligible, taken_at, earliest, get_next_task, keep_earlier, drop_time}

module _ (db : Db) (now v : ℕ) where
  -- The row of `rows` may be offered to the volunteer, and its detection was taken at `at`.
  pub record Offered (rows : Table Task) (at : ℕ) (row : ℕ × Task) : Type 0 where
    pub member : Memᴰ row rows
    pub may : eligible db now v row ≡ true
    pub time : taken_at db row.1 ≡ some at

  -- Some row is the best of `rows`, or none may be offered.
  abbrev Best : Table Task → Option (ℕ × (ℕ × Task)) → Type 0
  Best rows none = (at : ℕ) (row : ℕ × Task) → Offered rows at row → ⊥
  Best rows (some best) =
      Offered rows best.0 best.1 × ((at : ℕ) (row : ℕ × Task) → Offered rows at row → best.0 ≤ at)

  more :
      {x : ℕ × Task} {rows : Table Task} {at : ℕ} {row : ℕ × Task}
      → Offered rows at row
      → Offered (x ∷ rows) at row
  more o = record { member = Memᴰ.tail o.member; may = o.may; time = o.time }

  -- A row is the first one, or one of the others.
  of_cons :
      {C : Type 0} (x : ℕ × Task) (rows : Table Task) (at : ℕ) (row : ℕ × Task)
      → Offered (x ∷ rows) at row
      → (row ≡ x → C)
      → (Offered rows at row → C)
      → C
  of_cons x rows at row o first other = elim o.member [
    | Memᴰ.head e ↦ first e
    | Memᴰ.tail m ↦ other (record { member = m; may = o.may; time = o.time })
  ]

  Best-skip :
      (x : ℕ × Task) (rows : Table Task) (o : Option (ℕ × (ℕ × Task)))
      → ((at : ℕ) → eligible db now v x ≡ true → taken_at db x.1 ≡ some at → ⊥)
      → Best rows o
      → Best (x ∷ rows) o
  Best-skip x rows none bars h = λ at row offer.
      of_cons x rows at row offer (λ e. bars at (rw (sym e) offer.may) (rw (sym e) offer.time))
        (h at row)
  Best-skip x rows (some best) bars (is_offer, least) = (
    more is_offer,
    λ at row offer.
        of_cons x rows at row offer
          (λ e. absurd (bars at (rw (sym e) offer.may) (rw (sym e) offer.time))) (least at row),
  )

  agree : (o : Option ℕ) (t at : ℕ) → o ≡ some t → o ≡ some at → t ≤ at
  agree none t at h k = cc
  agree (some a) t at h k = ground arith

  Best-take :
      (x : ℕ × Task) (rows : Table Task) (t : ℕ) (o : Option (ℕ × (ℕ × Task)))
      → eligible db now v x ≡ true
      → taken_at db x.1 ≡ some t
      → Best rows o
      → Best (x ∷ rows) (keep_earlier (t, x) o)
  Best-take x rows t none may time h = (
    record { member = Memᴰ.head refl; may = may; time = time },
    λ at row offer.
        of_cons x rows at row offer (λ e. agree (taken_at db x.1) t at time (rw (sym e) offer.time))
          (λ other. absurd (h at row other)),
  )
  Best-take x rows t (some best) may time (is_offer, least) = elim (Bool-cases (leb t best.0)) [
    | inl earlier ↦ rw earlier (
      record { member = Memᴰ.head refl; may = may; time = time },
      λ at row offer.
          of_cons x rows at row offer
            (λ e. agree (taken_at db x.1) t at time (rw (sym e) offer.time))
            (λ other. ground (arith, earlier, least at row other)),
    )
    | inr later ↦ rw later (
      more is_offer,
      λ at row offer.
          of_cons x rows at row offer
            (λ e. ground (arith, later, agree (taken_at db x.1) t at time (rw (sym e) offer.time)))
            (least at row),
    )
  ]

  earliest-Best : (rows : Table Task) → Best rows (earliest db now v rows)
  unfolding earliest
  earliest-Best [] = λ at row offer. elim offer.member [ ]
  earliest-Best (x ∷ rows) = elim (Bool-cases (eligible db now v x)) [
    | inr barred ↦
        rw barred (Best-skip x rows _ (λ at may time. cc (barred, may)) (earliest-Best rows))
    | inl may ↦ elim (Option-cases (taken_at db x.1)) [
      | inl lost ↦
          rw (may, lost) (Best-skip x rows _ (λ at _ time. cc (lost, time)) (earliest-Best rows))
      | inr (t, time) ↦ rw (may, time) (Best-take x rows t _ may time (earliest-Best rows))
    ]
  ]

  -- The right answer to the volunteer at `now`.
  abbrev pub IsNext : Option (ℕ × Task) → Type 0
  IsNext none = (at : ℕ) (row : ℕ × Task) → Offered db.tasks at row → ⊥
  IsNext (some best) =
      (at : ℕ) × Offered db.tasks at best
      × ((at' : ℕ) (row : ℕ × Task) → Offered db.tasks at' row → at ≤ at')

  -- The answer is a task of the table that is eligible for the volunteer (pending, not expired,
  -- never in the pit, not acted on by the volunteer, with its detection), and no other such task
  -- has a detection taken earlier; or it is none, and there is no such task.
  pub get_next_task-IsNext : IsNext (get_next_task db now v)
  unfolding get_next_task
  get_next_task-IsNext = answer (earliest db now v db.tasks) (earliest-Best db.tasks)
    where
      answer : (o : Option (ℕ × (ℕ × Task))) → Best db.tasks o → IsNext (drop_time o)
      answer none h = h
      answer (some best) (is_offer, least) = (best.0, is_offer, least)
