-- ===== src/Common/Table.antt =====
-- A table of rows by primary key. `put` is an UPDATE of the row, or an INSERT where there is none.
use Prim.Native.Nat.{ℕ, suc, ◌≤◌, max}
use mathlib.Core.Path.{◌≡◌, refl}
use mathlib.Core.Option.{Option, none, some}
use mathlib.Core.List.{List, [], ◌∷◌}
use native.Mathlib.Omega.{arith}
use seraphim.Common.Tests.{if◌then◌else◌, ◌==◌}

abbrev pub Table {ℓ} : Type ℓ → Type ℓ
Table A = List (ℕ × A)

module _ {ℓ} {A : Type ℓ} where
  unfoldable pub find : ℕ → Table A → Option A
  find k [] = none
  find k ((j, a) ∷ rows) = if j == k then some a else find k rows

  unfoldable pub put : ℕ → A → Table A → Table A
  put k v [] = (k, v) ∷ []
  put k v ((j, a) ∷ rows) = if j == k then (k, v) ∷ rows else (j, a) ∷ put k v rows

  unfoldable pub fresh : Table A → ℕ
  fresh [] = 1
  fresh ((j, a) ∷ rows) = max (suc j) (fresh rows)

  pub find-put :
      (k j : ℕ) (v : A) (rows : Table A)
      → find j (put k v rows) ≡ (if k == j then some v else find j rows)
  unfolding find put
  find-put k j v [] = refl
  find-put k j v ((i, a) ∷ rows) = ground (arith, find-put k j v rows)

  find_above : (k : ℕ) (rows : Table A) → fresh rows ≤ k → find k rows ≡ none
  unfolding find fresh
  find_above k [] h = refl
  find_above k ((j, a) ∷ rows) h = ground (arith, find_above k rows)

  pub find-fresh : (rows : Table A) → find (fresh rows) rows ≡ none
  find-fresh rows = find_above (fresh rows) rows (omega arith)

  -- DELETE of the row.
  unfoldable pub remove : ℕ → Table A → Table A
  remove k [] = []
  remove k ((j, a) ∷ rows) = let rest = remove k rows in if j == k then rest else (j, a) ∷ rest

  pub find-remove :
      (k j : ℕ) (rows : Table A) → find j (remove k rows) ≡ (if k == j then none else find j rows)
  unfolding find remove
  find-remove k j [] = ground arith
  find-remove k j ((i, a) ∷ rows) = ground (arith, find-remove k j rows)
