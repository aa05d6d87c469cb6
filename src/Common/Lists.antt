-- ===== src/Common/Lists.antt =====
-- Lists measured by native numbers: counting, searching, filtering by Boolean tests.
use Prim.Native.Nat.{ℕ, zero, suc, ◌+◌}
use mathlib.Core.Path.{◌≡◌, refl}
use mathlib.Core.Bool.{Bool, false, ◌||◌}
use mathlib.Core.List.{List, [], ◌∷◌, ◌++◌}
use mathlib.Core.Option.{Option, none, some}
use native.Mathlib.Omega.{arith}
use seraphim.Common.Tests.{if◌then◌else◌}

module _ {ℓ} {A : Type ℓ} where
  abbrev pub length : List A → ℕ
  length [] = 0
  length (x ∷ xs) = suc (length xs)

  abbrev pub get_elem? : List A → ℕ → Option A
  get_elem? [] i = none
  get_elem? (x ∷ xs) zero = some x
  get_elem? (x ∷ xs) (suc i) = get_elem? xs i

  abbrev pub take : ℕ → List A → List A
  take zero xs = []
  take (suc n) [] = []
  take (suc n) (x ∷ xs) = x ∷ take n xs

  -- SELECT ... WHERE p.
  unfoldable pub where_ : (A → Bool) → List A → List A
  where_ p [] = []
  where_ p (x ∷ xs) = let rest = where_ p xs in if p x then x ∷ rest else rest

  unfoldable pub any : (A → Bool) → List A → Bool
  any p [] = false
  any p (x ∷ xs) = p x || any p xs

  -- SELECT COUNT(*) ... WHERE p.
  unfoldable pub count : (A → Bool) → List A → ℕ
  count p [] = 0
  count p (x ∷ xs) = (if p x then 1 else 0) + count p xs

  pub length-append : (xs ys : List A) → length (xs ++ ys) ≡ length xs + length ys
  length-append [] ys = omega arith
  length-append (x ∷ xs) ys = omega (arith, length-append xs ys)

  pub count-append : (p : A → Bool) (xs ys : List A) → count p (xs ++ ys) ≡ count p xs + count p ys
  unfolding count
  count-append p [] ys = omega arith
  count-append p (x ∷ xs) ys = omega (arith, count-append p xs ys)

  pub count-snoc :
      (p : A → Bool) (xs : List A) (x : A)
      → count p (xs ++ x ∷ []) ≡ count p xs + (if p x then 1 else 0)
  unfolding count
  count-snoc p [] x = omega arith
  count-snoc p (y ∷ xs) x = omega (arith, count-snoc p xs x)

  pub length-where_ : (p : A → Bool) (xs : List A) → length (where_ p xs) ≡ count p xs
  unfolding where_ count
  length-where_ p [] = refl
  length-where_ p (x ∷ xs) = ground (arith, length-where_ p xs)

  pub any-append : (p : A → Bool) (xs ys : List A) → any p (xs ++ ys) ≡ any p xs || any p ys
  unfolding any
  any-append p [] ys = refl
  any-append p (x ∷ xs) ys = ground (arith, any-append p xs ys)

  -- UPDATE ... SET f WHERE p.
  unfoldable pub update_rows : (A → Bool) → (A → A) → List A → List A
  update_rows p f [] = []
  update_rows p f (x ∷ xs) = (if p x then f x else x) ∷ update_rows p f xs

  -- An update after which no row that it changed is one of those it looks for.
  pub count-update_rows_self :
      (p : A → Bool) (f : A → A) (xs : List A)
      → ((x : A) → p (f x) ≡ false)
      → count p (update_rows p f xs) ≡ 0
  unfolding count update_rows
  count-update_rows_self p f [] gone = refl
  count-update_rows_self p f (x ∷ xs) gone =
      ground (arith, gone x, count-update_rows_self p f xs gone)

  -- An update that a test does not see.
  pub count-update_rows :
      (p : A → Bool) (f : A → A) (q : A → Bool) (rows : List A)
      → ((row : A) → q (f row) ≡ q row)
      → count q (update_rows p f rows) ≡ count q rows
  unfolding update_rows count
  count-update_rows p f q [] h = refl
  count-update_rows p f q (row ∷ rows) h = ground (arith, h row, count-update_rows p f q rows h)
