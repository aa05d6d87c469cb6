-- ===== src/Common/Text.antt =====
-- Text as a list of code points, with the parts of Python's `str` that the program uses: equality,
-- `startswith`, `split`, decimal printing, and `int` on decimal digits.
use Prim.Native.Nat.{ℕ, zero, suc, ◌+◌, ◌-◌, ◌*◌, ◌/◌, ◌%◌, ◌<◌}
use Prim.Native.Char.{code}
use Prim.Native.String.{String}
use mathlib.Core.Path.{◌≡◌, refl, ◌∙◌}
use mathlib.Core.Logic.{◌≢◌}
use mathlib.Core.Bool.{Bool, true, false, ◌&&◌, ◌||◌}
use mathlib.Core.Option.{Option, none, some}
use mathlib.Core.List.{List, [], ◌∷◌, ◌++◌}
use native.Mathlib.Omega.{arith}
use seraphim.Common.Tests.{if◌then◌else◌, ◌==◌, ltb}

abbrev pub Text : Type 0
Text = List ℕ

abbrev pub codes : String → Text
codes String.[] = []
codes (String.◌∷◌ c s) = code c ∷ codes s

unfoldable pub text_eq : Text → Text → Bool
text_eq [] [] = true
text_eq (a ∷ s) (b ∷ t) = a == b && text_eq s t
text_eq _ _ = false

pub text_eq_refl : (s : Text) → text_eq s s ≡ true
unfolding text_eq
text_eq_refl [] = refl
text_eq_refl (a ∷ s) = ground (arith, text_eq_refl s)

pub eq_of_text_eq : (s t : Text) → text_eq s t ≡ true → s ≡ t
unfolding text_eq
eq_of_text_eq [] [] h = refl
eq_of_text_eq [] (b ∷ t) h = cc
eq_of_text_eq (a ∷ s) [] h = cc
eq_of_text_eq (a ∷ s) (b ∷ t) h = ground (arith, eq_of_text_eq s t)

abbrev pub is_empty : Text → Bool
is_empty [] = true
is_empty (c ∷ s) = false

-- `s.startswith(p)`.
unfoldable pub starts_with : Text → Text → Bool
starts_with [] s = true
starts_with (a ∷ p) [] = false
starts_with (a ∷ p) (c ∷ s) = a == c && starts_with p s

pub starts_with-append : (p s : Text) → starts_with p (p ++ s) ≡ true
unfolding starts_with
starts_with-append [] s = refl
starts_with-append (a ∷ p) s = ground (arith, starts_with-append p s)

-- The first piece gets one more character.
abbrev push_head : ℕ → List Text → List Text
push_head c [] = (c ∷ []) ∷ []
push_head c (s ∷ pieces) = (c ∷ s) ∷ pieces

-- `s.split(sep)` with a separator of one character.
unfoldable pub split : ℕ → Text → List Text
split sep [] = [] ∷ []
split sep (c ∷ s) = let pieces = split sep s in if c == sep then [] ∷ pieces else push_head c pieces

abbrev pub contains : ℕ → Text → Bool
contains c [] = false
contains c (d ∷ s) = d == c || contains c s

pub split_lone : (sep : ℕ) (s : Text) → contains sep s ≡ false → split sep s ≡ s ∷ []
unfolding split
split_lone sep [] h = refl
split_lone sep (c ∷ s) h = ground (arith, split_lone sep s)

-- The decimal digits of `n` before `out`. The fuel is more than `n`.
emit : ℕ → ℕ → Text → Text
emit zero n out = out
emit (suc f) n out =
    let rest = emit f (n / 10) ((b'0' + n % 10) ∷ out) in
    if ltb n 10 then (b'0' + n) ∷ out else rest

-- `str(n)`.
unfoldable pub show : ℕ → Text
unfolding emit
show n = emit (suc n) n []

unfoldable pub scan : Text → ℕ → Option ℕ
scan [] n = some n
scan (c ∷ s) n =
    let rest = scan s (n * 10 + (c - b'0')) in if ltb c b'0' || ltb b'9' c then none else rest

-- `int(s)` on decimal digits; `none` stands for the ValueError.
unfoldable pub parse_int : Text → Option ℕ
unfolding scan
parse_int [] = none
parse_int (c ∷ s) = scan (c ∷ s) 0

scan-emit : (f n : ℕ) (out : Text) → n < f → scan (emit f n out) 0 ≡ scan out n
unfolding scan emit
scan-emit zero n out h = elim h [ ]
scan-emit (suc f) n out h = ground (arith, scan-emit f (n / 10) ((b'0' + n % 10) ∷ out))

emit-ne-nil : (f n : ℕ) (out : Text) → n < f → emit f n out ≢ []
unfolding emit
emit-ne-nil zero n out h = elim h [ ]
emit-ne-nil (suc f) n out h = ground (arith, emit-ne-nil f (n / 10) ((b'0' + n % 10) ∷ out))

parse_int_cons : (s : Text) → s ≢ [] → parse_int s ≡ scan s 0
unfolding parse_int
parse_int_cons [] h = absurd (h refl)
parse_int_cons (c ∷ s) h = refl

pub parse_int-show : (n : ℕ) → parse_int (show n) ≡ some n
unfolding show scan
parse_int-show n =
    parse_int_cons (emit (suc n) n []) (emit-ne-nil (suc n) n [] (omega arith))
    ∙ scan-emit (suc n) n [] (omega arith)

contains-emit :
    (sep f n : ℕ) (out : Text)
    → b'9' < sep
    → contains sep out ≡ false
    → contains sep (emit f n out) ≡ false
unfolding emit
contains-emit sep zero n out big h = h
contains-emit sep (suc f) n out big h =
    ground (arith, contains-emit sep f (n / 10) ((b'0' + n % 10) ∷ out))

pub contains-show : (sep n : ℕ) → b'9' < sep → contains sep (show n) ≡ false
unfolding show
contains-show sep n big = contains-emit sep (suc n) n [] big refl
