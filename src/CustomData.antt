-- ===== src/CustomData.antt =====
-- The JSON values in `custom_data`, with Python's equality: a Boolean equals the number 0 or 1, and
-- an integer the float of the same value. A float counts thousandths. The items of a list are
-- scalars, as custom_fields.py writes them; a key occurs once.
use seraphim.Common.{
  ◌≡◌, refl, Bool, true, false, ◌&&◌, Option, none, some, List, [], ◌∷◌, arith, any, if◌then◌else◌,
  Bool-cases, inl, inr,
}
use seraphim.Common.Int.{ℤ, pos, int_eq, thousandfold, eq_of_int_eq, int_eq_refl}
use seraphim.Common.Text.{Text, text_eq, text_eq_refl, eq_of_text_eq}

pub data Scalar : Type 0 where
  null : Scalar
  bool : Bool → Scalar
  int : ℤ → Scalar
  float : ℤ → Scalar
  text : Text → Scalar

pub data Value : Type 0 where
  one : Scalar → Value
  many : List Scalar → Value

abbrev pub CustomData : Type 0
CustomData = List (Text × Value)

-- What `==` compares: a number by its thousandths.
pub data Key : Type 0 where
  nothing : Key
  number : ℤ → Key
  word : Text → Key

abbrev pub key : Scalar → Key
key null = nothing
key (bool true) = number (pos 1000)
key (bool false) = number (pos 0)
key (int z) = number (thousandfold z)
key (float z) = number z
key (text s) = word s

unfoldable pub key_eq : Key → Key → Bool
key_eq nothing nothing = true
key_eq nothing (number b) = false
key_eq nothing (word t) = false
key_eq (number a) nothing = false
key_eq (number a) (number b) = int_eq a b
key_eq (number a) (word t) = false
key_eq (word s) nothing = false
key_eq (word s) (number b) = false
key_eq (word s) (word t) = text_eq s t

-- `a == b`.
abbrev pub scalar_eq : Scalar → Scalar → Bool
scalar_eq a b = key_eq (key a) (key b)

unfoldable pub list_eq : List Scalar → List Scalar → Bool
list_eq [] [] = true
list_eq [] (b ∷ bs) = false
list_eq (a ∷ as') [] = false
list_eq (a ∷ as') (b ∷ bs) = scalar_eq a b && list_eq as' bs

pub eq_of_key_eq : (a b : Key) → key_eq a b ≡ true → a ≡ b
unfolding key_eq
eq_of_key_eq nothing nothing h = refl
eq_of_key_eq nothing (number b) h = cc
eq_of_key_eq nothing (word t) h = cc
eq_of_key_eq (number a) nothing h = cc
eq_of_key_eq (number a) (number b) h = cc (eq_of_int_eq a b h)
eq_of_key_eq (number a) (word t) h = cc
eq_of_key_eq (word s) nothing h = cc
eq_of_key_eq (word s) (number b) h = cc
eq_of_key_eq (word s) (word t) h = cc (eq_of_text_eq s t h)

pub key_eq_refl : (a : Key) → key_eq a a ≡ true
unfolding key_eq
key_eq_refl nothing = refl
key_eq_refl (number a) = int_eq_refl a
key_eq_refl (word s) = text_eq_refl s

-- `list(dict.fromkeys(xs))`: the first of each value, in order.
unfoldable pub distinct_from : List Scalar → List Scalar → List Scalar
distinct_from seen [] = []
distinct_from seen (x ∷ xs) =
    let again = distinct_from seen xs in
    let new = distinct_from (x ∷ seen) xs in if any (scalar_eq x) seen then again else x ∷ new

abbrev pub distinct : List Scalar → List Scalar
distinct xs = distinct_from [] xs

-- What holds of no item holds of none of the distinct ones.
pub any-distinct_from :
    (p : Scalar → Bool) (seen xs : List Scalar)
    → any p xs ≡ false
    → any p (distinct_from seen xs) ≡ false
unfolding any distinct_from
any-distinct_from p seen [] h = refl
any-distinct_from p seen (x ∷ xs) h =
    ground (arith, any-distinct_from p seen xs, any-distinct_from p (x ∷ seen) xs)

-- `data.get(name)`.
unfoldable pub get : Text → CustomData → Option Value
get name [] = none
get name ((k, v) ∷ rest) = if text_eq k name then some v else get name rest

-- `data[name] = value`.
unfoldable pub set : Text → Value → CustomData → CustomData
set name value [] = (name, value) ∷ []
set name value ((k, v) ∷ rest) =
    if text_eq k name then (k, value) ∷ rest else (k, v) ∷ set name value rest

pub text_eq-false : (s t u : Text) → text_eq s t ≡ true → text_eq s u ≡ text_eq t u
text_eq-false s t u h = rw (eq_of_text_eq s t h)

pub get-set :
    (name other : Text) (value : Value) (data' : CustomData)
    → get other (set name value data')
      ≡ (if text_eq name other then some value else get other data')
unfolding get set
get-set name other value [] = refl
get-set name other value ((k, v) ∷ rest) = elim (Bool-cases (text_eq k name)) [
  | inl same ↦ ground (arith, same, text_eq-false k name other same)
  | inr different ↦ elim (Bool-cases (text_eq name other)) [
    | inl here ↦
        (let e : name ≡ other = eq_of_text_eq name other here in
          ground (arith, different, here, e, get-set name other value rest))
    | inr elsewhere ↦ ground (arith, different, elsewhere, get-set name other value rest)
  ]
]
