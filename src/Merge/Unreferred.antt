-- ===== src/Merge/Unreferred.antt =====
-- The references to a contact in the custom data of the others, before and after a merge.
use seraphim.Common.{
  ℕ, ◌≡◌, ◌≢◌, refl, ap, Bool, true, false, not, ◌||◌, Option, none, some, List, [], ◌∷◌, map, ◌==◌,
  any, arith, Bool-cases, inl, inr,
}
use seraphim.Common.Int.{pos}
use seraphim.Common.Table.{Table, find}
use seraphim.Common.Text.{Text, text_eq, text_eq_refl}
use seraphim.CustomData.{
  CustomData, Scalar, Value, one, many, int, key, key_eq, eq_of_key_eq, list_eq, distinct_from,
  any-distinct_from, get, get-set,
}
use seraphim.Merge.{ContactRow}
use seraphim.Merge.References.{
  is_id, is_scanned, refers, refers_in, replace, replace_value, rewrite_data, rewrite_field,
  rewrite_row,
}

module _ (sid lid : ℕ) (different : sid ≢ lid) where
  not_loser : is_id lid (int (pos sid)) ≡ false
  unfolding key_eq
  not_loser = ground (arith, different)

  is_id-replace : (item : Scalar) → is_id lid (replace sid lid item) ≡ false
  is_id-replace item = elim (Bool-cases (is_id lid item)) [
    | inl here ↦ rw here not_loser
    | inr other ↦ rw other other
  ]

  any-replaced : (items : List Scalar) → any (is_id lid) (map (replace sid lid) items) ≡ false
  unfolding any
  any-replaced [] = refl
  any-replaced (item ∷ items) = rw (is_id-replace item) (any-replaced items)

  -- Equal lists refer alike.
  any-equal : (xs ys : List Scalar) → list_eq xs ys ≡ true → any (is_id lid) xs ≡ any (is_id lid) ys
  unfolding any list_eq
  any-equal [] [] h = refl
  any-equal [] (y ∷ ys) h = cc
  any-equal (x ∷ xs) [] h = cc
  any-equal (x ∷ xs) (y ∷ ys) h =
      let same : key x ≡ key y = eq_of_key_eq (key x) (key y) (ground (arith, h)) in
      rw same
        (ap (λ b. key_eq (key y) (key (int (pos lid))) || b) (any-equal xs ys (ground (arith, h))))

  -- A value that is written does not refer to the loser, and one that is kept did not.
  replaced :
      (value : Value)
      → (refers lid (some (replace_value sid lid value).1) ≡ false)
        × ((replace_value sid lid value).0 ≡ false → refers lid (some value) ≡ false)
  replaced (one item) = (not_loser, λ h. h)
  replaced (many items) =
      let new = distinct_from [] (map (replace sid lid) items) in
      let gone : any (is_id lid) new ≡ false =
        any-distinct_from (is_id lid) [] (map (replace sid lid) items) (any-replaced items) in
      (gone, λ h. ground (arith, any-equal new items, gone, h))

  abbrev clean : Text → Bool × CustomData → Bool
  clean name state = not (refers lid (get name state.1))

  field_cleaned :
      (name : Text) (found : Option Value) (state : Bool × CustomData)
      → get name state.1 ≡ found
      → clean name (rewrite_field sid lid name found state) ≡ true
  field_cleaned name none (modified, entries) h = rw h refl
  field_cleaned name (some value) (modified, entries) h =
      elim (Bool-cases (replace_value sid lid value).0) [
        | inl changed ↦ rw changed (
            rw (get-set name name (replace_value sid lid value).1 entries)
              (rw (text_eq_refl name) (rw ((replaced value).0) refl)))
        | inr kept ↦ rw kept (rw h (rw ((replaced value).1 kept) refl))
      ]

  field_keeps :
      (name other : Text) (found : Option Value) (state : Bool × CustomData)
      → clean other state ≡ true
      → clean other (rewrite_field sid lid name found state) ≡ true
  field_keeps name other none state h = h
  field_keeps name other (some value) (modified, entries) h =
      elim (Bool-cases (replace_value sid lid value).0) [
        | inl changed ↦ rw changed (
            rw (get-set name other (replace_value sid lid value).1 entries)
              (elim (Bool-cases (text_eq name other)) [
                | inl same ↦ rw same (rw ((replaced value).0) refl)
                | inr another ↦ rw another h
              ]))
        | inr kept ↦ rw kept h
      ]

  data_keeps :
      (names : List Text) (other : Text) (state : Bool × CustomData)
      → clean other state ≡ true
      → clean other (rewrite_data sid lid names state) ≡ true
  unfolding rewrite_data
  data_keeps [] other state h = h
  data_keeps (name ∷ names) other state h =
      data_keeps names other _ (field_keeps name other (get name state.1) state h)

  data_cleaned :
      (names : List Text) (state : Bool × CustomData)
      → refers_in lid names (rewrite_data sid lid names state).1 ≡ false
  unfolding rewrite_data refers_in
  data_cleaned [] state = refl
  data_cleaned (name ∷ names) state =
      let next = rewrite_field sid lid name (get name state.1) state in
      let here : clean name (rewrite_data sid lid names next) ≡ true =
        data_keeps names name next (field_cleaned name (get name state.1) state refl) in
      ground (arith, here, data_cleaned names next)

  abbrev pub rewritten : List Text → ℕ → Option ContactRow → Option ContactRow
  rewritten names id none = none
  rewritten names id (some c) = some (rewrite_row sid lid names (id, c)).1

  row_key : (names : List Text) (k : ℕ) (c : ContactRow) → (rewrite_row sid lid names (k, c)).0 ≡ k
  row_key names k c = elim (Bool-cases (is_scanned lid (k, c))) [
    | inl scanned ↦ rw scanned refl
    | inr skipped ↦ rw skipped refl
  ]

  row_deleted :
      (names : List Text) (k : ℕ) (c : ContactRow)
      → (rewrite_row sid lid names (k, c)).1.is_deleted ≡ c.is_deleted
  row_deleted names k c = elim (Bool-cases (is_scanned lid (k, c))) [
    | inl scanned ↦ rw scanned refl
    | inr skipped ↦ rw skipped refl
  ]

  -- What a row of another contact that is not deleted holds.
  pub row_cleaned :
      (names : List Text) (id : ℕ) (c : ContactRow)
      → id ≢ lid
      → (rewrite_row sid lid names (id, c)).1.is_deleted ≡ false
      → refers_in lid names (rewrite_row sid lid names (id, c)).1.custom_data ≡ false
  row_cleaned names id c ne live = elim (Bool-cases (is_scanned lid (id, c))) [
    | inl scanned ↦ rw scanned (data_cleaned names (false, c.custom_data))
    | inr skipped ↦
        (let alive : c.is_deleted ≡ false = rw (row_deleted names id c) at live in
          absurd (ground (arith, alive, skipped, ne)))
  ]

  pub find-rewritten :
      (names : List Text) (id : ℕ) (rows : Table ContactRow)
      → find id (map (rewrite_row sid lid names) rows) ≡ rewritten names id (find id rows)
  unfolding find
  find-rewritten names id [] = refl
  find-rewritten names id ((k, c) ∷ rows) = rw (row_key names k c) (elim (Bool-cases (k == id)) [
    | inl same ↦
        (let here : k ≡ id = ground (arith, same) in
          rw same (ap (λ j. some (rewrite_row sid lid names (j, c)).1) here))
    | inr other ↦ rw other (find-rewritten names id rows)
  ])
