-- ===== src/Merge/Picks.antt =====
-- Counting the rows of a contact whose slots satisfy a test.
use seraphim.Common.{
  ℕ, ◌+◌, ◌-◌, ◌≡◌, ◌<◌, refl, sym, ◌∙◌, Bool, true, not, ◌&&◌, List, [], ◌∷◌, ◌==◌, length, where_,
  count, if◌then◌else◌, is_some, arith,
}
use seraphim.Merge.Memberships.{
  count_missing, is_in-colliding, is_in-non_colliding, is_in-slots_of, is_in-where_,
}
use seraphim.Merge.Once.{Once}
use seraphim.Merge.Preview.{of_contact}
use seraphim.Merge.Tables.{
  Slotted, colliding, find_slot, holds, holds_any, is_in, non_colliding, shared_slots, slots_of,
}

module _ {A : Type 0} (t : Slotted A) where
  abbrev pub picks : ℕ → (ℕ → Bool) → A → Bool
  picks c p row = t.contact row == c && p (t.slot row)

  -- Tests that agree on the slots of the contact pick as many rows.
  count_agree :
      (c : ℕ) (p q : ℕ → Bool) (rows : List A)
      → ((k : ℕ) → 0 < count (holds t c k) rows → p k ≡ q k)
      → count (picks c p) rows ≡ count (picks c q) rows
  unfolding count
  count_agree c p q [] h = refl
  count_agree c p q (row ∷ rows) h =
      let rest : (k : ℕ) → 0 < count (holds t c k) rows → p k ≡ q k =
        λ k more. h k (omega (arith, more)) in
      ground (arith, h (t.slot row), count_agree c p q rows rest)

  count_split :
      (c : ℕ) (p : ℕ → Bool) (rows : List A)
      → count (of_contact t c) rows ≡ count (picks c p) rows + count (picks c (λ k. not (p k))) rows
  unfolding count
  count_split c p [] = refl
  count_split c p (row ∷ rows) = ground (arith, count_split c p rows)

  length_slots :
      (c : ℕ) (p : ℕ → Bool) (rows : List A)
      → length (where_ p (slots_of t c rows)) ≡ count (picks c p) rows
  unfolding count where_ slots_of
  length_slots c p [] = refl
  length_slots c p (row ∷ rows) = ground (arith, length_slots c p rows)

  -- The pairs of a row of `c` and a row of `d` in one slot.
  pairs : ℕ → ℕ → List A → List A → ℕ
  pairs c d [] ys = 0
  pairs c d (x ∷ xs) ys =
      (if t.contact x == c then count (holds t d (t.slot x)) ys else 0) + pairs c d xs ys

  pairs_nil : (c d : ℕ) (xs : List A) → pairs c d xs [] ≡ 0
  unfolding pairs count
  pairs_nil c d [] = refl
  pairs_nil c d (x ∷ xs) = ground (arith, pairs_nil c d xs)

  pairs_cons :
      (c d : ℕ) (xs : List A) (y : A) (ys : List A)
      → pairs c d xs (y ∷ ys)
        ≡ (if t.contact y == d then count (holds t c (t.slot y)) xs else 0) + pairs c d xs ys
  unfolding pairs count
  pairs_cons c d [] y ys = ground arith
  pairs_cons c d (x ∷ xs) y ys = ground (arith, pairs_cons c d xs y ys)

  pairs_swap : (c d : ℕ) (xs ys : List A) → pairs c d xs ys ≡ pairs d c ys xs
  unfolding pairs
  pairs_swap c d xs [] = pairs_nil c d xs
  pairs_swap c d xs (y ∷ ys) = ground (arith, pairs_cons c d xs y ys, pairs_swap c d xs ys)

  count-pairs :
      (c d : ℕ) (p : ℕ → Bool) (xs ys : List A)
      → ((k : ℕ) → (if p k then 1 else 0) ≡ count (holds t d k) ys)
      → count (picks c p) xs ≡ pairs c d xs ys
  unfolding pairs count
  count-pairs c d p [] ys h = refl
  count-pairs c d p (x ∷ xs) ys h = ground (arith, h (t.slot x), count-pairs c d p xs ys h)

  count_found :
      (c k : ℕ) (rows : List A)
      → is_some (find_slot t c k rows) ≡ true
      → 0 < count (holds t c k) rows
  unfolding find_slot count
  count_found c k [] h = cc
  count_found c k (row ∷ rows) h = ground (arith, count_found c k rows)

  found-Once :
      (c k : ℕ) (rows : List A)
      → Once t rows
      → (if is_some (find_slot t c k rows) then 1 else 0) ≡ count (holds t c k) rows
  found-Once c k rows h = ground (arith, h.once c k, count_found c k rows, count_missing t c k rows)

  has_slot : ℕ → List A → ℕ → Bool
  has_slot c rows k = is_some (find_slot t c k rows)

  of_found : (c k : ℕ) (rows : List A) → 0 < count (holds t c k) rows → has_slot c rows k ≡ true
  unfolding has_slot
  of_found c k rows h = ground (arith, count_missing t c k rows)

  module _ (sid lid : ℕ) (rows : List A) where
    -- The rows of one contact in slots of the other, counted from either side.
    shared_counts :
        Once t rows
        → count (holds_any t sid (slots_of t lid rows)) rows
          ≡ count (picks lid (has_slot sid rows)) rows
    unfolding has_slot
    shared_counts h =
        count-pairs sid lid (is_in (slots_of t lid rows)) rows rows
          (λ k. rw (is_in-slots_of t lid k rows) (found-Once lid k rows h))
        ∙ pairs_swap sid lid rows rows
        ∙ sym (count-pairs lid sid (has_slot sid rows) rows rows (λ k. found-Once sid k rows h))

    colliding_agree :
        (k : ℕ)
        → 0 < count (holds t lid k) rows
        → is_in (colliding t sid lid rows) k ≡ has_slot sid rows k
    unfolding has_slot
    colliding_agree k h = rw (is_in-colliding t sid lid k rows) (rw (of_found lid k rows h) refl)

    shared_agree :
        (k : ℕ)
        → 0 < count (holds t lid k) rows
        → is_in (shared_slots t sid lid rows) k ≡ has_slot sid rows k
    unfolding has_slot
    shared_agree k h = ground (
      arith,
      is_in-where_ (is_in (slots_of t lid rows)) (slots_of t sid rows) k,
      is_in-slots_of t lid k rows,
      is_in-slots_of t sid k rows,
      of_found lid k rows h,
    )

    rest_agree :
        (k : ℕ)
        → 0 < count (holds t lid k) rows
        → is_in (non_colliding t sid lid rows) k && not (is_in (colliding t sid lid rows) k)
          ≡ not (has_slot sid rows k)
    unfolding has_slot
    rest_agree k h = ground (
      arith,
      is_in-colliding t sid lid k rows,
      is_in-non_colliding t sid lid k rows,
      of_found lid k rows h,
    )

    pub count-colliding :
        Once t rows
        → count (holds_any t lid (colliding t sid lid rows)) rows
          ≡ count (holds_any t sid (slots_of t lid rows)) rows
    count-colliding h =
        count_agree lid (is_in (colliding t sid lid rows)) (has_slot sid rows) rows colliding_agree
        ∙ sym (shared_counts h)

    pub length-colliding :
        Once t rows
        → length (colliding t sid lid rows) ≡ count (holds_any t sid (slots_of t lid rows)) rows
    length-colliding h =
        length_slots lid (is_in (shared_slots t sid lid rows)) rows
        ∙ count_agree lid (is_in (shared_slots t sid lid rows)) (has_slot sid rows) rows
            shared_agree
        ∙ sym (shared_counts h)

    -- What is reassigned, where the rows in colliding slots were dropped before.
    pub count_rest :
        (merged : List A)
        → Once t rows
        → ((p : ℕ → Bool)
            → count (picks lid p) merged
              ≡ count (picks lid (λ k. p k && not (is_in (colliding t sid lid rows) k))) rows)
        → count (holds_any t lid (non_colliding t sid lid rows)) merged
          ≡ count (of_contact t lid) rows - count (holds_any t sid (slots_of t lid rows)) rows
    count_rest merged h dropped =
        let moved =
          dropped (is_in (non_colliding t sid lid rows))
          ∙ count_agree lid _ (λ k. not (has_slot sid rows k)) rows rest_agree in
        omega (arith, moved, count_split lid (has_slot sid rows) rows, shared_counts h)
