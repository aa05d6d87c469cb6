-- ===== src/Merge/Memberships.antt =====
-- The slots of a contact, counted and looked up.
use seraphim.Common.{
  ℕ, ◌+◌, ◌≡◌, ◌≢◌, refl, Bool, false, not, ◌&&◌, List, [], ◌∷◌, ◌==◌, any, where_, count,
  update_rows, if◌then◌else◌, is_some, arith, Bool-cases, inl, inr,
}
use seraphim.Merge.Tables.{
  Slotted, colliding, find_slot, holds, is_in, non_colliding, reassign_slots, shared_slots,
  slots_of,
}

pub is_in-where_ : (p : ℕ → Bool) (ks : List ℕ) (k : ℕ) → is_in (where_ p ks) k ≡ is_in ks k && p k
unfolding any where_
is_in-where_ p [] k = refl
is_in-where_ p (j ∷ ks) k = elim (Bool-cases (j == k)) [
  | inl same ↦ (let e : j ≡ k = ground (arith, same) in rw e (ground (arith, is_in-where_ p ks k)))
  | inr other ↦ ground (arith, is_in-where_ p ks k)
]

module _ {A : Type 0} (t : Slotted A) where
  pub is_in-slots_of :
      (c k : ℕ) (rows : List A) → is_in (slots_of t c rows) k ≡ is_some (find_slot t c k rows)
  unfolding any slots_of find_slot
  is_in-slots_of c k [] = refl
  is_in-slots_of c k (row ∷ rows) = ground (arith, is_in-slots_of c k rows)

  pub is_in-colliding :
      (sid lid k : ℕ) (rows : List A)
      → is_in (colliding t sid lid rows) k
        ≡ is_some (find_slot t lid k rows) && is_some (find_slot t sid k rows)
  is_in-colliding sid lid k rows = ground (
    arith,
    is_in-where_ (is_in (shared_slots t sid lid rows)) (slots_of t lid rows) k,
    is_in-where_ (is_in (slots_of t lid rows)) (slots_of t sid rows) k,
    is_in-slots_of lid k rows,
    is_in-slots_of sid k rows,
  )

  pub is_in-non_colliding :
      (sid lid k : ℕ) (rows : List A)
      → is_in (non_colliding t sid lid rows) k
        ≡ is_some (find_slot t lid k rows) && not (is_some (find_slot t sid k rows))
  is_in-non_colliding sid lid k rows = ground (
    arith,
    is_in-where_ (λ j. not (is_in (shared_slots t sid lid rows) j)) (slots_of t lid rows) k,
    is_in-where_ (is_in (slots_of t lid rows)) (slots_of t sid rows) k,
    is_in-slots_of lid k rows,
    is_in-slots_of sid k rows,
  )

  pub count_missing :
      (c k : ℕ) (rows : List A)
      → is_some (find_slot t c k rows) ≡ false
      → count (holds t c k) rows ≡ 0
  unfolding find_slot count
  count_missing c k [] h = refl
  count_missing c k (row ∷ rows) h = ground (arith, count_missing c k rows)

  -- What the reassignment of slots does to the number of rows of a contact in a slot.
  pub count-reassign_slots :
      (sid lid c k : ℕ) (ks : List ℕ) (rows : List A)
      → sid ≢ lid
      → count (holds t c k) (reassign_slots t sid lid ks rows) ≡ (
          if is_in ks k && c == sid
          then count (holds t sid k) rows + count (holds t lid k) rows
          else if is_in ks k && c == lid
          then 0
          else count (holds t c k) rows)
  unfolding update_rows count
  count-reassign_slots sid lid c k ks [] ne = ground arith
  count-reassign_slots sid lid c k ks (row ∷ rows) ne = ground (
    arith,
    t.contact-assign sid row,
    t.slot-assign sid row,
    count-reassign_slots sid lid c k ks rows ne,
  )

  -- No row of a contact in any slot is no row of it.
  pub count_contact :
      (c : ℕ) (rows : List A)
      → ((k : ℕ) → count (holds t c k) rows ≡ 0)
      → count (λ row. t.contact row == c) rows ≡ 0
  unfolding count
  count_contact c [] h = refl
  count_contact c (row ∷ rows) h =
      let rest : (k : ℕ) → count (holds t c k) rows ≡ 0 = λ k. omega (arith, h k) in
      ground (arith, h (t.slot row), count_contact c rows rest)
