-- ===== src/Merge/Tables.antt =====
-- Rows that stand for a contact in a slot: a participant at an event, a member of a group.
use seraphim.Common.{
  ℕ, ◌≡◌, Bool, not, ◌&&◌, Option, none, some, List, [], ◌∷◌, ◌==◌, any, where_, update_rows,
  if◌then◌else◌,
}

-- What the two tables have in common.
pub record Slotted (A : Type 0) : Type 0 where
  pub contact : A → ℕ
  pub slot : A → ℕ
  pub assign : ℕ → A → A
  pub contact-assign : (c : ℕ) (row : A) → contact (assign c row) ≡ c
  pub slot-assign : (c : ℕ) (row : A) → slot (assign c row) ≡ slot row

abbrev pub is_in : List ℕ → ℕ → Bool
is_in ks k = any (λ j. j == k) ks

module _ {A : Type 0} (t : Slotted A) where
  abbrev pub holds : ℕ → ℕ → A → Bool
  holds c k row = t.contact row == c && t.slot row == k

  abbrev pub holds_any : ℕ → List ℕ → A → Bool
  holds_any c ks row = t.contact row == c && is_in ks (t.slot row)

  -- SELECT slot WHERE contact = c.
  unfoldable pub slots_of : ℕ → List A → List ℕ
  slots_of c [] = []
  slots_of c (row ∷ rows) =
      let rest = slots_of c rows in if t.contact row == c then t.slot row ∷ rest else rest

  unfoldable pub find_slot : ℕ → ℕ → List A → Option A
  find_slot c k [] = none
  find_slot c k (row ∷ rows) =
      let rest = find_slot c k rows in if holds c k row then some row else rest

  -- SELECT slot WHERE contact = sid AND slot IN (the slots of lid).
  abbrev pub shared_slots : ℕ → ℕ → List A → List ℕ
  shared_slots sid lid rows = where_ (is_in (slots_of lid rows)) (slots_of sid rows)

  -- The slots of `lid` in which `sid` stands as well, and the others.
  abbrev pub colliding : ℕ → ℕ → List A → List ℕ
  colliding sid lid rows = where_ (is_in (shared_slots sid lid rows)) (slots_of lid rows)

  abbrev pub non_colliding : ℕ → ℕ → List A → List ℕ
  non_colliding sid lid rows =
      where_ (λ k. not (is_in (shared_slots sid lid rows) k)) (slots_of lid rows)

  -- UPDATE ... SET contact = sid WHERE contact = lid AND slot IN ks.
  abbrev pub reassign_slots : ℕ → ℕ → List ℕ → List A → List A
  reassign_slots sid lid ks rows = update_rows (holds_any lid ks) (t.assign sid) rows
