-- ===== src/Merge/Once.antt =====
-- The numbers of rows of a contact at an event or in a group, before and after a merge.
use seraphim.Common.{
  ℕ, ◌≡◌, ◌≢◌, ◌≤◌, refl, not, ◌&&◌, Option, none, some, List, [], ◌∷◌, ◌==◌, any, where_, count,
  update_rows, count-update_rows, if◌then◌else◌, is_some, arith, Bool-cases, inl, inr,
}
use seraphim.Merge.{GroupMember}
use seraphim.Merge.Memberships.{
  count-reassign_slots, count_contact, count_missing, is_in-colliding, is_in-non_colliding,
}
use seraphim.Merge.Reassign.{
  group_table, merge_events, merge_row, participant_table, promote, reassign_members,
  reassign_participants,
}
use seraphim.Merge.Tables.{
  Slotted, colliding, find_slot, holds, holds_any, is_in, non_colliding, reassign_slots,
}
use seraphim.Models.{Participant}

-- A table with UNIQUE(slot, contact).
pub record Once {A : Type 0} (t : Slotted A) (rows : List A) : Type 0 where
  pub once : (c k : ℕ) → count (holds t c k) rows ≤ 1

module _ {A : Type 0} (t : Slotted A) where
  count_drop :
      (lid e c k : ℕ) (rows : List A)
      → count (holds t c k) (where_ (λ row. not (holds t lid e row)) rows)
        ≡ (if c == lid && k == e then 0 else count (holds t c k) rows)
  unfolding count where_
  count_drop lid e c k [] = ground arith
  count_drop lid e c k (row ∷ rows) = ground (arith, count_drop lid e c k rows)

  pub count_drop_any :
      (lid c k : ℕ) (ks : List ℕ) (rows : List A)
      → count (holds t c k) (where_ (λ row. not (holds_any t lid ks row)) rows)
        ≡ (if c == lid && is_in ks k then 0 else count (holds t c k) rows)
  unfolding count where_
  count_drop_any lid c k ks [] = ground arith
  count_drop_any lid c k ks (row ∷ rows) = elim (Bool-cases (t.slot row == k)) [
    | inl same ↦
        (let e : t.slot row ≡ k = ground (arith, same) in
          rw e (ground (arith, count_drop_any lid c k ks rows)))
    | inr other ↦ ground (arith, other, count_drop_any lid c k ks rows)
  ]

count_row :
    (sid lid e c k : ℕ) (loser : Option Participant) (rows : List Participant)
    → find_slot participant_table lid e rows ≡ loser
    → count (holds participant_table c k) (merge_row sid lid e loser rows)
      ≡ (if c == lid && k == e then 0 else count (holds participant_table c k) rows)
count_row sid lid e c k none rows h =
    let missing = count_missing participant_table lid e rows (ground (arith, h)) in
    elim (Bool-cases (c == lid && k == e)) [
      | inl here ↦
          (let who : c ≡ lid = ground (arith, here) in
            let event : k ≡ e = ground (arith, here) in rw who (rw event (ground (arith, missing))))
      | inr elsewhere ↦ ground (arith, elsewhere)
    ]
count_row sid lid e c k (some loser) rows h =
    let promoted = update_rows (holds participant_table sid e) (promote loser.status) rows in
    let dropped = count_drop participant_table lid e c k promoted in
    let kept =
      count-update_rows (holds participant_table sid e) (promote loser.status)
        (holds participant_table c k) rows (λ p. refl) in
    ground (arith, dropped, kept)

count_events :
    (sid lid c k : ℕ) (events : List ℕ) (rows : List Participant)
    → count (holds participant_table c k) (merge_events sid lid events rows)
      ≡ (if c == lid && is_in events k then 0 else count (holds participant_table c k) rows)
unfolding merge_events any
count_events sid lid c k [] rows = ground arith
count_events sid lid c k (e ∷ events) rows =
    let loser = find_slot participant_table lid e rows in
    ground (
      arith,
      count_events sid lid c k events (merge_row sid lid e loser rows),
      count_row sid lid e c k loser rows refl,
    )

-- A reassignment in two parts: the loser's rows in the shared slots go, its other rows become the
-- survivor's.
module _ {A : Type 0} (t : Slotted A) (sid lid : ℕ) (different : sid ≢ lid) (rows merged : List A)
    (dropped : (c k : ℕ)
      → count (holds t c k) merged ≡ (
          if c == lid && is_in (colliding t sid lid rows) k
          then 0
          else count (holds t c k) rows)) where
  abbrev after : List A
  after = reassign_slots t sid lid (non_colliding t sid lid rows) merged

  no_slot : (k : ℕ) → count (holds t lid k) after ≡ 0
  no_slot k = ground (
    arith,
    count-reassign_slots t sid lid lid k (non_colliding t sid lid rows) merged different,
    dropped lid k,
    is_in-colliding t sid lid k rows,
    is_in-non_colliding t sid lid k rows,
    count_missing t lid k rows,
    different,
  )

  pub nothing_left : count (λ row. t.contact row == lid) after ≡ 0
  nothing_left = count_contact t lid after no_slot

  pub slot_joined :
      (k : ℕ)
      → count (holds t sid k) after ≡ (
          if is_some (find_slot t sid k rows)
          then count (holds t sid k) rows
          else count (holds t lid k) rows)
  slot_joined k = ground (
    arith,
    count-reassign_slots t sid lid sid k (non_colliding t sid lid rows) merged different,
    dropped sid k,
    dropped lid k,
    is_in-colliding t sid lid k rows,
    is_in-non_colliding t sid lid k rows,
    count_missing t lid k rows,
    count_missing t sid k rows,
    different,
  )

  pub other_slot :
      (c k : ℕ) → c ≢ sid → c ≢ lid → count (holds t c k) after ≡ count (holds t c k) rows
  other_slot c k not_sid not_lid = ground (
    arith,
    count-reassign_slots t sid lid c k (non_colliding t sid lid rows) merged different,
    dropped c k,
  )

  pub after-Once : Once t rows → Once t after
  after-Once h = record {
    once = λ c k. elim (Bool-cases (c == sid)) [
      | inl survivor ↦
          (let who : c ≡ sid = ground (arith, survivor) in
            rw who (ground (arith, slot_joined k, h.once sid k, h.once lid k)))
      | inr other ↦ elim (Bool-cases (c == lid)) [
        | inl loser ↦
            (let who : c ≡ lid = ground (arith, loser) in rw who (ground (arith, no_slot k)))
        | inr third ↦ ground (arith, other_slot c k, h.once c k, other, third)
      ]
    ];
  }

module _ (sid lid : ℕ) (different : sid ≢ lid) where
  module _ (rows : List Participant) where
    abbrev both_events : List ℕ
    both_events = colliding participant_table sid lid rows

    abbrev merged_events : List Participant
    merged_events = merge_events sid lid both_events rows

    events_dropped :
        (c k : ℕ)
        → count (holds participant_table c k) merged_events ≡ (
            if c == lid && is_in both_events k then 0 else count (holds participant_table c k) rows)
    events_dropped c k = count_events sid lid c k both_events rows

    pub participants_left :
        count (λ p. p.contact_id == lid) (reassign_participants sid lid rows).1 ≡ 0
    unfolding reassign_participants
    participants_left =
        nothing_left participant_table sid lid different rows merged_events events_dropped

    pub reassign_participants-Once :
        Once participant_table rows → Once participant_table (reassign_participants sid lid rows).1
    unfolding reassign_participants
    reassign_participants-Once h =
        after-Once participant_table sid lid different rows merged_events events_dropped h

  module _ (rows : List GroupMember) where
    abbrev both_groups : List ℕ
    both_groups = colliding group_table sid lid rows

    abbrev kept_members : List GroupMember
    kept_members = where_ (λ m. not (holds_any group_table lid both_groups m)) rows

    members_dropped :
        (c k : ℕ)
        → count (holds group_table c k) kept_members
          ≡ (if c == lid && is_in both_groups k then 0 else count (holds group_table c k) rows)
    members_dropped c k = count_drop_any group_table lid c k both_groups rows

    pub members_left : count (λ m. m.contact_id == lid) (reassign_members sid lid rows).1 ≡ 0
    unfolding reassign_members
    members_left = nothing_left group_table sid lid different rows kept_members members_dropped

    pub reassign_members-Once :
        Once group_table rows → Once group_table (reassign_members sid lid rows).1
    unfolding reassign_members
    reassign_members-Once h =
        after-Once group_table sid lid different rows kept_members members_dropped h

    -- The survivor is in the groups of both.
    pub member_joined :
        (k : ℕ)
        → count (holds group_table sid k) (reassign_members sid lid rows).1 ≡ (
            if is_some (find_slot group_table sid k rows)
            then count (holds group_table sid k) rows
            else count (holds group_table lid k) rows)
    unfolding reassign_members
    member_joined k = slot_joined group_table sid lid different rows kept_members members_dropped k
