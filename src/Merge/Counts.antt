-- ===== src/Merge/Counts.antt =====
-- The counts of `merge_preview` against the row counts of a merge.
use seraphim.Common.{
  ℕ, ◌≡◌, refl, ◌∙◌, Bool, not, ◌&&◌, Option, none, some, List, [], ◌∷◌, ◌==◌, any, where_, count,
  count-update_rows, arith,
}
use seraphim.Merge.{GroupMember}
use seraphim.Merge.Memberships.{count_missing}
use seraphim.Merge.Once.{Once}
use seraphim.Merge.Picks.{count-colliding, count_rest, length-colliding, picks}
use seraphim.Merge.Preview.{count_slots}
use seraphim.Merge.Reassign.{
  group_table, merge_events, merge_row, participant_table, promote, reassign_members,
  reassign_participants,
}
use seraphim.Merge.Tables.{Slotted, colliding, find_slot, holds, holds_any, is_in}
use seraphim.Models.{Participant}

module _ {A : Type 0} (t : Slotted A) where
  picks_dropped :
      (c e : ℕ) (p : ℕ → Bool) (rows : List A)
      → count (picks t c p) (where_ (λ row. not (holds t c e row)) rows)
        ≡ count (picks t c (λ k. p k && not (e == k))) rows
  unfolding count where_
  picks_dropped c e p [] = refl
  picks_dropped c e p (row ∷ rows) = ground (arith, picks_dropped c e p rows)

  picks_dropped_any :
      (c : ℕ) (ks : List ℕ) (p : ℕ → Bool) (rows : List A)
      → count (picks t c p) (where_ (λ row. not (holds_any t c ks row)) rows)
        ≡ count (picks t c (λ k. p k && not (is_in ks k))) rows
  unfolding count where_
  picks_dropped_any c ks p [] = refl
  picks_dropped_any c ks p (row ∷ rows) = ground (arith, picks_dropped_any c ks p rows)

  -- Where the contact has no row in a slot, leaving the slot out changes nothing.
  picks_missing :
      (c e : ℕ) (p : ℕ → Bool) (rows : List A)
      → count (holds t c e) rows ≡ 0
      → count (picks t c p) rows ≡ count (picks t c (λ k. p k && not (e == k))) rows
  unfolding count
  picks_missing c e p [] h = refl
  picks_missing c e p (row ∷ rows) h = ground (arith, h, picks_missing c e p rows)

  picks_same :
      (c : ℕ) (p q : ℕ → Bool) (rows : List A)
      → ((k : ℕ) → p k ≡ q k)
      → count (picks t c p) rows ≡ count (picks t c q) rows
  unfolding count
  picks_same c p q [] h = refl
  picks_same c p q (row ∷ rows) h = ground (arith, h (t.slot row), picks_same c p q rows h)

picks_row :
    (sid lid e : ℕ) (p : ℕ → Bool) (loser : Option Participant) (rows : List Participant)
    → find_slot participant_table lid e rows ≡ loser
    → count (picks participant_table lid p) (merge_row sid lid e loser rows)
      ≡ count (picks participant_table lid (λ k. p k && not (e == k))) rows
picks_row sid lid e p none rows h =
    picks_missing participant_table lid e p rows
      (count_missing participant_table lid e rows (rw h refl))
picks_row sid lid e p (some loser) rows h =
    picks_dropped participant_table lid e p _
    ∙ count-update_rows (holds participant_table sid e) (promote loser.status) _ rows (λ row. refl)

picks_events :
    (sid lid : ℕ) (events : List ℕ) (p : ℕ → Bool) (rows : List Participant)
    → count (picks participant_table lid p) (merge_events sid lid events rows)
      ≡ count (picks participant_table lid (λ k. p k && not (is_in events k))) rows
unfolding merge_events any
picks_events sid lid [] p rows =
    picks_same participant_table lid p (λ k. p k && not (is_in [] k)) rows (λ k. ground arith)
picks_events sid lid (e ∷ events) p rows =
    picks_events sid lid events p _
    ∙ picks_row sid lid e (λ k. p k && not (is_in events k))
        (find_slot participant_table lid e rows) rows refl
    ∙ picks_same participant_table lid (λ k. (p k && not (is_in events k)) && not (e == k))
        (λ k. p k && not (is_in (e ∷ events) k)) rows (λ k. ground arith)

module _ (sid lid : ℕ) where
  pub count_slots-participants :
      (rows : List Participant)
      → Once participant_table rows
      → (reassign_participants sid lid rows).0 ≡ count_slots participant_table sid lid rows
  unfolding reassign_participants
  count_slots-participants rows h =
      let both = colliding participant_table sid lid rows in
      let moved =
        count_rest participant_table sid lid rows (merge_events sid lid both rows) h
          (λ p. picks_events sid lid both p rows) in
      ground (arith, moved, length-colliding participant_table sid lid rows h)

  pub count_slots-members :
      (rows : List GroupMember)
      → Once group_table rows
      → (reassign_members sid lid rows).0 ≡ count_slots group_table sid lid rows
  unfolding reassign_members
  count_slots-members rows h =
      let both = colliding group_table sid lid rows in
      let moved =
        count_rest group_table sid lid rows
          (where_ (λ m. not (holds_any group_table lid both m)) rows) h
          (λ p. picks_dropped_any group_table lid both p rows) in
      ground (arith, moved, count-colliding group_table sid lid rows h)
