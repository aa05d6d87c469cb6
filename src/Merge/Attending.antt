-- ===== src/Merge/Attending.antt =====
-- The participants of the survivor and of the loser before and after a merge.
use seraphim.Common.{
  ℕ, ◌≡◌, ◌≢◌, refl, ap, Bool, true, false, not, ◌&&◌, Option, none, some, List, [], ◌∷◌, ◌==◌, any,
  where_, update_rows, if◌then◌else◌, is_some, arith, Bool-cases, Option-cases, inl, inr,
}
use seraphim.Merge.Memberships.{is_in-colliding, is_in-non_colliding}
use seraphim.Merge.Reassign.{
  max_status, merge_events, merge_row, participant_table, promote, reassign_participants,
}
use seraphim.Merge.Tables.{colliding, find_slot, holds, is_in, non_colliding, reassign_slots}
use seraphim.Models.{Participant, ParticipantStatus}

abbrev pub attends : ℕ → ℕ → Participant → Bool
attends c e = holds participant_table c e

-- The status of a contact at an event, where it is a participant.
abbrev pub status_of : Option Participant → Option ParticipantStatus
status_of none = none
status_of (some p) = some p.status

unfoldable pub status_at : ℕ → ℕ → List Participant → Option ParticipantStatus
status_at c e rows = status_of (find_slot participant_table c e rows)

-- The higher of two statuses.
abbrev pub best : Option ParticipantStatus → Option ParticipantStatus → Option ParticipantStatus
best none t = t
best (some s) none = some s
best (some s) (some t) = some (max_status s t)

status_drop :
    (lid e c k : ℕ) (rows : List Participant)
    → status_at c k (where_ (λ p. not (attends lid e p)) rows)
      ≡ (if c == lid && k == e then none else status_at c k rows)
unfolding status_at find_slot where_
status_drop lid e c k [] = ground arith
status_drop lid e c k (p ∷ rows) = ground (arith, status_drop lid e c k rows)

abbrev raised : ParticipantStatus → Option ParticipantStatus → Option ParticipantStatus
raised s none = none
raised s (some t) = some (max_status t s)

status_promote :
    (sid e c k : ℕ) (s : ParticipantStatus) (rows : List Participant)
    → status_at c k (update_rows (attends sid e) (promote s) rows)
      ≡ (if c == sid && k == e then raised s (status_at c k rows) else status_at c k rows)
unfolding status_at find_slot update_rows
status_promote sid e c k s [] = ground arith
status_promote sid e c k s (p ∷ rows) = ground (arith, status_promote sid e c k s rows)

status_found :
    (c k : ℕ) (rows : List Participant) (found : Option Participant)
    → find_slot participant_table c k rows ≡ found
    → status_at c k rows ≡ status_of found
unfolding status_at
status_found c k rows found h = rw h

-- `settled` on the statuses alone.
abbrev merged_status : Bool → Bool → (s l x : Option ParticipantStatus) → Option ParticipantStatus
merged_status is_survivor is_loser s l x =
    if is_survivor && is_some s then best s l else if is_loser then none else x

combined :
    (is_survivor is_loser : Bool) (s l x : Option ParticipantStatus)
    → (is_survivor ≡ true → x ≡ s)
    → (is_loser ≡ true → x ≡ l)
    → (is_survivor && is_loser) ≡ false
    → (if (is_some l && not (is_some s)) && is_survivor
        then (if is_some l && is_some s then merged_status false true s l l else l)
        else if (is_some l && not (is_some s)) && is_loser
        then none
        else if is_some l && is_some s
        then merged_status is_survivor is_loser s l x
        else x)
      ≡ (if is_survivor then best s l else if is_loser then none else x)
combined is_survivor is_loser none none x h g different = ground (arith, h, g)
combined is_survivor is_loser none (some l) x h g different = refl
combined is_survivor is_loser (some s) none x h g different = ground (arith, h, g)
combined is_survivor is_loser (some s) (some l) x h g different = ground arith

module _ (sid lid : ℕ) (different : sid ≢ lid) where
  -- What an event in which the loser may stand makes of the status of `c`.
  abbrev settled : ℕ → ℕ → List Participant → Option ParticipantStatus
  settled c k rows =
      if c == sid && is_some (status_at sid k rows)
      then best (status_at sid k rows) (status_at lid k rows)
      else if c == lid
      then none
      else status_at c k rows

  raised-best :
      (c k : ℕ) (s : ParticipantStatus) (rows : List Participant)
      → status_at lid k rows ≡ some s
      → (if c == lid
          then none
          else if c == sid
          then raised s (status_at c k rows)
          else status_at c k rows)
        ≡ settled c k rows
  raised-best c k s rows h = elim (Bool-cases (c == sid)) [
    | inl survivor ↦
        (let who : c ≡ sid = ground (arith, survivor) in
          rw who (
            rw h (elim (Option-cases (status_at sid k rows)) [
              | inl missing ↦ rw missing (ground (arith, different))
              | inr (t, present) ↦ rw present (ground (arith, different))
            ])))
    | inr other ↦ ground (arith, other)
  ]

  absent-best :
      (c k : ℕ) (rows : List Participant)
      → status_at lid k rows ≡ none
      → status_at c k rows ≡ settled c k rows
  absent-best c k rows h = elim (Bool-cases (c == sid)) [
    | inl survivor ↦
        (let who : c ≡ sid = ground (arith, survivor) in
          rw who (
            rw h (elim (Option-cases (status_at sid k rows)) [
              | inl missing ↦ rw missing (ground (arith, different))
              | inr (t, present) ↦ rw present (ground (arith, different))
            ])))
    | inr other ↦ elim (Bool-cases (c == lid)) [
      | inl loser ↦ (let who : c ≡ lid = ground (arith, loser) in ground (arith, other, who, h))
      | inr third ↦ ground (arith, other, third)
    ]
  ]

  status_row :
      (e c k : ℕ) (loser : Option Participant) (rows : List Participant)
      → status_at lid e rows ≡ status_of loser
      → status_at c k (merge_row sid lid e loser rows)
        ≡ (if e == k then settled c k rows else status_at c k rows)
  status_row e c k none rows h = elim (Bool-cases (e == k)) [
    | inr other ↦ ground (arith, other)
    | inl same ↦
        (let event : e ≡ k = ground (arith, same) in
          let absent : status_at lid k rows ≡ none = rw event at h in
          ground (arith, same, absent-best c k rows absent))
  ]
  status_row e c k (some loser) rows h =
      let promoted = update_rows (attends sid e) (promote loser.status) rows in
      rw (status_drop lid e c k promoted) (
        rw (status_promote sid e c k loser.status rows) (elim (Bool-cases (e == k)) [
          | inr other ↦ ground (arith, other)
          | inl same ↦
              (let event : e ≡ k = ground (arith, same) in
                let present : status_at lid k rows ≡ some loser.status = rw event at h in
                let reverse : (k == e) ≡ true = ground (arith, same) in
                rw same (rw reverse (ground (arith, raised-best c k loser.status rows present))))
        ]))

  -- All colliding events.
  status_events :
      (events : List ℕ) (c k : ℕ) (rows : List Participant)
      → status_at c k (merge_events sid lid events rows)
        ≡ (if is_in events k then settled c k rows else status_at c k rows)
  unfolding merge_events any
  status_events [] c k rows = refl
  status_events (e ∷ events) c k rows =
      let loser = find_slot participant_table lid e rows in
      let known = status_found lid e rows loser refl in
      let after = merge_row sid lid e loser rows in
      ground (
        arith,
        status_events events c k after,
        status_row e c k loser rows known,
        status_row e sid k loser rows known,
        status_row e lid k loser rows known,
        different,
      )

  status_reassign :
      (ks : List ℕ) (c k : ℕ) (rows : List Participant)
      → (is_in ks k ≡ true → status_at sid k rows ≡ none)
      → status_at c k (reassign_slots participant_table sid lid ks rows) ≡ (
          if is_in ks k && c == sid
          then status_at lid k rows
          else if is_in ks k && c == lid
          then none
          else status_at c k rows)
  unfolding status_at find_slot update_rows
  status_reassign ks c k [] h = ground arith
  status_reassign ks c k (p ∷ rows) h = ground (arith, h, status_reassign ks c k rows, different)

  some_status :
      (c k : ℕ) (rows : List Participant)
      → is_some (find_slot participant_table c k rows) ≡ is_some (status_at c k rows)
  unfolding status_at
  some_status c k rows = elim (Option-cases (find_slot participant_table c k rows)) [
    | inl missing ↦ rw missing refl
    | inr (p, found) ↦ rw found refl
  ]

  in_colliding :
      (k : ℕ) (rows : List Participant)
      → is_in (colliding participant_table sid lid rows) k
        ≡ is_some (status_at lid k rows) && is_some (status_at sid k rows)
  in_colliding k rows =
      rw (← some_status lid k rows)
        (rw (← some_status sid k rows) (is_in-colliding participant_table sid lid k rows))

  in_non_colliding :
      (k : ℕ) (rows : List Participant)
      → is_in (non_colliding participant_table sid lid rows) k
        ≡ is_some (status_at lid k rows) && not (is_some (status_at sid k rows))
  in_non_colliding k rows =
      rw (← some_status lid k rows)
        (rw (← some_status sid k rows) (is_in-non_colliding participant_table sid lid k rows))

  -- After the reassignment the survivor has the better status of the two, the loser none, and other
  -- contacts the status that they had.
  pub status-reassign_participants :
      (c k : ℕ) (rows : List Participant)
      → status_at c k (reassign_participants sid lid rows).1 ≡ (
          if c == sid
          then best (status_at sid k rows) (status_at lid k rows)
          else if c == lid
          then none
          else status_at c k rows)
  unfolding reassign_participants
  status-reassign_participants c k rows =
      let both = colliding participant_table sid lid rows in
      let rest = non_colliding participant_table sid lid rows in
      let merged = merge_events sid lid both rows in
      let s = status_at sid k rows in
      let l = status_at lid k rows in
      let in_both : is_in both k ≡ is_some l && is_some s = in_colliding k rows in
      let in_rest : is_in rest k ≡ is_some l && not (is_some s) = in_non_colliding k rows in
      let free : is_in rest k ≡ true → status_at sid k merged ≡ none =
        λ h. ground (arith, status_events both sid k rows, in_both, in_rest, h) in
      let apart : (sid == lid) ≡ false = ground (arith, different) in
      let of_loser : status_at lid k merged
          ≡ (if is_in both k then merged_status false true s l l else l) =
        ground (arith, status_events both lid k rows, apart) in
      let one : (c == sid) ≡ true → status_at c k rows ≡ s =
        λ h. ap (λ a. status_at a k rows) (ground (arith, h)) in
      let two : (c == lid) ≡ true → status_at c k rows ≡ l =
        λ h. ap (λ a. status_at a k rows) (ground (arith, h)) in
      rw (status_reassign rest c k merged free) (
        rw of_loser (
          rw (status_events both c k rows) (
            rw in_both (
              rw in_rest (
                combined (c == sid) (c == lid) s l (status_at c k rows) one two
                  (ground (arith, different)))))))
