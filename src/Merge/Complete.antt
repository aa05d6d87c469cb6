-- ===== src/Merge/Complete.antt =====
-- What a merge leaves: nothing of the loser, and the participations of both contacts.
use seraphim.Common.{
  ℕ, ◌≡◌, ◌≢◌, refl, ◌∙◌, true, false, Option, none, some, List, [], ◌∷◌, ◌==◌, arith, Bool-cases,
  inl, inr, if◌then◌else◌,
}
use seraphim.Common.Table.{Table, find, put, find-put}
use seraphim.Common.Text.{Text, codes, text_eq}
use seraphim.Merge.{ContactRow, Field}
use seraphim.Merge.Attending.{best, status_at, status-reassign_participants}
use seraphim.Merge.Contacts.{apply_choices, choose, core_fields, find_field, get_field, set_field}
use seraphim.Merge.Forgotten.{Forgotten, moved_all-Forgotten}
use seraphim.Merge.Merging.{MergeOutcome, MergeRequest, Store, World, chosen, merge_contacts}
use seraphim.Merge.Once.{Once, reassign_members-Once, reassign_participants-Once}
use seraphim.Merge.Outcome.{Merged, merged}
use seraphim.Merge.Reassign.{group_table, participant_table}
use seraphim.Merge.References.{reference_names, refers_in, rewrite_references, rewrite_row}
use seraphim.Merge.Unreferred.{find-rewritten, rewritten, row_cleaned}
use seraphim.Session.{ok}

-- Choosing core fields leaves the custom data and the deletion alone.
abbrev Keeps : ContactRow → ContactRow → Type 0
Keeps c d = (d.custom_data ≡ c.custom_data) × (d.is_deleted ≡ c.is_deleted)

set-Keeps : (f : Field) (v : Option Text) (c : ContactRow) → Keeps c (set_field f v c)
set-Keeps Field.first_name v c = (refl, refl)
set-Keeps Field.last_name v c = (refl, refl)
set-Keeps Field.nickname v c = (refl, refl)
set-Keeps Field.suffix v c = (refl, refl)
set-Keeps Field.gender v c = (refl, refl)
set-Keeps Field.birth_date v c = (refl, refl)
set-Keeps Field.phone v c = (refl, refl)
set-Keeps Field.email v c = (refl, refl)
set-Keeps Field.street_address v c = (refl, refl)
set-Keeps Field.contact_type v c = (refl, refl)
set-Keeps Field.contact_subtype v c = (refl, refl)

choose-Keeps :
    (loser : ContactRow) (field : Option Field) (choice : Text) (c : ContactRow)
    → Keeps c (choose loser field choice c)
choose-Keeps loser none choice c = (refl, refl)
choose-Keeps loser (some f) choice c = elim (Bool-cases (text_eq choice (codes "loser"))) [
  | inl taken ↦ rw taken (set-Keeps f (get_field f loser) c)
  | inr kept ↦ rw kept (refl, refl)
]

apply_choices-Keeps :
    (loser : ContactRow) (choices : List (Text × Text)) (c : ContactRow)
    → Keeps c (apply_choices loser choices c)
unfolding apply_choices
apply_choices-Keeps loser [] c = (refl, refl)
apply_choices-Keeps loser ((name, choice) ∷ rest) c =
    let field = find_field name core_fields in
    let later = apply_choices-Keeps loser rest (choose loser field choice c) in
    let now = choose-Keeps loser field choice c in (later.0 ∙ now.0, later.1 ∙ now.1)

module _ (w : World) (q : MergeRequest) (pre : Table ContactRow) (st : Store) (o : MergeOutcome)
    (after : Store) (success : merge_contacts w q pre st ≡ (ok o, after)) where
  abbrev facts : Merged w q st o after
  facts = merged w q st o after pre success

  -- After a merge no row refers to the loser: no face sample, report, review, participant, group
  -- member, consent, alias, subject, detection, log or activity.
  pub merge_contacts-Forgotten : Forgotten q.loser_id after.rows
  merge_contacts-Forgotten = rw facts.result (
      moved_all-Forgotten q.survivor_id q.loser_id facts.different st.field_defs st.contacts st.rows
        facts.subjects facts.reassigned)

  -- After a merge the survivor has at each event the higher of the statuses that it and the loser had,
  -- the loser has none, and each other contact has the status that it had.
  pub merge_contacts-status_at :
      (c k : ℕ)
      → status_at c k after.rows.participants ≡ (
          if c == q.survivor_id
          then best
              (status_at q.survivor_id k st.rows.participants)
              (status_at q.loser_id k st.rows.participants)
          else if c == q.loser_id
          then none
          else status_at c k st.rows.participants)
  merge_contacts-status_at c k = rw facts.result (
      status-reassign_participants q.survivor_id q.loser_id facts.different c k
        st.rows.participants)

  -- A merge keeps the uniqueness of a contact at an event and in a group.
  pub merge_contacts-Once :
      Once participant_table st.rows.participants
      → Once group_table st.rows.group_members
      → Once participant_table after.rows.participants × Once group_table after.rows.group_members
  merge_contacts-Once p g = rw facts.result (
    reassign_participants-Once q.survivor_id q.loser_id facts.different st.rows.participants p,
    reassign_members-Once q.survivor_id q.loser_id facts.different st.rows.group_members g,
  )

  abbrev names : List Text
  names = reference_names st.field_defs

  abbrev rewritten_contacts : Table ContactRow
  rewritten_contacts = (rewrite_references q.survivor_id q.loser_id st.field_defs st.contacts).1

  abbrev survivor_row : ContactRow
  survivor_row = (rewrite_row q.survivor_id q.loser_id names (q.survivor_id, facts.survivor)).1

  found_after :
      (id : ℕ)
      → find id rewritten_contacts
        ≡ rewritten q.survivor_id q.loser_id facts.different names id (find id st.contacts)
  unfolding rewrite_references
  found_after id = find-rewritten q.survivor_id q.loser_id facts.different names id st.contacts

  survivor_after : find q.survivor_id rewritten_contacts ≡ some survivor_row
  survivor_after = rw facts.found_survivor at (found_after q.survivor_id)

  abbrev chosen_row : ContactRow
  chosen_row = apply_choices facts.loser q.field_choices survivor_row

  chosen-row : chosen q facts.survivor facts.loser rewritten_contacts ≡ chosen_row
  chosen-row = rw survivor_after refl

  abbrev deleted_row : ContactRow
  deleted_row = record (facts.loser) { is_deleted = true }

  find_contact :
      (id : ℕ)
      → find id after.contacts ≡ (
          if q.loser_id == id
          then some deleted_row
          else if q.survivor_id == id
          then some chosen_row
          else find id rewritten_contacts)
  find_contact id =
      let survivor = chosen q facts.survivor facts.loser rewritten_contacts in
      let written = put q.survivor_id survivor rewritten_contacts in
      rw facts.result (
        rw (find-put q.loser_id id deleted_row written)
          (rw (find-put q.survivor_id id survivor rewritten_contacts) (rw chosen-row refl)))

  abbrev Unreferred : ContactRow → Type 0
  Unreferred c = refers_in q.loser_id names c.custom_data ≡ false

  rewritten-Unreferred :
      (id : ℕ) (old : Option ContactRow) (c : ContactRow)
      → id ≢ q.loser_id
      → rewritten q.survivor_id q.loser_id facts.different names id old ≡ some c
      → c.is_deleted ≡ false
      → Unreferred c
  rewritten-Unreferred id none c ne h alive = absurd (cc h)
  rewritten-Unreferred id (some old) c ne h alive =
      let same : (rewrite_row q.survivor_id q.loser_id names (id, old)).1 ≡ c = cc h in
      let live = rw (← same) at alive in
      rw (← same) (row_cleaned q.survivor_id q.loser_id facts.different names id old ne live)

  chosen-Unreferred : chosen_row.is_deleted ≡ false → Unreferred chosen_row
  chosen-Unreferred alive =
      let keeps = apply_choices-Keeps facts.loser q.field_choices survivor_row in
      let live : survivor_row.is_deleted ≡ false = rw (keeps.1) at alive in
      rw (keeps.0) (
        row_cleaned q.survivor_id q.loser_id facts.different names q.survivor_id facts.survivor
          facts.different live)

  -- After a merge the loser is deleted, and no contact that is not deleted refers to it in a field of
  -- the type contact_reference.
  pub merge_contacts-refers_in :
      (id : ℕ) (c : ContactRow)
      → find id after.contacts ≡ some c
      → c.is_deleted ≡ false
      → (id ≢ q.loser_id) × (refers_in q.loser_id names c.custom_data ≡ false)
  merge_contacts-refers_in id c found alive = elim (Bool-cases (q.loser_id == id)) [
    | inl loser ↦ absurd (
        let gone : some deleted_row ≡ some c = rw loser at (rw (find_contact id) at found) in
        cc (gone, alive))
    | inr other ↦
        (let ne : id ≢ q.loser_id = ground (arith, other) in
          let rest = rw other at (rw (find_contact id) at found) in
          elim (Bool-cases (q.survivor_id == id)) [
            | inl survivor ↦
                (let same : chosen_row ≡ c = cc (rw survivor at rest) in
                  (ne, rw (← same) (chosen-Unreferred (rw (← same) at alive))))
            | inr third ↦
                (let kept = rw (found_after id) at (rw third at rest) in
                  (ne, rewritten-Unreferred id (find id st.contacts) c ne kept alive))
          ])
  ]
