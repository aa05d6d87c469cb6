-- ===== src/Merge/Faithful.antt =====
-- What the preview of a merge says, against what the merge then does.
use seraphim.Common.{
  ℕ, ◌≡◌, refl, sym, ap, ◌∙◌, Option, none, some, List, ◌==◌, count, count-update_rows, where_,
  arith, Bool-cases, Option-cases, inl, inr,
}
use seraphim.Common.Table.{Table, find}
use seraphim.Consent.{BiometricConsent}
use seraphim.Merge.{ContactRow, CustomFieldDef, Rows, Stats}
use seraphim.Merge.Aliases.{UniqueTexts, count_aliases-reassign}
use seraphim.Merge.Contacts.{is_candidate, led_by, moved_all, reviewed_as, submitted_by}
use seraphim.Merge.Counts.{count_slots-members, count_slots-participants}
use seraphim.Merge.Merging.{MergeOutcome, MergeRequest, Store, World, merge_contacts}
use seraphim.Merge.Once.{Once}
use seraphim.Merge.Outcome.{merged}
use seraphim.Merge.Preview.{
  MergePreview, count_all, count_consents, count_subjects, merge_preview, preview_rows,
}
use seraphim.Merge.Reassign.{
  Subjects, group_table, is_active, is_subject_of, move_subjects, participant_table,
  reassign_consent, reassign_subjects, updated,
}
use seraphim.Models.{ComprefaceSubject}
use seraphim.Session.{Result, ok, err, one_or_none}

count_consents-reassign :
    (sid lid : ℕ) (rows : Table BiometricConsent)
    → (reassign_consent sid lid rows).0 ≡ count_consents (find lid rows) (find sid rows)
unfolding reassign_consent
count_consents-reassign sid lid rows = elim (Option-cases (find lid rows)) [
  | inl missing ↦ rw missing refl
  | inr (loser, found) ↦ elim (Option-cases (find sid rows)) [
    | inl open_ ↦ rw found (rw open_ refl)
    | inr (survivor, taken) ↦ rw found (rw taken refl)
  ]
]

count_subjects-move :
    (sid lid : ℕ) (active : Option ComprefaceSubject) (rows : List ComprefaceSubject)
    (done : Subjects)
    → move_subjects sid lid (ok active) rows ≡ ok done
    → done.moved ≡ count_subjects active (count (is_subject_of lid) rows)
count_subjects-move sid lid none rows done h = cc h
count_subjects-move sid lid (some active) rows done h =
    elim (Bool-cases (count (is_subject_of lid) rows == 0)) [
      | inl nobody ↦ rw nobody (ground (arith, h, nobody))
      | inr somebody ↦ rw somebody (cc h)
    ]

module _ (sid lid : ℕ) (r : Rows) (participants : Once participant_table r.participants)
    (members : Once group_table r.group_members) (aliases : UniqueTexts r.aliases) where
  stats_counted :
      (defs : List CustomFieldDef) (contacts : Table ContactRow) (active : Option ComprefaceSubject)
      (done : Subjects)
      → move_subjects sid lid (ok active) r.subjects ≡ ok done
      → record (moved_all sid lid defs contacts r done).stats { custom_references = updated 0 }
        ≡ count_all sid lid r active
  stats_counted defs contacts active done h = ground (
    arith,
    count-update_rows (submitted_by lid) (λ a. record a { submitted_by_contact_id = some sid })
        (led_by lid) r.reports (λ a. refl),
    count-update_rows (reviewed_as lid) (λ a. record a { contact_id = some sid }) (is_candidate lid)
        r.reviews (λ a. refl),
    count_slots-participants sid lid r.participants participants,
    count_slots-members sid lid r.group_members members,
    count_consents-reassign sid lid r.consents,
    count_aliases-reassign sid lid r.aliases aliases,
    count_subjects-move sid lid active r.subjects done h,
  )

  counted :
      (defs : List CustomFieldDef) (contacts : Table ContactRow) (s l : ContactRow)
      (active : Result (Option ComprefaceSubject)) (done : Subjects) (p : MergePreview)
      → move_subjects sid lid active r.subjects ≡ ok done
      → preview_rows sid lid r s l active ≡ ok p
      → p.reassignments
        ≡ record (moved_all sid lid defs contacts r done).stats { custom_references = updated 0 }
  counted defs contacts s l (err e) done p moves previews = absurd (cc moves)
  counted defs contacts s l (ok active) done p moves previews =
      let shown : count_all sid lid r active ≡ p.reassignments = cc previews in
      sym shown ∙ sym (stats_counted defs contacts active done moves)

-- Where a contact is at most once at an event and in a group, and an alias text occurs at most once:
-- if the preview of a merge succeeds and then the merge, on the same rows, then the merge reassigns and
-- deletes in every table as many rows as the preview said. For the contacts whose custom data refers to
-- the loser the preview says 0, however many the merge rewrites. The activities, which only the merge
-- reports, are not compared.
pub merge_preview-merge_contacts :
    (w : World) (q : MergeRequest) (pre : Table ContactRow) (st : Store) (o : MergeOutcome)
    (after : Store) (p : MergePreview)
    → Once participant_table st.rows.participants
    → Once group_table st.rows.group_members
    → UniqueTexts st.rows.aliases
    → merge_preview q.survivor_id q.loser_id st.contacts st.rows ≡ ok p
    → merge_contacts w q pre st ≡ (ok o, after)
    → p.reassignments ≡ record o.reassignments { custom_references = updated 0 }
unfolding merge_preview reassign_subjects
merge_preview-merge_contacts w q pre st o after p participants members aliases preview success =
    let facts = merged w q st o after pre success in
    let s = q.survivor_id in
    let l = q.loser_id in
    let shown = rw facts.found_loser at (rw facts.found_survivor at preview) in
    counted s l st.rows participants members aliases st.field_defs st.contacts facts.survivor
      facts.loser (one_or_none (where_ (is_active s) st.rows.subjects)) facts.subjects p
      facts.reassigned shown
    ∙ ap {A = Stats} (λ x. record x { custom_references = updated 0 }) (sym facts.stats)
