-- ===== src/Merge/Forgotten.antt =====
-- What refers to a contact, before and after a merge.
use seraphim.Common.{
  ℕ, ◌≡◌, ◌≢◌, refl, subst, ◌∙◌, Bool, false, not, ◌&&◌, Option, none, some, List, [], ◌∷◌, ◌==◌,
  any, count, where_, update_rows, count-update_rows, count-update_rows_self, arith, Bool-cases,
  Option-cases, inl, inr,
}
use mathlib.Core.Path.{fun_ext}
use seraphim.Common.Table.{Table, find, remove, find-put, find-remove}
use seraphim.Common.Text.{text_eq, text_eq_refl, eq_of_text_eq}
use seraphim.Attendance.{member_name}
use seraphim.Attendance.Names.{member_id-member_name}
use seraphim.Consent.{BiometricConsent}
use seraphim.Merge.{ContactRow, CustomFieldDef, Rows}
use seraphim.Merge.Contacts.{
  detected_as, moved_all, is_candidate, led_by, logged_as, move_activities, of_sample,
  refers_activity, reviewed_as, submitted_by,
}
use seraphim.Merge.Once.{members_left, participants_left}
use seraphim.Merge.Reassign.{
  Subjects, group_table, is_active, is_alias, is_name, is_ref, is_subject_of, is_taken,
  move_aliases, move_subjects, participant_table, reassign_consent, reassign_subjects,
}
use seraphim.Merge.Preview.{is_alias_of, of_contact}
use seraphim.Models.{Activity, ComprefaceSubject}
use seraphim.NameMatch.{NameAlias}
use seraphim.Session.{Result, ok, err, one_or_none}

abbrev pub no_activity : ℕ → Option (List Activity) → ℕ
no_activity id none = 0
no_activity id (some rows) = count (refers_activity id) rows

-- No row of any table refers to the contact.
pub record Forgotten (id : ℕ) (r : Rows) : Type 0 where
  pub samples : count (of_sample id) r.samples ≡ 0
  pub submitted : count (submitted_by id) r.reports ≡ 0
  pub led : count (led_by id) r.reports ≡ 0
  pub reviewed : count (reviewed_as id) r.reviews ≡ 0
  pub candidates : count (is_candidate id) r.reviews ≡ 0
  pub participants : count (of_contact participant_table id) r.participants ≡ 0
  pub group_members : count (of_contact group_table id) r.group_members ≡ 0
  pub consents : find id r.consents ≡ none
  pub aliases : count (is_alias_of id) r.aliases ≡ 0
  pub subjects : count (is_subject_of id) r.subjects ≡ 0
  pub detections : count (detected_as id) r.detections ≡ 0
  pub logs : count (logged_as id) r.logs ≡ 0
  pub activities : no_activity id r.activities ≡ 0

module _ (sid lid : ℕ) (different : sid ≢ lid) where
  other_ref : is_ref lid (some sid) ≡ false
  other_ref = ground (arith, different)

  other_name : is_name lid (some (member_name sid)) ≡ false
  other_name = elim (Bool-cases (text_eq (member_name sid) (member_name lid))) [
    | inr apart ↦ apart
    | inl same ↦ absurd (
        let names = eq_of_text_eq (member_name sid) (member_name lid) same in
        let s = member_id-member_name sid in
        let l = member_id-member_name lid in different (ground (arith, s, l, names)))
  ]

  consent_moved :
      (rows : Table BiometricConsent) → find lid (reassign_consent sid lid rows).1 ≡ none
  unfolding reassign_consent
  consent_moved rows = elim (Option-cases (find lid rows)) [
    | inl missing ↦ rw missing missing
    | inr (loser, found) ↦ elim (Option-cases (find sid rows)) [
      | inl free ↦ rw found (
          rw free (
            ground (
              arith,
              find-put sid lid loser (remove lid rows),
              find-remove lid lid rows,
              different,
            )))
      | inr (survivor, taken) ↦ rw found (rw taken (ground (arith, find-remove lid lid rows)))
    ]
  ]

  -- The loser's aliases that the loop has not reached.
  abbrev is_left : List NameAlias → NameAlias → Bool
  is_left losers b =
      b.contact_id == lid && not (any (λ a. text_eq b.alias_text a.alias_text) losers)

  left_dropped :
      (a : NameAlias) (losers rows : List NameAlias)
      → count (is_left (a ∷ losers)) rows ≡ 0
      → count (is_left losers) (where_ (λ b. not (is_alias lid a.alias_text b)) rows) ≡ 0
  unfolding count where_ any
  left_dropped a losers [] h = refl
  left_dropped a losers (b ∷ rows) h = ground (arith, h, left_dropped a losers rows)

  left_changed :
      (a : NameAlias) (losers rows : List NameAlias)
      → count (is_left (a ∷ losers)) rows ≡ 0
      → count
          (is_left losers)
          (update_rows (is_alias lid a.alias_text) (λ b. record b { contact_id = sid }) rows)
        ≡ 0
  unfolding count update_rows any
  left_changed a losers [] h = refl
  left_changed a losers (b ∷ rows) h = ground (arith, h, left_changed a losers rows, different)

  aliases_moved :
      (losers rows : List NameAlias)
      → count (is_left losers) rows ≡ 0
      → count (is_alias_of lid) (move_aliases sid lid losers rows).1 ≡ 0
  unfolding move_aliases any
  aliases_moved [] rows h = subst (λ p. count p rows ≡ 0) (fun_ext (λ b. ground arith)) h
  aliases_moved (a ∷ losers) rows h = elim (Bool-cases (any (is_taken lid a.alias_text) rows)) [
    | inl taken ↦ rw taken (aliases_moved losers _ (left_dropped a losers rows h))
    | inr free ↦ rw free (aliases_moved losers _ (left_changed a losers rows h))
  ]

  left_more :
      (a : NameAlias) (losers rows : List NameAlias)
      → count (is_left losers) rows ≡ 0
      → count (is_left (a ∷ losers)) rows ≡ 0
  unfolding count any
  left_more a losers [] h = refl
  left_more a losers (b ∷ rows) h = ground (arith, h, left_more a losers rows)

  all_reached : (rows : List NameAlias) → count (is_left (where_ (is_alias_of lid) rows)) rows ≡ 0
  unfolding count any where_
  all_reached [] = refl
  all_reached (b ∷ rows) = ground (
    arith,
    all_reached rows,
    left_more b (where_ (is_alias_of lid) rows) rows,
    text_eq_refl b.alias_text,
  )

  subjects_moved :
      (active : Result (Option ComprefaceSubject)) (rows : List ComprefaceSubject) {done : Subjects}
      → move_subjects sid lid active rows ≡ ok done
      → count (is_subject_of lid) done.rows ≡ 0
  subjects_moved (err e) rows h = absurd (cc h)
  subjects_moved (ok none) rows {done} h =
      let gone =
        count-update_rows_self (is_subject_of lid) (λ s. record s { contact_id = some sid }) rows
          (λ s. other_ref) in
      let same : update_rows (is_subject_of lid) (λ s. record s { contact_id = some sid }) rows
          ≡ done.rows =
        cc h in
      rw (← same) gone
  subjects_moved (ok (some active)) rows {done} h =
      let gone =
        count-update_rows_self (is_subject_of lid) (λ s. record s { contact_id = none }) rows
          (λ s. refl) in
      let same : update_rows (is_subject_of lid) (λ s. record s { contact_id = none }) rows
          ≡ done.rows =
        cc h in
      rw (← same) gone

  activities_moved :
      (rows : Option (List Activity)) → no_activity lid (move_activities sid lid rows) ≡ 0
  activities_moved none = refl
  activities_moved (some rows) =
      count-update_rows_self (refers_activity lid) (λ a. record a { target_contact_id = some sid })
        rows (λ a. other_ref)

  pub moved_all-Forgotten :
      (defs : List CustomFieldDef) (contacts : Table ContactRow) (r : Rows) (subjects : Subjects)
      → reassign_subjects sid lid r.subjects ≡ ok subjects
      → Forgotten lid (moved_all sid lid defs contacts r subjects).rows
  unfolding reassign_subjects
  moved_all-Forgotten defs contacts r subjects h = record {
    samples = count-update_rows_self (of_sample lid) _ r.samples (λ a. other_ref);
    submitted =
        count-update_rows (led_by lid) _ (submitted_by lid) _ (λ a. refl)
        ∙ count-update_rows_self (submitted_by lid) _ r.reports (λ a. other_ref);
    led = count-update_rows_self (led_by lid) _ _ (λ a. other_ref);
    reviewed =
        count-update_rows (is_candidate lid) _ (reviewed_as lid) _ (λ a. refl)
        ∙ count-update_rows_self (reviewed_as lid) _ r.reviews (λ a. other_ref);
    candidates = count-update_rows_self (is_candidate lid) _ _ (λ a. other_ref);
    participants = participants_left sid lid different r.participants;
    group_members = members_left sid lid different r.group_members;
    consents = consent_moved r.consents;
    aliases = aliases_moved (where_ (is_alias_of lid) r.aliases) r.aliases (all_reached r.aliases);
    subjects = subjects_moved (one_or_none (where_ (is_active sid) r.subjects)) r.subjects h;
    detections = count-update_rows_self (detected_as lid) _ r.detections (λ a. other_name);
    logs = count-update_rows_self (logged_as lid) _ r.logs (λ a. other_name);
    activities = activities_moved r.activities;
  }
