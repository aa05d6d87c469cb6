-- ===== src/Bulk/Insertions.antt =====
-- The preview of a bulk insertion and the insertion.
use seraphim.Common.{
  ℕ, ◌+◌, ◌≡◌, ◌≢◌, ◌≤◌, subst, refl, ap, Bool, true, false, Option, none, some, List, [], ◌∷◌,
  ◌++◌, ◌==◌, any, count, count-snoc, where_, length, if◌then◌else◌, arith, Bool-cases, inl, inr,
}
use seraphim.Common.Table.{Table, find}
use seraphim.Bulk.Audiences.{
  type_of, of_type, Audience, AudienceMode, GroupType, by_mode, contact_ids, of_group,
  resolve_audience, with_group, with_search,
}
use seraphim.Common.Int.{pos}
use seraphim.Bulk.{
  BulkWorld, insert_missing, BulkAdd, BulkAddResult, BulkPreviewResult, Enrolled, Enrollments,
  add_resolved, bulk_add_participants, check_event, enrolled_as, enrolled_in, insert_missing,
  is_one_of, new_row, preview, preview_resolved,
}
use seraphim.Session.{Result, ok, err}

-- UNIQUE(event_id, contact_id), and the primary key of the contacts.
pub record Keyed (db : Enrollments) : Type 0 where
  pub once : (event contact : ℕ) → count (enrolled_as event contact) db.participants ≤ 1
  pub unique : (id : ℕ) → count (λ (row : ℕ × Bool). row.0 == id) db.contacts.contacts ≤ 1

-- The driver reports how many rows there were.
abbrev pub IsReported : BulkWorld → Type 0
IsReported w = (n : ℕ) → w.rowcount n ≡ some (pos n)

abbrev Distinct : List ℕ → Type 0
Distinct ids = (id : ℕ) → count (λ j. j == id) ids ≤ 1

distinct_ids :
    (p : ℕ × Bool → Bool) (id : ℕ) (rows : Table Bool)
    → count (λ j. j == id) (contact_ids p rows) ≤ count (λ (row : ℕ × Bool). row.0 == id) rows
unfolding count where_
distinct_ids p id [] = omega arith
distinct_ids p id (row ∷ rows) = ground (arith, distinct_ids p id rows)

one_of_count : (id : ℕ) (ids : List ℕ) → count (λ j. j == id) ids ≡ 0 → is_one_of ids id ≡ false
unfolding count any
one_of_count id [] h = refl
one_of_count id (j ∷ ids) h = ground (arith, h, one_of_count id ids)

enrolled_cons :
    (event id : ℕ) (ids : List ℕ) (rows : List Enrolled)
    → is_one_of ids id ≡ false
    → count (enrolled_in event (id ∷ ids)) rows
      ≡ count (enrolled_as event id) rows + count (enrolled_in event ids) rows
unfolding count any
enrolled_cons event id ids [] h = refl
enrolled_cons event id ids (p ∷ rows) h = elim (Bool-cases (p.contact_id == id)) [
  | inl same ↦
      (let e : p.contact_id ≡ id = ground (arith, same) in
        rw e (ground (arith, h, enrolled_cons event id ids rows)))
  | inr other ↦ ground (arith, other, enrolled_cons event id ids rows)
]

any_of_count : (p : Enrolled → Bool) (rows : List Enrolled) → any p rows ≡ true → 1 ≤ count p rows
unfolding any count
any_of_count p [] h = cc
any_of_count p (x ∷ rows) h = ground (arith, h, any_of_count p rows)

none_of_count : (p : Enrolled → Bool) (rows : List Enrolled) → any p rows ≡ false → count p rows ≡ 0
unfolding any count
none_of_count p [] h = refl
none_of_count p (x ∷ rows) h = ground (arith, h, none_of_count p rows)

enrolled_nobody : (event : ℕ) (rows : List Enrolled) → count (enrolled_in event []) rows ≡ 0
unfolding count any
enrolled_nobody event [] = refl
enrolled_nobody event (p ∷ rows) = ground (arith, enrolled_nobody event rows)

module _ (event : ℕ) (row : ℕ → Enrolled) (row_event : (id : ℕ) → (row id).event_id ≡ event)
    (row_contact : (id : ℕ) → (row id).contact_id ≡ id) where
  -- A row for a contact that has none.
  count-added :
      (id other : ℕ) (rows : List Enrolled)
      → count (enrolled_as event other) (rows ++ row id ∷ [])
        ≡ count (enrolled_as event other) rows + (if id == other then 1 else 0)
  count-added id other rows =
      ground
        (arith, count-snoc (enrolled_as event other) rows (row id), row_event id, row_contact id)

  count-added_in :
      (id : ℕ) (ids : List ℕ) (rows : List Enrolled)
      → count (enrolled_in event ids) (rows ++ row id ∷ [])
        ≡ count (enrolled_in event ids) rows + (if is_one_of ids id then 1 else 0)
  count-added_in id ids rows =
      let contact = row_contact id in
      ground (
        arith,
        count-snoc (enrolled_in event ids) rows (row id),
        row_event id,
        ap (is_one_of ids) contact,
      )

  -- The rows of the audience after an insertion, and the number inserted.
  count-inserted :
      (all ids : List ℕ) (rows : List Enrolled)
      → ((id : ℕ) → is_one_of ids id ≡ true → is_one_of all id ≡ true)
      → count (enrolled_in event all) (insert_missing event row ids rows).1
        ≡ count (enrolled_in event all) rows + (insert_missing event row ids rows).0
  unfolding insert_missing any
  count-inserted all [] rows h = omega arith
  count-inserted all (id ∷ ids) rows h =
      let rest : (j : ℕ) → is_one_of ids j ≡ true → is_one_of all j ≡ true =
        λ j m. h j (ground (arith, m)) in
      let here : is_one_of all id ≡ true = h id (ground arith) in
      elim (Bool-cases (any (enrolled_as event id) rows)) [
        | inl present ↦ rw present (count-inserted all ids rows rest)
        | inr absent ↦ rw absent (
            ground (
              arith,
              count-inserted all ids (rows ++ row id ∷ []) rest,
              count-added_in id all rows,
              here,
            ))
      ]

  still_once :
      (id other : ℕ) (rows : List Enrolled)
      → count (enrolled_as event id) rows ≡ 0
      → count (enrolled_as event other) rows ≤ 1
      → count (enrolled_as event other) (rows ++ row id ∷ []) ≤ 1
  still_once id other rows absent h = elim (Bool-cases (id == other)) [
    | inl same ↦
        (let e : id ≡ other = ground (arith, same) in
          rw (← e) (ground (arith, count-added id id rows, absent)))
    | inr different ↦ ground (arith, count-added id other rows, different, h)
  ]

  inserted-missing :
      (ids : List ℕ) (rows : List Enrolled)
      → Distinct ids
      → ((id : ℕ) → count (enrolled_as event id) rows ≤ 1)
      → count (enrolled_in event ids) rows + (insert_missing event row ids rows).0 ≡ length ids
  unfolding insert_missing count any
  inserted-missing [] rows d once = omega (arith, enrolled_nobody event rows)
  inserted-missing (id ∷ ids) rows d once =
      let apart : is_one_of ids id ≡ false = one_of_count id ids (ground (arith, d id)) in
      let rest : Distinct ids = λ j. ground (arith, d j) in
      let split = enrolled_cons event id ids rows apart in
      elim (Bool-cases (any (enrolled_as event id) rows)) [
        | inl present ↦
            (let one = any_of_count (enrolled_as event id) rows present in
              rw present (omega (arith, split, one, once id, inserted-missing ids rows rest once)))
        | inr absent ↦
            (let none_ = none_of_count (enrolled_as event id) rows absent in
              let more : (j : ℕ) → count (enrolled_as event j) (rows ++ row id ∷ []) ≤ 1 =
                λ j. still_once id j rows none_ (once j) in
              let later = inserted-missing ids (rows ++ row id ∷ []) rest more in
              let same : count (enrolled_in event ids) (rows ++ row id ∷ [])
                  ≡ count (enrolled_in event ids) rows =
                ground (arith, count-added_in id ids rows, apart) in
              rw absent (omega (arith, split, none_, same, later)))
      ]

module _ (db : Enrollments) (h : Keyed db) where
  ids-Distinct : (p : ℕ × Bool → Bool) → Distinct (contact_ids p db.contacts.contacts)
  ids-Distinct p = λ id. omega (arith, distinct_ids p id db.contacts.contacts, h.unique id)

  found-Distinct :
      (p : ℕ × Bool → Bool) (ids : List ℕ)
      → ok (contact_ids p db.contacts.contacts) ≡ ok ids
      → Distinct ids
  found-Distinct p ids e =
      let same : contact_ids p db.contacts.contacts ≡ ids = cc e in
      subst Distinct same (ids-Distinct p)

  of_type-Distinct :
      (a : Audience) (id : ℕ) (t : GroupType) (ids : List ℕ)
      → of_type db.contacts a id t ≡ ok ids
      → Distinct ids
  of_type-Distinct a id GroupType.static ids e = found-Distinct _ ids e
  of_type-Distinct a id GroupType.smart ids e = absurd (cc e)

  of_group-Distinct :
      (a : Audience) (id : ℕ) (g : Option GroupType) (ids : List ℕ)
      → of_group db.contacts a id g ≡ ok ids
      → Distinct ids
  of_group-Distinct a id none ids e = absurd (cc e)
  of_group-Distinct a id (some own) ids e = of_type-Distinct a id (type_of a.group_type own) ids e

  with_group-Distinct :
      (a : Audience) (id : Option ℕ) (ids : List ℕ)
      → with_group db.contacts a id ≡ ok ids
      → Distinct ids
  with_group-Distinct a none ids e = absurd (cc e)
  with_group-Distinct a (some id) ids e = of_group-Distinct a id (find id db.contacts.groups) ids e

  no_search : (id : Option ℕ) (ids : List ℕ) → with_search db.contacts id ≢ ok ids
  no_search none ids e = cc e
  no_search (some id) ids e = elim (Bool-cases (any (λ j. j == id) db.contacts.saved_searches)) [
    | inl there ↦ cc (rw there at e)
    | inr missing ↦ cc (rw missing at e)
  ]

  by_mode-Distinct :
      (a : Audience) (m : AudienceMode) (ids : List ℕ)
      → by_mode db.contacts a m ≡ ok ids
      → Distinct ids
  by_mode-Distinct a AudienceMode.all ids e = found-Distinct _ ids e
  by_mode-Distinct a AudienceMode.ids ids e = found-Distinct _ ids e
  by_mode-Distinct a AudienceMode.group ids e = with_group-Distinct a a.group_id ids e
  by_mode-Distinct a AudienceMode.saved_search ids e = absurd (no_search a.saved_search_id ids e)

  audience-Distinct :
      (event : ℕ) (a : Audience) (ids : List ℕ) → check_event db event a ≡ ok ids → Distinct ids
  unfolding resolve_audience
  audience-Distinct event a ids e = elim (Bool-cases (is_one_of db.events event)) [
    | inl there ↦ by_mode-Distinct a a.mode ids (rw there at e)
    | inr missing ↦ absurd (cc (rw missing at e))
  ]

  module _ (w : BulkWorld) (q : BulkAdd) (caller : ℕ) (p : BulkPreviewResult)
      (honest : IsReported w) where
    abbrev Predicted : Result BulkAddResult × Enrollments → Type 0
    Predicted (answer, after) =
        (answer
          ≡ ok (record {
            event_id = q.event_id;
            requested = p.requested;
            inserted = p.to_be_inserted;
            skipped = p.already_enrolled;
          }))
        × (preview q.event_id q.audience after
            ≡ ok (
                if w.commits
                then record {
                  event_id = q.event_id;
                  requested = p.requested;
                  already_enrolled = p.requested;
                  to_be_inserted = 0;
                }
                else p))

    predicted :
        (resolved : Result (List ℕ))
        → check_event db q.event_id q.audience ≡ resolved
        → preview_resolved q.event_id db resolved ≡ ok p
        → Predicted (add_resolved w q caller db resolved)
    unfolding preview
    predicted (err e) found success = absurd (cc success)
    predicted (ok ids) found success =
        let row = new_row q caller w.now in
        let rows = db.participants in
        let missing =
          inserted-missing q.event_id row (λ id. refl) (λ id. refl) ids rows
            (audience-Distinct q.event_id q.audience ids found) (h.once q.event_id) in
        let enrolled =
          count-inserted q.event_id row (λ id. refl) (λ id. refl) ids ids rows (λ id m. m) in
        let reported = honest (insert_missing q.event_id row ids rows).0 in
        elim (Bool-cases w.commits) [
          | inl kept ↦ rw kept (rw found (rw reported (ground (arith, success, missing, enrolled))))
          | inr lost ↦ rw lost (rw found (rw reported (ground (arith, success, missing, enrolled))))
        ]

-- The preview of a bulk insertion, where a contact is at most once at an event and has one id, and the
-- driver reports the number of rows inserted: if the preview succeeds, the insertion answers the
-- counts that it said. If the commit succeeds, a preview after it finds the whole audience enrolled; if
-- it fails, the answer is the same, and the preview after it is that before.
pub preview-bulk_add_participants :
    (w : BulkWorld) (q : BulkAdd) (caller : ℕ) (db : Enrollments) (p : BulkPreviewResult)
    → IsReported w
    → Keyed db
    → preview q.event_id q.audience db ≡ ok p
    → let (answer, after) = bulk_add_participants w q caller db in
      (answer
        ≡ ok (record {
          event_id = q.event_id;
          requested = p.requested;
          inserted = p.to_be_inserted;
          skipped = p.already_enrolled;
        }))
      × (preview q.event_id q.audience after
          ≡ ok (
              if w.commits
              then record {
                event_id = q.event_id;
                requested = p.requested;
                already_enrolled = p.requested;
                to_be_inserted = 0;
              }
              else p))
unfolding preview bulk_add_participants
preview-bulk_add_participants w q caller db p honest h success =
    predicted db h w q caller p honest (check_event db q.event_id q.audience) refl success
