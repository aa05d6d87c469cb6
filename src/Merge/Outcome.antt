-- ===== src/Merge/Outcome.antt =====
-- What a merge that succeeds has found and what it has written.
use seraphim.Common.{
  ◌≡◌, ◌≢◌, refl, Bool, true, false, ◌||◌, Option, none, some, ◌==◌, arith, Bool-cases, inl, inr,
}
use seraphim.Common.Table.{Table, find}
use seraphim.Merge.{ContactRow}
use seraphim.Merge.Contacts.{Reassigned, finish_reassign, moved_all, reassign_all}
use seraphim.Merge.Merging.{
  MergeOutcome, MergeRequest, Store, World, check_locked, check_request, finish_merge,
  merge_checked, merge_contacts, merge_locked, settle,
}
use seraphim.Merge.Reassign.{Subjects, reassign_subjects}
use seraphim.Session.{Result, ok, err}

module _ (w : World) (q : MergeRequest) (st : Store) (o : MergeOutcome) (after : Store) where
  abbrev moved : Subjects → Reassigned
  moved subjects = moved_all q.survivor_id q.loser_id st.field_defs st.contacts st.rows subjects

  -- The rows that were locked, and the reassignment of the subjects.
  pub record Merged : Type 0 where
    pub same : Bool
    pub survivor : ContactRow
    pub loser : ContactRow
    pub subjects : Subjects
    pub different : q.survivor_id ≢ q.loser_id
    pub found_survivor : find q.survivor_id st.contacts ≡ some survivor
    pub found_loser : find q.loser_id st.contacts ≡ some loser
    pub not_deleted : (survivor.is_deleted || loser.is_deleted) ≡ false
    pub reassigned : reassign_subjects q.survivor_id q.loser_id st.rows.subjects ≡ ok subjects
    pub stats : o.reassignments ≡ (moved subjects).stats
    pub result : after ≡ settle q same st survivor loser (moved subjects)

  finished :
      (same : Bool) (s l : ContactRow) (active : Result Subjects)
      → q.survivor_id ≢ q.loser_id
      → find q.survivor_id st.contacts ≡ some s
      → find q.loser_id st.contacts ≡ some l
      → (s.is_deleted || l.is_deleted) ≡ false
      → reassign_subjects q.survivor_id q.loser_id st.rows.subjects ≡ active
      → finish_merge w q same st s l
          (finish_reassign q.survivor_id q.loser_id st.field_defs st.contacts st.rows active)
        ≡ (ok o, after)
      → Merged
  finished same s l (err e) ne fs fl nd re h = absurd (cc h)
  finished same s l (ok subjects) ne fs fl nd re h = record {
    same = same;
    survivor = s;
    loser = l;
    subjects = subjects;
    different = ne;
    found_survivor = fs;
    found_loser = fl;
    not_deleted = nd;
    reassigned = re;
    stats = cc h;
    result = cc h;
  }

  locked :
      (same : Bool) (s l : Option ContactRow)
      → q.survivor_id ≢ q.loser_id
      → find q.survivor_id st.contacts ≡ s
      → find q.loser_id st.contacts ≡ l
      → merge_locked w q same st (check_locked s l) ≡ (ok o, after)
      → Merged
  unfolding reassign_all
  locked same none l ne fs fl h = absurd (cc h)
  locked same (some s) none ne fs fl h = absurd (cc h)
  locked same (some s) (some l) ne fs fl h = elim (Bool-cases (s.is_deleted || l.is_deleted)) [
    | inl deleted ↦ absurd (cc (rw deleted at h))
    | inr alive ↦
        finished same s l (reassign_subjects q.survivor_id q.loser_id st.rows.subjects) ne fs fl
          alive refl (rw alive at h)
  ]

  checked :
      (answer : Result Bool)
      → ((same : Bool) → answer ≡ ok same → q.survivor_id ≢ q.loser_id)
      → merge_checked w q st answer ≡ (ok o, after)
      → Merged
  checked (err e) ne h = absurd (cc h)
  checked (ok same) ne h =
      locked same (find q.survivor_id st.contacts) (find q.loser_id st.contacts) (ne same refl) refl
        refl h

  itself : q.survivor_id ≡ q.loser_id → (q.survivor_id == q.loser_id) ≡ true
  itself p = ground (arith, p)

  pub merged : (pre : Table ContactRow) → merge_contacts w q pre st ≡ (ok o, after) → Merged
  unfolding merge_contacts
  merged pre h = checked (check_request q pre) (λ same e p. absurd (cc (rw (itself p) at e))) h
