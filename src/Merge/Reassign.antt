-- ===== src/Merge/Reassign.antt =====
-- `_reassign_all`, one function for each table where rows may collide.
use seraphim.Common.{
  ℕ, ◌+◌, refl, Bool, true, false, not, ◌&&◌, Option, none, some, List, [], ◌∷◌, leb, ◌==◌, any,
  where_, count, length, update_rows, if◌then◌else◌,
}
use seraphim.Common.Table.{Table, find, put, remove}
use seraphim.Common.Text.{Text, text_eq, is_empty}
use seraphim.Attendance.{member_name}
use seraphim.Consent.{BiometricConsent}
use seraphim.Merge.{GroupMember, Moved}
use seraphim.Merge.Tables.{
  Slotted, colliding, find_slot, holds, holds_any, non_colliding, reassign_slots,
}
use seraphim.Models.{ComprefaceSubject, Participant, ParticipantStatus, SubjectStatus}
use seraphim.NameMatch.{NameAlias}
use seraphim.Session.{Result, ok, err, one_or_none}

abbrev pub is_ref : ℕ → Option ℕ → Bool
is_ref id none = false
is_ref id (some n) = n == id

abbrev pub is_name : ℕ → Option Text → Bool
is_name id none = false
is_name id (some name) = text_eq name (member_name id)

abbrev pub updated : ℕ → Moved
updated n = record { reassigned = n; deleted = 0 }

-- _STATUS_PRECEDENCE.
abbrev pub precedence : ParticipantStatus → ℕ
precedence ParticipantStatus.attended = 4
precedence ParticipantStatus.registered = 3
precedence ParticipantStatus.no_show = 2
precedence ParticipantStatus.cancelled = 1

abbrev pub max_status : ParticipantStatus → ParticipantStatus → ParticipantStatus
max_status s t = if leb (precedence t) (precedence s) then s else t

abbrev pub participant_table : Slotted Participant
participant_table = record {
  contact = λ p. p.contact_id;
  slot = λ p. p.event_id;
  assign = λ c p. record p { contact_id = c };
  contact-assign = λ c p. refl;
  slot-assign = λ c p. refl;
}

abbrev pub group_table : Slotted GroupMember
group_table = record {
  contact = λ m. m.contact_id;
  slot = λ m. m.group_id;
  assign = λ c m. record m { contact_id = c };
  contact-assign = λ c m. refl;
  slot-assign = λ c m. refl;
}

-- One colliding event: the survivor's row gets the higher status, the loser's row is deleted.
abbrev pub promote : ParticipantStatus → Participant → Participant
promote s p = record p { status = max_status p.status s }

abbrev pub merge_row : ℕ → ℕ → ℕ → Option Participant → List Participant → List Participant
merge_row sid lid event none rows = rows
merge_row sid lid event (some loser) rows =
    where_ (λ p. not (holds participant_table lid event p))
      (update_rows (holds participant_table sid event) (promote loser.status) rows)

unfoldable pub merge_events : ℕ → ℕ → List ℕ → List Participant → List Participant
merge_events sid lid [] rows = rows
merge_events sid lid (event ∷ events) rows =
    merge_events sid lid events
      (merge_row sid lid event (find_slot participant_table lid event rows) rows)

unfoldable pub reassign_participants : ℕ → ℕ → List Participant → Moved × List Participant
reassign_participants sid lid rows =
    let both = colliding participant_table sid lid rows in
    let rest = non_colliding participant_table sid lid rows in
    let merged = merge_events sid lid both rows in
    let moved = count (holds_any participant_table lid rest) merged in
    (
      record { reassigned = moved; deleted = length both },
      reassign_slots participant_table sid lid rest merged,
    )

unfoldable pub reassign_members : ℕ → ℕ → List GroupMember → Moved × List GroupMember
reassign_members sid lid rows =
    let both = colliding group_table sid lid rows in
    let rest = non_colliding group_table sid lid rows in
    let kept = where_ (λ m. not (holds_any group_table lid both m)) rows in
    let moved = count (holds_any group_table lid rest) kept in
    (
      record { reassigned = moved; deleted = count (holds_any group_table lid both) rows },
      reassign_slots group_table sid lid rest kept,
    )

abbrev pub move_consent :
    ℕ
    → ℕ
    → Option BiometricConsent
    → Option BiometricConsent
    → Table BiometricConsent
    → Moved × Table BiometricConsent
move_consent sid lid none survivor rows = (updated 0, rows)
move_consent sid lid (some loser) none rows = (updated 1, put sid loser (remove lid rows))
move_consent sid lid (some loser) (some survivor) rows =
    (record { reassigned = 0; deleted = 1 }, remove lid rows)

unfoldable pub reassign_consent : ℕ → ℕ → Table BiometricConsent → Moved × Table BiometricConsent
reassign_consent sid lid rows = move_consent sid lid (find lid rows) (find sid rows) rows

abbrev pub is_alias : ℕ → Text → NameAlias → Bool
is_alias id name a = a.contact_id == id && text_eq a.alias_text name

abbrev pub is_taken : ℕ → Text → NameAlias → Bool
is_taken lid name a = text_eq a.alias_text name && not (a.contact_id == lid)

-- The loop over the loser's aliases. `alias_text` is unique: the text stands for the row.
unfoldable pub move_aliases : ℕ → ℕ → List NameAlias → List NameAlias → Moved × List NameAlias
move_aliases sid lid [] rows = (updated 0, rows)
move_aliases sid lid (a ∷ losers) rows =
    let name = a.alias_text in
    let (gone, fewer) =
      move_aliases sid lid losers (where_ (λ b. not (is_alias lid name b)) rows) in
    let (kept, changed) =
      move_aliases sid lid losers
        (update_rows (is_alias lid name) (λ b. record b { contact_id = sid }) rows) in
    if any (is_taken lid name) rows
    then (record { reassigned = gone.reassigned; deleted = gone.deleted + 1 }, fewer)
    else (record { reassigned = kept.reassigned + 1; deleted = kept.deleted }, changed)

abbrev pub reassign_aliases : ℕ → ℕ → List NameAlias → Moved × List NameAlias
reassign_aliases sid lid rows = move_aliases sid lid (where_ (λ a. a.contact_id == lid) rows) rows

abbrev pub is_status_active : SubjectStatus → Bool
is_status_active SubjectStatus.active = true
is_status_active SubjectStatus.pending = false
is_status_active SubjectStatus.purged = false

abbrev pub is_active : ℕ → ComprefaceSubject → Bool
is_active id s = is_ref id s.contact_id && is_status_active s.enrollment_status

abbrev pub is_subject_of : ℕ → ComprefaceSubject → Bool
is_subject_of id s = is_ref id s.contact_id

abbrev named : Option Text → List Text → List Text
named none ids = ids
named (some id) ids = if is_empty id then ids else id ∷ ids

-- The subjects to delete from CompreFace.
unfoldable pub subject_ids : List ComprefaceSubject → List Text
subject_ids [] = []
subject_ids (s ∷ rest) = named s.compreface_subject_id (subject_ids rest)

pub record Subjects : Type 0 where
  pub moved : Moved
  pub purge : List Text
  pub rows : List ComprefaceSubject

abbrev pub move_subjects :
    ℕ → ℕ → Result (Option ComprefaceSubject) → List ComprefaceSubject → Result Subjects
move_subjects sid lid (err e) rows = err e
move_subjects sid lid (ok none) rows = ok (record {
  moved = updated (count (is_subject_of lid) rows);
  purge = [];
  rows = update_rows (is_subject_of lid) (λ s. record s { contact_id = some sid }) rows;
})
move_subjects sid lid (ok (some active)) rows = ok (record {
  moved = record { reassigned = 0; deleted = count (is_subject_of lid) rows };
  purge = subject_ids (where_ (is_subject_of lid) rows);
  rows = update_rows (is_subject_of lid) (λ s. record s { contact_id = none }) rows;
})

unfoldable pub reassign_subjects : ℕ → ℕ → List ComprefaceSubject → Result Subjects
reassign_subjects sid lid rows =
    move_subjects sid lid (one_or_none (where_ (is_active sid) rows)) rows
