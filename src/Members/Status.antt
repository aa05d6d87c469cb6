-- ===== src/Members/Status.antt =====
-- The snapshot of member_status_service.py against the attendance.
use seraphim.Common.{ℕ, ◌+◌, Bool, true, false, ◌&&◌, Option, none, some, ltb, ◌==◌, if◌then◌else◌}
use seraphim.Common.Table.{Table, find}
use seraphim.Common.Text.{Text}
use seraphim.Models.{Participant, ParticipantStatus}
use seraphim.Members.{MemberTier, day}

-- Fewer than `n` days before the day of `today`, or later.
abbrev pub within : ℕ → ℕ → ℕ → Bool
within n today start_at = ltb (day today) (day start_at + n)

-- The tier of a contact, from the test whether it attended an event less than `n` days ago or later.
abbrev pub tier_at : (ℕ → Bool) → MemberTier
tier_at came =
    if came 0
    then MemberTier.tier1
    else if came 7
    then MemberTier.tier0
    else if came 35
    then MemberTier.tier1
    else if came 63
    then MemberTier.tier2
    else if came 91
    then MemberTier.tier3
    else MemberTier.inactive

-- The start of the event that the contact attended, where the row says that.
abbrev pub start_of : ℕ → Table ℕ → Participant → Option ℕ
start_of id events p =
    if p.contact_id == id && elim p.status [ ParticipantStatus.attended ↦ true | _ ↦ false ]
    then find p.event_id events
    else none

abbrev pub holds : (ℕ → Bool) → Option ℕ → Bool
holds f none = false
holds f (some start_at) = f start_at

-- The contact attended an event less than `n` days before today, or later.
abbrev pub was_within : ℕ → ℕ → ℕ → Table ℕ → Participant → Bool
was_within n today id events p = holds (within n today) (start_of id events p)
