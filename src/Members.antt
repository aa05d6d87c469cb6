-- ===== src/Members.antt =====
-- backend/app/services/member_status_service.py: the snapshot of a contact's attendance. The audit
-- row and the row of job_runs are left out.
pub mod Status
use seraphim.Common.{
  ℕ, ◌+◌, ◌-◌, ◌/◌, Bool, true, false, not, ◌&&◌, Option, none, some, List, [], ◌∷◌, ltb, leb, ◌==◌,
  length, any, is_some, if◌then◌else◌,
}
use seraphim.Common.Table.{Table, find}
use seraphim.Common.Text.{Text, codes, text_eq}
use seraphim.Models.{Participant, ParticipantStatus}

-- An integer: `negsuc n` is -(n + 1).
pub data ℤ : Type 0 where
  pos negsuc : ℕ → ℤ

pub data MemberTier : Type 0 where
  tier0 tier1 tier2 tier3 inactive : MemberTier

pub record ContactSnapshot : Type 0 where
  pub last_attended_at : Option ℕ
  pub attendance_count : ℕ
  pub weeks_absent : Option ℤ
  pub tier : Option MemberTier
  pub is_active : Option Bool
  pub is_regular : Bool
  pub is_connected : Bool

-- A contact: whether it is an individual, its custom fields with whether their value is truthy, and
-- the snapshot.
pub record Member : Type 0 where
  pub is_individual : Bool
  pub is_deleted : Bool
  pub custom_data : List (Text × Bool)
  pub status : ContactSnapshot

-- The value of the setting connected_field_names: a list, a dict with the key names, or anything else.
pub data ConnectedSetting : Type 0 where
  names : List Text → ConnectedSetting
  otherwise_ : ConnectedSetting

-- DEFAULT_CONNECTED_FIELD_NAMES.
abbrev pub connected_field_names : Option ConnectedSetting → List Text
connected_field_names (some (ConnectedSetting.names fields)) = fields
connected_field_names _ = codes "community_leader" ∷ codes "community" ∷ []

-- `_tier_from_weeks_absent`.
unfoldable pub tier_from_weeks_absent : Option ℤ → Option MemberTier
tier_from_weeks_absent none = none
tier_from_weeks_absent (some (ℤ.negsuc n)) = some MemberTier.tier1
tier_from_weeks_absent (some (ℤ.pos weeks)) =
    if weeks == 0
    then some MemberTier.tier0
    else if leb weeks 4
    then some MemberTier.tier1
    else if leb weeks 8
    then some MemberTier.tier2
    else if leb weeks 12
    then some MemberTier.tier3
    else some MemberTier.inactive

abbrev pub day : ℕ → ℕ
day seconds = seconds / 86400

-- `(today_midnight - last_attended_midnight).days // 7`, which rounds down.
unfoldable pub weeks_between : ℕ → ℕ → ℤ
weeks_between today last =
    if leb (day last) (day today)
    then ℤ.pos ((day today - day last) / 7)
    else ℤ.negsuc ((day last - day today - 1) / 7)

abbrev is_attended : ParticipantStatus → Bool
is_attended ParticipantStatus.attended = true
is_attended _ = false

abbrev add_start : Option ℕ → List ℕ → List ℕ
add_start none starts = starts
add_start (some start_at) starts = start_at ∷ starts

-- The start times of the events that the contact attended: the join with the events.
unfoldable pub attended_starts : ℕ → Table ℕ → List Participant → List ℕ
attended_starts contact_id events [] = []
attended_starts contact_id events (p ∷ rows) =
    let rest = attended_starts contact_id events rows in
    if p.contact_id == contact_id && is_attended p.status
    then add_start (find p.event_id events) rest
    else rest

abbrev pub later : ℕ → Option ℕ → Option ℕ
later a none = some a
later a (some b) = some (if leb a b then b else a)

-- MAX(start_at).
unfoldable pub max_start : List ℕ → Option ℕ
max_start [] = none
max_start (a ∷ rest) = later a (max_start rest)

abbrev weeks_of : ℕ → Option ℕ → Option ℤ
weeks_of today none = none
weeks_of today (some last) = some (weeks_between today last)

abbrev is_inactive : Option MemberTier → Bool
is_inactive (some MemberTier.inactive) = true
is_inactive _ = false

abbrev active_of : Option ℕ → Option MemberTier → Option Bool
active_of none tier = none
active_of (some last) tier = some (not (is_inactive tier))

abbrev truthy_field : Text → List (Text × Bool) → Bool
truthy_field name [] = false
truthy_field name ((key, truthy) ∷ rest) =
    if text_eq key name then truthy else truthy_field name rest

-- The body of the loop of `compute_snapshot_for_contacts`, from the start times that were aggregated.
unfoldable pub compute_snapshot : List Text → ℕ → List ℕ → List (Text × Bool) → ContactSnapshot
unfolding tier_from_weeks_absent weeks_between
compute_snapshot fields today starts custom_data =
    let last = max_start starts in
    let weeks = weeks_of today last in
    let tier = tier_from_weeks_absent weeks in
    record {
      last_attended_at = last;
      attendance_count = length starts;
      weeks_absent = weeks;
      tier = tier;
      is_active = active_of last tier;
      is_regular = leb 10 (length starts);
      is_connected = any (λ name. truthy_field name custom_data) fields;
    }

-- WHERE contact_type = 'individual' AND NOT is_deleted AND, where ids are given, id IN them.
abbrev pub chosen : Option (List ℕ) → ℕ → Bool
chosen none id = true
chosen (some ids) id = any (λ i. i == id) ids

abbrev pub in_scope : Option (List ℕ) → ℕ → Member → Bool
in_scope ids id m = m.is_individual && not m.is_deleted && chosen ids id

-- The row of one contact after the update.
unfoldable pub refresh :
    List Text → ℕ → Table ℕ → List Participant → Option (List ℕ) → ℕ → Member → Member
unfolding compute_snapshot attended_starts
refresh fields today events rows ids id m =
    if in_scope ids id m
    then record m {
      status = compute_snapshot fields today (attended_starts id events rows) m.custom_data;
    }
    else m

-- `_recompute`: all contacts, or those with the ids.
unfoldable pub recompute :
    List Text → ℕ → Table ℕ → List Participant → Option (List ℕ) → Table Member → Table Member
unfolding refresh
recompute fields today events rows ids [] = []
recompute fields today events rows ids ((id, m) ∷ members) =
    (id, refresh fields today events rows ids id m) ∷ recompute fields today events rows ids members
