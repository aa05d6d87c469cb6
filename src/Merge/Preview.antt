-- ===== src/Merge/Preview.antt =====
-- `merge_preview` of dedupe_service.py: what a merge would do, without doing it.
use seraphim.Common.{
  ℕ, ◌-◌, Bool, true, false, not, ◌&&◌, Option, none, some, List, [], ◌∷◌, ◌++◌, ◌==◌, any, count,
  map, where_, if◌then◌else◌,
}
use seraphim.Common.Table.{Table, find}
use seraphim.Common.Text.{Text, text_eq}
use seraphim.Consent.{BiometricConsent}
use seraphim.CustomData.{CustomData, Value, one, many, get, list_eq, scalar_eq}
use seraphim.Merge.{ContactRow, Field, Moved, Rows, Stats}
use seraphim.Merge.Contacts.{
  core_fields, detected_as, get_field, is_candidate, led_by, logged_as, of_sample, reviewed_as,
  submitted_by,
}
use seraphim.Merge.Merging.{is_same_name}
use seraphim.Merge.Reassign.{group_table, is_active, is_subject_of, participant_table, updated}
use seraphim.Merge.Tables.{Slotted, holds_any, slots_of}
use seraphim.Models.{ComprefaceSubject}
use seraphim.NameMatch.{NameAlias}
use seraphim.Session.{Fault, Result, ok, err, one_or_none}

pub record Conflict {ℓ} (A : Type ℓ) : Type ℓ where
  pub survivor : A
  pub loser : A
  pub differs : Bool

pub record MergePreview : Type 0 where
  pub field_conflicts : List (Field × Conflict (Option Text))
  pub custom_field_conflicts : List (Text × Conflict (Option Value))
  pub reassignments : Stats
  pub same_name : Bool

abbrev same_text : Option Text → Option Text → Bool
same_text none none = true
same_text none (some t) = false
same_text (some s) none = false
same_text (some s) (some t) = text_eq s t

abbrev same_value : Option Value → Option Value → Bool
same_value none none = true
same_value none (some w) = false
same_value (some v) none = false
same_value (some (one a)) (some (one b)) = scalar_eq a b
same_value (some (many as')) (some (many bs)) = list_eq as' bs
same_value (some (one a)) (some (many bs)) = false
same_value (some (many as')) (some (one b)) = false

abbrev field_conflict : ContactRow → ContactRow → Text × Field → Field × Conflict (Option Text)
field_conflict s l (name, field) = (
  field,
  record {
    survivor = get_field field s;
    loser = get_field field l;
    differs = not (same_text (get_field field s) (get_field field l));
  },
)

abbrev keys : CustomData → List Text
keys [] = []
keys ((k, v) ∷ rest) = k ∷ keys rest

-- The keys of both, each once; their order does not matter.
abbrev all_keys : CustomData → CustomData → List Text
all_keys a b = keys a ++ where_ (λ k. not (any (text_eq k) (keys a))) (keys b)

abbrev custom_conflict : CustomData → CustomData → Text → Text × Conflict (Option Value)
custom_conflict a b name = (
  name,
  record {
    survivor = get name a;
    loser = get name b;
    differs = not (same_value (get name a) (get name b));
  },
)

-- `reassigned` is `max(0, total - collisions)`.
abbrev pub split_count : ℕ → ℕ → Moved
split_count total collisions = record { reassigned = total - collisions; deleted = collisions }

module _ {A : Type 0} (t : Slotted A) where
  abbrev pub of_contact : ℕ → A → Bool
  of_contact c row = t.contact row == c

  abbrev pub count_slots : ℕ → ℕ → List A → Moved
  count_slots sid lid rows =
      split_count (count (of_contact lid) rows) (count (holds_any t sid (slots_of t lid rows)) rows)

abbrev pub count_consents : Option BiometricConsent → Option BiometricConsent → Moved
count_consents none survivor = updated 0
count_consents (some loser) none = updated 1
count_consents (some loser) (some survivor) = record { reassigned = 0; deleted = 1 }

abbrev pub alias_texts : ℕ → List NameAlias → List Text
alias_texts lid rows = map (λ a. a.alias_text) (where_ (λ a. a.contact_id == lid) rows)

abbrev pub is_alias_of : ℕ → NameAlias → Bool
is_alias_of id a = a.contact_id == id

abbrev pub collides : ℕ → List Text → NameAlias → Bool
collides lid texts a = any (text_eq a.alias_text) texts && not (a.contact_id == lid)

abbrev pub count_aliases : ℕ → List NameAlias → Moved
count_aliases lid rows =
    split_count (count (is_alias_of lid) rows) (count (collides lid (alias_texts lid rows)) rows)

abbrev pub count_subjects : Option ComprefaceSubject → ℕ → Moved
count_subjects none total = updated total
count_subjects (some active) total =
    if total == 0 then updated total else record { reassigned = 0; deleted = total }

-- The references in the custom data are not counted: their entry is always 0.
abbrev pub count_all : ℕ → ℕ → Rows → Option ComprefaceSubject → Stats
count_all sid lid r active = record {
  samples = updated (count (of_sample lid) r.samples);
  submitted = updated (count (submitted_by lid) r.reports);
  led = updated (count (led_by lid) r.reports);
  reviewed = updated (count (reviewed_as lid) r.reviews);
  candidates = updated (count (is_candidate lid) r.reviews);
  participants = count_slots participant_table sid lid r.participants;
  group_members = count_slots group_table sid lid r.group_members;
  consents = count_consents (find lid r.consents) (find sid r.consents);
  aliases = count_aliases lid r.aliases;
  subjects = count_subjects active (count (is_subject_of lid) r.subjects);
  detections = updated (count (detected_as lid) r.detections);
  logs = updated (count (logged_as lid) r.logs);
  custom_references = updated 0;
}

abbrev pub preview_rows :
    ℕ → ℕ → Rows → ContactRow → ContactRow → Result (Option ComprefaceSubject) → Result MergePreview
preview_rows sid lid r s l (err e) = err e
preview_rows sid lid r s l (ok active) = ok (record {
  field_conflicts = map (field_conflict s l) core_fields;
  custom_field_conflicts =
      map (custom_conflict s.custom_data l.custom_data) (all_keys s.custom_data l.custom_data);
  reassignments = count_all sid lid r active;
  same_name = is_same_name s l;
})

abbrev pub preview_pair : ℕ → ℕ → Rows → Option ContactRow → Option ContactRow → Result MergePreview
preview_pair sid lid r none l = err Fault.contact_not_found
preview_pair sid lid r (some s) none = err Fault.contact_not_found
preview_pair sid lid r (some s) (some l) =
    preview_rows sid lid r s l (one_or_none (where_ (is_active sid) r.subjects))

unfoldable pub merge_preview : ℕ → ℕ → Table ContactRow → Rows → Result MergePreview
merge_preview sid lid contacts r = preview_pair sid lid r (find sid contacts) (find lid contacts)
