-- ===== src/Tests/Merges.antt =====
-- A merge of two contacts.
use seraphim.Common.{
  ℕ, ◌≡◌, ◌≢◌, refl, Bool, true, false, none, some, List, [], ◌∷◌, arith, count, any, where_,
  update_rows,
}
use seraphim.Common.Int.{pos}
use seraphim.Common.Table.{Table, find, put}
use seraphim.Common.Text.{Text, codes, text_eq, split}
use seraphim.CustomData.{one, int, get, set, key_eq}
use seraphim.Merge.{ContactRow, DataType, Moved, Stats}
use seraphim.Merge.Aliases.{UniqueTexts}
use seraphim.Merge.Attending.{best, status_at}
use seraphim.Merge.Complete.{
  merge_contacts-Forgotten, merge_contacts-refers_in, merge_contacts-status_at,
}
use seraphim.Merge.Contacts.{reassign_all}
use seraphim.Merge.Defaults.{
  OneDefault, RuleSetRequest, serve_rule_sets, serve_rule_sets-OneDefault,
}
use seraphim.Merge.Faithful.{merge_preview-merge_contacts}
use seraphim.Merge.Forgotten.{Forgotten}
use seraphim.Merge.Merging.{MergeOutcome, MergeRequest, Store, World, merge_contacts}
use seraphim.Merge.Once.{Once}
use seraphim.Merge.Preview.{MergePreview, merge_preview}
use seraphim.Merge.Reassign.{
  group_table, merge_events, move_aliases, participant_table, reassign_subjects,
}
use seraphim.Merge.References.{reference_names, refers_in, rewrite_data}
use seraphim.Merge.RuleSets.{RuleSet}
use seraphim.Merge.Tables.{find_slot, slots_of}
use seraphim.Models.{Participant, ParticipantStatus, Source}
use seraphim.Session.{Result, ok, err, one_or_none}

abbrev person : Text → Text → ContactRow
person first last = record {
  first_name = some first;
  last_name = some last;
  nickname = none;
  suffix = none;
  gender = none;
  birth_date = none;
  phone = none;
  email = none;
  street_address = none;
  contact_type = none;
  contact_subtype = none;
  custom_data = [];
  is_deleted = false;
}

abbrev participant : ℕ → ℕ → ParticipantStatus → Participant
participant contact event status = record {
  contact_id = contact;
  event_id = event;
  detection_id = none;
  status = status;
  source = Source.manual;
}

-- Contacts 1 and 2 are the same person; contact 3 was invited by contact 2.
abbrev people : Table ContactRow
people =
    (1, person (codes "Ana") (codes "Cruz"))
    ∷ (2, person (codes "Anna") (codes "Cruz"))
    ∷ (
      3,
      record (person (codes "Ben") (codes "Reyes")) {
        custom_data = (codes "invited_by", one (int (pos 2))) ∷ [];
      },
    )
    ∷ []

abbrev before : Store
before = record {
  contacts = people;
  rows = record {
    samples = [];
    reports = [];
    reviews = [];
    participants =
        participant 1 7 ParticipantStatus.registered
        ∷ participant 2 7 ParticipantStatus.attended
        ∷ participant 2 8 ParticipantStatus.no_show
        ∷ [];
    group_members = [];
    consents = [];
    aliases = [];
    subjects = [];
    detections = [];
    logs = [];
    activities = some [];
  };
  field_defs =
      record {
        name = codes "invited_by";
        data_type = DataType.contact_reference;
        options = [];
        is_required = false;
        is_multi = false;
      }
      ∷ [];
  rule_sets = [];
  audit = [];
}

abbrev request : MergeRequest
request = record {
  survivor_id = 1;
  loser_id = 2;
  actor_id = some 5;
  confirm_same_name = false;
  field_choices = (codes "first_name", codes "loser") ∷ [];
}

abbrev world : World
world = record { client_starts = true; deletes = λ s. true; recomputes = true }

abbrev run : Result MergeOutcome × Store
run = merge_contacts world request people before

abbrev moves : ℕ → ℕ → Moved
moves reassigned deleted = record { reassigned = reassigned; deleted = deleted }

abbrev stats : Stats
stats = record {
  samples = moves 0 0;
  submitted = moves 0 0;
  led = moves 0 0;
  reviewed = moves 0 0;
  candidates = moves 0 0;
  participants = moves 1 1;
  group_members = moves 0 0;
  consents = moves 0 0;
  aliases = moves 0 0;
  subjects = moves 0 0;
  detections = moves 0 0;
  logs = moves 0 0;
  custom_references = moves 1 0;
}

abbrev outcome : MergeOutcome
outcome = record { survivor_id = 1; reassignments = stats; warnings = [] }

succeeds : run ≡ (ok outcome, run.1)
unfolding merge_contacts reassign_all reassign_subjects find text_eq where_ split one_or_none count
    slots_of move_aliases update_rows merge_events any find_slot rewrite_data reference_names get
    key_eq
succeeds = refl

merge_contacts-Forgotten_example : Forgotten 2 run.1.rows
merge_contacts-Forgotten_example =
    merge_contacts-Forgotten world request people before outcome run.1 succeeds

merge_contacts-status_at_example :
    status_at 1 7 run.1.rows.participants
    ≡ best (status_at 1 7 before.rows.participants) (status_at 2 7 before.rows.participants)
merge_contacts-status_at_example =
    merge_contacts-status_at world request people before outcome run.1 succeeds 1 7

abbrev ben : ContactRow
ben = record (person (codes "Ben") (codes "Reyes")) {
  custom_data = (codes "invited_by", one (int (pos 1))) ∷ [];
}

ben_after : find 3 run.1.contacts ≡ some ben
unfolding merge_contacts reassign_all find text_eq where_ split reassign_subjects one_or_none put
    rewrite_data reference_names get key_eq set
ben_after = refl

merge_contacts-refers_in_example :
    (◌≢◌ {A = ℕ} 3 2) × (refers_in 2 (reference_names before.field_defs) ben.custom_data ≡ false)
merge_contacts-refers_in_example =
    merge_contacts-refers_in world request people before outcome run.1 succeeds 3 ben ben_after refl

participants-Once : Once participant_table before.rows.participants
unfolding count
participants-Once = record { once = λ c k. ground arith }

members-Once : Once group_table before.rows.group_members
unfolding count
members-Once = record { once = λ c k. omega arith }

aliases-UniqueTexts : UniqueTexts before.rows.aliases
unfolding count
aliases-UniqueTexts = record { once = λ s. omega arith }

abbrev shown : Result MergePreview
shown = merge_preview 1 2 people before.rows

abbrev preview_or : MergePreview → Result MergePreview → MergePreview
preview_or p (ok q) = q
preview_or p (err e) = p

abbrev empty_preview : MergePreview
empty_preview = record {
  field_conflicts = [];
  custom_field_conflicts = [];
  reassignments = stats;
  same_name = false;
}

shows : shown ≡ ok (preview_or empty_preview shown)
unfolding merge_preview find one_or_none where_
shows = refl

merge_preview-merge_contacts_example :
    (preview_or empty_preview shown).reassignments
    ≡ record outcome.reassignments { custom_references = moves 0 0 }
merge_preview-merge_contacts_example =
    merge_preview-merge_contacts world request people before outcome run.1
      (preview_or empty_preview shown) participants-Once members-Once aliases-UniqueTexts shows
      succeeds

abbrev rule_set : Bool → RuleSet
rule_set default = record {
  name = codes "names";
  is_default = default;
  is_active = true;
  threshold = 70;
  rules = [];
}

no_rule_sets : OneDefault []
unfolding count
no_rule_sets = record { unique = λ j. omega arith; one = omega arith }

abbrev rule_set_requests : List RuleSetRequest
rule_set_requests =
    RuleSetRequest.create (rule_set true)
    ∷ RuleSetRequest.create (rule_set true)
    ∷ RuleSetRequest.update 1 (rule_set true)
    ∷ RuleSetRequest.delete 2
    ∷ []

serve_rule_sets-OneDefault_example : OneDefault (serve_rule_sets rule_set_requests [])
serve_rule_sets-OneDefault_example = serve_rule_sets-OneDefault rule_set_requests [] no_rule_sets
