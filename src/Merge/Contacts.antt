-- ===== src/Merge/Contacts.antt =====
-- `_reassign_all` and `merge_contacts` of dedupe_service.py. The name key, the answers of CompreFace
-- and of the recomputation are arguments.
use seraphim.Common.{ℕ, Bool, Option, none, some, List, [], ◌∷◌, count, update_rows, if◌then◌else◌}
use seraphim.Common.Table.{Table}
use seraphim.Common.Text.{Text, codes, text_eq}
use seraphim.Attendance.{member_name}
use seraphim.Merge.{
  CommunityReport, ContactRow, CustomFieldDef, Field, NameMatchReview, Rows, Stats,
}
use seraphim.Merge.Reassign.{
  Subjects, is_name, is_ref, reassign_aliases, reassign_consent, reassign_members,
  reassign_participants, reassign_subjects, updated,
}
use seraphim.Merge.References.{rewrite_references}
use seraphim.Models.{Activity, Detection, FaceSample, Log}
use seraphim.Session.{Result, ok, err}

pub record Reassigned : Type 0 where
  pub stats : Stats
  pub purge : List Text
  pub rows : Rows
  pub references : ℕ
  pub contacts : Table ContactRow
  pub activities : Option ℕ

abbrev pub refers_activity : ℕ → Activity → Bool
refers_activity id a = is_ref id a.target_contact_id

abbrev pub move_activities : ℕ → ℕ → Option (List Activity) → Option (List Activity)
move_activities sid lid none = none
move_activities sid lid (some rows) =
    some (update_rows (refers_activity lid) (λ a. record a { target_contact_id = some sid }) rows)

abbrev pub count_activities : ℕ → Option (List Activity) → Option ℕ
count_activities lid none = none
count_activities lid (some rows) = some (count (refers_activity lid) rows)

abbrev pub of_sample : ℕ → FaceSample → Bool
of_sample id s = is_ref id s.contact_id

abbrev pub submitted_by : ℕ → CommunityReport → Bool
submitted_by id r = is_ref id r.submitted_by_contact_id

abbrev pub led_by : ℕ → CommunityReport → Bool
led_by id r = is_ref id r.event_leader_contact_id

abbrev pub reviewed_as : ℕ → NameMatchReview → Bool
reviewed_as id r = is_ref id r.contact_id

abbrev pub is_candidate : ℕ → NameMatchReview → Bool
is_candidate id r = is_ref id r.candidate_contact_id

abbrev pub detected_as : ℕ → Detection → Bool
detected_as id d = is_name id d.matched_name

abbrev pub logged_as : ℕ → Log → Bool
logged_as id l = is_name id l.matched_name

-- Every table, the subjects first: they alone can fail.
abbrev pub moved_all : ℕ → ℕ → List CustomFieldDef → Table ContactRow → Rows → Subjects → Reassigned
moved_all sid lid defs contacts r subjects =
    let submitted =
      update_rows (submitted_by lid) (λ a. record a { submitted_by_contact_id = some sid })
        r.reports in
    let reviewed =
      update_rows (reviewed_as lid) (λ a. record a { contact_id = some sid }) r.reviews in
    let participants = reassign_participants sid lid r.participants in
    let members = reassign_members sid lid r.group_members in
    let consents = reassign_consent sid lid r.consents in
    let aliases = reassign_aliases sid lid r.aliases in
    let references = rewrite_references sid lid defs contacts in
    record {
      stats = record {
        samples = updated (count (of_sample lid) r.samples);
        submitted = updated (count (submitted_by lid) r.reports);
        led = updated (count (led_by lid) submitted);
        reviewed = updated (count (reviewed_as lid) r.reviews);
        candidates = updated (count (is_candidate lid) reviewed);
        participants = participants.0;
        group_members = members.0;
        consents = consents.0;
        aliases = aliases.0;
        subjects = subjects.moved;
        detections = updated (count (detected_as lid) r.detections);
        logs = updated (count (logged_as lid) r.logs);
        custom_references = updated references.0;
      };
      purge = subjects.purge;
      rows = record {
        samples = update_rows (of_sample lid) (λ a. record a { contact_id = some sid }) r.samples;
        reports =
            update_rows (led_by lid) (λ a. record a { event_leader_contact_id = some sid })
              submitted;
        reviews =
            update_rows (is_candidate lid) (λ a. record a { candidate_contact_id = some sid })
              reviewed;
        participants = participants.1;
        group_members = members.1;
        consents = consents.1;
        aliases = aliases.1;
        subjects = subjects.rows;
        detections =
            update_rows (detected_as lid) (λ a. record a { matched_name = some (member_name sid) })
              r.detections;
        logs =
            update_rows (logged_as lid) (λ a. record a { matched_name = some (member_name sid) })
              r.logs;
        activities = move_activities sid lid r.activities;
      };
      references = references.0;
      contacts = references.1;
      activities = count_activities lid r.activities;
    }

abbrev pub finish_reassign :
    ℕ → ℕ → List CustomFieldDef → Table ContactRow → Rows → Result Subjects → Result Reassigned
finish_reassign sid lid defs contacts r (err e) = err e
finish_reassign sid lid defs contacts r (ok subjects) =
    ok (moved_all sid lid defs contacts r subjects)

unfoldable pub reassign_all :
    ℕ → ℕ → List CustomFieldDef → Table ContactRow → Rows → Result Reassigned
unfolding reassign_participants reassign_members reassign_consent rewrite_references
reassign_all sid lid defs contacts r =
    finish_reassign sid lid defs contacts r (reassign_subjects sid lid r.subjects)

-- _CHOOSABLE_FIELDS and _CORE_FIELDS: the same columns.
abbrev pub core_fields : List (Text × Field)
core_fields =
    (codes "first_name", Field.first_name)
    ∷ (codes "last_name", Field.last_name)
    ∷ (codes "nickname", Field.nickname)
    ∷ (codes "suffix", Field.suffix)
    ∷ (codes "gender", Field.gender)
    ∷ (codes "birth_date", Field.birth_date)
    ∷ (codes "phone", Field.phone)
    ∷ (codes "email", Field.email)
    ∷ (codes "street_address", Field.street_address)
    ∷ (codes "contact_type", Field.contact_type)
    ∷ (codes "contact_subtype", Field.contact_subtype)
    ∷ []

abbrev pub find_field : Text → List (Text × Field) → Option Field
find_field name [] = none
find_field name ((key, field) ∷ rest) =
    if text_eq key name then some field else find_field name rest

-- `getattr`.
abbrev pub get_field : Field → ContactRow → Option Text
get_field Field.first_name c = c.first_name
get_field Field.last_name c = c.last_name
get_field Field.nickname c = c.nickname
get_field Field.suffix c = c.suffix
get_field Field.gender c = c.gender
get_field Field.birth_date c = c.birth_date
get_field Field.phone c = c.phone
get_field Field.email c = c.email
get_field Field.street_address c = c.street_address
get_field Field.contact_type c = c.contact_type
get_field Field.contact_subtype c = c.contact_subtype

-- `setattr`.
abbrev pub set_field : Field → Option Text → ContactRow → ContactRow
set_field Field.first_name v c = record c { first_name = v }
set_field Field.last_name v c = record c { last_name = v }
set_field Field.nickname v c = record c { nickname = v }
set_field Field.suffix v c = record c { suffix = v }
set_field Field.gender v c = record c { gender = v }
set_field Field.birth_date v c = record c { birth_date = v }
set_field Field.phone v c = record c { phone = v }
set_field Field.email v c = record c { email = v }
set_field Field.street_address v c = record c { street_address = v }
set_field Field.contact_type v c = record c { contact_type = v }
set_field Field.contact_subtype v c = record c { contact_subtype = v }

abbrev pub choose : ContactRow → Option Field → Text → ContactRow → ContactRow
choose loser none choice survivor = survivor
choose loser (some field) choice survivor =
    if text_eq choice (codes "loser")
    then set_field field (get_field field loser) survivor
    else survivor

unfoldable pub apply_choices : ContactRow → List (Text × Text) → ContactRow → ContactRow
apply_choices loser [] survivor = survivor
apply_choices loser ((name, choice) ∷ rest) survivor =
    apply_choices loser rest (choose loser (find_field name core_fields) choice survivor)
