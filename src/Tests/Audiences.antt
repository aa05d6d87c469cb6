-- ===== src/Tests/Audiences.antt =====
-- Bulk enrolment of the members of a group.
use seraphim.Common.{ℕ, ◌≡◌, refl, true, false, none, some, [], ◌∷◌, arith, count, any, where_}
use seraphim.Common.Int.{pos}
use seraphim.Common.Table.{find}
use seraphim.Common.Text.{codes}
use seraphim.Bulk.{
  BulkAdd, BulkWorld, BulkPreviewResult, Enrollments, bulk_add_participants, preview,
}
use seraphim.Bulk.Audiences.{Audience, AudienceMode, GroupType, resolve_audience}
use seraphim.Bulk.Insertions.{IsReported, Keyed, preview-bulk_add_participants}
use seraphim.Merge.{GroupMember}
use seraphim.Session.{ok}

abbrev member : ℕ → GroupMember
member contact = record { group_id = 4; contact_id = contact; added_by_id = none }

-- Contacts 1, 2 and 3 are members of group 4; 3 is deleted, and 1 is enrolled.
abbrev before : Enrollments
before = record {
  contacts = record {
    contacts = (1, false) ∷ (2, false) ∷ (3, true) ∷ (5, false) ∷ [];
    groups = (4, GroupType.static) ∷ [];
    group_members = member 1 ∷ member 2 ∷ member 3 ∷ [];
    saved_searches = [];
  };
  events = 7 ∷ [];
  participants =
      record {
        event_id = 7;
        contact_id = 1;
        status = codes "attended";
        role = none;
        source = codes "manual";
        registered_by_id = none;
        created_at = 50;
      }
      ∷ [];
  audit = [];
}

abbrev members : Audience
members = record {
  mode = AudienceMode.group;
  contact_ids = [];
  group_id = some 4;
  group_type = none;
  saved_search_id = none;
  include_deleted = false;
}

abbrev request : BulkAdd
request = record {
  event_id = 7;
  audience = members;
  status = [];
  role = none;
  source = codes "bulk";
}

abbrev shown : BulkPreviewResult
shown = record { event_id = 7; requested = 2; already_enrolled = 1; to_be_inserted = 1 }

shows : preview 7 members before ≡ ok shown
unfolding preview resolve_audience find where_ any count
shows = refl

before-Keyed : Keyed before
unfolding count
before-Keyed = record { once = λ e c. ground arith; unique = λ id. ground arith }

abbrev world : BulkWorld
world = record { now = 100; rowcount = λ n. some (pos n); commits = true }

reports : IsReported world
reports = λ n. refl

abbrev after : Enrollments
after = (bulk_add_participants world request 9 before).1

preview-bulk_add_participants_example :
    ((bulk_add_participants world request 9 before).0
      ≡ ok (record { event_id = 7; requested = 2; inserted = 1; skipped = 1 }))
    × (preview 7 members after
        ≡ ok (record { event_id = 7; requested = 2; already_enrolled = 2; to_be_inserted = 0 }))
preview-bulk_add_participants_example =
    preview-bulk_add_participants world request 9 before shown reports before-Keyed shows
