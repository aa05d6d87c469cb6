-- ===== src/Merge.antt =====
-- backend/app/services/dedupe_service.py: the rows that a merge of two contacts reads and writes. A
-- table with a uniqueness constraint on the contact (consents) is keyed by it.
pub mod Tables
pub mod Reassign
pub mod References
pub mod RuleSets
pub mod Contacts
pub mod Memberships
pub mod Attending
pub mod Once
pub mod Unreferred
pub mod Forgotten
pub mod Merging
pub mod Outcome
pub mod Picks
pub mod Counts
pub mod Aliases
pub mod Faithful
pub mod Defaults
pub mod Complete
pub mod Preview
use seraphim.Common.{ℕ, Bool, true, false, Option, none, some, List, [], ◌∷◌, if◌then◌else◌}
use seraphim.Common.Table.{Table}
use seraphim.Common.Text.{Text, codes, text_eq}
use seraphim.Consent.{BiometricConsent}
use seraphim.CustomData.{CustomData}
use seraphim.Models.{Activity, ComprefaceSubject, Detection, FaceSample, Log, Participant}
use seraphim.NameMatch.{NameAlias}

pub data Field : Type 0 where
  first_name last_name nickname suffix gender birth_date phone email : Field
  street_address contact_type contact_subtype : Field

-- The core columns, as text.
pub record ContactRow : Type 0 where
  pub first_name : Option Text
  pub last_name : Option Text
  pub nickname : Option Text
  pub suffix : Option Text
  pub gender : Option Text
  pub birth_date : Option Text
  pub phone : Option Text
  pub email : Option Text
  pub street_address : Option Text
  pub contact_type : Option Text
  pub contact_subtype : Option Text
  pub custom_data : CustomData
  pub is_deleted : Bool

pub record GroupMember : Type 0 where
  pub group_id : ℕ
  pub contact_id : ℕ
  pub added_by_id : Option ℕ

pub record CommunityReport : Type 0 where
  pub event_id : Option ℕ
  pub submitted_by_contact_id : Option ℕ
  pub event_leader_contact_id : Option ℕ

pub record NameMatchReview : Type 0 where
  pub raw_name : Text
  pub contact_id : Option ℕ
  pub candidate_contact_id : Option ℕ

pub data DataType : Type 0 where
  text textarea number date checkbox select multiselect contact_reference : DataType

pub record CustomFieldDef : Type 0 where
  pub name : Text
  pub data_type : DataType
  pub options : List Text
  pub is_required : Bool
  pub is_multi : Bool

-- `rowcount` of the updates and of the deletes.
pub record Moved : Type 0 where
  pub reassigned : ℕ
  pub deleted : ℕ

-- The rows without the contacts. `activities` is `none` where the database has no such table.
pub record Rows : Type 0 where
  pub samples : List FaceSample
  pub reports : List CommunityReport
  pub reviews : List NameMatchReview
  pub participants : List Participant
  pub group_members : List GroupMember
  pub consents : Table BiometricConsent
  pub aliases : List NameAlias
  pub subjects : List ComprefaceSubject
  pub detections : List Detection
  pub logs : List Log
  pub activities : Option (List Activity)

-- `stats` of `_reassign_all`, but for the activities, which the preview does not have. The key
-- "contacts.custom_data:contact_reference" is `custom_references`.
pub record Stats : Type 0 where
  pub samples : Moved
  pub submitted : Moved
  pub led : Moved
  pub reviewed : Moved
  pub candidates : Moved
  pub participants : Moved
  pub group_members : Moved
  pub consents : Moved
  pub aliases : Moved
  pub subjects : Moved
  pub detections : Moved
  pub logs : Moved
  pub custom_references : Moved
