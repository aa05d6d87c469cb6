-- ===== src/Models.antt =====
-- backend/app/models.py: the rows that face review, enrollment and attendance read and write, and
-- the database as a record of tables. A status column that the code only compares and assigns is a
-- data type with one constructor for each value that the code writes. Times are seconds.
use seraphim.Common.{ℕ, String, Bool, Option, List}
use seraphim.Common.Table.{Table}
use seraphim.Common.Text.{Text}

pub data TaskStatus : Type 0 where
  pending confirmed resolved skipped expired pit : TaskStatus

pub data PitStatus : Type 0 where
  awaiting enrolled deleted non_person : PitStatus

pub data ActionKind : Type 0 where
  confirm edit add skip admin_override : ActionKind

pub data SubjectStatus : Type 0 where
  pending active purged : SubjectStatus

pub data DetectionStatus : Type 0 where
  auto_logged tasked skipped : DetectionStatus

pub data Tier : Type 0 where
  tier_100 tier_91_99 below90 unknown : Tier

pub data ParticipantStatus : Type 0 where
  attended registered no_show cancelled : ParticipantStatus

pub data Source : Type 0 where
  face manual bulk : Source

pub data SampleSource : Type 0 where
  manual detection bulk_ingest backfill : SampleSource

pub data PitAction : Type 0 where
  enroll delete non_person : PitAction

pub record Contact : Type 0 where
  pub first_name : String
  pub last_name : String
  pub is_deleted : Bool

pub record ComprefaceSubject : Type 0 where
  pub compreface_subject_id : Option Text
  pub contact_id : Option ℕ
  pub enrollment_status : SubjectStatus
  pub sample_count : ℕ
  pub purged_at : Option ℕ

pub record FaceSample : Type 0 where
  pub compreface_subject_id : Text
  pub contact_id : Option ℕ
  pub image_path : Text
  pub thumb_path : Text
  pub source : SampleSource
  pub compreface_image_id : Option Text

pub record Detection : Type 0 where
  pub camera_id : Option ℕ
  pub timestamp : ℕ
  pub image_path : Text
  pub confidence : Option ℕ
  pub tier : Tier
  pub status : DetectionStatus
  pub matched_name : Option Text
  pub compreface_subject_id : Option Text
  pub event_id : Option ℕ
  pub is_enrolled : Bool

pub record Task : Type 0 where
  pub detection_id : ℕ
  pub status : TaskStatus
  pub required_approvals : ℕ
  pub current_approvals : ℕ
  pub skip_count : ℕ
  pub skip_reasons : List Text
  pub pit_status : Option PitStatus
  pub expiry_date : ℕ

pub record TaskAction : Type 0 where
  pub task_id : ℕ
  pub volunteer_id : ℕ
  pub action : ActionKind
  pub reason : Option Text

pub record Participant : Type 0 where
  pub contact_id : ℕ
  pub event_id : ℕ
  pub detection_id : Option ℕ
  pub status : ParticipantStatus
  pub source : Source

pub record Log : Type 0 where
  pub detection_id : ℕ
  pub timestamp : ℕ
  pub camera_id : Option ℕ
  pub matched_name : Option Text
  pub confidence : Option ℕ
  pub tier : Tier
  pub event_id : Option ℕ

pub record PitQueue : Type 0 where
  pub task_id : ℕ
  pub admin_action : Option PitAction
  pub resolved_at : Option ℕ

pub record VolunteerStat : Type 0 where
  pub volunteer_id : ℕ
  pub month : ℕ
  pub tasks_confirmed : ℕ
  pub tasks_edited : ℕ
  pub tasks_added : ℕ
  pub total_points : ℕ

pub record User : Type 0 where
  pub is_active : Bool
  pub is_admin : Bool

-- A status is a string; `other` is any string that is none of the four listed ones.
pub data ActivityStatus : Type 0 where
  scheduled in_progress completed cancelled : ActivityStatus
  other : Text → ActivityStatus

pub record Activity : Type 0 where
  pub activity_type : Text
  pub subject : Text
  pub details : Option Text
  pub activity_date : ℕ
  pub due_date : Option ℕ
  pub status : ActivityStatus
  pub priority : Text
  pub assignee_user_id : Option ℕ
  pub target_contact_id : Option ℕ
  pub created_by_id : Option ℕ
  pub completed_at : Option ℕ
  pub reminder_sent_at : Option ℕ
  pub updated_at : ℕ

-- What `_snapshot` keeps of an activity.
pub record Snapshot : Type 0 where
  pub activity_type : Text
  pub subject : Text
  pub status : ActivityStatus
  pub priority : Text
  pub assignee_user_id : Option ℕ
  pub target_contact_id : Option ℕ
  pub due_date : Option ℕ
  pub activity_date : ℕ
  pub completed_at : Option ℕ

pub data AuditAction : Type 0 where
  create update reassign delete : AuditAction
  status_change : ActivityStatus → ActivityStatus → AuditAction

pub record AuditLog : Type 0 where
  pub actor_id : ℕ
  pub action : AuditAction
  pub entity_id : ℕ
  pub before : Option Snapshot
  pub after : Option Snapshot

pub record Outbox : Type 0 where
  pub run_at : ℕ
  pub activity_id : ℕ
  pub assignee_user_id : Option ℕ
  pub subject : Text
  pub due_date : Option ℕ
  pub target_contact_id : Option ℕ

pub record Db : Type 0 where
  pub contacts : Table Contact
  pub subjects : Table ComprefaceSubject
  pub samples : List FaceSample
  pub detections : Table Detection
  pub tasks : Table Task
  pub actions : List TaskAction
  pub participants : List Participant
  pub logs : List Log
  pub pit_queue : Table PitQueue
  pub stats : List VolunteerStat
  pub users : Table User
  pub activities : Table Activity
  pub audit : List AuditLog
  pub outbox : List Outbox
