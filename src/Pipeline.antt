-- ===== src/Pipeline.antt =====
-- backend/app/services/face_pipeline.py and `_map_tier` of compreface.py: a face crop becomes a
-- detection, and then a participant or a task. The snapshot on disk and the broadcast to the
-- clients are left out.
pub mod Routing
pub mod Steps
use seraphim.Common.{
  ℕ, ◌+◌, Bool, true, false, ◌&&◌, Option, none, some, List, [], ◌∷◌, leb, where_, if◌then◌else◌,
}
use seraphim.Common.Table.{find, put, fresh}
use seraphim.Common.Text.{Text, is_empty}
use seraphim.Models.{Db, ComprefaceSubject, Detection, DetectionStatus, Task, TaskStatus, Tier}
use seraphim.Session.{
  Result, ok, err, Tx, pure, gets, lift, ◌>>=◌, ◌>>◌, modify, commit, one_or_none,
}
use seraphim.Enrollment.{Crop, check_quality, has_subject_id}
use seraphim.Attendance.{truthy, member_name, add_participant, face_participant}
use seraphim.Dedup.{DedupCache, is_duplicate, hash_face}

-- `_map_tier`; similarities and thresholds in thousandths.
unfoldable pub map_tier : Option ℕ → ℕ → ℕ → Tier
map_tier none high medium = Tier.unknown
map_tier (some similarity) high medium =
    if leb high similarity
    then Tier.tier_100
    else if leb medium similarity
    then Tier.tier_91_99
    else Tier.below90

-- What `recognize` returns.
pub record Recognition : Type 0 where
  pub subject_id : Option Text
  pub similarity : Option ℕ
  pub tier : Tier

-- The arguments of `process_face_crop`, and what the clock, OpenCV, CompreFace and the storage
-- give it. `recognition` is `none` where the call failed; `grays` are the pixels that are hashed.
pub record Capture : Type 0 where
  pub crop : Crop
  pub camera_id : Option ℕ
  pub event_id : Option ℕ
  pub now : ℕ
  pub recognition : Option Recognition
  pub grays : List ℕ
  pub thumb_path : Text

pub data Outcome : Type 0 where
  auto_logged tasked skipped deduplicated : Outcome

abbrev no_recognition : Recognition
no_recognition = record { subject_id = none; similarity = none; tier = Tier.unknown }

abbrev pub recognized : Option Recognition → Recognition
recognized none = no_recognition
recognized (some r) = r

abbrev pub is_tier_100 : Tier → Bool
is_tier_100 Tier.tier_100 = true
is_tier_100 _ = false

unfoldable pub approvals_for : Tier → ℕ
approvals_for Tier.tier_91_99 = 1
approvals_for _ = 2

abbrev pub task_lifetime : ℕ
task_lifetime = 2678400

abbrev pub new_task : ℕ → ℕ → Tier → Task
new_task now detection_id tier = record {
  detection_id = detection_id;
  status = TaskStatus.pending;
  required_approvals = approvals_for tier;
  current_approvals = 0;
  skip_count = 0;
  skip_reasons = [];
  pit_status = none;
  expiry_date = now + task_lifetime;
}

abbrev skipped_detection : Capture → Detection
skipped_detection c = record {
  camera_id = c.camera_id;
  timestamp = c.now;
  image_path = c.thumb_path;
  confidence = none;
  tier = Tier.unknown;
  status = DetectionStatus.skipped;
  matched_name = none;
  compreface_subject_id = none;
  event_id = c.event_id;
  is_enrolled = false;
}

abbrev name_of : Option ℕ → Option Text
name_of none = none
name_of (some id) = some (member_name id)

abbrev pub face_detection : Capture → Recognition → Option ℕ → Detection
face_detection c r member = record {
  camera_id = c.camera_id;
  timestamp = c.now;
  image_path = c.thumb_path;
  confidence = r.similarity;
  tier = r.tier;
  status = if is_tier_100 r.tier then DetectionStatus.auto_logged else DetectionStatus.tasked;
  matched_name = name_of member;
  compreface_subject_id = r.subject_id;
  event_id = c.event_id;
  is_enrolled = false;
}

abbrev pub insert_detection : Detection → Db → Db
insert_detection d db = record db { detections = put (fresh db.detections) d db.detections }

abbrev pub insert_task : Task → Db → Db
insert_task task db = record db { tasks = put (fresh db.tasks) task db.tasks }

abbrev pub contact_of : Option (ℕ × ComprefaceSubject) → Option ℕ
contact_of none = none
contact_of (some (i, s)) = truthy s.contact_id

-- `_find_member_id`, for a subject id that is not empty; the id 0 counts as none.
find_member : Option Text → Tx (Option ℕ)
find_member none = pure none
find_member (some subject_id) = if is_empty subject_id then pure none else do
  rows ← gets (λ db. where_ (has_subject_id subject_id) db.subjects)
  found ← lift (one_or_none rows)
  pure (contact_of found)

-- A detection of the highest tier logs its member at its event, and no other does.
unfoldable pub auto_log : Option ℕ → Option ℕ → ℕ → Db → Db
unfolding add_participant
auto_log (some contact_id) (some event_id) detection_id db =
    add_participant (face_participant contact_id event_id detection_id) db
auto_log _ _ detection_id db = db

-- A detection of any other tier makes a task.
unfoldable pub route : Capture → Tier → Option ℕ → ℕ → Db → Db
unfolding auto_log approvals_for
route c tier member detection_id db =
    if is_tier_100 tier
    then auto_log member (truthy c.event_id) detection_id db
    else insert_task (new_task c.now detection_id tier) db

unfoldable pub record_face : Capture → Recognition → Option ℕ → Db → Db
unfolding route
record_face c r member db =
    route c r.tier member (fresh db.detections) (insert_detection (face_detection c r member) db)

store_face : Capture → Recognition → Tx Outcome
unfolding find_member record_face
store_face c r = do
  member ← find_member r.subject_id
  modify (record_face c r member)
  commit
  pure (if is_tier_100 r.tier then Outcome.auto_logged else Outcome.tasked)

-- The crop is passed to the cache only where no subject was recognised.
abbrev pub crop_hash : Capture → Recognition → Option Text
crop_hash c r = elim r.subject_id [ none ↦ some (hash_face c.grays) | some s ↦ none ]

unfoldable pub skip_face : Capture → Tx Outcome
skip_face c = do modify (insert_detection (skipped_detection c)); commit; pure Outcome.skipped

-- `process_face_crop`: the transaction, and the cache afterwards.
unfoldable pub process_face_crop : Capture → DedupCache → Tx Outcome × DedupCache
unfolding store_face skip_face
process_face_crop c cache =
    if check_quality c.crop
    then (let r = recognized c.recognition in
        let (duplicate, cache') = is_duplicate r.subject_id (crop_hash c r) c.now cache in
        (if duplicate then pure Outcome.deduplicated else store_face c r, cache'))
    else (skip_face c, cache)
