-- ===== src/Tests/Rows.antt =====
-- The rows of the tests: a face that two volunteers review.
use seraphim.Common.{false, none, some, List, [], ◌∷◌}
use seraphim.Common.Text.{codes}
use seraphim.Models.{Db, Contact, Detection, DetectionStatus, Task, TaskStatus, ActionKind, Tier}
use seraphim.Enrollment.{Crop, World, Reply}
use seraphim.Attendance.{ReviewWorld, member_name}
use seraphim.Dedup.{DedupCache}
use seraphim.Pit.{Image}
use seraphim.Pipeline.{Capture}
use seraphim.Review.{new_action}
use seraphim.Requests.{Surroundings, Request, empty}

abbrev pub clear_face : Crop
clear_face = record { height = 120; width = 110; blur = 20000 }

-- CompreFace is down.
abbrev pub outage : World
outage = record { saved = some (codes "7/0.jpg", codes "7/t0.jpg"); reply = Reply.raised }

abbrev pub at_review : ReviewWorld
at_review = record { image = some clear_face; world = outage }

abbrev pub around : Surroundings
around = record {
  review = at_review;
  world = outage;
  image = Image.decoded clear_face;
  month = 11;
  now = 1000;
}

abbrev pub capture : Capture
capture = record {
  crop = clear_face;
  camera_id = some 1;
  event_id = some 5;
  now = 900;
  recognition = none;
  grays = 1 ∷ 2 ∷ [];
  thumb_path = codes "f.jpg";
}

abbrev pub no_faces : DedupCache
no_faces = record { seen = []; unknown_hashes = [] }

abbrev pub grace : Contact
grace = record { first_name = "Grace"; last_name = "Cruz"; is_deleted = false }

-- A face of contact 7 at event 5, taken to be hers.
abbrev pub her_face : Detection
her_face = record {
  camera_id = some 1;
  timestamp = 900;
  image_path = codes "f.jpg";
  confidence = none;
  tier = Tier.unknown;
  status = DetectionStatus.tasked;
  matched_name = some (member_name 7);
  compreface_subject_id = none;
  event_id = some 5;
  is_enrolled = false;
}

abbrev pub pending_task : Task
pending_task = record {
  detection_id = 1;
  status = TaskStatus.pending;
  required_approvals = 2;
  current_approvals = 0;
  skip_count = 0;
  skip_reasons = [];
  pit_status = none;
  expiry_date = 5000;
}

-- The task with the first approval of two.
abbrev pub half_task : Task
half_task = record pending_task { current_approvals = 1 }

abbrev pub fresh_db : Db
fresh_db = record empty {
  contacts = (7, grace) ∷ [];
  detections = (1, her_face) ∷ [];
  tasks = (1, pending_task) ∷ [];
}

-- Volunteer 1 has confirmed.
abbrev pub half_db : Db
half_db = record fresh_db {
  tasks = (1, half_task) ∷ [];
  actions = new_action 1 1 ActionKind.confirm none ∷ [];
}

-- The same, of a detection without an image.
abbrev pub imageless_db : Db
imageless_db = record half_db { detections = (1, record her_face { image_path = [] }) ∷ [] }

-- Volunteer 1 has skipped twice, volunteer 2 once.
abbrev pub skipped_db : Db
skipped_db = record fresh_db {
  tasks = (1, record pending_task { skip_count = 3 }) ∷ [];
  actions =
      new_action 1 1 ActionKind.skip none
      ∷ new_action 1 1 ActionKind.skip none
      ∷ new_action 1 2 ActionKind.skip none
      ∷ [];
}

-- A face, a skip, and two confirmations.
abbrev pub day : List (Surroundings × Request)
day =
    (around, Request.face capture no_faces)
    ∷ (around, Request.skip 1 3 none)
    ∷ (around, Request.confirm 1 1)
    ∷ (around, Request.confirm 1 2)
    ∷ []
