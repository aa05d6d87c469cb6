-- ===== src/Pipeline/Steps.antt =====
-- What to show of an invariant so that the face pipeline keeps it.
use seraphim.Common.{ℕ, Bool, true, false, Option, none, some, if◌then◌else◌}
use seraphim.Common.Text.{Text}
use seraphim.Models.{Db, Detection, Participant, Tier}
use seraphim.Session.{Tx, modify}
use seraphim.Session.Keeps.{Keeps, keeps_rules, Keeps-modify}
use seraphim.Enrollment.{check_quality}
use seraphim.Attendance.{truthy, add_participant}
use seraphim.Dedup.{DedupCache}
use seraphim.Pipeline.{
  Capture, Outcome, Recognition, insert_detection, insert_task, new_task, find_member, auto_log,
  route, record_face, store_face, skip_face, process_face_crop,
}

pub record PipelineSteps (P : Db → Type 0) : Type 0 where
  pub detection : (d : Detection) (db : Db) → P db → P (insert_detection d db)
  pub task :
      (now detection_id : ℕ) (tier : Tier) (db : Db)
      → P db
      → P (insert_task (new_task now detection_id tier) db)
  pub participant : (p : Participant) (db : Db) → P db → P (add_participant p db)

module _ {P : Db → Type 0} (steps : PipelineSteps P) where
  auto_log-P :
      (member event : Option ℕ) (key : ℕ) (db : Db) → P db → P (auto_log member event key db)
  unfolding auto_log
  auto_log-P none event key db h = h
  auto_log-P (some c) none key db h = h
  auto_log-P (some c) (some e) key db h = steps.participant _ db h

  route-P :
      (c : Capture) (tier : Tier) (member : Option ℕ) (key : ℕ) (db : Db)
      → P db
      → P (route c tier member key db)
  unfolding route
  route-P c Tier.tier_100 member key db h = auto_log-P member (truthy c.event_id) key db h
  route-P c tier member key db h = steps.task c.now key tier db h

  find_member-Keeps : (s : Option Text) → Keeps P (find_member s)
  find_member-Keeps none = unfold find_member in search keeps_rules
  find_member-Keeps (some s) = unfold find_member in search keeps_rules depth 7

  record_face-Keeps :
      (c : Capture) (r : Recognition) (member : Option ℕ)
      → Keeps P (modify (record_face c r member))
  record_face-Keeps c r member =
      Keeps-modify _
        λ db h. unfold record_face in route-P c r.tier member _ _ (steps.detection _ db h)

  store_face-Keeps : (c : Capture) (r : Recognition) → Keeps P (store_face c r)
  store_face-Keeps c r =
      unfold store_face in search (keeps_rules, find_member-Keeps, record_face-Keeps) depth 7

  skip_face-Keeps : (c : Capture) → Keeps P (skip_face c)
  skip_face-Keeps c =
      unfold skip_face in
      search (keeps_rules, Keeps-modify (insert_detection _) (steps.detection _)) depth 7

  pick :
      (b : Bool) (x y : Tx Outcome × DedupCache)
      → Keeps P x.0
      → Keeps P y.0
      → Keeps P (if b then x else y).0
  pick true x y kx ky = kx
  pick false x y kx ky = ky

  pub process_face_crop-Keeps :
      (c : Capture) (cache : DedupCache) → Keeps P (process_face_crop c cache).0
  process_face_crop-Keeps c cache =
      unfold process_face_crop in
      pick (check_quality c.crop) _ _ (search (keeps_rules, store_face-Keeps)) (skip_face-Keeps c)
