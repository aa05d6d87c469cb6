-- ===== src/Requests.antt =====
-- The requests and jobs that change the review state, as one type, and the databases that they
-- lead to. Every request runs in a session of its own.
pub mod Serve
use seraphim.Common.{ℕ, Option, List, [], ◌∷◌, none, some}
use seraphim.Common.Text.{Text}
use seraphim.Models.{Db}
use seraphim.Session.{request}
use seraphim.Enrollment.{World}
use seraphim.Attendance.{ReviewWorld}
use seraphim.Dedup.{DedupCache}
use seraphim.Pipeline.{Capture, process_face_crop}
use seraphim.Pit.{Image, delete_pit_task, mark_non_person, enroll_pit_task, process_expired_tasks}
use seraphim.Review.{confirm_task, edit_task, add_task, skip_task, admin_override}

-- What the clock, the disk, OpenCV and CompreFace answer while a request runs.
pub record Surroundings : Type 0 where
  pub review : ReviewWorld
  pub world : World
  pub image : Image
  pub month : ℕ
  pub now : ℕ

pub data Request : Type 0 where
  confirm : (task_id volunteer_id : ℕ) → Request
  edit : (task_id volunteer_id member_id : ℕ) → Request
  add : (task_id volunteer_id member_id : ℕ) → Request
  skip : (task_id volunteer_id : ℕ) → Option Text → Request
  override : (task_id admin_id : ℕ) → Request
  delete_pit : (task_id : ℕ) → Request
  non_person : (task_id : ℕ) → Request
  enroll_pit : (task_id contact_id : ℕ) → Request
  expire : Request
  face : Capture → DedupCache → Request

-- The committed rows after a request, whatever its response is.
unfoldable pub handle : Surroundings → Request → Db → Db
handle w (Request.confirm i v) db = (request (confirm_task w.review w.month i v) db).1
handle w (Request.edit i v m) db = (request (edit_task w.review w.month i v m) db).1
handle w (Request.add i v m) db = (request (add_task w.review w.month i v m) db).1
handle w (Request.skip i v reason) db = (request (skip_task i v reason) db).1
handle w (Request.override i admin) db = (request (admin_override w.review i admin) db).1
handle w (Request.delete_pit i) db = (request (delete_pit_task w.now i) db).1
handle w (Request.non_person i) db = (request (mark_non_person w.now i) db).1
handle w (Request.enroll_pit i c) db = (request (enroll_pit_task w.world w.image w.now i c) db).1
handle w Request.expire db = (request (process_expired_tasks w.now) db).1
handle w (Request.face c cache) db = (request (process_face_crop c cache).0 db).1

unfoldable pub serve : List (Surroundings × Request) → Db → Db
unfolding handle
serve [] db = db
serve ((w, r) ∷ rest) db = serve rest (handle w r db)

abbrev pub empty : Db
empty = record {
  contacts = [];
  subjects = [];
  samples = [];
  detections = [];
  tasks = [];
  actions = [];
  participants = [];
  logs = [];
  pit_queue = [];
  stats = [];
  users = [];
  activities = [];
  audit = [];
  outbox = [];
}
