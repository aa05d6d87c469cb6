-- ===== src/Requests/Serve.antt =====
-- An invariant that every step keeps holds after any requests.
use seraphim.Common.{List, [], ◌∷◌}
use seraphim.Models.{Db}
use seraphim.Session.Keeps.{Keeps-request}
use seraphim.Pipeline.Steps.{PipelineSteps, process_face_crop-Keeps}
use seraphim.Pit.Steps.{
  PitSteps, delete_pit_task-Keeps, mark_non_person-Keeps, enroll_pit_task-keeps,
  process_expired_tasks-Keeps,
}
use seraphim.Review.Steps.{
  ReviewSteps, confirm_task-Keeps, edit_task-Keeps, add_task-Keeps, skip_task-Keeps,
  admin_override-Keeps,
}
use seraphim.Requests.{Surroundings, Request, handle, serve}

pub record Steps (P : Db → Type 0) : Type 0 where
  pub review : ReviewSteps P
  pub pit : PitSteps P
  pub pipeline : PipelineSteps P

module _ {P : Db → Type 0} (steps : Steps P) where
  handle-keeps : (w : Surroundings) (r : Request) (db : Db) → P db → P (handle w r db)
  unfolding handle
  handle-keeps w (Request.confirm i v) db h =
      Keeps-request _ db (confirm_task-Keeps steps.review w.review w.month i v) h
  handle-keeps w (Request.edit i v m) db h =
      Keeps-request _ db (edit_task-Keeps steps.review w.review w.month i v m) h
  handle-keeps w (Request.add i v m) db h =
      Keeps-request _ db (add_task-Keeps steps.review w.review w.month i v m) h
  handle-keeps w (Request.skip i v reason) db h =
      Keeps-request _ db (skip_task-Keeps steps.review i v reason) h
  handle-keeps w (Request.override i a) db h =
      Keeps-request _ db (admin_override-Keeps steps.review w.review i a) h
  handle-keeps w (Request.delete_pit i) db h =
      Keeps-request _ db (delete_pit_task-Keeps steps.pit w.now i) h
  handle-keeps w (Request.non_person i) db h =
      Keeps-request _ db (mark_non_person-Keeps steps.pit w.now i) h
  handle-keeps w (Request.enroll_pit i c) db h =
      enroll_pit_task-keeps steps.pit w.world w.image w.now i c db h
  handle-keeps w Request.expire db h =
      Keeps-request _ db (process_expired_tasks-Keeps steps.pit w.now) h
  handle-keeps w (Request.face c cache) db h =
      Keeps-request _ db (process_face_crop-Keeps steps.pipeline c cache) h

  pub serve-keeps :
      (requests : List (Surroundings × Request)) (db : Db) → P db → P (serve requests db)
  unfolding serve
  serve-keeps [] db h = h
  serve-keeps ((w, r) ∷ rest) db h = serve-keeps rest _ (handle-keeps w r db h)
