-- ===== src/Pit/Attend.antt =====
-- Attending the event of a detection, and the tasks and actions.
use seraphim.Common.{ℕ, Option, none, some, refl}
use seraphim.Models.{Db}
use seraphim.Review.Assign.{SameTasks, add_participant-SameTasks}
use seraphim.Pit.{attend}

pub attend-SameTasks :
    (contact_id detection_id : ℕ) (event : Option ℕ) (db : Db)
    → SameTasks db (attend contact_id detection_id event db)
attend-SameTasks c key none db = record { tasks = refl; actions = refl }
attend-SameTasks c key (some e) db = add_participant-SameTasks _ db
