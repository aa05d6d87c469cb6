-- ===== src/Review/Assign.antt =====
-- What the mutations of a review leave as it was.
use seraphim.Common.{
  ℕ, ◌++◌, [], ◌∷◌, ◌≡◌, refl, Bool, true, false, Option, none, some, any, List, if◌then◌else◌,
}
use seraphim.Models.{Db, Detection, Participant, ActionKind}
use seraphim.Attendance.{add_participant, attends}
use seraphim.Review.{assign_member, assign_found, to_pit_queue}

-- `b` has the tasks, actions, participants and statistics of `a`.
pub record SameRows (a b : Db) : Type 0 where
  pub tasks : b.tasks ≡ a.tasks
  pub actions : b.actions ≡ a.actions
  pub participants : b.participants ≡ a.participants
  pub stats : b.stats ≡ a.stats

SameRows-refl : (a : Db) → SameRows a a
SameRows-refl a = record { tasks = refl; actions = refl; participants = refl; stats = refl }

assign_found-SameRows :
    (kind : ActionKind) (m key : ℕ) (o : Option Detection) (db : Db)
    → SameRows db (assign_found kind m key o db)
assign_found-SameRows kind m key none db = SameRows-refl db
assign_found-SameRows kind m key (some d) db = record {
  tasks = refl;
  actions = refl;
  participants = refl;
  stats = refl;
}

pub assign_member-SameRows :
    (kind : ActionKind) (member : Option ℕ) (key : ℕ) (db : Db)
    → SameRows db (assign_member kind member key db)
assign_member-SameRows kind none key db = unfold assign_member in SameRows-refl db
assign_member-SameRows kind (some m) key db =
    unfold assign_member in assign_found-SameRows kind m key _ db

pub to_pit_queue-SameRows : (i : ℕ) (b : Bool) (db : Db) → SameRows db (to_pit_queue i b db)
to_pit_queue-SameRows i false db = SameRows-refl db
to_pit_queue-SameRows i true db = record {
  tasks = refl;
  actions = refl;
  participants = refl;
  stats = refl;
}

-- Adding a participant changes the participants alone.
pub add_participant-aside :
    (P : Db → Type 0) (p : Participant) (db : Db)
    → ((ps : List Participant) → P (record db { participants = ps }))
    → P (add_participant p db)
unfolding add_participant
add_participant-aside P p db h = go (any (attends p.contact_id p.event_id) db.participants)
  where
    go : (b : Bool) → P (if b then db else record db { participants = db.participants ++ p ∷ [] })
    go true = h db.participants
    go false = h (db.participants ++ p ∷ [])

-- `b` has the tasks and actions of `a`.
pub record SameTasks (a b : Db) : Type 0 where
  pub tasks : b.tasks ≡ a.tasks
  pub actions : b.actions ≡ a.actions

pub add_participant-SameTasks : (p : Participant) (db : Db) → SameTasks db (add_participant p db)
unfolding add_participant
add_participant-SameTasks p db = go (any (attends p.contact_id p.event_id) db.participants)
  where
    go :
        (b : Bool)
        → SameTasks db (if b then db else record db { participants = db.participants ++ p ∷ [] })
    go true = record { tasks = refl; actions = refl }
    go false = record { tasks = refl; actions = refl }
