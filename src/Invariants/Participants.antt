-- ===== src/Invariants/Participants.antt =====
-- The participant rows of a contact at an event.
use seraphim.Common.{
  ℕ, ◌≤◌, ◌≡◌, refl, false, Option, none, some, List, [], ◌∷◌, arith, count, count-snoc, any,
  Bool-cases, inl, inr,
}
use seraphim.Models.{Db, Participant, ActionKind}
use seraphim.Attendance.{attends, add_participant}
use seraphim.Review.{
  record_approval, record_skip, record_override, add_action, set_task, new_action, goes_to_pit,
  skipped_task,
}
use seraphim.Review.Assign.{assign_member-SameRows, to_pit_queue-SameRows}
use seraphim.Pit.{record_enroll, attend}
use seraphim.Requests.{Surroundings, Request, serve}
use seraphim.Requests.Serve.{Steps, serve-keeps}

pub record Once (participants : List Participant) : Type 0 where
  pub once : (c e : ℕ) → count (attends c e) participants ≤ 1

abbrev OnceIn : Db → Type 0
OnceIn db = Once db.participants

none-counted :
    (c e : ℕ) (participants : List Participant)
    → any (attends c e) participants ≡ false
    → count (attends c e) participants ≡ 0
unfolding any count
none-counted c e [] h = refl
none-counted c e (p ∷ participants) h = ground (arith, none-counted c e participants)

add_participant-Once : (p : Participant) (db : Db) → OnceIn db → OnceIn (add_participant p db)
add_participant-Once p db h =
    unfold add_participant in
    elim (Bool-cases (any (attends p.contact_id p.event_id) db.participants)) [
      | inl there ↦ rw there h
      | inr absent ↦ rw absent (record {
        once = λ c e. ground (
          arith,
          count-snoc (attends c e) db.participants p,
          h.once c e,
          none-counted p.contact_id p.event_id db.participants,
        );
      })
    ]

attend-Once : (c key : ℕ) (event : Option ℕ) (db : Db) → OnceIn db → OnceIn (attend c key event db)
attend-Once c key none db h = h
attend-Once c key (some e) db h = add_participant-Once _ db h

once_steps : Steps OnceIn
once_steps = record {
  review = record {
    attendance = record {
      enrollment = λ db subjects samples h. h;
      logs = λ db logs h. h;
      participant = add_participant-Once;
    };
    score = λ kind v month db approval h. h;
    approve = λ kind i v member t db approval open_ row untouched h.
        unfold record_approval in
        let same =
          assign_member-SameRows kind member t.detection_id
            (add_action (new_action i v kind none) db) in
        rw same.participants h;
    skip = λ i v reason t db row few h.
        unfold record_skip in
        let flushed = add_action (new_action i v ActionKind.skip reason) db in
        let to_pit = goes_to_pit i t flushed.actions in
        let same =
          to_pit_queue-SameRows i to_pit (set_task i (skipped_task reason to_pit t) flushed) in
        rw same.participants h;
    override = λ i admin t db row h. unfold record_override in h;
  };
  pit = record {
    enrollment = λ db subjects samples h. h;
    rows = λ db rows h. h;
    close = λ i p t db row h. h;
    enroll =
        λ i c t d db row h. unfold record_enroll in attend-Once c t.detection_id d.event_id _ h;
    expire = λ i t db row h. h;
  };
  pipeline = record {
    detection = λ d db h. h;
    task = λ now key tier db h. h;
    participant = add_participant-Once;
  };
}

-- Whatever requests were served: if no contact had two participant rows at one event before, then
-- none has afterwards.
pub serve-Once :
    (requests : List (Surroundings × Request)) (db : Db)
    → Once db.participants
    → Once (serve requests db).participants
serve-Once requests db h = serve-keeps once_steps requests db h
