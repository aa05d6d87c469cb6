-- ===== src/Invariants/Points.antt =====
-- The statistics of a volunteer and a month, and the points of the actions.
use seraphim.Common.{
  ℕ, ◌+◌, ◌*◌, ◌≤◌, ◌≡◌, Bool, true, false, not, ◌&&◌, Option, none, some, List, [], ◌∷◌, arith,
  count, any, if◌then◌else◌, ◌==◌,
}
use seraphim.Models.{Db, Participant, ActionKind, VolunteerStat}
use seraphim.Attendance.{add_participant, bump_stat, score, is_stat, points, new_stat}
use seraphim.Review.{
  is_approval, record_approval, record_skip, record_override, add_action, set_task, new_action,
  goes_to_pit, skipped_task,
}
use seraphim.Review.Assign.{add_participant-aside, assign_member-SameRows, to_pit_queue-SameRows}
use seraphim.Pit.{record_enroll, attend}
use seraphim.Requests.{Surroundings, Request, serve}
use seraphim.Requests.Serve.{Steps, serve-keeps}

-- One point for a confirmed and for an added face, two for an edited one.
abbrev pub earned : VolunteerStat → ℕ
earned s = s.tasks_confirmed + 2 * s.tasks_edited + s.tasks_added

abbrev pub unbalanced : VolunteerStat → Bool
unbalanced s = not (s.total_points == earned s)

pub record Balanced (stats : List VolunteerStat) : Type 0 where
  pub balanced : any unbalanced stats ≡ false
  pub one_row : (v month : ℕ) → count (is_stat v month) stats ≤ 1

abbrev BalancedIn : Db → Type 0
BalancedIn db = Balanced db.stats

score-balanced :
    (kind : ActionKind) (s : VolunteerStat)
    → is_approval kind ≡ true
    → unbalanced s ≡ false
    → unbalanced (score kind s) ≡ false
unfolding score points
score-balanced kind s approval h = ground arith

score-is_stat :
    (kind : ActionKind) (v month : ℕ) (s : VolunteerStat)
    → is_stat v month (score kind s) ≡ is_stat v month s
unfolding score points
score-is_stat kind v month s = ground arith

bump_stat-balanced :
    (kind : ActionKind) (v month : ℕ) (stats : List VolunteerStat)
    → is_approval kind ≡ true
    → any unbalanced stats ≡ false
    → any unbalanced (bump_stat kind v month stats) ≡ false
unfolding bump_stat any
bump_stat-balanced kind v month [] approval h =
    ground (arith, score-balanced kind (new_stat v month))
bump_stat-balanced kind v month (s ∷ stats) approval h =
    ground (arith, score-balanced kind s, bump_stat-balanced kind v month stats)

-- A row more only where there was none.
bump_stat-count :
    (kind : ActionKind) (v month u m : ℕ) (stats : List VolunteerStat)
    → count (is_stat u m) (bump_stat kind v month stats) ≡ (
        if v == u && month == m && (count (is_stat v month) stats == 0)
        then 1
        else count (is_stat u m) stats)
unfolding bump_stat count
bump_stat-count kind v month u m [] = ground (arith, score-is_stat kind u m (new_stat v month))
bump_stat-count kind v month u m (s ∷ stats) =
    ground (arith, score-is_stat kind u m s, bump_stat-count kind v month u m stats)

bump_stat-Balanced :
    (kind : ActionKind) (v month : ℕ) (stats : List VolunteerStat)
    → is_approval kind ≡ true
    → Balanced stats
    → Balanced (bump_stat kind v month stats)
bump_stat-Balanced kind v month stats approval h = record {
  balanced = bump_stat-balanced kind v month stats approval h.balanced;
  one_row = λ u m. ground (arith, bump_stat-count kind v month u m stats, h.one_row u m);
}

participant : (p : Participant) (db : Db) → BalancedIn db → BalancedIn (add_participant p db)
participant p db h = add_participant-aside BalancedIn p db (λ ps. h)

attended :
    (c key : ℕ) (event : Option ℕ) (db : Db) → BalancedIn db → BalancedIn (attend c key event db)
attended c key none db h = h
attended c key (some e) db h = participant _ db h

balanced_steps : Steps BalancedIn
balanced_steps = record {
  review = record {
    attendance = record {
      enrollment = λ db subjects samples h. h;
      logs = λ db logs h. h;
      participant = participant;
    };
    score = λ kind v month db approval h. bump_stat-Balanced kind v month db.stats approval h;
    approve = λ kind i v member t db approval open_ row untouched h.
        unfold record_approval in
        let same =
          assign_member-SameRows kind member t.detection_id
            (add_action (new_action i v kind none) db) in
        rw same.stats h;
    skip = λ i v reason t db row few h.
        unfold record_skip in
        let flushed = add_action (new_action i v ActionKind.skip reason) db in
        let to_pit = goes_to_pit i t flushed.actions in
        let same =
          to_pit_queue-SameRows i to_pit (set_task i (skipped_task reason to_pit t) flushed) in
        rw same.stats h;
    override = λ i admin t db row h. unfold record_override in h;
  };
  pit = record {
    enrollment = λ db subjects samples h. h;
    rows = λ db rows h. h;
    close = λ i p t db row h. h;
    enroll = λ i c t d db row h. unfold record_enroll in attended c t.detection_id d.event_id _ h;
    expire = λ i t db row h. h;
  };
  pipeline = record {
    detection = λ d db h. h;
    task = λ now key tier db h. h;
    participant = participant;
  };
}

-- Whatever requests were served: if before them each volunteer had at most one row of statistics a
-- month, and each row's `total_points` was its confirmed tasks plus twice its edited tasks plus its
-- added tasks, then so it is afterwards.
pub serve-Balanced :
    (requests : List (Surroundings × Request)) (db : Db)
    → Balanced db.stats
    → Balanced (serve requests db).stats
serve-Balanced requests db h = serve-keeps balanced_steps requests db h
