-- ===== src/Pipeline/Routing.antt =====
-- Where a face goes: to a task or to the participants.
use mathlib.Core.List.{Memᴰ}
use seraphim.Common.{
  ℕ, ◌+◌, ◌≤◌, ◌<◌, ◌≡◌, refl, subst, true, false, Option, none, some, List, [], ◌∷◌, arith, ◌==◌,
  where_, any, count, length, length-where_, is_some, if◌then◌else◌, Bool-cases, Option-cases, inl,
  inr,
}
use seraphim.Common.Table.{Table, find, put, fresh, find-put, find-fresh}
use seraphim.Common.Text.{Text, is_empty}
use seraphim.Models.{Db, Task, Detection}
use seraphim.Session.{ok, Session, ◌>>=◌, pure, one_or_none, request}
use seraphim.Enrollment.{check_quality, has_subject_id}
use seraphim.Attendance.{truthy}
use seraphim.Dedup.{DedupCache, is_duplicate}
use seraphim.Review.{acted}
use seraphim.Review.Assign.{add_participant-SameTasks}
use seraphim.Review.Queue.{taken_at, get_next_task}
use seraphim.Review.Next.{IsNext, get_next_task-IsNext}
use seraphim.Pipeline.{
  Recognition, Capture, Outcome, recognized, is_tier_100, new_task, face_detection, contact_of,
  find_member, auto_log, route, record_face, store_face, crop_hash, process_face_crop,
  task_lifetime,
}

one_or_none-few {ℓ} :
    {A : Type ℓ} (xs : List A) → length xs ≤ 1 → (o : Option A) × (one_or_none xs ≡ ok o)
unfolding one_or_none
one_or_none-few [] h = (none, refl)
one_or_none-few (x ∷ []) h = (some x, refl)
one_or_none-few (x ∷ y ∷ xs) h = absurd (omega arith)

member-put {ℓ} :
    {A : Type ℓ} (k : ℕ) (a : A) (rows : Table A) → find k rows ≡ none → Memᴰ (k, a) (put k a rows)
unfolding find put
member-put k a [] h = Memᴰ.head refl
member-put k a ((j, b) ∷ rows) h = elim (Bool-cases (j == k)) [
  | inl same ↦ absurd (ground (arith, same))
  | inr other ↦ rw other (Memᴰ.tail (member-put k a rows (ground (arith, other))))
]

-- The column compreface_subject_id is unique, so a lookup finds one row at most.
find_member-ok :
    (subject_id : Option Text) (s : Session)
    → ((text : Text) → count (has_subject_id text) s.work.subjects ≤ 1)
    → (member : Option ℕ) × (find_member subject_id s ≡ (ok member, s))
unfolding find_member pure ◌>>=◌
find_member-ok none s unique = (none, refl)
find_member-ok (some text) s unique = elim (Bool-cases (is_empty text)) [
  | inl empty ↦ (none, rw empty refl)
  | inr named ↦
      (let (found, one) =
          one_or_none-few (where_ (has_subject_id text) s.work.subjects)
            (omega (arith, unique text, length-where_ (has_subject_id text) s.work.subjects)) in
        (contact_of found, rw named (rw one refl)))
]

auto_log-tasks :
    (member event : Option ℕ) (key : ℕ) (db : Db) → (auto_log member event key db).tasks ≡ db.tasks
unfolding auto_log
auto_log-tasks none event key db = refl
auto_log-tasks (some c) none key db = refl
auto_log-tasks (some c) (some e) key db = (add_participant-SameTasks _ db).tasks

module _ (c : Capture) (cache : DedupCache) (db : Db) (sharp : check_quality c.crop ≡ true)
    (new : (is_duplicate
        (recognized c.recognition).subject_id
        (crop_hash c (recognized c.recognition))
        c.now
        cache).0
      ≡ false)
    (unique : (text : Text) → count (has_subject_id text) db.subjects ≤ 1) where
  abbrev seen : Recognition
  seen = recognized c.recognition

  process_face_crop-request :
      (member : Option ℕ) × (request (process_face_crop c cache).0 db ≡ (
        ok (if is_tier_100 seen.tier then Outcome.auto_logged else Outcome.tasked),
        record_face c seen member db,
      ))
  unfolding process_face_crop request store_face pure ◌>>=◌
  process_face_crop-request =
      let (member, found) =
        find_member-ok seen.subject_id (record { committed = db; work = db }) unique in
      (member, rw sharp (rw new (rw found refl)))

  abbrev key : ℕ
  key = fresh db.detections

  abbrev made : Task
  made = new_task c.now key seen.tier

  -- A clear face that is no duplicate and is not recognised at the highest tier, where no two
  -- subject rows have one subject id: the request answers `tasked`, adds one pending task for a
  -- new detection with the time and the event of the face, and changes neither participants nor
  -- actions.
  pub process_face_crop-tasked :
      is_tier_100 seen.tier ≡ false
      → ((request (process_face_crop c cache).0 db).0 ≡ ok Outcome.tasked)
        × ((request (process_face_crop c cache).0 db).1.tasks ≡ put (fresh db.tasks) made db.tasks)
        × ((request (process_face_crop c cache).0 db).1.participants ≡ db.participants)
        × ((request (process_face_crop c cache).0 db).1.actions ≡ db.actions)
        × ((d : Detection) × (find key (request (process_face_crop c cache).0 db).1.detections
              ≡ some d)
            × (d.timestamp ≡ c.now)
            × (d.event_id ≡ c.event_id))
  unfolding record_face route
  process_face_crop-tasked low =
      let (member, ran) = process_face_crop-request in
      let d = face_detection c seen member in
      rw ran (
        rw low (
          refl,
          refl,
          refl,
          refl,
          (d, ground (arith, find-put key key d db.detections), refl, refl),
        ))

  -- A clear face that is no duplicate and is recognised at the highest tier, where no two subject
  -- rows have one subject id: the request answers `auto_logged` and makes no task.
  pub process_face_crop-logged :
      is_tier_100 seen.tier ≡ true
      → ((request (process_face_crop c cache).0 db).0 ≡ ok Outcome.auto_logged)
        × ((request (process_face_crop c cache).0 db).1.tasks ≡ db.tasks)
  unfolding record_face route
  process_face_crop-logged high =
      let (member, ran) = process_face_crop-request in
      rw ran (rw high (refl, auto_log-tasks member (truthy c.event_id) key _))

  -- After a clear face that is no duplicate and is not recognised at the highest tier, where no
  -- two subject rows have one subject id: each volunteer without an action under the new task's
  -- key is offered some task, at any time before the 31 days of the new task are over.
  pub process_face_crop-offered :
      (v now : ℕ)
      → is_tier_100 seen.tier ≡ false
      → any (acted (fresh db.tasks) v) db.actions ≡ false
      → now < c.now + task_lifetime
      → is_some (get_next_task (request (process_face_crop c cache).0 db).1 now v) ≡ true
  process_face_crop-offered v now low untouched soon =
      let (answered, tasks, _, actions, (d, found, taken, _)) = process_face_crop-tasked low in
      let after = (request (process_face_crop c cache).0 db).1 in
      elim (Option-cases (get_next_task after now v)) [
        | inr (row, some_) ↦ rw some_ refl
        | inl none_ ↦ absurd (
            (subst (IsNext after now v) none_ (get_next_task-IsNext after now v)) c.now
              (fresh db.tasks, made)
              (record {
                member = rw tasks (member-put (fresh db.tasks) made db.tasks (find-fresh db.tasks));
                may = rw actions (rw untouched (ground (arith, soon)));
                time = rw (found, taken_at) (rw taken refl);
              }))
      ]
