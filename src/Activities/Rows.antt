-- ===== src/Activities/Rows.antt =====
-- The invariant of an activity: its status, its completion time and its reminder date.
use seraphim.Common.{
  ℕ, ◌≡◌, refl, Bool, true, not, ◌&&◌, Option, none, some, [], ◌∷◌, arith, is_some, if◌then◌else◌,
  Option-cases, inl, inr,
}
use seraphim.Common.Table.{Table, find, put, remove, find-put, find-remove}
use seraphim.Common.Text.{Text}
use seraphim.Models.{Db, Activity, ActivityStatus}
use seraphim.Session.{Result, ok, err, modify}
use seraphim.Session.Keeps.{Keeps, Keeps-modify}
use seraphim.Activities.{
  is_listed, is_completed, same_status, due_ok, apply_status_transition, ActivityCreate,
  new_activity,
}
use seraphim.Activities.Changes.{
  ActivityUpdate, and_then, set_type, set_plain, set_priority, set_target, set_status, checked,
  apply_update, reminded, mark_reminded,
}

-- The status is listed and agrees with the completion time.
abbrev pub is_stamped : Activity → Bool
is_stamped a =
    is_listed a.status
    && (if is_completed a.status then is_some a.completed_at else not (is_some a.completed_at))

abbrev pub is_sound : Activity → Bool
is_sound a = is_stamped a && due_ok a.due_date a.activity_date

pub record Sound (rows : Table Activity) : Type 0 where
  pub sound : (i : ℕ) (a : Activity) → find i rows ≡ some a → is_sound a ≡ true

and_then-ok :
    {A B : Type 0} (r : Result A) (f : A → Result B) (b : B)
    → and_then r f ≡ ok b
    → (a : A) × (r ≡ ok a) × (f a ≡ ok b)
and_then-ok (ok a) f b h = (a, refl, h)
and_then-ok (err e) f b h = cc

set_type_stamped :
    (o : Option Text) (a a' : Activity) → set_type o a ≡ ok a' → is_stamped a' ≡ is_stamped a
set_type_stamped none a a' h = ground arith
set_type_stamped (some t) a a' h = ground arith

set_priority-stamped :
    (o : Option Text) (a a' : Activity) → set_priority o a ≡ ok a' → is_stamped a' ≡ is_stamped a
set_priority-stamped none a a' h = ground arith
set_priority-stamped (some t) a a' h = ground arith

set_target-stamped :
    (known : Option ℕ → Bool) (o : Option (Option ℕ)) (a a' : Activity)
    → set_target known o a ≡ ok a'
    → is_stamped a' ≡ is_stamped a
set_target-stamped known none a a' h = ground arith
set_target-stamped known (some t) a a' h = ground arith

set_plain-stamped : (d : ActivityUpdate) (a : Activity) → is_stamped (set_plain d a) ≡ is_stamped a
set_plain-stamped d a = ground arith

apply_status_transition-stamped :
    (now : ℕ) (adm : Bool) (new : ActivityStatus) (a a' : Activity)
    → apply_status_transition now adm new a ≡ ok a'
    → is_stamped a ≡ true
    → is_stamped a' ≡ true
unfolding apply_status_transition same_status
apply_status_transition-stamped now adm new a a' h k = ground arith

set_status-stamped :
    (now : ℕ) (adm : Bool) (o : Option ActivityStatus) (a a' : Activity)
    → set_status now adm o a ≡ ok a'
    → is_stamped a ≡ true
    → is_stamped a' ≡ true
set_status-stamped now adm none a a' h k = ground arith
set_status-stamped now adm (some new) a a' h k =
    apply_status_transition-stamped now adm new a a' h k

checked_sound :
    (now : ℕ) (a a' : Activity) → checked now a ≡ ok a' → is_stamped a ≡ true → is_sound a' ≡ true
checked_sound now a a' h k = ground arith

pub apply_update_sound :
    (now : ℕ) (adm : Bool) (known : Option ℕ → Bool) (d : ActivityUpdate) (a a' : Activity)
    → apply_update now adm known d a ≡ ok a'
    → is_stamped a ≡ true
    → is_sound a' ≡ true
unfolding apply_update
apply_update_sound now adm known d a a' h k =
    let f3 : Activity → Result Activity =
      λ x. and_then (set_status now adm d.status x) (checked now) in
    let f2 : Activity → Result Activity =
      λ x. and_then (set_target known d.target_contact_id x) f3 in
    let f1 : Activity → Result Activity =
      λ x. and_then (set_priority d.priority (set_plain d x)) f2 in
    let (a1, e1, h1) = and_then-ok (set_type d.activity_type a) f1 a' h in
    let (a2, e2, h2) = and_then-ok (set_priority d.priority (set_plain d a1)) f2 a' h1 in
    let (a3, e3, h3) = and_then-ok (set_target known d.target_contact_id a2) f3 a' h2 in
    let (a4, e4, h4) = and_then-ok (set_status now adm d.status a3) (checked now) a' h3 in
    let s3 : is_stamped a3 ≡ true = ground (
      arith,
      set_type_stamped d.activity_type a a1 e1,
      set_plain-stamped d a1,
      set_priority-stamped d.priority (set_plain d a1) a2 e2,
      set_target-stamped known d.target_contact_id a2 a3 e3,
    ) in
    checked_sound now a4 a' h4 (set_status-stamped now adm d.status a3 a4 e4 s3)

abbrev pub SoundIn : Db → Type 0
SoundIn db = Sound db.activities

pub put-Sound :
    (k : ℕ) (a : Activity) (rows : Table Activity)
    → is_sound a ≡ true
    → Sound rows
    → Sound (put k a rows)
put-Sound k a rows new h = record {
  sound = λ i b e. ground (arith, find-put k i a rows, h.sound i b);
}

pub remove-Sound : (k : ℕ) (rows : Table Activity) → Sound rows → Sound (remove k rows)
remove-Sound k rows h = record {
  sound = λ i b e. ground (arith, find-remove k i rows, h.sound i b);
}

find-reminded :
    (now i : ℕ) (rows : Table Activity)
    → find i (reminded now rows)
      ≡ (elim (find i rows) [ none ↦ none | some a ↦ some (mark_reminded now a) ])
unfolding find reminded
find-reminded now i [] = refl
find-reminded now i ((j, a) ∷ rows) = ground (arith, find-reminded now i rows)

pub reminded-Sound : (now : ℕ) (rows : Table Activity) → Sound rows → Sound (reminded now rows)
reminded-Sound now rows h = record {
  sound = λ i b e. elim (Option-cases (find i rows)) [
    | inl none_ ↦ ground (arith, find-reminded now i rows, none_)
    | inr (a, some_) ↦ ground (arith, find-reminded now i rows, some_, h.sound i a)
  ];
}

pub new_activity-stamped :
    (now : ℕ) (d : ActivityCreate) (actor : ℕ)
    → is_listed (new_activity now d actor).status ≡ true
    → is_stamped (new_activity now d actor) ≡ true
new_activity-stamped now d actor h = ground arith

-- Keeping the activities keeps the property.
pub audit-Keeps :
    (f : Db → Db) → ((db : Db) → (f db).activities ≡ db.activities) → Keeps SoundIn (modify f)
audit-Keeps f same = Keeps-modify f λ db h. rw (same db) h
