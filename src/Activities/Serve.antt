-- ===== src/Activities/Serve.antt =====
-- The requests on activities and the reminder job.
use seraphim.Common.{
  ℕ, ◌≡◌, refl, Bool, true, false, Option, none, List, [], ◌∷◌, arith, if◌then◌else◌,
}
use seraphim.Common.Table.{fresh}
use seraphim.Models.{Db, Activity, ActivityStatus, AuditAction}
use seraphim.Session.{Result, Session, modify, request}
use seraphim.Session.Keeps.{Keeps, Holds, keeps_rules, Keeps-modify, Keeps-bind, Keeps-request}
use seraphim.Session.Rules.{gets-then, or_raise-then, lift-then, raise_unless-then}
use seraphim.Activities.{
  same_status, put_activity, add_audit, ActivityCreate, new_activity, create, get_detail,
}
use seraphim.Activities.Changes.{
  ActivityUpdate, update, reassigned, reassign, delete, scan_due_reminders, audit_status,
}
use seraphim.Activities.Rows.{
  is_sound, Sound, SoundIn, put-Sound, remove-Sound, reminded-Sound, new_activity-stamped,
  audit-Keeps, apply_update_sound,
}

pub data ActivityRequest : Type 0 where
  create_ : ActivityCreate → (actor_id : ℕ) → ActivityRequest
  update_ :
      (activity_id : ℕ) → ActivityUpdate → (actor_id : ℕ) → (is_admin : Bool) → ActivityRequest
  reassign_ : (activity_id : ℕ) → (assignee_user_id : Option ℕ) → (actor_id : ℕ) → ActivityRequest
  delete_ : (activity_id actor_id : ℕ) → ActivityRequest
  remind : ActivityRequest

-- The committed rows after a request at `now`.
unfoldable pub handle_activity : ℕ → ActivityRequest → Db → Db
handle_activity now (ActivityRequest.create_ d actor) db = (request (create now d actor) db).1
handle_activity now (ActivityRequest.update_ i d actor adm) db =
    (request (update now i d actor adm) db).1
handle_activity now (ActivityRequest.reassign_ i to actor) db =
    (request (reassign now i to actor) db).1
handle_activity now (ActivityRequest.delete_ i actor) db = (request (delete i actor) db).1
handle_activity now ActivityRequest.remind db = (request (scan_due_reminders now) db).1

unfoldable pub serve_activities : List (ℕ × ActivityRequest) → Db → Db
unfolding handle_activity
serve_activities [] db = db
serve_activities ((now, r) ∷ rest) db = serve_activities rest (handle_activity now r db)

abbrev Kept : {A : Type 0} → Result A × Session → Type 0
Kept p = Holds SoundIn p.1

get_detail-Keeps : (i : ℕ) → Keeps SoundIn (get_detail i)
get_detail-Keeps i = unfold get_detail in search keeps_rules

audit_status-Keeps :
    (actor i : ℕ) (old new : ActivityStatus) → Keeps SoundIn (modify (audit_status actor i old new))
audit_status-Keeps actor i old new = audit-Keeps _ (λ db. go (same_status old new) db)
  where
    go :
        (b : Bool) (db : Db)
        → (if b
            then db
            else add_audit actor (AuditAction.status_change old new) i none none db).activities
          ≡ db.activities
    go true db = refl
    go false db = refl

add_audit-Keeps :
    (actor : ℕ) (action : AuditAction) (i : ℕ) (before after : _)
    → Keeps SoundIn (modify (add_audit actor action i before after))
add_audit-Keeps actor action i before after = audit-Keeps _ (λ db. refl)

put-Keeps : (i : ℕ) (a : Activity) → is_sound a ≡ true → Keeps SoundIn (modify (put_activity i a))
put-Keeps i a good = Keeps-modify _ (λ db h. put-Sound i a db.activities good h)

update-Keeps :
    (now i : ℕ) (d : ActivityUpdate) (actor : ℕ) (adm : Bool)
    → Keeps SoundIn (update now i d actor adm)
update-Keeps now i d actor adm = record {
  at = λ s h.
      unfold update in
      gets-then Kept _ _ s (
        or_raise-then Kept _ _ _ s
          (λ a row. gets-then Kept _ _ s (
            lift-then Kept _ _ s
              (λ a' applied.
                let good =
                  apply_update_sound now adm _ d a a' applied
                    (ground (arith, h.work.sound i a row)) in
                (Keeps-bind _ _ (put-Keeps i a' good) (λ _.
                    search (keeps_rules, add_audit-Keeps, audit_status-Keeps, get_detail-Keeps)
                      depth 9)).at
                  s h)
              (λ _ _. h)))
          (λ _. h));
}

reassign-Keeps : (now i : ℕ) (to : Option ℕ) (actor : ℕ) → Keeps SoundIn (reassign now i to actor)
reassign-Keeps now i to actor = record {
  at = λ s h.
      unfold reassign in
      gets-then Kept _ _ s (
        or_raise-then Kept _ _ _ s
          (λ a row. gets-then Kept _ _ s (
            raise_unless-then Kept _ _ _ s
              (λ _.
                (Keeps-bind _ _
                    (put-Keeps i (reassigned now to a) (ground (arith, h.work.sound i a row)))
                    (λ _. search (keeps_rules, add_audit-Keeps, get_detail-Keeps) depth 9)).at
                  s h)
              (λ _. h)))
          (λ _. h));
}

delete-Keeps : (i actor : ℕ) → Keeps SoundIn (delete i actor)
delete-Keeps i actor =
    unfold delete in
    Keeps-bind _ _ (search keeps_rules) (λ row. Keeps-bind _ _ (search keeps_rules) (λ a.
      Keeps-bind _ _ (Keeps-modify _ (λ db h. remove-Sound i db.activities h))
        (λ _. search (keeps_rules, add_audit-Keeps) depth 9)))

create-Keeps : (now : ℕ) (d : ActivityCreate) (actor : ℕ) → Keeps SoundIn (create now d actor)
create-Keeps now d actor = record {
  at = λ s h.
      let a = new_activity now d actor in
      unfold create in
      raise_unless-then Kept _ _ _ s
        (λ _.
          raise_unless-then Kept _ _ _ s
            (λ listed.
              raise_unless-then Kept _ _ _ s
                (λ _. gets-then Kept _ _ s (
                  raise_unless-then Kept _ _ _ s
                    (λ _. gets-then Kept _ _ s (
                      raise_unless-then Kept _ _ _ s
                        (λ _.
                          raise_unless-then Kept _ _ _ s
                            (λ due. gets-then Kept _ _ s (
                              (Keeps-bind _ _
                                  (put-Keeps (fresh s.work.activities) a
                                    (ground (arith, new_activity-stamped now d actor listed, due)))
                                  (λ _.
                                    search (keeps_rules, add_audit-Keeps, get_detail-Keeps) depth
                                      9)).at
                                s h))
                            (λ _. h))
                        (λ _. h)))
                    (λ _. h)))
                (λ _. h))
            (λ _. h))
        (λ _. h);
}

scan-Keeps : (now : ℕ) → Keeps SoundIn (scan_due_reminders now)
scan-Keeps now =
    unfold scan_due_reminders in
    Keeps-bind _ _ (search keeps_rules) (λ rows.
      Keeps-bind _ _ (Keeps-modify _ (λ db h. reminded-Sound now db.activities h))
        (λ _. search keeps_rules))

handle_activity-keeps :
    (now : ℕ) (r : ActivityRequest) (db : Db) → SoundIn db → SoundIn (handle_activity now r db)
unfolding handle_activity
handle_activity-keeps now (ActivityRequest.create_ d actor) db h =
    Keeps-request _ db (create-Keeps now d actor) h
handle_activity-keeps now (ActivityRequest.update_ i d actor adm) db h =
    Keeps-request _ db (update-Keeps now i d actor adm) h
handle_activity-keeps now (ActivityRequest.reassign_ i to actor) db h =
    Keeps-request _ db (reassign-Keeps now i to actor) h
handle_activity-keeps now (ActivityRequest.delete_ i actor) db h =
    Keeps-request _ db (delete-Keeps i actor) h
handle_activity-keeps now ActivityRequest.remind db h = Keeps-request _ db (scan-Keeps now) h

-- Whatever requests on activities were served: if before them each activity had a status of the
-- list, a completion time exactly if it is completed, and no due date before its date, then so it is
-- afterwards.
pub serve_activities-Sound :
    (requests : List (ℕ × ActivityRequest)) (db : Db)
    → Sound db.activities
    → Sound (serve_activities requests db).activities
unfolding serve_activities
serve_activities-Sound [] db h = h
serve_activities-Sound ((now, r) ∷ rest) db h =
    serve_activities-Sound rest _ (handle_activity-keeps now r db h)
