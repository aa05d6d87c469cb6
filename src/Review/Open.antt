-- ===== src/Review/Open.antt =====
-- What the checks of `open_task` and `_require_member` establish. They only read.
use seraphim.Common.{
  ℕ, ◌≡◌, refl, true, Bool, Option, none, some, List, [], ◌∷◌, count, is_some, not, false, length,
  length-where_, sym, ◌∙◌,
}
use seraphim.Common.Table.{find}
use seraphim.Models.{Task}
use seraphim.Session.{Fault, raise_unless, Result, ok, err, Tx, Session, one_or_none, ◌>>=◌, pure}
use seraphim.Session.Rules.{
  After, bind-after, gets-then, or_raise-then, raise_unless-then, lift-then,
}
use seraphim.Review.{open_task, acted, is_open, require_member}

none_of_one {ℓ} :
    {A : Type ℓ} (xs : List A) (o : Option A)
    → one_or_none xs ≡ ok o
    → not (is_some o) ≡ true
    → length xs ≡ 0
unfolding one_or_none
none_of_one [] o h k = refl
none_of_one (x ∷ []) none h k = cc
none_of_one (x ∷ []) (some y) h k = cc
none_of_one (x ∷ y ∷ xs) o h k = cc

module _ (task_id volunteer_id : ℕ) where
  -- The task is there and open, and the volunteer has not acted on it.
  pub record IsOpened (s : Session) (task : Task) : Type 0 where
    pub row : find task_id s.work.tasks ≡ some task
    pub open_ : is_open task.status ≡ true
    pub untouched : count (acted task_id volunteer_id) s.work.actions ≡ 0

  pub open_task-then {ℓ} :
      {B : Type 0} (R : Result B × Session → Type ℓ) (f : Task → Tx B) (s : Session)
      → ((task : Task) → IsOpened s task → R (f task s))
      → ((e : Fault) → R (err e, s))
      → R ((open_task task_id volunteer_id >>= f) s)
  unfolding open_task pure
  open_task-then R f s opened failed =
      let Q = After R f in
      bind-after R (open_task task_id volunteer_id) f s (
        gets-then Q _ _ s (
          or_raise-then Q _ _ _ s
            (λ task row.
              raise_unless-then Q _ _ _ s
                (λ is_open_now. gets-then Q _ _ s (
                  lift-then Q _ _ s
                    (λ o one.
                      raise_unless-then Q _ _ _ s
                        (λ absent. opened task (record {
                          row = row;
                          open_ = is_open_now;
                          untouched =
                              sym (length-where_ (acted task_id volunteer_id) s.work.actions)
                              ∙ none_of_one _ o one absent;
                        }))
                        (λ _. failed _))
                    (λ e _. failed e)))
                (λ _. failed _))
            (λ _. failed _)))

pub require_member-then {ℓ} :
    {B : Type 0} (R : Result B × Session → Type ℓ) (m : ℕ) (f : Unit {0} → Tx B) (s : Session)
    → R (f tt s)
    → R (err Fault.member_not_found, s)
    → R ((require_member m >>= f) s)
unfolding ◌>>=◌
require_member-then R m f s found absent = go (is_some (find m s.work.contacts))
  where
    go : (b : Bool) → After R f (raise_unless b Fault.member_not_found s)
    go true = found
    go false = absent
