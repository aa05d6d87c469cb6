-- ===== src/Session/Atomic.antt =====
-- Transactions that commit nothing, and transactions that have committed nothing when they raise.
use seraphim.Common.{◌≡◌, refl, ◌∙◌, Bool, true, false, Option, none, some, if◌then◌else◌}
use seraphim.Models.{Db}
use seraphim.Session.{
  Fault, Result, ok, err, Session, Tx, pure, raise, lift, gets, or_raise, raise_unless, modify,
  commit, rollback, swallow, handle_logged, continue, ◌>>=◌,
}

pub record Quiet {A : Type 0} (m : Tx A) : Type 0 where
  pub stays : (s : Session) → (m s).1.committed ≡ s.committed

pub record Atomic {A : Type 0} (m : Tx A) : Type 0 where
  pub unless_raised : (s : Session) (e : Fault) → (m s).0 ≡ err e → (m s).1.committed ≡ s.committed

pub Quiet-modify : (f : Db → Db) → Quiet (modify f)
unfolding modify
Quiet-modify f = record { stays = λ s. refl }

pub Quiet-rollback : Quiet rollback
unfolding rollback
Quiet-rollback = record { stays = λ s. refl }

pub Quiet-raise_unless : (b : Bool) (e : Fault) → Quiet (raise_unless b e)
unfolding raise_unless
Quiet-raise_unless true e = record { stays = λ s. refl }
Quiet-raise_unless false e = record { stays = λ s. refl }

pub Atomic-commit : Atomic commit
unfolding commit
Atomic-commit = record { unless_raised = λ s e h. cc }

pub Atomic-swallow : (m : Tx (Unit {0})) → Atomic m → Atomic (swallow m)
unfolding swallow
Atomic-swallow m k = record {
  unless_raised = λ s e h. go s (m s).0 (m s).1 (λ x y. k.unless_raised s x y) e h;
}
  where
    go :
        (s : Session) (r : Result (Unit {0})) (t : Session)
        → ((x : Fault) → r ≡ err x → t.committed ≡ s.committed)
        → (e : Fault) → (handle_logged r t).0 ≡ err e
        → (handle_logged r t).1.committed ≡ s.committed
    go s (ok a) t same e h = absurd (cc h)
    go s (err x) t same e h = same x refl

module _ {A : Type 0} where
  pub Quiet-gets : (read : Db → A) → Quiet (gets read)
  unfolding gets
  Quiet-gets read = record { stays = λ s. refl }

  pub Quiet-lift : (r : Result A) → Quiet (lift r)
  unfolding lift
  Quiet-lift r = record { stays = λ s. refl }

  pub Quiet-pure : (a : A) → Quiet (pure a)
  unfolding pure
  Quiet-pure a = record { stays = λ s. refl }

  pub Quiet-or_raise : (e : Fault) (o : Option A) → Quiet (or_raise e o)
  unfolding or_raise
  Quiet-or_raise e none = record { stays = λ s. refl }
  Quiet-or_raise e (some a) = record { stays = λ s. refl }

  pub Atomic-Quiet : (m : Tx A) → Quiet m → Atomic m
  Atomic-Quiet m q = record { unless_raised = λ s e h. q.stays s }

  pub Atomic-if : (b : Bool) (m n : Tx A) → Atomic m → Atomic n → Atomic (if b then m else n)
  Atomic-if true m n km kn = km
  Atomic-if false m n km kn = kn

  pub pure_total : (a : A) (s : Session) → (b : A) × ((pure a s).0 ≡ ok b)
  unfolding pure
  pure_total a s = (a, refl)

  pub Quiet-raise : (e : Fault) → Quiet (raise {A = A} e)
  unfolding raise
  Quiet-raise e = record { stays = λ s. refl }

  pub Quiet-if : (b : Bool) (m n : Tx A) → Quiet m → Quiet n → Quiet (if b then m else n)
  Quiet-if true m n km kn = km
  Quiet-if false m n km kn = kn

  module _ {B : Type 0} (m : Tx A) (f : A → Tx B) where
    pub Quiet-bind : Quiet m → ((a : A) → Quiet (f a)) → Quiet (m >>= f)
    unfolding ◌>>=◌
    Quiet-bind q k = record { stays = λ s. go s (m s).0 (m s).1 (q.stays s) }
      where
        go :
            (s : Session) (r : Result A) (t : Session)
            → t.committed ≡ s.committed
            → (continue r f t).1.committed ≡ s.committed
        go s (ok a) t same = (k a).stays t ∙ same
        go s (err x) t same = same

    pub Atomic-bind : Quiet m → ((a : A) → Atomic (f a)) → Atomic (m >>= f)
    unfolding ◌>>=◌
    Atomic-bind q k = record { unless_raised = λ s e h. go s (m s).0 (m s).1 (q.stays s) e h }
      where
        go :
            (s : Session) (r : Result A) (t : Session)
            → t.committed ≡ s.committed
            → (e : Fault) → (continue r f t).0 ≡ err e
            → (continue r f t).1.committed ≡ s.committed
        go s (ok a) t same e h = (k a).unless_raised t e h ∙ same
        go s (err x) t same e h = same

    -- What follows never raises.
    pub Atomic-then :
        Atomic m → ((a : A) (s : Session) → (b : B) × ((f a s).0 ≡ ok b)) → Atomic (m >>= f)
    unfolding ◌>>=◌
    Atomic-then k total = record {
      unless_raised = λ s e h. go s (m s).0 (m s).1 (λ x y. k.unless_raised s x y) e h;
    }
      where
        go :
            (s : Session) (r : Result A) (t : Session)
            → ((x : Fault) → r ≡ err x → t.committed ≡ s.committed)
            → (e : Fault) → (continue r f t).0 ≡ err e
            → (continue r f t).1.committed ≡ s.committed
        go s (ok a) t same e h = let (b, good) = total a t in cc (good, h)
        go s (err x) t same e h = same x refl

pub ruleset atomic_rules = (
  Quiet-modify, Quiet-raise_unless, Quiet-gets, Quiet-lift, Quiet-pure, Quiet-or_raise,
  Atomic-commit, Atomic-swallow, Atomic-Quiet, Atomic-if, Atomic-bind,
)

pub ruleset quiet_rules = (
  Quiet-modify, Quiet-rollback, Quiet-raise_unless, Quiet-gets, Quiet-lift, Quiet-pure,
  Quiet-or_raise, Quiet-raise, Quiet-if, Quiet-bind,
)
