-- ===== src/Session/Keeps.antt =====
-- An invariant of the database that a transaction keeps, in what it sees and in what it commits.
use seraphim.Common.{Bool, true, false, Option, none, some, if◌then◌else◌}
use seraphim.Models.{Db}
use seraphim.Session.{
  Fault, Result, ok, err, Session, Tx, pure, raise, lift, gets, or_raise, continue, ◌>>=◌, modify,
  commit, rollback, raise_unless, swallow, handle_logged, request,
}

pub record Holds (P : Db → Type 0) (s : Session) : Type 0 where
  pub committed : P s.committed
  pub work : P s.work

pub record Keeps {A : Type 0} (P : Db → Type 0) (m : Tx A) : Type 0 where
  pub at : (s : Session) → Holds P s → Holds P (m s).1

module _ {P : Db → Type 0} where
  pub Keeps-modify : (f : Db → Db) → ((db : Db) → P db → P (f db)) → Keeps P (modify f)
  unfolding modify
  Keeps-modify f keep = record {
    at = λ s h. record { committed = h.committed; work = keep s.work h.work };
  }

  pub Keeps-commit : Keeps P commit
  unfolding commit
  Keeps-commit = record { at = λ s h. record { committed = h.work; work = h.work } }

  pub Keeps-rollback : Keeps P rollback
  unfolding rollback
  Keeps-rollback = record { at = λ s h. record { committed = h.committed; work = h.committed } }

  pub Keeps-swallow : (m : Tx (Unit {0})) → Keeps P m → Keeps P (swallow m)
  unfolding swallow
  Keeps-swallow m k = record { at = λ s h. go (m s).0 (m s).1 (k.at s h) }
    where
      go : (r : Result (Unit {0})) (t : Session) → Holds P t → Holds P (handle_logged r t).1
      go (ok a) t h = h
      go (err e) t h = h

  pub Keeps-raise_unless : (b : Bool) (e : Fault) → Keeps P (raise_unless b e)
  unfolding raise_unless
  Keeps-raise_unless true e = record { at = λ s h. h }
  Keeps-raise_unless false e = record { at = λ s h. h }

  module _ {A : Type 0} where
    pub Keeps-gets : (read : Db → A) → Keeps P (gets read)
    unfolding gets
    Keeps-gets read = record { at = λ s kept. kept }

    pub Keeps-or_raise : (e : Fault) (o : Option A) → Keeps P (or_raise e o)
    unfolding or_raise
    Keeps-or_raise e none = record { at = λ s kept. kept }
    Keeps-or_raise e (some a) = record { at = λ s kept. kept }

    pub Keeps-pure : (value : A) → Keeps P (pure value)
    unfolding pure
    Keeps-pure value = record { at = λ s kept. kept }

    pub Keeps-lift : (result : Result A) → Keeps P (lift result)
    unfolding lift
    Keeps-lift result = record { at = λ s kept. kept }

    pub Keeps-raise : (e : Fault) → Keeps P (raise {A = A} e)
    unfolding raise
    Keeps-raise e = record { at = λ s kept. kept }

    pub Keeps-if : (b : Bool) (m n : Tx A) → Keeps P m → Keeps P n → Keeps P (if b then m else n)
    Keeps-if true m n km kn = km
    Keeps-if false m n km kn = kn

    pub Keeps-request : (m : Tx A) (db : Db) → Keeps P m → P db → P (request m db).1
    unfolding request
    Keeps-request m db k h = (k.at _ (record { committed = h; work = h })).committed

  pub Keeps-bind :
      {A B : Type 0} (m : Tx A) (f : A → Tx B)
      → Keeps P m
      → ((a : A) → Keeps P (f a))
      → Keeps P (m >>= f)
  unfolding ◌>>=◌
  Keeps-bind {A} {B} m f km kf = record { at = λ s h. go (m s).0 (m s).1 (km.at s h) }
    where
      go : (r : Result A) (t : Session) → Holds P t → Holds P (continue r f t).1
      go (ok a) t h = (kf a).at t h
      go (err e) t h = h

pub ruleset keeps_rules = (
  Keeps-pure, Keeps-raise, Keeps-lift, Keeps-gets, Keeps-or_raise, Keeps-if, Keeps-commit,
  Keeps-rollback, Keeps-raise_unless, Keeps-swallow, Keeps-bind,
)
