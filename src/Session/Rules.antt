-- ===== src/Session/Rules.antt =====
-- Proof rules for a property `R` of the outcome of a transaction, one for each way that it begins.
use seraphim.Common.{◌≡◌, refl, Bool, true, false, Option, none, some}
use seraphim.Models.{Db}
use seraphim.Session.{
  Fault, Result, ok, err, Session, Tx, lift, gets, or_raise, raise_unless, modify, continue, ◌>>=◌,
}

module _ {ℓ} {B : Type 0} (R : Result B × Session → Type ℓ) where
  pub gets-then :
      {A : Type 0} (g : Db → A) (f : A → Tx B) (s : Session)
      → R (f (g s.work) s)
      → R ((gets g >>= f) s)
  unfolding ◌>>=◌
  gets-then g f s h = h

  pub modify-then :
      (g : Db → Db) (f : Unit {0} → Tx B) (s : Session)
      → R (f tt (record s { work = g s.work }))
      → R ((modify g >>= f) s)
  unfolding ◌>>=◌
  modify-then g f s h = h

  pub or_raise-then :
      {A : Type 0} (e : Fault) (o : Option A) (f : A → Tx B) (s : Session)
      → ((a : A) → o ≡ some a → R (f a s))
      → (o ≡ none → R (err e, s))
      → R ((or_raise e o >>= f) s)
  unfolding ◌>>=◌
  or_raise-then e none f s found absent = absent refl
  or_raise-then e (some a) f s found absent = found a refl

  pub lift-then :
      {A : Type 0} (r : Result A) (f : A → Tx B) (s : Session)
      → ((a : A) → r ≡ ok a → R (f a s))
      → ((e : Fault) → r ≡ err e → R (err e, s))
      → R ((lift r >>= f) s)
  unfolding ◌>>=◌
  lift-then (ok a) f s returned raised = returned a refl
  lift-then (err e) f s returned raised = raised e refl

  pub raise_unless-then :
      (b : Bool) (e : Fault) (f : Unit {0} → Tx B) (s : Session)
      → (b ≡ true → R (f tt s))
      → (b ≡ false → R (err e, s))
      → R ((raise_unless b e >>= f) s)
  unfolding ◌>>=◌
  raise_unless-then true e f s passed failed = passed refl
  raise_unless-then false e f s passed failed = failed refl

  -- `m` is any transaction: a property of its outcome, read through what follows.
  pub bind-then :
      {A : Type 0} (m : Tx A) (f : A → Tx B) (s : Session)
      → ((a : A) (t : Session) → m s ≡ (ok a, t) → R (f a t))
      → ((e : Fault) (t : Session) → m s ≡ (err e, t) → R (err e, t))
      → R ((m >>= f) s)
  unfolding ◌>>=◌
  bind-then {A} m f s returned raised = go (m s) refl
    where
      go : (p : Result A × Session) → m s ≡ p → R (continue p.0 f p.1)
      go (ok a, t) e = returned a t e
      go (err x, t) e = raised x t e

  pub or_raise-last :
      (e : Fault) (o : Option B) (s : Session)
      → ((a : B) → o ≡ some a → R (ok a, s))
      → (o ≡ none → R (err e, s))
      → R (or_raise e o s)
  unfolding or_raise
  or_raise-last e none s found absent = absent refl
  or_raise-last e (some a) s found absent = found a refl

-- `R` of what follows, as a property of what comes before.
abbrev pub After {ℓ} :
    {A B : Type 0} → (Result B × Session → Type ℓ) → (A → Tx B) → Result A × Session → Type ℓ
After R f p = R (continue p.0 f p.1)

pub bind-after {ℓ} :
    {A B : Type 0} (R : Result B × Session → Type ℓ) (m : Tx A) (f : A → Tx B) (s : Session)
    → After R f (m s)
    → R ((m >>= f) s)
unfolding ◌>>=◌
bind-after R m f s h = h
