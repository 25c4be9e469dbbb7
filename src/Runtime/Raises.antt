-- ===== src/Runtime/Raises.antt =====
-- What an action may raise.
use test_cusa.Prelude.{Bool, true, false, if◌then◌else◌}
use test_cusa.Runtime.Monad.{
  Action, Result, ok, raise, Exn, Io, pure, throw, lift, time, uuid, ◌>>=◌,
}
use test_cusa.Runtime.External.{Env}

-- A result is no exception but one with the property.
abbrev pub Fails : {A : Type 0} → (Exn → Type 0) → Result A → Type 0
Fails P (ok a) = Unit
Fails P (raise e) = P e

pub record Raises {C A : Type 0} (P : Exn → Type 0) (m : Action C A) : Type 0 where
  pub at : (c : C) (w : Io) → Fails P (m c w).0

module _ {C A : Type 0} {P : Exn → Type 0} where
  pub Raises-pure : (a : A) → Raises {C = C} P (pure a)
  Raises-pure a = record { at = λ c w. tt }

  pub Raises-throw : (e : Exn) → P e → Raises {C = C} {A = A} P (throw e)
  Raises-throw e p = record { at = λ c w. p }

  pub Raises-if :
      (b : Bool) (m n : Action C A) → Raises P m → Raises P n → Raises P (if b then m else n)
  Raises-if true m n rm rn = rm
  Raises-if false m n rm rn = rn

module _ {C A B : Type 0} {P : Exn → Type 0} where
  lift-Raises :
      (f : A → Action C B)
      → ((a : A) → Raises P (f a))
      → (r : Result A) → Fails P r
      → (c : C) (w : Io) → Fails P ((lift r >>= f) c w).0
  lift-Raises f rf (ok a) h c w = (rf a).at c w
  lift-Raises f rf (raise e) h c w = h

  pub Raises-bind :
      (m : Action C A) (f : A → Action C B)
      → Raises P m
      → ((a : A) → Raises P (f a))
      → Raises P (m >>= f)
  Raises-bind m f rm rf = record {
    at = λ c w. let (r, c', w') = m c w in lift-Raises f rf r (rm.at c w) c' w';
  }

module _ {C Amount : Type 0} {P : Exn → Type 0} (env : Env Amount) where
  pub Raises-uuid : Raises {C = C} P (uuid env)
  Raises-uuid = record { at = λ c w. tt }

  pub Raises-time : Raises {C = C} P (time env)
  Raises-time = record { at = λ c w. tt }
