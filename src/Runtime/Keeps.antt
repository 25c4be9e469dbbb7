-- ===== src/Runtime/Keeps.antt =====
-- Predicates on a component's state that an action keeps, whether it returns or raises.
use test_cusa.Prelude.{Bool, true, false, if◌then◌else◌}
use test_cusa.Runtime.Monad.{Action, Result, ok, raise, Exn, Io, pure, throw, time, uuid, ◌>>=◌}
use test_cusa.Runtime.External.{Env}

pub record Keeps {C A : Type 0} (P : C → Type 0) (m : Action C A) : Type 0 where
  pub at : (c : C) (w : Io) → P c → P (m c w).1

module _ {C A : Type 0} {P : C → Type 0} where
  pub Keeps-pure : (a : A) → Keeps P (pure a)
  Keeps-pure a = record { at = λ c w h. h }

  pub Keeps-throw : (e : Exn) → Keeps P (throw {A = A} e)
  Keeps-throw e = record { at = λ c w h. h }

  pub Keeps-if :
      (b : Bool) (m n : Action C A) → Keeps P m → Keeps P n → Keeps P (if b then m else n)
  Keeps-if true m n km kn = km
  Keeps-if false m n km kn = kn

module _ {C : Type 0} {P : C → Type 0} where
  pub Keeps-uuid : {Amount : Type 0} (env : Env Amount) → Keeps P (uuid {C = C} env)
  Keeps-uuid env = record { at = λ c w h. h }

  pub Keeps-time : {Amount : Type 0} (env : Env Amount) → Keeps P (time {C = C} env)
  Keeps-time env = record { at = λ c w h. h }

module _ {C A B : Type 0} {P : C → Type 0} where
  rest :
      (f : A → Action C B)
      → ((a : A) → Keeps P (f a))
      → (r : Result A) (c : C) (w : Io) → P c
      → P (let bound : Action C B = (λ c' w'. (r, c', w')) >>= f in bound c w).1
  rest f kf (ok a) c w h = (kf a).at c w h
  rest f kf (raise e) c w h = h

  pub Keeps-bind :
      (m : Action C A) (f : A → Action C B)
      → Keeps P m
      → ((a : A) → Keeps P (f a))
      → Keeps P (m >>= f)
  Keeps-bind m f km kf = record {
    at = λ c w h. let (r, c', w') = m c w in rest f kf r c' w' (km.at c w h);
  }
