-- ===== src/Runtime/Quiet.antt =====
-- Actions that leave a reading of the audit log as it is.
use test_cusa.Prelude.{◌≡◌, refl, ◌∙◌, Bool, true, false, List, Option, none, some, if◌then◌else◌}
use test_cusa.Runtime.Monad.{
  Action, Result, ok, raise, Exn, Io, AuditEvent, pure, throw, lift, time, uuid, ◌>>=◌,
}
use test_cusa.Runtime.External.{Env}

pub record Quiet {N C A : Type 0} (f : List AuditEvent → N) (m : Action C A) : Type 0 where
  pub at : (c : C) (w : Io) → f (m c w).2.audit ≡ f w.audit

module _ {N C A : Type 0} {f : List AuditEvent → N} where
  pub Quiet-pure : (a : A) → Quiet f (pure {C = C} a)
  Quiet-pure a = record { at = λ c w. refl }

  pub Quiet-throw : (e : Exn) → Quiet f (throw {C = C} {A = A} e)
  Quiet-throw e = record { at = λ c w. refl }

  pub Quiet-lift : (r : Result A) → Quiet f (lift {C = C} r)
  Quiet-lift (ok a) = record { at = λ c w. refl }
  Quiet-lift (raise e) = record { at = λ c w. refl }

  pub Quiet-if :
      (b : Bool) (m n : Action C A) → Quiet f m → Quiet f n → Quiet f (if b then m else n)
  Quiet-if true m n qm qn = qm
  Quiet-if false m n qm qn = qn

module _ {N C A B : Type 0} {f : List AuditEvent → N} where
  lift-Quiet :
      (k : A → Action C B)
      → ((a : A) → Quiet f (k a))
      → (r : Result A) (c : C) (w : Io) → f ((lift r >>= k) c w).2.audit ≡ f w.audit
  lift-Quiet k qk (ok a) c w = (qk a).at c w
  lift-Quiet k qk (raise e) c w = refl

  pub Quiet-bind :
      (m : Action C A) (k : A → Action C B)
      → Quiet f m
      → ((a : A) → Quiet f (k a))
      → Quiet f (m >>= k)
  Quiet-bind m k qm qk = record {
    at = λ c w. let (r, c', w') = m c w in lift-Quiet k qk r c' w' ∙ qm.at c w;
  }

  pub Quiet-elim :
      (o : Option A) (m : Action C B) (k : A → Action C B)
      → Quiet f m
      → ((a : A) → Quiet f (k a))
      → Quiet f (elim o [ none ↦ m | some a ↦ k a ])
  Quiet-elim none m k qm qk = qm
  Quiet-elim (some a) m k qm qk = qk a

module _ {N C Amount : Type 0} {f : List AuditEvent → N} (env : Env Amount) where
  pub Quiet-time : Quiet f (time {C = C} env)
  Quiet-time = record { at = λ c w. refl }

  pub Quiet-uuid : Quiet f (uuid {C = C} env)
  Quiet-uuid = record { at = λ c w. refl }
