-- ===== src/Runtime/Blind.antt =====
-- Two actions that differ only in what they do with disguised values: one runs on the disguised
-- state, and comes to the disguised result, with the same effects on the outside world.
use test_cusa.Prelude.{◌≡◌, refl, ap, ◌∙◌, Bool, true, false, if◌then◌else◌}
use test_cusa.Runtime.Monad.{Action, Result, ok, raise, Exn, Io, throw, lift, ◌>>=◌}

abbrev pub map_result : {A B : Type 0} → (A → B) → Result A → Result B
map_result f (ok a) = ok (f a)
map_result f (raise e) = raise e

-- The outcome of an action, disguised.
abbrev pub image : {C A : Type 0} → (C → C) → (A → A) → Result A × C × Io → Result A × C × Io
image s f (r, c, w) = (map_result f r, s c, w)

pub record Blind {C A : Type 0} (s : C → C) (f : A → A) (m m' : Action C A) : Type 0 where
  pub at : (c : C) (w : Io) → m' (s c) w ≡ image s f (m c w)

module _ {C A : Type 0} {s : C → C} {f : A → A} where
  pub Blind-throw : (e : Exn) → Blind s f (throw e) (throw e)
  Blind-throw e = record { at = λ c w. refl }

  pub Blind-if :
      (b : Bool) (m n m' n' : Action C A)
      → Blind s f m m'
      → Blind s f n n'
      → Blind s f (if b then m else n) (if b then m' else n')
  Blind-if true m n m' n' bm bn = bm
  Blind-if false m n m' n' bm bn = bn

module _ {C A B : Type 0} {s : C → C} {f : A → A} {g : B → B} where
  lift-Blind :
      (k k' : A → Action C B)
      → ((a : A) → Blind s g (k a) (k' (f a)))
      → (r : Result A) (c : C) (w : Io)
      → (lift (map_result f r) >>= k') (s c) w ≡ image s g ((lift r >>= k) c w)
  lift-Blind k k' bk (ok a) c w = (bk a).at c w
  lift-Blind k k' bk (raise e) c w = refl

  pub Blind-bind :
      (m m' : Action C A) (k k' : A → Action C B)
      → Blind s f m m'
      → ((a : A) → Blind s g (k a) (k' (f a)))
      → Blind s g (m >>= k) (m' >>= k')
  Blind-bind m m' k k' bm bk = record {
    at = λ c w.
        let (r, c1, w1) = m c w in
        ap (λ (x : Result A × C × Io). (lift x.0 >>= k') x.1 x.2) (bm.at c w)
        ∙ lift-Blind k k' bk r c1 w1;
  }
