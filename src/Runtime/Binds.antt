-- ===== src/Runtime/Binds.antt =====
-- Laws of actions: grouping, and equal continuations.
use test_cusa.Prelude.{◌≡◌, refl}
use test_cusa.Runtime.Monad.{Action, Result, ok, raise, Io, pure, lift, ◌>>=◌}

-- An action, after what an earlier one did.
abbrev pub onward : {C A B : Type 0} → (A → Action C B) → Result A × C × Io → Result B × C × Io
onward f (r, c, w) = (lift r >>= f) c w

module _ {C A B : Type 0} where
  lift_ext :
      (f f' : A → Action C B)
      → ((a : A) (c : C) (w : Io) → f a c w ≡ f' a c w)
      → (r : Result A) (c : C) (w : Io) → (lift r >>= f) c w ≡ (lift r >>= f') c w
  lift_ext f f' e (ok a) c w = e a c w
  lift_ext f f' e (raise x) c w = refl

  -- Actions that go on alike are alike.
  pub >>=-ext :
      (m : Action C A) (f f' : A → Action C B)
      → ((a : A) (c : C) (w : Io) → f a c w ≡ f' a c w)
      → (c : C) (w : Io) → (m >>= f) c w ≡ (m >>= f') c w
  >>=-ext m f f' e c w = let (r, c', w') = m c w in lift_ext f f' e r c' w'

module _ {C A B D : Type 0} where
  lift_assoc :
      (f : A → Action C B) (g : B → Action C D) (r : Result A) (c : C) (w : Io)
      → ((lift r >>= f) >>= g) c w ≡ (lift r >>= λ a. f a >>= g) c w
  lift_assoc f g (ok a) c w = refl
  lift_assoc f g (raise x) c w = refl

  pub >>=_assoc :
      (m : Action C A) (f : A → Action C B) (g : B → Action C D) (c : C) (w : Io)
      → ((m >>= f) >>= g) c w ≡ (m >>= λ a. f a >>= g) c w
  >>=_assoc m f g c w = let (r, c', w') = m c w in lift_assoc f g r c' w'

module _ {C A : Type 0} where
  lift-pure : (r : Result A) (c : C) (w : Io) → (lift r >>= pure) c w ≡ (r, c, w)
  lift-pure (ok a) c w = refl
  lift-pure (raise x) c w = refl

  pub >>=_pure : (m : Action C A) (c : C) (w : Io) → (m >>= pure) c w ≡ m c w
  >>=_pure m c w = let (r, c', w') = m c w in lift-pure r c' w'

  -- An action that returned left a state with the property.
  abbrev pub Ensures : (C → Type 0) → Result A × C × Io → Type 0
  Ensures P (ok a, c, w) = P c
  Ensures P (raise e, c, w) = Unit

module _ {C A B : Type 0} (P : C → Type 0) where
  lift_ext_on :
      (f f' : A → Action C B)
      → ((a : A) (c : C) (w : Io) → P c → f a c w ≡ f' a c w)
      → (r : Result A) (c : C) (w : Io) → Ensures P (r, c, w)
      → (lift r >>= f) c w ≡ (lift r >>= f') c w
  lift_ext_on f f' e (ok a) c w h = e a c w h
  lift_ext_on f f' e (raise x) c w h = refl

  -- Actions that go on alike from the states that may occur are alike.
  pub >>=-ext_on :
      (m : Action C A) (f f' : A → Action C B)
      → ((c : C) (w : Io) → Ensures P (m c w))
      → ((a : A) (c : C) (w : Io) → P c → f a c w ≡ f' a c w)
      → (c : C) (w : Io) → (m >>= f) c w ≡ (m >>= f') c w
  >>=-ext_on m f f' h e c w = let (r, c', w') = m c w in lift_ext_on f f' e r c' w' (h c w)
