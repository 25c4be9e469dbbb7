-- ===== src/Payments/Calls.antt =====
-- Actions of the gateway client in app/main.py: one after the other, and what they leave.
use test_cusa.Prelude.{◌≡◌, refl, Option, none, some}
use test_cusa.Runtime.{Env, Action, Io, Result, ok, raise, pure, lift, ◌>>=◌, Dict}
use test_cusa.Runtime.Binds.{Ensures, onward}
use test_cusa.Config.{Settings}
use test_cusa.Gateway.{GatewayClient}
use test_cusa.Payments.Handler.{App, on_gateway, with_gateway, translate, translate}

module _ {Amount : Type 0} where
  -- The application holds a gateway client.
  abbrev pub Holds : App Amount → Type 0
  Holds a = (g : GatewayClient) × (a.gateway_client ≡ some g)

module _ {Amount : Type 0} (env : Env Amount) (settings : Settings) where
  on_gateway-lift :
      {A B : Type 0} (f : A → Action GatewayClient B) (r : Result A) (g : GatewayClient)
      (a : App Amount) (w : Io)
      → on_gateway env settings g (lift r >>= f) a w
        ≡ (on_gateway env settings g (lift r) >>= λ x. with_gateway env settings (f x)) a w
  unfolding on_gateway with_gateway
  on_gateway-lift f (ok x) g a w = refl
  on_gateway-lift f (raise e) g a w = refl

  -- Two actions of the gateway client, one after the other.
  pub with_gateway_>>= :
      {A B : Type 0} (m : Action GatewayClient A) (f : A → Action GatewayClient B) (a : App Amount)
      (w : Io)
      → with_gateway env settings (m >>= f) a w
        ≡ (with_gateway env settings m >>= λ x. with_gateway env settings (f x)) a w
  unfolding with_gateway
  with_gateway_>>= m f a w = held_lem a.gateway_client
    where
      held_lem :
          (held : Option GatewayClient)
          → (let a' = record a { gateway_client = held } in
              with_gateway env settings (m >>= f) a' w
              ≡ (with_gateway env settings m >>= λ x. with_gateway env settings (f x)) a' w)
      held_lem none = refl
      held_lem (some g) = let (r, g', w') = m g w in on_gateway-lift f r g' a w'

  on_gateway-Holds :
      {A : Type 0} (r : Result A) (g : GatewayClient) (a : App Amount) (w : Io)
      → Ensures Holds (on_gateway env settings g (lift r) a w)
  unfolding on_gateway
  on_gateway-Holds (ok x) g a w = (g, refl)
  on_gateway-Holds (raise e) g a w = tt

  pub with_gateway-Holds :
      {A : Type 0} (m : Action GatewayClient A) (a : App Amount) (w : Io)
      → Ensures Holds (with_gateway env settings m a w)
  unfolding with_gateway
  with_gateway-Holds m a w = held_lem a.gateway_client
    where
      held_lem :
          (held : Option GatewayClient)
          → Ensures Holds (with_gateway env settings m (record a { gateway_client = held }) w)
      held_lem none = tt
      held_lem (some g) = let (r, g', w') = m g w in on_gateway-Holds r g' a w'

  -- With a gateway client, an action that does nothing with it does nothing.
  pub with_gateway-lift :
      (r : Result Dict) (a : App Amount) (w : Io)
      → Holds a
      → with_gateway env settings (lift r) a w
        ≡ onward (λ d. pure d) (elim r [ ok d ↦ ok d | raise e ↦ raise (translate e) ], a, w)
  unfolding with_gateway
  with_gateway-lift r a w (g, e) = held_lem r a.gateway_client e
    where
      held_lem :
          (r : Result Dict) (held : Option GatewayClient)
          → held ≡ some g
          → (let a' = record a { gateway_client = held } in
              with_gateway env settings (lift r) a' w
              ≡ onward
                  (λ d. pure d)
                  (elim r [ ok d ↦ ok d | raise e ↦ raise (translate e) ], a', w))
      held_lem r none e = cc
      held_lem (ok d) (some g') e = refl
      held_lem (raise x) (some g') e = refl
