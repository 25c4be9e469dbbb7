-- ===== src/Payments/InFlight.antt =====
-- The request counter of app/main.py: whatever an authorization does, it leaves the counter as it
-- was, so the shutdown waits for exactly the requests that run.
use mathlib.Core.Option
use test_cusa.Prelude.{ℕ, ◌+◌, ◌≡◌, refl, String, Option, none, some, arith}
use test_cusa.Runtime.{Env, Action, Io, Dict}
use test_cusa.Runtime.Keeps.{Keeps, Keeps-pure, Keeps-uuid, Keeps-bind}
use test_cusa.Config.{Settings}
use test_cusa.Audit.{audit_auth_failure}
use test_cusa.Credentials.Manager.{CredentialManager}
use test_cusa.Gateway.{GatewayClient, Payment}
use test_cusa.Models.{PaymentResponse}
use test_cusa.Payments.Handler.{
  App, Reply, validate_api_key, require_credentials, look_up, prepare, call_gateway, with_gateway,
  finish, respond, authorize_body, authorize_payment, answer_or,
}

module _ {Amount : Type 0} (env : Env Amount) (settings : Settings) (n : ℕ) where
  abbrev pub Counts : App Amount → Type 0
  Counts a = a.in_flight ≡ n

  validate_api_key-Counts :
      (k : Option String) (id : String) → Keeps Counts (validate_api_key env settings k id)
  unfolding validate_api_key audit_auth_failure
  validate_api_key-Counts k id = record { at = λ a w h. ground arith }

  require_credentials-Counts : Keeps Counts (require_credentials env settings)
  unfolding require_credentials
  require_credentials-Counts = record { at = λ a w h. ground arith }

  look_up-Counts : (key : String) → Keeps Counts (look_up env settings key)
  unfolding look_up
  look_up-Counts key = record { at = λ a w h. ground arith }

  pub with_gateway-Counts :
      {A : Type 0} (act : Action GatewayClient A) → Keeps Counts (with_gateway env settings act)
  unfolding with_gateway
  with_gateway-Counts act = record { at = λ a w h. ground arith }

  call_gateway-Counts :
      (m : CredentialManager) (p : Payment Amount) → Keeps Counts (call_gateway env settings m p)
  unfolding call_gateway
  call_gateway-Counts m p = with_gateway-Counts _

  pub finish-Counts : (p : Payment Amount) (d : Dict) → Keeps Counts (finish env settings p d)
  unfolding finish respond
  finish-Counts p d = record { at = λ a w h. ground arith }

  answer_or-Counts :
      (found : Option (PaymentResponse Amount)) (act : Action (App Amount) (Reply Amount))
      → Keeps Counts act
      → Keeps Counts (answer_or env settings found act)
  answer_or-Counts none act k = k
  answer_or-Counts (some r) act k = Keeps-pure (Reply.cached r)

  pub prepare-Counts :
      (p : Payment Amount) (id k : Option String) → Keeps Counts (prepare env settings p id k)
  unfolding prepare
  prepare-Counts p id k = Keeps-bind _ _ (Keeps-uuid env) λ made.
      Keeps-bind _ _ (validate_api_key-Counts k (Option.get_or id made)) λ _.
        Keeps-bind _ _ require_credentials-Counts
          λ m. Keeps-bind _ _ (look_up-Counts p.idempotency_key) λ found. Keeps-pure (m, found)

  authorize_body-Counts :
      (p : Payment Amount) (id : Option String) (k : Option String)
      → Keeps Counts (authorize_body env settings p id k)
  unfolding authorize_body
  authorize_body-Counts p id k = Keeps-bind _ _ (prepare-Counts p id k) λ ready.
      answer_or-Counts ready.1 _ (Keeps-bind _ _ (call_gateway-Counts ready.0 p) (finish-Counts p))

-- An authorization leaves the number of requests in flight as it found it, however it ends.
pub authorize_payment-in_flight :
    {Amount : Type 0} (env : Env Amount) (settings : Settings) (p : Payment Amount)
    (id : Option String) (k : Option String) (a : App Amount) (w : Io)
    → (authorize_payment env settings p id k a w).1.in_flight ≡ a.in_flight
unfolding authorize_payment
authorize_payment-in_flight env settings p id k a w = omega (
  arith,
  (authorize_body-Counts env settings (a.in_flight + 1) p id k).at
      (record a { in_flight = a.in_flight + 1 }) w refl,
)
