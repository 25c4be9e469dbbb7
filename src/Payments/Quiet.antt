-- ===== src/Payments/Quiet.antt =====
-- What the endpoint of app/main.py writes to the audit log itself: rejections only.
use mathlib.Core.Option
use test_cusa.Prelude.{◌+◌, ◌≡◌, refl, arith, String, not, Option, none, some, List}
use test_cusa.Runtime.{Env, Action, AuditEvent, Dict, Value, Io}
use test_cusa.Runtime.Quiet.{Quiet, Quiet-bind, Quiet-if, Quiet-pure, Quiet-uuid}
use test_cusa.Runtime.Convert.{get_default}
use test_cusa.Config.{Settings}
use test_cusa.Audit.{audit_auth_failure}
use test_cusa.Audit.Quiet.{Ignores}
use test_cusa.Credentials.Manager.{
  CredentialManager, get_current_credential, get_fallback_credential,
}
use test_cusa.Models.{PaymentResponse}
use test_cusa.Gateway.{GatewayClient, Payment}
use test_cusa.Gateway.Quiet.{authorize_payment-Quiet as gateway-Quiet}
use test_cusa.Payments.Handler.{
  App, Reply, authorize_payment, authorize_body, answer_or, prepare, validate_api_key,
  require_credentials, look_up, call_gateway, with_gateway, on_gateway, finish, respond, text_field,
  is_missing, mem, text_of,
}

module _ {N Amount : Type 0} {f : List AuditEvent → N} (env : Env Amount)
    (settings : Settings) where
  require_credentials-Quiet : Quiet f (require_credentials env settings)
  unfolding require_credentials
  require_credentials-Quiet = record { at = λ a w. ground arith }

  look_up-Quiet : (key : String) → Quiet f (look_up env settings key)
  unfolding look_up
  look_up-Quiet key = record { at = λ a w. refl }

  on_gateway-Quiet :
      (g : GatewayClient) (act : Action GatewayClient Dict)
      → Quiet f act
      → Quiet f (on_gateway env settings g act)
  unfolding on_gateway
  on_gateway-Quiet g act quiet = record { at = λ a w. ground (arith, quiet.at g w) }

  held_lem :
      (act : Action GatewayClient Dict) (a : App Amount) (w : Io) (held : Option GatewayClient)
      → Quiet f act
      → a.gateway_client ≡ held
      → f (with_gateway env settings act a w).2.audit ≡ f w.audit
  unfolding with_gateway
  held_lem act a w none quiet there = ground (arith, there)
  held_lem act a w (some g) quiet there =
      ground (arith, there, (on_gateway-Quiet g act quiet).at a w)

  with_gateway-Quiet :
      (act : Action GatewayClient Dict) → Quiet f act → Quiet f (with_gateway env settings act)
  with_gateway-Quiet act quiet = record { at = λ a w. held_lem act a w a.gateway_client quiet refl }

  text_field-Quiet : (v : Value) → Quiet f (text_field {C = App Amount} v)
  text_field-Quiet v = record { at = λ a w. ground arith }

  respond-Quiet :
      (p : Payment Amount) (answer : Dict) (transaction_id : String)
      → Quiet f (respond env settings p answer transaction_id)
  unfolding respond
  respond-Quiet p answer transaction_id = record { at = λ a w. refl }

  finish-Quiet : (p : Payment Amount) (answer : Dict) → Quiet f (finish env settings p answer)
  unfolding finish
  finish-Quiet p answer = Quiet-bind _ _ (Quiet-uuid env) λ made.
      Quiet-bind _ _ (text_field-Quiet (get_default "transaction_id" (Value.text made) answer))
        λ id. respond-Quiet p answer id

  answer_or-Quiet :
      (found : Option (PaymentResponse Amount)) (rest : Action (App Amount) (Reply Amount))
      → Quiet f rest
      → Quiet f (answer_or env settings found rest)
  answer_or-Quiet none rest quiet = quiet
  answer_or-Quiet (some r) rest quiet = Quiet-pure _

  module _ (ignored : Ignores f "auth_failure") where
    validate_api_key-Quiet :
        (k : Option String) (id : String) → Quiet f (validate_api_key env settings k id)
    unfolding validate_api_key audit_auth_failure
    validate_api_key-Quiet k id =
        Quiet-if (is_missing k) _ _ (record { at = λ a w. ignored.at _ w.audit refl })
          (Quiet-if (not (mem (text_of k) settings.api_keys)) _ _
            (record { at = λ a w. ignored.at _ w.audit refl }) (Quiet-pure tt))

    prepare-Quiet :
        (p : Payment Amount) (id k : Option String) → Quiet f (prepare env settings p id k)
    unfolding prepare
    prepare-Quiet p id k = Quiet-bind _ _ (Quiet-uuid env) λ made.
        Quiet-bind _ _ (validate_api_key-Quiet k (Option.get_or id made)) λ _.
          Quiet-bind _ _ require_credentials-Quiet
            λ m. Quiet-bind _ _ (look_up-Quiet p.idempotency_key) λ found. Quiet-pure (m, found)

    call_gateway-Quiet :
        (m : CredentialManager) (p : Payment Amount) → Quiet f (call_gateway env settings m p)
    unfolding call_gateway
    call_gateway-Quiet m p =
        with_gateway-Quiet _
          (gateway-Quiet env ignored (get_current_credential m) (get_fallback_credential m) p)

    authorize_body-Quiet :
        (p : Payment Amount) (id k : Option String) → Quiet f (authorize_body env settings p id k)
    unfolding authorize_body
    authorize_body-Quiet p id k = Quiet-bind _ _ (prepare-Quiet p id k) λ ready.
        answer_or-Quiet ready.1 _
          (Quiet-bind _ _ (call_gateway-Quiet ready.0 p) λ answer. finish-Quiet p answer)

    pub authorize_payment-Quiet :
        (p : Payment Amount) (id k : Option String)
        → Quiet f (authorize_payment env settings p id k)
    unfolding authorize_payment
    authorize_payment-Quiet p id k = record {
      at = λ a w. (authorize_body-Quiet p id k).at (record a { in_flight = a.in_flight + 1 }) w;
    }
