-- ===== src/Payments/Errors.antt =====
-- What a client of `authorize_payment` in app/main.py may get in place of a response.
use mathlib.Core.Option
use test_cusa.Prelude.{suc, ◌+◌, String, not, Option, none, some}
use test_cusa.Runtime.{Env, Action, Io, Exn, Dict, Result, ok, raise, Value, lift, pure, throw}
use test_cusa.Runtime.Raises.{
  Fails, Raises, Raises-bind, Raises-if, Raises-throw, Raises-pure, Raises-uuid,
}
use test_cusa.Runtime.Convert.{get_default}
use test_cusa.Audit.{audit_auth_failure}
use test_cusa.Config.{Settings}
use test_cusa.Credentials.Manager.{
  CredentialManager, get_current_credential, get_fallback_credential, has_valid_credentials,
}
use test_cusa.Models.{PaymentResponse}
use test_cusa.Gateway
use test_cusa.Gateway.{GatewayClient, Payment}
use test_cusa.Gateway.Errors.{IsGatewayError, authorize_payment-Raises}
use test_cusa.Payments.Handler.{
  App, Reply, authorize_payment, authorize_body, answer_or, prepare, validate_api_key,
  require_credentials, look_up, call_gateway, with_gateway, on_gateway, finish, respond, text_field,
  translate, is_missing, mem, text_of, credential_error, gateway_unreachable, gateway_missing,
}

-- The HTTP errors, and four exceptions that no clause of the endpoint catches.
pub data IsError : Exn → Type 0 where
  missing_key : IsError (Exn.http_exception 401 "Missing API key")
  invalid_key : IsError (Exn.http_exception 403 "Invalid API key")
  no_credential : IsError credential_error
  unreachable : IsError gateway_unreachable
  no_gateway : IsError gateway_missing
  no_object : IsError Exn.value_error
  scalar : IsError Exn.type_error
  no_text : IsError Exn.validation_error
  no_http_error : IsError Exn.other_error

translate_lem : (e : Exn) → IsGatewayError e → IsError (translate e)
unfolding translate
translate_lem e IsGatewayError.unavailable = IsError.unreachable
translate_lem e IsGatewayError.rejected = IsError.no_credential
translate_lem e IsGatewayError.garbled = IsError.no_object
translate_lem e IsGatewayError.scalar = IsError.scalar
translate_lem e IsGatewayError.crashed = IsError.no_http_error

translated_Fails :
    {Amount A : Type 0} (settings : Settings) (env : Env Amount) (r : Result A) (g : GatewayClient)
    (a : App Amount) (w : Io)
    → Fails IsGatewayError r
    → Fails IsError (on_gateway env settings g (lift r) a w).0
unfolding on_gateway
translated_Fails settings env (ok x) g a w h = tt
translated_Fails settings env (raise e) g a w h = translate_lem e h

module _ {Amount : Type 0} (env : Env Amount) (settings : Settings) where
  validate_api_key-Raises :
      (k : Option String) (id : String) → Raises IsError (validate_api_key env settings k id)
  unfolding validate_api_key audit_auth_failure
  validate_api_key-Raises k id =
      Raises-if (is_missing k) _ _ (record { at = λ a w. IsError.missing_key })
        (Raises-if (not (mem (text_of k) settings.api_keys)) _ _
          (record { at = λ a w. IsError.invalid_key }) (Raises-pure tt))

  require_credentials-Raises : Raises IsError (require_credentials env settings)
  unfolding require_credentials
  require_credentials-Raises = record { at = λ a w. manager_lem a w a.credential_manager }
    where
      manager_lem :
          (a : App Amount) (w : Io) (held : Option CredentialManager)
          → Fails IsError
              (require_credentials env settings (record a { credential_manager = held }) w).0
      manager_lem a w none = IsError.no_credential
      manager_lem a w (some m) =
          (Raises-if {P = IsError} (has_valid_credentials (env.clock w.clock_reads) m) (pure m)
              (throw credential_error) (Raises-pure m) (Raises-throw _ IsError.no_credential)).at
            (record a { credential_manager = some m })
            (record w { clock_reads = suc w.clock_reads })

  look_up-Raises : (key : String) → Raises IsError (look_up env settings key)
  unfolding look_up
  look_up-Raises key = record { at = λ a w. tt }

  prepare-Raises :
      (p : Payment Amount) (id k : Option String) → Raises IsError (prepare env settings p id k)
  unfolding prepare
  prepare-Raises p id k = Raises-bind _ _ (Raises-uuid env) λ made.
      Raises-bind _ _ (validate_api_key-Raises k (Option.get_or id made)) λ _.
        Raises-bind _ _ require_credentials-Raises
          λ m. Raises-bind _ _ (look_up-Raises p.idempotency_key) λ found. Raises-pure (m, found)

  call_gateway-Raises :
      (m : CredentialManager) (p : Payment Amount) → Raises IsError (call_gateway env settings m p)
  unfolding call_gateway with_gateway
  call_gateway-Raises m p = record { at = λ a w. gateway_lem a w a.gateway_client }
    where
      gateway_lem :
          (a : App Amount) (w : Io) (held : Option GatewayClient)
          → Fails IsError (call_gateway env settings m p (record a { gateway_client = held }) w).0
      gateway_lem a w none = IsError.no_gateway
      gateway_lem a w (some g) =
          let primary = get_current_credential m in
          let fallback = get_fallback_credential m in
          let (r, g', w') = Gateway.authorize_payment env primary fallback p g w in
          translated_Fails settings env r g' a w'
            ((authorize_payment-Raises env primary fallback p).at g w)

  text_field-Raises : (v : Value) → Raises {C = App Amount} IsError (text_field v)
  text_field-Raises (Value.text s) = Raises-pure s
  text_field-Raises Value.null = Raises-throw _ IsError.no_text
  text_field-Raises (Value.boolean b) = Raises-throw _ IsError.no_text
  text_field-Raises (Value.number n) = Raises-throw _ IsError.no_text
  text_field-Raises (Value.compound b) = Raises-throw _ IsError.no_text

  respond-Raises :
      (p : Payment Amount) (d : Dict) (id : String) → Raises IsError (respond env settings p d id)
  unfolding respond
  respond-Raises p d id = record { at = λ a w. tt }

  finish-Raises : (p : Payment Amount) (d : Dict) → Raises IsError (finish env settings p d)
  unfolding finish
  finish-Raises p d = Raises-bind _ _ (Raises-uuid env) λ made.
      Raises-bind _ _ (text_field-Raises (get_default "transaction_id" (Value.text made) d))
        λ id. respond-Raises p d id

  answer_or-Raises :
      (found : Option (PaymentResponse Amount)) (rest : Action (App Amount) (Reply Amount))
      → Raises IsError rest
      → Raises IsError (answer_or env settings found rest)
  answer_or-Raises none rest h = h
  answer_or-Raises (some r) rest h = Raises-pure _

  authorize_body-Raises :
      (p : Payment Amount) (id k : Option String)
      → Raises IsError (authorize_body env settings p id k)
  unfolding authorize_body
  authorize_body-Raises p id k = Raises-bind _ _ (prepare-Raises p id k) λ ready.
      answer_or-Raises ready.1 _
        (Raises-bind _ _ (call_gateway-Raises ready.0 p) λ d. finish-Raises p d)

  -- Whatever Vault, the gateway and the clock do, an authorization returns a response, or raises one
  -- of the HTTP errors 401, 403 and 503 with a fixed text, or one of four exceptions that are not
  -- caught: two for a body of the gateway's of which `dict` makes no dictionary, one for a transaction
  -- id that is no text, and one for a failure of the HTTP client that is no HTTP error.
  pub authorize_payment-IsError :
      (p : Payment Amount) (id k : Option String) (a : App Amount) (w : Io)
      → Fails IsError (authorize_payment env settings p id k a w).0
  unfolding authorize_payment
  authorize_payment-IsError p id k a w =
      (authorize_body-Raises p id k).at (record a { in_flight = a.in_flight + 1 }) w
