-- ===== src/Payments/Handler.antt =====
-- The payment endpoint: the API key, the credentials, the idempotency cache, the gateway, and the
-- response. `_credential_manager` and `_gateway_client` are none until the application has started.
use mathlib.Core.Option
use text.Mathlib.Text.{◌==◌ as str_eq}
use test_cusa.Prelude.{
  ℕ, ◌+◌, ◌-◌, String, Bool, true, false, not, ◌||◌, Option, none, some, List, [], ◌∷◌,
  if◌then◌else◌,
}
use test_cusa.Prelude.Int.{ℤ}
use test_cusa.Runtime.{
  Env, Action, ok, raise, Exn, pure, throw, modify, ◌>>=◌, ◌>>◌, time, uuid, Value, Dict,
}
use test_cusa.Runtime.Convert.{get_default}
use test_cusa.Config.{Settings}
use test_cusa.Audit.{audit_auth_failure}
use test_cusa.OrderedDict.{OrderedDict}
use test_cusa.Credentials.Manager.{
  CredentialManager, get_current_credential, get_fallback_credential, has_valid_credentials,
}
use test_cusa.Gateway
use test_cusa.Gateway.{GatewayClient, Payment}
use test_cusa.Idempotency.{check_idempotency, store_idempotency}
use test_cusa.Models.{PaymentStatus, PaymentResponse}

-- The module's globals.
pub record App (Amount : Type 0) : Type 0 where
  pub credential_manager : Option CredentialManager
  pub gateway_client : Option GatewayClient
  pub idempotency_cache : OrderedDict String (PaymentResponse Amount)
  pub in_flight : ℕ
  pub start_time : ℤ

-- A response that was just made, or the stored one.
pub data Reply (Amount : Type 0) : Type 0 where
  fresh : PaymentResponse Amount → Reply Amount
  cached : PaymentResponse Amount → Reply Amount

-- `x in xs`
unfoldable pub mem : String → List String → Bool
mem x [] = false
mem x (y ∷ ys) = str_eq x y || mem x ys

abbrev pub is_missing : Option String → Bool
is_missing none = true
is_missing (some s) = str_eq s ""

abbrev pub text_of : Option String → String
text_of none = ""
text_of (some s) = s

-- `PaymentStatus(status_str)`, and ERROR where that raises.
unfoldable pub payment_status : Value → PaymentStatus
payment_status (Value.text s) =
    if str_eq s "approved"
    then PaymentStatus.approved
    else if str_eq s "declined"
    then PaymentStatus.declined
    else PaymentStatus.error
payment_status _ = PaymentStatus.error

abbrev pub credential_error : Exn
credential_error = Exn.http_exception 503 "Service unavailable: credential error"

abbrev pub gateway_unreachable : Exn
gateway_unreachable = Exn.http_exception 503 "Service unavailable: gateway unreachable"

abbrev pub gateway_missing : Exn
gateway_missing = Exn.http_exception 503 "Service unavailable: gateway not initialized"

-- The two `except` clauses round the gateway call.
unfoldable pub translate : Exn → Exn
translate Exn.gateway_unavailable_error = gateway_unreachable
translate Exn.gateway_auth_error = credential_error
translate e = e

-- A model field of type text takes nothing else.
abbrev pub text_field : {C : Type 0} → Value → Action C String
text_field (Value.text s) = pure s
text_field _ = throw Exn.validation_error

module _ {Amount : Type 0} (env : Env Amount) (settings : Settings) where
  unfoldable pub validate_api_key :
      Option String → (request_id : String) → Action (App Amount) (Unit {0})
  validate_api_key api_key request_id =
      if is_missing api_key
      then (do
        audit_auth_failure env "/api/v1/authorize" "missing_api_key" (some request_id)
        throw (Exn.http_exception 401 "Missing API key"))
      else if not (mem (text_of api_key) settings.api_keys)
      then (do
        audit_auth_failure env "/api/v1/authorize" "invalid_api_key" (some request_id)
        throw (Exn.http_exception 403 "Invalid API key"))
      else pure tt

  -- `_credential_manager is None or not has_valid_credentials` raises.
  unfoldable pub require_credentials : Action (App Amount) CredentialManager
  require_credentials a = elim a.credential_manager [
    | none ↦ throw credential_error a
    | some m ↦
        (do now ← time env; if has_valid_credentials now m then pure m else throw credential_error)
          a
  ]

  unfoldable pub look_up : String → Action (App Amount) (Option (PaymentResponse Amount))
  look_up key a w =
      let (cache, found) = check_idempotency key a.idempotency_cache in
      (ok found, record a { idempotency_cache = cache }, w)

  -- An action of the gateway client, with its exceptions translated.
  unfoldable pub on_gateway :
      {A : Type 0} → GatewayClient → Action GatewayClient A → Action (App Amount) A
  on_gateway g act a w =
      let (r, g', w') = act g w in
      let a' = record a { gateway_client = some g' } in
      elim r [ ok d ↦ (ok d, a', w') | raise e ↦ (raise (translate e), a', w') ]

  -- An action of the gateway client that the application holds.
  unfoldable pub with_gateway : {A : Type 0} → Action GatewayClient A → Action (App Amount) A
  unfolding on_gateway
  with_gateway act a = elim a.gateway_client [
    | none ↦ throw gateway_missing a
    | some g ↦ on_gateway g act a
  ]

  unfoldable pub call_gateway : CredentialManager → Payment Amount → Action (App Amount) Dict
  unfolding with_gateway
  call_gateway m p =
      with_gateway
        (Gateway.authorize_payment env (get_current_credential m) (get_fallback_credential m) p)

  -- The response with the transaction's number, which is stored.
  unfoldable pub respond : Payment Amount → Dict → String → Action (App Amount) (Reply Amount)
  respond p answer transaction_id = do
    now ← time env
    let response : PaymentResponse Amount = record {
      transaction_id = transaction_id;
      status = payment_status (get_default "status" (Value.text "error") answer);
      merchant_id = p.merchant_id;
      amount = p.amount;
      currency = p.currency;
      timestamp = now;
    }
    modify λ a. record a {
      idempotency_cache = store_idempotency p.idempotency_key response a.idempotency_cache;
    }
    pure (Reply.fresh response)

  -- From the gateway's answer to the response; a number is made even where the answer has one.
  unfoldable pub finish : Payment Amount → Dict → Action (App Amount) (Reply Amount)
  finish p answer = do
    fallback_id ← uuid env
    transaction_id ← text_field (get_default "transaction_id" (Value.text fallback_id) answer)
    respond p answer transaction_id

  abbrev pub answer_or :
      Option (PaymentResponse Amount)
      → Action (App Amount) (Reply Amount)
      → Action (App Amount) (Reply Amount)
  answer_or (some r) rest = pure (Reply.cached r)
  answer_or none rest = rest

  -- The `try` up to the idempotency cache: the credential manager, and the cached response. The id
  -- is the one that the middleware has put in the request's state; a new one is made in any case.
  unfoldable pub prepare :
      Payment Amount
      → (state_id x_api_key : Option String)
      → Action (App Amount) (CredentialManager × Option (PaymentResponse Amount))
  prepare p state_id x_api_key = do
    made ← uuid env
    validate_api_key x_api_key (Option.get_or state_id made)
    m ← require_credentials
    found ← look_up p.idempotency_key
    pure (m, found)

  -- The body of the `try`.
  unfoldable pub authorize_body :
      Payment Amount → (state_id x_api_key : Option String) → Action (App Amount) (Reply Amount)
  authorize_body p state_id x_api_key = do
    ready ← prepare p state_id x_api_key
    answer_or ready.1 (do answer ← call_gateway ready.0 p; finish p answer)

  -- `_in_flight` counts the request until its `finally` clause.
  unfoldable pub authorize_payment :
      Payment Amount → (state_id x_api_key : Option String) → Action (App Amount) (Reply Amount)
  authorize_payment p state_id x_api_key a w =
      let (r, a', w') =
        authorize_body p state_id x_api_key (record a { in_flight = a.in_flight + 1 }) w in
      (r, record a' { in_flight = a'.in_flight - 1 }, w')
