-- ===== src/Tests/PaymentTests.antt =====
-- The gateway client and the payment endpoint on concrete inputs.
use Prim.Native.String.{◌++◌ as str_append}
use test_cusa.Prelude.{ℕ, ◌≡◌, refl, none, some, [], ◌∷◌, ◌==◌, if◌then◌else◌}
use test_cusa.Prelude.Int.{pos, ◌-ℤ◌}
use test_cusa.Runtime.{Env, Value, HttpReply, Body}
use test_cusa.Config.{Settings, default_settings}
use test_cusa.Breaker.{CircuitState, CircuitBreaker, has_timed_out}
use test_cusa.Credentials.Status.{Credential}
use test_cusa.Gateway
use test_cusa.Gateway.{GatewayClient, Payment, authorize_path, with_credentials}
use test_cusa.Gateway.Fallback.{expected, Meets, with_credentials-Meets}
use test_cusa.Payments.Handler
use test_cusa.Payments.Handler.{App, mem, is_missing, text_of, credential_error}
use test_cusa.Runtime.Raises.{Fails}
use test_cusa.Payments.Errors.{IsError, authorize_payment-IsError}
use test_cusa.Prelude.{arith, ℕ_discrete, lookup, String_discrete}
use test_cusa.Prelude.Int.{ℤ_discrete}
use test_cusa.Breaker
use test_cusa.Breaker.{allows_request, poll}
use test_cusa.Runtime.{ok}
use test_cusa.Runtime.Convert.{get, get_default}
use test_cusa.OrderedDict.{set_item, shrink, behind}
use test_cusa.Credentials.Status.{status, age}
use test_cusa.Credentials.Manager
use test_cusa.Credentials.Manager.{
  CredentialManager, has_valid_credentials, get_current_credential, get_fallback_credential, last,
  second_last, credential_status, is_usable,
}
use test_cusa.Gateway.{
  poll_allows, update_metric, try_authorize, send, settle, classify, observe, count_request,
  request_of,
}
use test_cusa.Models.{PaymentResponse, PaymentStatus}
use test_cusa.Idempotency.{check_idempotency, store_idempotency}
use test_cusa.Payments.Handler.{
  Reply, authorize_body, prepare, validate_api_key, require_credentials, look_up, on_gateway,
  call_gateway, finish, respond, payment_status,
}
use test_cusa.Idempotency.Retention.{run}
use test_cusa.Payments.Replay.{Cached, authorize_payment-replay}
use test_cusa.Vault.Client
use test_cusa.Health.{readiness}
use test_cusa.Health.Ready.{Reported, passed, readiness_lem}
use test_cusa.Tests.World.{vault, env, io, at_second}

-- A gateway that rejects the first credential it is sent.
abbrev pub picky : Env ℕ
picky = record env {
  post = λ n request. if n == 0 then HttpReply.answer 401 Body.no_object else env.post n request;
}

abbrev pub payment : Payment ℕ
payment = record {
  merchant_id = "m-1";
  amount = 1000;
  currency = "EUR";
  card_token = "tok-1";
  idempotency_key = "order-1";
}

abbrev pub credential : ℕ → Credential
credential n = record {
  identity = n;
  api_key = Value.text "key";
  api_secret = Value.text "secret";
  version = some (pos n);
  loaded_at = at_second 1000;
  created_time = none;
  ttl = none;
}

abbrev pub breaker : CircuitBreaker
breaker = record {
  failure_threshold = 5;
  timeout = at_second 30;
  state = CircuitState.closed;
  failure_count = 0;
  last_failure_time = none;
}

abbrev pub gateway : GatewayClient
gateway = record {
  base_url = "http://gateway";
  circuit_breaker = breaker;
  gateway_requests_total = [];
  gateway_request_durations = [];
  gateway_auth_failures_total = 0;
  circuit_breaker_state = 0;
}

with_credentials-Meets_example :
    let (r, g', w') =
      with_credentials picky (some (credential 2)) (some (credential 1)) payment gateway io in
    Meets
      (expected picky payment
        (str_append "http://gateway" authorize_path)
        0
        (some (credential 2))
        (some (credential 1)))
      gateway
      io
      r
      g'
      w'
with_credentials-Meets_example =
    with_credentials-Meets picky (some (credential 2)) (some (credential 1)) payment gateway io

abbrev pub blocked_gateway : GatewayClient
blocked_gateway = record gateway {
  circuit_breaker = record breaker {
    state = CircuitState.opened;
    failure_count = 5;
    last_failure_time = some (at_second 999);
  };
}

abbrev pub settings : Settings
settings = record default_settings { api_keys = "key-1" ∷ [] }

abbrev pub app : App ℕ
app = record {
  credential_manager = none;
  gateway_client = some gateway;
  idempotency_cache = [];
  in_flight = 2;
  start_time = at_second 1;
}

abbrev pub manager : CredentialManager
manager = record (Manager.init default_settings vault none) {
  cache = (pos 2, credential 2) ∷ [];
  current_version = some (pos 2);
}

abbrev pub ready : App ℕ
ready = record app { credential_manager = some manager }

abbrev first : PaymentResponse ℕ
first = record {
  transaction_id = "txn-1";
  status = PaymentStatus.approved;
  merchant_id = "m-1";
  amount = 1000;
  currency = "EUR";
  timestamp = at_second 1006;
}

abbrev after_first : App ℕ
after_first =
    (Handler.authorize_payment env settings payment (some "id-1") (some "key-1") ready io).1

payload : Unit {0}
unfolding Handler.authorize_payment authorize_body prepare validate_api_key require_credentials
    look_up on_gateway call_gateway finish respond payment_status has_valid_credentials
    get_current_credential get_fallback_credential last second_last credential_status status age mem
    check_idempotency store_idempotency Gateway.authorize_payment with_credentials poll_allows
    allows_request poll has_timed_out update_metric try_authorize send settle classify
    Gateway.record_success Breaker.record_success observe count_request request_of get get_default
    lookup ℤ_discrete String_discrete set_item shrink behind is_usable Manager.init ◌-ℤ◌ ℕ_discrete
    run
payload = tt

first_answer :
    (Handler.authorize_payment env settings payment (some "id-1") (some "key-1") ready io).0
    ≡ ok (Reply.fresh first)
unfolding payload
first_answer = refl

pub ready-Cached : Cached ready
unfolding lookup
ready-Cached = record { distinct = tt; bounded = omega arith }

alone : behind String_discrete "order-1" after_first.idempotency_cache ≡ 0
unfolding payload
alone = refl

authorize_payment-replay_example :
    let (r, _, w) =
      Handler.authorize_payment env settings payment (some "id-2") (some "key-1") after_first io in
    (r ≡ ok (Reply.cached first)) × (w.posts ≡ 0)
unfolding payload
authorize_payment-replay_example =
    authorize_payment-replay env settings payment payment (some "id-1") (some "id-2") (some "key-1")
      (some "key-1") ready after_first io io first [] ready-Cached first_answer refl tt
      (refl, omega (arith, alone)) refl refl refl

readiness_lem_example :
    let asked = Client.is_authenticated env manager.vault_client io in
    Reported env settings
      (passed asked)
      (has_valid_credentials (env.clock (asked.2).clock_reads) manager)
      ready
      asked.2
      (readiness env settings ready io)
readiness_lem_example = readiness_lem env settings ready io manager refl

authorize_payment-IsError_example :
    Fails IsError
      (Handler.authorize_payment picky settings payment (some "id-1") (some "key-1") ready io).0
authorize_payment-IsError_example =
    authorize_payment-IsError picky settings payment (some "id-1") (some "key-1") ready io
