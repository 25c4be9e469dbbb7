-- ===== src/Gateway.antt =====
-- `GatewayClient` of app/gateway_client.py: one authorization against the gateway, guarded by the
-- circuit breaker, with the previous credential as a second try. The metrics with labels are lists
-- of their increments, newest first. The two credentials are the credential manager's current and
-- fallback credential, read before the first request is sent.
pub mod Attempts
pub mod Fallback
pub mod Phases
pub mod Alone
pub mod Guarded
pub mod Errors
pub mod Quiet
use test_cusa.Prelude.{
  ℕ, suc, ◌+◌, String, Bool, false, ◌||◌, Option, none, some, List, [], ◌∷◌, leb, ◌==◌,
  if◌then◌else◌,
}
use test_cusa.Prelude.Int.{ℤ, ◌-ℤ◌}
use test_cusa.Runtime.{
  Env, Action, ok, Exn, pure, throw, asks, modify, ◌>>=◌, ◌>>◌, time, Dict, Body, HttpReply,
  PostRequest,
}
use test_cusa.Config.{Settings, or_default}
use test_cusa.Audit.{audit_auth_failure}
use test_cusa.Breaker
use test_cusa.Breaker.{
  CircuitState, CircuitBreaker, circuit_breaker_failure_threshold, circuit_breaker_timeout,
}
use test_cusa.Credentials.Status.{Credential}
use Prim.Native.String.{◌++◌ as str_append}

-- The label `status` of `gateway_requests_total`.
pub data RequestLabel : Type 0 where
  status : ℕ → RequestLabel
  timeout : RequestLabel
  error : RequestLabel

pub record GatewayClient : Type 0 where
  pub base_url : String
  pub circuit_breaker : CircuitBreaker
  pub gateway_requests_total : List RequestLabel
  pub gateway_request_durations : List ℤ
  pub gateway_auth_failures_total : ℕ
  pub circuit_breaker_state : ℕ

unfoldable pub init : Settings → Option String → GatewayClient
unfolding Breaker.init
init settings base_url = record {
  base_url = or_default base_url settings.vaultgateway_url;
  circuit_breaker = Breaker.init circuit_breaker_failure_threshold circuit_breaker_timeout;
  gateway_requests_total = [];
  gateway_request_durations = [];
  gateway_auth_failures_total = 0;
  circuit_breaker_state = 0;
}

pub record Payment (Amount : Type 0) : Type 0 where
  pub merchant_id : String
  pub amount : Amount
  pub currency : String
  pub card_token : String
  pub idempotency_key : String

-- `state_map`
abbrev pub state_number : CircuitState → ℕ
state_number CircuitState.closed = 0
state_number CircuitState.opened = 1
state_number CircuitState.half_open = 2

abbrev pub authorize_path : String
authorize_path = "/api/v1/transactions/authorize"

unfoldable pub count_request : RequestLabel → Action GatewayClient (Unit {0})
count_request l = modify (λ g. record g { gateway_requests_total = l ∷ g.gateway_requests_total })

unfoldable pub observe : ℤ → Action GatewayClient (Unit {0})
observe d = modify (λ g. record g { gateway_request_durations = d ∷ g.gateway_request_durations })

unfoldable pub request_of :
    {Amount : Type 0} → Payment Amount → Credential → (url : String) → PostRequest Amount
request_of p credential url = record {
  url = url;
  api_key = credential.api_key;
  api_secret = credential.api_secret;
  merchant_id = p.merchant_id;
  amount = p.amount;
  currency = p.currency;
  card_token = p.card_token;
  idempotency_key = p.idempotency_key;
}

unfoldable pub record_success : Action GatewayClient (Unit {0})
unfolding Breaker.record_success
record_success =
    modify (λ g. record g { circuit_breaker = Breaker.record_success g.circuit_breaker })

-- `dict(response.json())`
abbrev json_dict : Body → Action GatewayClient (Option Dict)
json_dict (Body.object d) = pure (some d)
json_dict Body.no_object = throw Exn.value_error
json_dict Body.scalar = throw Exn.type_error

module _ {Amount : Type 0} (env : Env Amount) where
  -- `_update_circuit_breaker_metric`
  unfoldable pub update_metric : Action GatewayClient (Unit {0})
  unfolding Breaker.poll
  update_metric = do
    now ← time env
    modify λ g.
        let b = Breaker.poll now g.circuit_breaker in
        record g { circuit_breaker = b; circuit_breaker_state = state_number b.state }

  unfoldable pub poll_allows : Action GatewayClient Bool
  unfolding Breaker.allows_request
  poll_allows = do
    now ← time env
    allowed ← asks (λ g. (Breaker.allows_request now g.circuit_breaker).1)
    modify λ g. record g { circuit_breaker = (Breaker.allows_request now g.circuit_breaker).0 }
    pure allowed

  unfoldable pub record_failure : Action GatewayClient (Unit {0})
  unfolding Breaker.record_failure
  record_failure = do
    now ← time env
    modify (λ g. record g { circuit_breaker = Breaker.record_failure now g.circuit_breaker })

  unfoldable pub send : PostRequest Amount → Action GatewayClient HttpReply
  send request g w = (ok (env.post w.posts request), g, record w { posts = suc w.posts })

  -- The end of each failing branch: the breaker, its metric, the counter, and the exception.
  unfoldable pub unavailable : RequestLabel → Action GatewayClient (Option Dict)
  unfolding record_failure update_metric count_request
  unavailable label = do
    record_failure
    update_metric
    count_request label
    throw Exn.gateway_unavailable_error

  -- An answer of the gateway, by its status code.
  unfoldable pub classify : ℕ → Body → Action GatewayClient (Option Dict)
  unfolding unavailable record_success update_metric count_request
  classify status_code body =
      if status_code == 401 || status_code == 403
      then (do count_request (status status_code); pure none)
      else if leb 500 status_code
      then unavailable (status status_code)
      else (do record_success; update_metric; count_request (status status_code); json_dict body)

  -- The answer, or one of the two `except` clauses; any other exception passes.
  unfoldable pub settle : (start_time : ℤ) → HttpReply → Action GatewayClient (Option Dict)
  unfolding classify unavailable observe
  settle start_time (HttpReply.answer status_code body) = do
    now ← time env
    observe (now -ℤ start_time)
    classify status_code body
  settle start_time HttpReply.timed_out = do
    now ← time env
    observe (now -ℤ start_time)
    unavailable timeout
  settle start_time HttpReply.http_error = do
    now ← time env
    observe (now -ℤ start_time)
    unavailable error
  settle start_time HttpReply.broken = throw Exn.other_error

  unfoldable pub try_authorize : Credential → Payment Amount → Action GatewayClient (Option Dict)
  unfolding settle send request_of
  try_authorize credential p = do
    start_time ← time env
    url ← asks (λ g. str_append g.base_url authorize_path)
    reply ← send (request_of p credential url)
    settle start_time reply

  -- No credential was accepted.
  unfoldable pub all_rejected : Action GatewayClient Dict
  all_rejected = do
    modify λ g. record g { gateway_auth_failures_total = g.gateway_auth_failures_total + 1 }
    url ← asks (λ g. str_append g.base_url authorize_path)
    audit_auth_failure env url "all_credentials_rejected" none
    throw Exn.gateway_auth_error

  abbrev pub or_else : Option Dict → Action GatewayClient Dict → Action GatewayClient Dict
  or_else (some d) rest = pure d
  or_else none rest = rest

  -- The second try, if there is another credential than the one that was rejected.
  unfoldable pub try_fallback :
      (primary : Credential) → Option Credential → Payment Amount → Action GatewayClient Dict
  unfolding try_authorize all_rejected
  try_fallback primary none p = all_rejected
  try_fallback primary (some fallback) p =
      if fallback.identity == primary.identity
      then all_rejected
      else (do result ← try_authorize fallback p; or_else result all_rejected)

  unfoldable pub with_credentials :
      (primary fallback : Option Credential) → Payment Amount → Action GatewayClient Dict
  unfolding try_authorize try_fallback
  with_credentials none fallback p = throw Exn.gateway_auth_error
  with_credentials (some primary) fallback p = do
    result ← try_authorize primary p
    or_else result (try_fallback primary fallback p)

  unfoldable pub authorize_payment :
      (primary fallback : Option Credential) → Payment Amount → Action GatewayClient Dict
  unfolding update_metric poll_allows with_credentials
  authorize_payment primary fallback p = do
    update_metric
    allowed ← poll_allows
    if allowed
        then with_credentials primary fallback p
        else (do update_metric; throw Exn.gateway_unavailable_error)

  -- `check_reachability`: any exception counts as unreachable.
  unfoldable pub check_reachability : Action GatewayClient Bool
  check_reachability g w =
      let w' = record w { gets = suc w.gets } in
      elim (env.get w.gets (str_append g.base_url "/health")) [
        | HttpReply.answer status_code body ↦ (ok (status_code == 200), g, w')
        | _ ↦ (ok false, g, w')
      ]
