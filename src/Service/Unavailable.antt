-- ===== src/Service/Unavailable.antt =====
-- The service while it cannot pay: without a usable credential, and with an open circuit breaker.
use test_cusa.Prelude.{ℕ, suc, ◌+◌, ◌≡◌, ◌∙◌, String, Bool, true, false, Option, some, arith}
use test_cusa.Runtime.{Env, Io, raise}
use test_cusa.Config.{Settings}
use test_cusa.Breaker.{CircuitState}
use test_cusa.Credentials.Status.{Credential}
use test_cusa.Credentials.Manager.{
  CredentialManager, get_current_credential, get_fallback_credential,
}
use test_cusa.Gateway.{GatewayClient, Payment}
use test_cusa.Gateway.Fallback.{IsBlocked, authorize_payment_blocked}
use test_cusa.Models.{validate}
use test_cusa.Middleware.{Request, Server}
use test_cusa.Middleware.Passing.{IsAdmitted, id_of, begun}
use test_cusa.Payments.Handler
use test_cusa.Payments.Handler.{
  App, Reply, mem, text_of, is_missing, answer_or, call_gateway, with_gateway, on_gateway, finish,
  authorize_body, translate, gateway_unreachable,
}
use test_cusa.Payments.Access.{unusable, authorize_payment-unusable}
use test_cusa.Payments.Schedule.Starting.{IsReady, prepare_lem}
use test_cusa.Service.{Framework, service}
use test_cusa.Service.Endpoint.{IsRefused, endpoint-IsRefused}

-- The outside world when the gateway client is called.
abbrev prepared_io : Io → Io
prepared_io w = record w { uuids = suc w.uuids; clock_reads = suc w.clock_reads }

module _ {Amount : Type 0} (env : Env Amount) (settings : Settings) where
  called_lem :
      (m : CredentialManager) (p : Payment Amount) (g : GatewayClient) (a : App Amount) (w : Io)
      → a.gateway_client ≡ some g
      → IsBlocked env g.circuit_breaker w
      → let (r, _, w') = call_gateway env settings m p a w in
        (r ≡ raise gateway_unreachable) × (w'.posts ≡ w.posts)
  unfolding call_gateway with_gateway on_gateway translate
  called_lem m p g a w held blocked =
      let out =
        authorize_payment_blocked env (get_current_credential m) (get_fallback_credential m) p g w
          blocked in
      ground (arith, held, out)

  endpoint_blocked :
      (p : Payment Amount) (id k : Option String) (m : CredentialManager) (c : Credential)
      (g : GatewayClient) (a : App Amount) (w : Io)
      → is_missing k ≡ false
      → mem (text_of k) settings.api_keys ≡ true
      → IsReady env settings CircuitState.opened p.idempotency_key m c a w
      → a.gateway_client ≡ some g
      → IsBlocked env g.circuit_breaker (prepared_io w)
      → let (r, _, w') = Handler.authorize_payment env settings p id k a w in
        (r ≡ raise gateway_unreachable) × (w'.posts ≡ w.posts)
  unfolding Handler.authorize_payment authorize_body
  endpoint_blocked p id k m c g a w there known h held blocked =
      let entered = record a { in_flight = a.in_flight + 1 } in
      let ready =
        prepare_lem env settings CircuitState.opened p id k m c entered w there known (record {
          manager = h.manager;
          current = h.current;
          usable = h.usable;
          gateway = h.gateway;
          unanswered = h.unanswered;
        }) in
      let (raised, posts) = called_lem m p g entered (prepared_io w) held blocked in
      ground (arith, ready, raised, posts)

module _ {Amount : Type 0} (framework : Framework Amount) (env : Env Amount) (settings : Settings)
    (is_positive : Amount → Bool) (is_at_most : ℕ → Amount → Bool) where
  -- While the circuit breaker is open and its timeout has not passed, a payment request with a valid
  -- body, API key and usable credential, that the rate limiter lets pass and that has no stored
  -- response, is answered 503 at once: nothing is sent to the gateway. The answer has the request's
  -- id, and its access is recorded as a failure.
  pub service_blocked :
      (p : Payment Amount) (k : Option String) (m : CredentialManager) (c : Credential)
      (g : GatewayClient) (q : Request) (s : Server (App Amount)) (w : Io)
      → q.method ≡ "POST"
      → q.path ≡ "/api/v1/authorize"
      → validate is_positive is_at_most p ≡ some p
      → IsAdmitted env q s w
      → is_missing k ≡ false
      → mem (text_of k) settings.api_keys ≡ true
      → IsReady env settings CircuitState.opened p.idempotency_key m c s.inner (begun w)
      → s.inner.gateway_client ≡ some g
      → IsBlocked env g.circuit_breaker (prepared_io (begun w))
      → let (r, _, w') = service framework env settings is_positive is_at_most (some p) k q s w in
        IsRefused framework q (id_of env q w) 503 "Service unavailable: gateway unreachable" r w'
        × (w'.posts ≡ w.posts)
  service_blocked p k m c g q s w posted there valid admitted given known h held blocked =
      let (raised, posts) =
        endpoint_blocked env settings p (some (id_of env q w)) k m c g s.inner (begun w) given known
          h held blocked in
      let (refused, _, posts', _) =
        endpoint-IsRefused framework env settings is_positive is_at_most p k q s w 503
          "Service unavailable: gateway unreachable" posted there valid admitted raised in
      (refused, posts' ∙ posts)

  -- Without a usable credential, with none loaded, or with an expired one, a payment request with a
  -- valid body and API key that the rate limiter lets pass is answered 503: nothing is sent to the
  -- gateway, nothing is answered from the cache, and the application's state is as before. The
  -- answer has the request's id, and its access is recorded as a failure.
  pub service-unusable :
      (p : Payment Amount) (k : Option String) (q : Request) (s : Server (App Amount)) (w : Io)
      → q.method ≡ "POST"
      → q.path ≡ "/api/v1/authorize"
      → validate is_positive is_at_most p ≡ some p
      → IsAdmitted env q s w
      → is_missing k ≡ false
      → mem (text_of k) settings.api_keys ≡ true
      → unusable env settings s.inner.credential_manager (begun w) ≡ true
      → let (r, s', w') = service framework env settings is_positive is_at_most (some p) k q s w in
        IsRefused framework q (id_of env q w) 503 "Service unavailable: credential error" r w'
        × (s'.inner ≡ s.inner)
        × (w'.posts ≡ w.posts)
  service-unusable p k q s w posted there valid admitted given known bad =
      let (raised, kept, posts) =
        authorize_payment-unusable env settings p (some (id_of env q w)) k s.inner (begun w) given
          known bad in
      let (refused, state, posts', _) =
        endpoint-IsRefused framework env settings is_positive is_at_most p k q s w 503
          "Service unavailable: credential error" posted there valid admitted raised in
      (refused, state ∙ kept, posts' ∙ posts)
