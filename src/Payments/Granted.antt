-- ===== src/Payments/Granted.antt =====
-- A request of app/main.py that passes every guard and to which the gateway gives an answer: the
-- answer is the request's response.
use test_cusa.Prelude.{ap, suc, ◌+◌, ◌≡◌, ◌∙◌, true, false, String, Option, some, arith}
use test_cusa.Runtime.{Env, Io, ok, ◌>>=◌, Dict, Value}
use test_cusa.Runtime.Binds.{onward}
use test_cusa.Runtime.Convert.{get, get_default}
use test_cusa.Models.{PaymentResponse}
use test_cusa.Config.{Settings}
use test_cusa.Breaker
use test_cusa.Breaker.{CircuitState}
use test_cusa.Credentials.Status.{Credential}
use test_cusa.Credentials.Manager.{
  CredentialManager, get_current_credential, get_fallback_credential,
}
use test_cusa.Gateway
use test_cusa.Gateway.{GatewayClient, Payment, update_metric, poll_allows, with_credentials}
use test_cusa.Payments.Handler.{
  App, Reply, is_missing, text_of, mem, with_gateway, on_gateway, call_gateway, finish, respond,
  answer_or, authorize_body, authorize_payment, payment_status,
}
use test_cusa.Payments.Schedule.Starting.{IsReady, prepare_lem}

-- The gateway client and the outside world after the two polls of a closed breaker.
abbrev pub polled : GatewayClient → GatewayClient
polled g = record g { circuit_breaker_state = 0 }

abbrev pub polled_io : Io → Io
polled_io w = record w { clock_reads = suc (suc w.clock_reads) }

-- The outside world when the gateway is called.
abbrev pub guarded_io : Io → Io
guarded_io w = polled_io (record w { uuids = suc w.uuids; clock_reads = suc w.clock_reads })

module _ {Amount : Type 0} (env : Env Amount) where
  closed_lem :
      (primary fallback : Option Credential) (p : Payment Amount) (g : GatewayClient) (w : Io)
      → g.circuit_breaker.state ≡ CircuitState.closed
      → Gateway.authorize_payment env primary fallback p g w
        ≡ with_credentials env primary fallback p (polled g) (polled_io w)
  unfolding Gateway.authorize_payment update_metric poll_allows Breaker.allows_request Breaker.poll
  closed_lem primary fallback p g w closed = ground (arith, closed)

module _ {Amount : Type 0} (env : Env Amount) (settings : Settings) where
  -- The response to an answer with a transaction's number.
  abbrev pub response_of : Payment Amount → Dict → String → Io → PaymentResponse Amount
  response_of p d transaction_id w = record {
    transaction_id = transaction_id;
    status = payment_status (get_default "status" (Value.text "error") d);
    merchant_id = p.merchant_id;
    amount = p.amount;
    currency = p.currency;
    timestamp = env.clock w.clock_reads;
  }

  finish_lem :
      (p : Payment Amount) (d : Dict) (id : String) (a : App Amount) (w : Io)
      → get "transaction_id" d ≡ some (Value.text id)
      → let (r, _, w') = finish env settings p d a w in
        (r ≡ ok (Reply.fresh (response_of p d id w))) × (w'.posts ≡ w.posts)
  unfolding finish respond get_default
  finish_lem p d id a w has = ground (arith, has)

  called_lem :
      (m : CredentialManager) (c : Credential) (p : Payment Amount) (d : Dict) (a : App Amount)
      (w w' : Io) (g g' : GatewayClient)
      → get_current_credential m ≡ some c
      → a.gateway_client ≡ some g
      → g.circuit_breaker.state ≡ CircuitState.closed
      → with_credentials env (some c) (get_fallback_credential m) p (polled g) (polled_io w)
        ≡ (ok d, g', w')
      → call_gateway env settings m p a w ≡ (ok d, record a { gateway_client = some g' }, w')
  unfolding call_gateway with_gateway on_gateway
  called_lem m c p d a w w' g g' current held closed granted =
      let call =
        ap (λ cr. Gateway.authorize_payment env cr (get_fallback_credential m) p g w) current
        ∙ closed_lem env (some c) (get_fallback_credential m) p g w closed
        ∙ granted in
      ground (arith, held, call)

  pub authorize_payment_granted :
      (p : Payment Amount) (id k : Option String) (m : CredentialManager) (c : Credential)
      (d : Dict) (transaction_id : String) (g g' : GatewayClient) (a : App Amount) (w w' : Io)
      → is_missing k ≡ false
      → mem (text_of k) settings.api_keys ≡ true
      → IsReady env settings CircuitState.closed p.idempotency_key m c a w
      → a.gateway_client ≡ some g
      → g.circuit_breaker.state ≡ CircuitState.closed
      → with_credentials env (some c) (get_fallback_credential m) p (polled g) (guarded_io w)
        ≡ (ok d, g', w')
      → get "transaction_id" d ≡ some (Value.text transaction_id)
      → let (r, _, w'') = authorize_payment env settings p id k a w in
        (r ≡ ok (Reply.fresh (response_of p d transaction_id (record w' { uuids = suc w'.uuids }))))
        × (w''.posts ≡ w'.posts)
  unfolding authorize_payment authorize_body
  authorize_payment_granted p id k m c d transaction_id g g' a w w' there known h held closed
        granted has =
      let entered = record a { in_flight = a.in_flight + 1 } in
      let w1 = record w { uuids = suc w.uuids; clock_reads = suc w.clock_reads } in
      let ready =
        prepare_lem env settings CircuitState.closed p id k m c entered w there known (record {
          manager = h.manager;
          current = h.current;
          usable = h.usable;
          gateway = h.gateway;
          unanswered = h.unanswered;
        }) in
      let called = called_lem m c p d entered w1 w' g g' h.current held closed granted in
      let went =
        ap
          (onward (λ (x : CredentialManager × Option (PaymentResponse Amount)).
            answer_or env settings x.1
              (do answer ← call_gateway env settings x.0 p; finish env settings p answer)))
          ready
        ∙ ap (onward (finish env settings p)) called in
      let out =
        finish_lem p d transaction_id (record entered { gateway_client = some g' }) w' has in
      (ap (λ o. o.0) went ∙ out.0, ap (λ o. o.2.posts) went ∙ out.1)
