-- ===== src/Service/Outage.antt =====
-- A Vault outage without downtime: the refresh loop of app/credential_manager.py while Vault answers no
-- read, and a payment request to app/main.py after it.
use Prim.Native.String.{◌++◌ as str_append}
use test_cusa.Prelude.{
  ap, ℕ, suc, ◌+◌, ◌≡◌, ◌∙◌, refl, String, Bool, true, false, Option, none, some, List, lookup,
  String_discrete,
}
use test_cusa.Runtime.{Env, Io, ok}
use test_cusa.Config.{Settings}
use test_cusa.Breaker.{CircuitState}
use test_cusa.Credentials.Status.{Credential}
use test_cusa.Credentials.Manager.{
  CredentialManager, get_current_credential, get_fallback_credential, has_valid_credentials,
}
use test_cusa.Credentials.Outage.{Unchanged-current, Unchanged-valid, refresh_loop-Outage}
use test_cusa.Credentials.Refresh.{WakeUp, refresh_loop}
use test_cusa.Vault.Outage.{IsOut}
use test_cusa.Gateway.{authorize_path, GatewayClient, Payment, request_of, with_credentials}
use test_cusa.Gateway.Fallback.{expected, with_credentials-Meets}
use test_cusa.Models.{validate, PaymentResponse}
use test_cusa.Middleware.{Request, Server}
use test_cusa.Middleware.Passing.{IsAdmitted, id_of, begun}
use test_cusa.Mock.Service
use test_cusa.Mock.Service.{World}
use test_cusa.Mock.Service.Agreement.{payload_of, validate-is_valid_request}
use test_cusa.Mock.Service.Rotation.{Rendering, HasKey, against, valid_keys, decision, tried_listed}
use test_cusa.Payments.Handler
use test_cusa.Payments.Handler.{App, Reply, mem, text_of, is_missing}
use test_cusa.Payments.Schedule.Starting.{IsReady}
use test_cusa.Payments.Granted.{polled, guarded_io, response_of, authorize_payment_granted}
use test_cusa.Service.{Framework, service}
use test_cusa.Service.Endpoint.{endpoint-IsServed, IsServed}
use test_cusa.Service.Rotation.{IsDecision, response_of-IsDecision}

module _ {Amount : Type 0} (is_positive : Amount → Bool) (world : World)
    (rendering : Rendering Amount) (states : ℕ → Service.Gateway) (framework : Framework Amount)
    (env : Env Amount) (settings : Settings) (is_at_most : ℕ → Amount → Bool) where
  expected-listed :
      (p : Payment Amount) (c : Credential) (fallback : Option Credential) (k1 s1 url : String)
      (n : ℕ)
      → validate is_positive is_at_most p ≡ some p
      → HasKey is_positive world rendering c k1 s1
      → mem k1 (valid_keys is_positive world rendering) ≡ true
      → expected (against is_positive world rendering states env) p url n (some c) fallback
        ≡ record {
          answer = ok (
              rendering.fields (
                decision is_positive world rendering (states n) (payload_of (request_of p c url))));
          requests = 1;
          auth_failures = 0;
        }
  unfolding expected
  expected-listed p c none k1 s1 url n valid has listed =
      let fits = validate-is_valid_request is_positive is_at_most p p c url valid in
      rw (tried_listed is_positive world rendering states env p url n c k1 s1 fits has listed) refl
  expected-listed p c (some c2) k1 s1 url n valid has listed =
      let fits = validate-is_valid_request is_positive is_at_most p p c url valid in
      rw (tried_listed is_positive world rendering states env p url n c k1 s1 fits has listed) refl

  -- The endpoint, with a usable credential that the gateway takes.
  endpoint_listed :
      (p : Payment Amount) (m : CredentialManager) (c : Credential) (k1 s1 : String)
      (id k : Option String) (a : App Amount) (w : Io)
      → validate is_positive is_at_most p ≡ some p
      → is_missing k ≡ false
      → mem (text_of k) settings.api_keys ≡ true
      → IsReady
          (against is_positive world rendering states env)
          settings
          CircuitState.closed
          p.idempotency_key
          m
          c
          a
          w
      → HasKey is_positive world rendering c k1 s1
      → mem k1 (valid_keys is_positive world rendering) ≡ true
      → let (r, _, w') =
          Handler.authorize_payment
            (against is_positive world rendering states env)
            settings
            p
            id
            k
            a
            w in
        (reply : PaymentResponse Amount) × (r ≡ ok (Reply.fresh reply))
        × IsDecision is_positive world rendering states p (states w.posts) reply
        × (w'.posts ≡ w.posts + 1)
  endpoint_listed p m c k1 s1 id k a w valid there known h has listed =
      let world_env = against is_positive world rendering states env in
      let (g, held, closed) = h.gateway in
      let url = str_append g.base_url authorize_path in
      let fallback = get_fallback_credential m in
      let decided =
        decision is_positive world rendering (states w.posts) (payload_of (request_of p c url)) in
      let (_, g', w') = with_credentials world_env (some c) fallback p (polled g) (guarded_io w) in
      let met = with_credentials-Meets world_env (some c) fallback p (polled g) (guarded_io w) in
      let granted = expected-listed p c fallback k1 s1 url w.posts valid has listed in
      let answered = ap (λ r. (r, g', w')) (met.answers ∙ ap (λ o. o.answer) granted) in
      let (replied, posts) =
        authorize_payment_granted world_env settings p id k m c (rendering.fields decided)
          decided.transaction_id g g' a w w' there known h held closed answered
          (rendering.fields-transaction_id decided) in
      (
        response_of world_env settings p (rendering.fields decided) decided.transaction_id
            (record w' { uuids = suc w'.uuids }),
        replied,
        response_of-IsDecision is_positive world rendering states world_env settings p c url
            (states w.posts) (record w' { uuids = suc w'.uuids }),
        posts ∙ met.posts ∙ ap (λ o. w.posts + o.requests) granted,
      )

  -- A Vault outage does not interrupt the service. Vault answers no read, and the refresh loop has
  -- run since, however long and however its waits ended, so that many loads may have failed. A
  -- payment request then, with a valid body and API key, that the rate limiter lets pass, that has no
  -- stored response and finds the breaker closed, is answered 200 with the gateway's decision, on one
  -- request to the gateway, as long as the credential that was current before the outage is usable
  -- and its key, a text that is not empty, is among the gateway's. The answer has the request's id,
  -- and its access is recorded as a success.
  pub service_outage :
      (m0 : CredentialManager) (w0 : Io) (wakes : List WakeUp) (errors : ℕ) (c : Credential)
      (k1 s1 : String) (g : GatewayClient) (p : Payment Amount) (k : Option String) (q : Request)
      (s : Server (App Amount)) (w : Io)
      → IsOut env
      → get_current_credential m0 ≡ some c
      → HasKey is_positive world rendering c k1 s1
      → mem k1 (valid_keys is_positive world rendering) ≡ true
      → q.method ≡ "POST"
      → q.path ≡ "/api/v1/authorize"
      → validate is_positive is_at_most p ≡ some p
      → IsAdmitted env q s w
      → is_missing k ≡ false
      → mem (text_of k) settings.api_keys ≡ true
      → has_valid_credentials (env.clock (begun w).clock_reads) m0 ≡ true
      → s.inner.gateway_client ≡ some g
      → g.circuit_breaker.state ≡ CircuitState.closed
      → lookup String_discrete p.idempotency_key s.inner.idempotency_cache ≡ none
      → let world_env = against is_positive world rendering states env in
        s.inner.credential_manager ≡ some (refresh_loop world_env settings wakes errors m0 w0).1
        → let (r, _, w') =
            service framework world_env settings is_positive is_at_most (some p) k q s w in
          (reply : PaymentResponse Amount) × IsServed framework q (id_of env q w) reply r w'
          × IsDecision is_positive world rendering states p (states w.posts) reply
          × (w'.posts ≡ w.posts + 1)
  service_outage m0 w0 wakes errors c k1 s1 g p k q s w down current has listed posted there valid
        admitted given known usable held closed unanswered managed =
      let world_env = against is_positive world rendering states env in
      let (_, m, _) = refresh_loop world_env settings wakes errors m0 w0 in
      let (same, _) = refresh_loop-Outage world_env settings down wakes errors m0 w0 in
      let now = env.clock (begun w).clock_reads in
      let (reply, answers, decided, posts) =
        endpoint_listed p m c k1 s1 (some (id_of env q w)) k s.inner (begun w) valid given known
          (record {
            manager = managed;
            current = Unchanged-current m0 m same ∙ current;
            usable = Unchanged-valid m0 m now same ∙ usable;
            gateway = (g, held, closed);
            unanswered = unanswered;
          })
          has listed in
      let (served, posts') =
        endpoint-IsServed framework world_env settings is_positive is_at_most p k q s w reply posted
          there valid admitted answers in
      (reply, served, decided, posts' ∙ posts)
