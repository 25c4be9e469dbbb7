-- ===== src/Service/Downtime.antt =====
-- A rotation without downtime: the load of a new credential in app/credential_manager.py, and a
-- payment request to app/main.py after it.
use test_cusa.Prelude.{
  ℕ, ◌+◌, ◌<◌, ◌≡◌, ◌∙◌, sym, ◌≢◌, String, Bool, true, false, ◌==◌, Option, some, ◌⊎◌, arith,
}
use test_cusa.Prelude.Int.{ℤ, ℤ_discrete}
use test_cusa.Runtime.{Env, Io}
use test_cusa.Config.{Settings}
use test_cusa.OrderedDict.{behind}
use test_cusa.Breaker.{CircuitState}
use test_cusa.Credentials.Status.{Credential}
use test_cusa.Credentials.Cache.{IsValid}
use test_cusa.Credentials.Manager.{CredentialManager, max_cache_size, get_current_credential}
use test_cusa.Credentials.Load.{load_credentials}
use test_cusa.Credentials.Window.{Window, load_credentials-Window}
use test_cusa.Gateway.{Payment}
use test_cusa.Models.{validate, PaymentResponse}
use test_cusa.Middleware.{Request, Server}
use test_cusa.Middleware.Passing.{IsAdmitted, id_of, begun}
use test_cusa.Mock.Service
use test_cusa.Mock.Service.{World}
use test_cusa.Mock.Service.Rotation.{Rendering, HasKey, against, valid_keys}
use test_cusa.Payments.Handler.{App, mem, text_of, is_missing}
use test_cusa.Payments.Schedule.Starting.{IsReady}
use test_cusa.Service.{Framework, service}
use test_cusa.Service.Endpoint.{endpoint-IsServed, IsServed}
use test_cusa.Service.Rotation.{deciding, requests, IsDecision, endpoint_rotated}

-- The credential of an open window is not the one before it.
Window-ne :
    (m m' : CredentialManager) (new : ℤ) (c1 c2 : Credential)
    → Window m m' new
    → get_current_credential m' ≡ some c1
    → c2.identity < m.credentials_made
    → c2.identity == c1.identity ≡ false
Window-ne m m' new c1 c2 opened current made =
    let same = sym opened.current ∙ current in ground (arith, opened.fresh, same)

module _ {Amount : Type 0} (is_positive : Amount → Bool) (world : World)
    (rendering : Rendering Amount) (states : ℕ → Service.Gateway) (framework : Framework Amount)
    (env : Env Amount) (settings : Settings) (is_at_most : ℕ → Amount → Bool) where
  -- A load that moves the manager from the version `old` to `new` does not interrupt the service.
  -- A payment request that comes after it, with a valid body, API key and usable credential, that the
  -- rate limiter lets pass, that has no stored response and finds the breaker closed, is answered 200
  -- with the gateway's decision, as soon as the gateway takes the new credential's key, and as long
  -- as it takes the old one's: on one request to the gateway if it takes the new key, else on two.
  -- The answer has the request's id, and its access is recorded as a success. The manager's cache was
  -- valid and the old credential not the next one that it drops; the old credential was made before
  -- the load; both credentials have texts for keys and secrets, and the keys are not empty.
  pub service_rotated :
      (m0 : CredentialManager) (w0 : Io) (old new : ℤ) (c1 c2 : Credential) (k1 s1 k2 s2 : String)
      (p : Payment Amount) (k : Option String) (q : Request) (s : Server (App Amount)) (w : Io)
      → IsValid m0
      → m0.current_version ≡ some old
      → behind ℤ_discrete old m0.cache + 1 < max_cache_size
      → get_current_credential m0 ≡ some c2
      → c2.identity < m0.credentials_made
      → HasKey is_positive world rendering c1 k1 s1
      → HasKey is_positive world rendering c2 k2 s2
      → mem k1 (valid_keys is_positive world rendering) ≡ true
        ⊎ mem k2 (valid_keys is_positive world rendering) ≡ true
      → q.method ≡ "POST"
      → q.path ≡ "/api/v1/authorize"
      → validate is_positive is_at_most p ≡ some p
      → IsAdmitted env q s w
      → is_missing k ≡ false
      → mem (text_of k) settings.api_keys ≡ true
      → let world_env = against is_positive world rendering states env in
        let m = (load_credentials world_env settings m0 w0).1 in
        m.current_version ≡ some new
        → new ≢ old
        → IsReady world_env settings CircuitState.closed p.idempotency_key m c1 s.inner (begun w)
        → let (r, _, w') =
            service framework world_env settings is_positive is_at_most (some p) k q s w in
          (reply : PaymentResponse Amount) × IsServed framework q (id_of env q w) reply r w'
          × IsDecision is_positive world rendering states p
              (deciding is_positive world rendering states w.posts k1)
              reply
          × (w'.posts ≡ w.posts + requests is_positive world rendering states k1)
  service_rotated m0 w0 old new c1 c2 k1 s1 k2 s2 p k q s w v was room before made has1 has2 listed
        posted there valid admitted given known is ne ready =
      let world_env = against is_positive world rendering states env in
      let (_, m, _) = load_credentials world_env settings m0 w0 in
      let opened = load_credentials-Window world_env settings m0 w0 old new v was room is ne in
      let (reply, answers, decided, posts) =
        endpoint_rotated is_positive world rendering states is_at_most env settings p p m c1 c2 k1
          s1 k2 s2 (some (id_of env q w)) k s.inner (begun w) valid given known ready
          (opened.fallback ∙ before) has1 has2 (Window-ne m0 m new c1 c2 opened ready.current made)
          listed in
      let (served, posts') =
        endpoint-IsServed framework world_env settings is_positive is_at_most p k q s w reply posted
          there valid admitted answers in
      (reply, served, decided, posts' ∙ posts)
