-- ===== src/Service/Endpoint.antt =====
-- A request to `POST /api/v1/authorize` of app/main.py with a valid body that the rate limiter lets
-- pass: the endpoint's answer, through the middlewares.
use text.Mathlib.Text.{starts_with}
use test_cusa.Prelude.{ℕ, ◌≡◌, refl, ap, ◌∙◌, String, Bool, true, Option, some, List, ◌∷◌}
use test_cusa.Runtime.{Env, Io, ok, raise, Exn, Result, AuditEvent}
use test_cusa.Config.{Settings}
use test_cusa.Gateway.{Payment}
use test_cusa.Models.{validate, PaymentResponse}
use test_cusa.Middleware.Auditing.{Describes}
use mathlib.Core.Path.{subst}
use test_cusa.Middleware.{Request, Response, Server}
use test_cusa.Middleware.Passing.{
  IsAdmitted, id_of, identified, charged, begun, IsSent, serve-IsSent,
}
use test_cusa.Payments.Handler
use test_cusa.Payments.Handler.{App, Reply, mem, text_of, is_missing}
use test_cusa.Service.{
  Framework, on_app, answer, answered, authorize_route, is_call, application, service,
}

pub is_call_lem :
    (q : Request)
    → q.method ≡ "POST"
    → q.path ≡ "/api/v1/authorize"
    → is_call q "POST" "/api/v1/authorize" ≡ true
is_call_lem q posted there = rw (posted, there) refl

pub is_api : (q : Request) → q.path ≡ "/api/v1/authorize" → starts_with q.path "/api/" ≡ true
is_api q there = rw there refl

-- The new response to a request with an id: its status is 200, it carries the id, and its access is
-- the newest event of the log, a success.
pub record IsServed {Amount : Type 0} (framework : Framework Amount) (q : Request) (id : String)
    (reply : PaymentResponse Amount) (r : Result Response) (w' : Io) : Type 0 where
  pub answers : r ≡ ok (record (framework.success (Reply.fresh reply)) { id_header = some id })
  pub succeeded : (framework.success (Reply.fresh reply)).status_code ≡ 200
  pub logged :
      (e : AuditEvent) × (before : List AuditEvent) × (w'.audit ≡ e ∷ before)
      × Describes q.path q.method id 200 e

-- An `HTTPException` as the response to a request with an id: it carries the id, and its access is
-- the newest event of the log.
pub record IsRefused {Amount : Type 0} (framework : Framework Amount) (q : Request) (id : String)
    (n : ℕ) (detail : String) (r : Result Response) (w' : Io) : Type 0 where
  pub answers : r ≡ ok (record (framework.http_exception n detail) { id_header = some id })
  pub status : (framework.http_exception n detail).status_code ≡ n
  pub logged :
      (e : AuditEvent) × (before : List AuditEvent) × (w'.audit ≡ e ∷ before)
      × Describes q.path q.method id n e

module _ {Amount : Type 0} (framework : Framework Amount) (env : Env Amount) (settings : Settings)
    (is_positive : Amount → Bool) (is_at_most : ℕ → Amount → Bool) where
  -- The route of a valid body is the endpoint.
  routed_lem :
      (p : Payment Amount) (k : Option String) (q : Request)
      → is_call q "POST" "/api/v1/authorize" ≡ true
      → validate is_positive is_at_most p ≡ some p
      → application framework env settings is_positive is_at_most (some p) k q
        ≡ on_app (answered framework (Handler.authorize_payment env settings p q.request_id k))
  unfolding application authorize_route
  routed_lem p k q called valid = rw called (rw (authorize_route, valid) refl)

  -- What the endpoint returned or raised, on its way out.
  pub endpoint-IsSent :
      (p : Payment Amount) (k : Option String) (q : Request) (s : Server (App Amount)) (w : Io)
      (response : Response)
      → q.method ≡ "POST"
      → q.path ≡ "/api/v1/authorize"
      → validate is_positive is_at_most p ≡ some p
      → IsAdmitted env q s w
      → answer framework
          (Handler.authorize_payment env settings p (some (id_of env q w)) k s.inner (begun w)).0
        ≡ ok response
      → let (_, a, w2) =
          Handler.authorize_payment env settings p (some (id_of env q w)) k s.inner (begun w) in
        let (r, s', w') = service framework env settings is_positive is_at_most (some p) k q s w in
        IsSent q (id_of env q w) response (record (charged env q s w) { inner = a }) w2 r s' w'
  unfolding service answered
  endpoint-IsSent p k q s w response posted there valid admitted answers =
      let act = Handler.authorize_payment env settings p (some (id_of env q w)) k in
      let (_, a, w2) = act s.inner (begun w) in
      serve-IsSent env (application framework env settings is_positive is_at_most (some p) k) q s w
        response (record (charged env q s w) { inner = a }) w2 admitted (is_api q there)
        (ap (λ m. m (charged env q s w) (begun w))
            (routed_lem p k (identified env q w) (is_call_lem q posted there) valid)
          ∙ ap (λ r. (r, record (charged env q s w) { inner = a }, w2)) answers)

  pub endpoint-IsServed :
      (p : Payment Amount) (k : Option String) (q : Request) (s : Server (App Amount)) (w : Io)
      (reply : PaymentResponse Amount)
      → q.method ≡ "POST"
      → q.path ≡ "/api/v1/authorize"
      → validate is_positive is_at_most p ≡ some p
      → IsAdmitted env q s w
      → (Handler.authorize_payment env settings p (some (id_of env q w)) k s.inner (begun w)).0
        ≡ ok (Reply.fresh reply)
      → let (_, _, w2) =
          Handler.authorize_payment env settings p (some (id_of env q w)) k s.inner (begun w) in
        let (r, _, w') = service framework env settings is_positive is_at_most (some p) k q s w in
        IsServed framework q (id_of env q w) reply r w' × (w'.posts ≡ w2.posts)
  unfolding answer
  endpoint-IsServed p k q s w reply posted there valid admitted answers =
      let success = framework.success-status (Reply.fresh reply) in
      let out =
        endpoint-IsSent p k q s w (framework.success (Reply.fresh reply)) posted there valid
          admitted (ap (answer framework) answers) in
      let (e, audit, described) = out.logged in
      (
        record {
          answers = out.answers;
          succeeded = success;
          logged = (
            e,
            _,
            audit,
            subst (λ n. Describes q.path q.method (id_of env q w) n e) success described,
          );
        },
        out.posts,
      )

  pub endpoint-IsRefused :
      (p : Payment Amount) (k : Option String) (q : Request) (s : Server (App Amount)) (w : Io)
      (n : ℕ) (detail : String)
      → q.method ≡ "POST"
      → q.path ≡ "/api/v1/authorize"
      → validate is_positive is_at_most p ≡ some p
      → IsAdmitted env q s w
      → (Handler.authorize_payment env settings p (some (id_of env q w)) k s.inner (begun w)).0
        ≡ raise (Exn.http_exception n detail)
      → let (_, a, w2) =
          Handler.authorize_payment env settings p (some (id_of env q w)) k s.inner (begun w) in
        let (r, s', w') = service framework env settings is_positive is_at_most (some p) k q s w in
        IsRefused framework q (id_of env q w) n detail r w'
        × (s'.inner ≡ a)
        × (w'.posts ≡ w2.posts)
        × (w'.kv_reads ≡ w2.kv_reads)
  unfolding answer
  endpoint-IsRefused p k q s w n detail posted there valid admitted raised =
      let status = framework.http_exception-status n detail in
      let out =
        endpoint-IsSent p k q s w (framework.http_exception n detail) posted there valid admitted
          (ap (answer framework) raised) in
      let (e, audit, described) = out.logged in
      (
        record {
          answers = out.answers;
          status = status;
          logged = (
            e,
            _,
            audit,
            subst (λ m. Describes q.path q.method (id_of env q w) m e) status described,
          );
        },
        ap (λ s'. s'.inner) out.state,
        out.posts,
        out.kv_reads,
      )
