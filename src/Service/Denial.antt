-- ===== src/Service/Denial.antt =====
-- A request to `POST /api/v1/authorize` of app/main.py without a valid API key, through the
-- middlewares.
use mathlib.Core.Path.{subst}
use test_cusa.Prelude.{
  ℕ, ◌≡◌, refl, ap, ◌∙◌, String, Bool, true, false, Option, some, List, ◌∷◌, ◌⊎◌, arith,
  if◌then◌else◌,
}
use test_cusa.Runtime.{Env, Io, AuditEvent, ok, raise}
use test_cusa.Config.{Settings}
use test_cusa.Gateway.{Payment}
use test_cusa.Models.{validate}
use test_cusa.Middleware.{Request, Response, Server}
use test_cusa.Middleware.Auditing.{Describes}
use test_cusa.Middleware.Passing.{IsAdmitted, id_of, begun}
use test_cusa.Payments.Handler
use test_cusa.Payments.Handler.{App, Reply, mem, text_of, is_missing}
use test_cusa.Payments.Access.{denial, reason, Rejection, authorize_payment_denied}
use test_cusa.Service.Endpoint.{endpoint-IsSent}
use test_cusa.Service.{Framework, answer, service}

-- What a denied request leaves in the log, newest first: its access, and the rejection.
abbrev pub LoggedDenial :
    Request → (id : String) → Option String → ℕ → (before after : List AuditEvent) → Type 0
LoggedDenial q id k status_code before after =
    (e : AuditEvent) × (rest : List AuditEvent) × (after ≡ e ∷ rest)
    × Describes q.path q.method id status_code e
    × Rejection (reason k) id before rest

module _ {Amount : Type 0} (framework : Framework Amount) where
  -- The `HTTPException` of a denied request, as a response.
  abbrev refusal : Option String → Response
  refusal k =
      if is_missing k
      then framework.http_exception 401 "Missing API key"
      else framework.http_exception 403 "Invalid API key"

  answer-denial : (k : Option String) → answer framework (raise (denial k)) ≡ ok (refusal k)
  unfolding answer denial
  answer-denial k = ground arith

  module _ (env : Env Amount) (settings : Settings) (is_positive : Amount → Bool)
      (is_at_most : ℕ → Amount → Bool) where
    refusal-status :
        (k : Option String) → (refusal k).status_code ≡ (if is_missing k then 401 else 403)
    refusal-status k = ground (
      arith,
      framework.http_exception-status 401 "Missing API key",
      framework.http_exception-status 403 "Invalid API key",
    )

    -- A payment request that the rate limiter lets pass, with a valid body and an API key that is
    -- missing, empty or not configured, is answered 401 or 403, with the request's id in its header.
    -- The log gets two events, both under that id: the rejection, and then the access with the
    -- answer's status, as a failure. No credential was read, nothing was sent to the gateway, and
    -- the application's state is as before.
    pub service_denied :
        (p : Payment Amount) (k : Option String) (q : Request) (s : Server (App Amount)) (w : Io)
        → q.method ≡ "POST"
        → q.path ≡ "/api/v1/authorize"
        → validate is_positive is_at_most p ≡ some p
        → IsAdmitted env q s w
        → mem (text_of k) settings.api_keys ≡ false ⊎ is_missing k ≡ true
        → let (r, s', w') =
            service framework env settings is_positive is_at_most (some p) k q s w in
          (response : Response) × (r ≡ ok response)
          × (response.status_code ≡ (if is_missing k then 401 else 403))
          × (response.id_header ≡ some (id_of env q w))
          × (s'.inner ≡ s.inner)
          × (w'.posts ≡ w.posts)
          × (w'.kv_reads ≡ w.kv_reads)
          × LoggedDenial q (id_of env q w) k (if is_missing k then 401 else 403) w.audit w'.audit
    unfolding service
    service_denied p k q s w posted there valid admitted bad =
        let id = id_of env q w in
        let (_, a, w2) = Handler.authorize_payment env settings p (some id) k s.inner (begun w) in
        let (raised, kept, posts, kv_reads, rejected) =
          authorize_payment_denied env settings p (some id) k s.inner (begun w) bad in
        let out =
          endpoint-IsSent framework env settings is_positive is_at_most p k q s w (refusal k) posted
            there valid admitted (ap (answer framework) raised ∙ answer-denial k) in
        let (e, audit, described) = out.logged in
        (
          record (refusal k) { id_header = some id },
          out.answers,
          refusal-status k,
          refl,
          ap (λ s'. s'.inner) out.state ∙ kept,
          out.posts ∙ posts,
          out.kv_reads ∙ kv_reads,
          (
            e,
            w2.audit,
            audit,
            subst (λ n. Describes q.path q.method id n e) (refusal-status k) described,
            rejected,
          ),
        )
