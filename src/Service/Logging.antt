-- ===== src/Service/Logging.antt =====
-- The audit log of the whole service: the endpoints of app/main.py behind app/middleware.py.
use test_cusa.Prelude.{ℕ, String, Bool, Option, none, some, arith}
use test_cusa.Runtime.{Env, Action, Io}
use test_cusa.Runtime.Quiet.{Quiet, Quiet-bind, Quiet-elim, Quiet-if, Quiet-pure}
use test_cusa.Config.{Settings}
use test_cusa.Audit.Quiet.{Ignores}
use test_cusa.Gateway.{Payment}
use test_cusa.Models.{validate}
use test_cusa.Health.Quiet.{readiness-Quiet}
use test_cusa.Middleware.{Request, Server, or_made}
use test_cusa.Middleware.Auditing.{accesses, Audited, IsSilent, serve-Audited}
use test_cusa.Payments.Handler.{App, Reply}
use test_cusa.Payments.Quiet.{authorize_payment-Quiet}
use test_cusa.Service.{Framework, on_app, answered, authorize_route, is_call, application, service}

rejections_lem : Ignores accesses "auth_failure"
rejections_lem = record { at = λ e es kind. rw kind (omega arith) }

health_checks_lem : Ignores accesses "health_check"
health_checks_lem = record { at = λ e es kind. rw kind (omega arith) }

module _ {Amount : Type 0} (framework : Framework Amount) where
  on_app-Quiet :
      {A : Type 0} (act : Action (App Amount) A) → Quiet accesses act → Quiet accesses (on_app act)
  on_app-Quiet act quiet = record { at = λ s w. quiet.at s.inner w }

  answered-Quiet :
      (act : Action (App Amount) (Reply Amount))
      → Quiet accesses act
      → Quiet accesses (answered framework act)
  unfolding answered
  answered-Quiet act quiet = record { at = λ a w. quiet.at a w }

  module _ (env : Env Amount) (settings : Settings) (is_positive : Amount → Bool)
      (is_at_most : ℕ → Amount → Bool) where
    authorize_route-Quiet :
        (body : Option (Payment Amount)) (k : Option String) (r : Request)
        → Quiet accesses (authorize_route framework env settings is_positive is_at_most body k r)
    unfolding authorize_route
    authorize_route-Quiet none k r = Quiet-pure _
    authorize_route-Quiet (some body) k r =
        Quiet-elim (validate is_positive is_at_most body) _ _ (Quiet-pure _) λ p.
          on_app-Quiet _ (
            answered-Quiet _ (authorize_payment-Quiet env settings rejections_lem p r.request_id k))

    application-Quiet :
        (body : Option (Payment Amount)) (k : Option String) (r : Request)
        → Quiet accesses (application framework env settings is_positive is_at_most body k r)
    unfolding application
    application-Quiet body k r =
        Quiet-if (is_call r "POST" "/api/v1/authorize") _ _ (authorize_route-Quiet body k r) (
          Quiet-if (is_call r "GET" "/health/live") _ _ (Quiet-pure _) (
            Quiet-if (is_call r "GET" "/health/ready") _ _
              (Quiet-bind _ _ (on_app-Quiet _ (readiness-Quiet env settings health_checks_lem))
                λ h. Quiet-pure (framework.health h))
              (Quiet-pure _)))

    application-IsSilent :
        (body : Option (Payment Amount)) (k : Option String)
        → IsSilent (application framework env settings is_positive is_at_most body k)
    application-IsSilent body k = record { at = λ q s w. (application-Quiet body k q).at s w }

    -- A request to an API path that the service answers leaves exactly one access in the log, the
    -- newest event: under its id, with its path and method, the answer's status and whether it is
    -- below 400, be it an approval, a refusal of the rate limiter, of the body's checks or of the
    -- endpoint, or an unknown path. A request to another path leaves no access, and one that ends
    -- by an exception leaves none either.
    pub service-Audited :
        (body : Option (Payment Amount)) (k : Option String) (q : Request) (s : Server (App Amount))
        (w : Io)
        → let (r, _, w') = service framework env settings is_positive is_at_most body k q s w in
          Audited q (or_made q.id_header (env.uuid4 w.uuids)) w.audit r w'.audit
    unfolding service
    service-Audited body k q s w = serve-Audited env _ q s w (application-IsSilent body k)
