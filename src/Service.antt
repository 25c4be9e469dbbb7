-- ===== src/Service.antt =====
-- `app` of app/main.py: its routes, behind the middlewares. What FastAPI makes of a result is a
-- parameter: `Framework` has the answers, with the status codes that its documentation promises.
pub mod Logging
pub mod Endpoint
pub mod Denial
pub mod Rotation
pub mod Downtime
pub mod Outage
pub mod Unavailable
use text.Mathlib.Text.{◌==◌ as str_eq}
use test_cusa.Prelude.{ℕ, String, Bool, ◌&&◌, ◌≡◌, Option, none, some, if◌then◌else◌}
use test_cusa.Runtime.{Env, Action, Result, ok, raise, Exn, pure, lift, ◌>>=◌}
use test_cusa.Config.{Settings}
use test_cusa.Gateway.{Payment}
use test_cusa.Models.{validate, HealthStatus}
use test_cusa.Health.{readiness}
use test_cusa.Middleware.{Request, Response, Server, Handler, serve}
use test_cusa.Payments.Handler
use test_cusa.Payments.Handler.{App, Reply}

pub record Framework (Amount : Type 0) : Type 0 where
  pub success : Reply Amount → Response
  pub http_exception : (status_code : ℕ) → (detail : String) → Response
  pub health : ℕ × HealthStatus → Response
  pub alive : Response
  pub unprocessable : Response
  pub unrouted : Request → Response
  pub success-status : (r : Reply Amount) → (success r).status_code ≡ 200
  pub http_exception-status : (n : ℕ) (d : String) → (http_exception n d).status_code ≡ n
  pub health-status : (n : ℕ) (h : HealthStatus) → (health (n, h)).status_code ≡ n

-- An action on the application's globals.
abbrev pub on_app : {Amount A : Type 0} → Action (App Amount) A → Action (Server (App Amount)) A
on_app act s w = let (r, a, w') = act s.inner w in (r, record s { inner = a }, w')

abbrev pub is_call : Request → (method path : String) → Bool
is_call r method path = str_eq r.method method && str_eq r.path path

module _ {Amount : Type 0} (framework : Framework Amount) where
  -- A response, an `HTTPException` as its response, and any other exception as it is.
  unfoldable pub answer : Result (Reply Amount) → Result Response
  answer (ok r) = ok (framework.success r)
  answer (raise (Exn.http_exception n d)) = ok (framework.http_exception n d)
  answer (raise e) = raise e

  unfoldable pub answered : Action (App Amount) (Reply Amount) → Action (App Amount) Response
  unfolding answer
  answered act a w = let (r, a', w') = act a w in (answer r, a', w')

  module _ (env : Env Amount) (settings : Settings) (is_positive : Amount → Bool)
      (is_at_most : ℕ → Amount → Bool) where
    -- A body that does not fit `PaymentRequest` is refused before the endpoint is called.
    unfoldable pub authorize_route :
        (body : Option (Payment Amount)) → (x_api_key : Option String) → Handler (App Amount)
    unfolding answered validate
    authorize_route none k r = pure framework.unprocessable
    authorize_route (some body) k r = elim (validate is_positive is_at_most body) [
      | none ↦ pure framework.unprocessable
      | some p ↦ on_app (answered (Handler.authorize_payment env settings p r.request_id k))
    ]

    -- `GET /metrics` is not among the routes: what it prints is not modelled.
    unfoldable pub application :
        (body : Option (Payment Amount)) → (x_api_key : Option String) → Handler (App Amount)
    unfolding authorize_route
    application body k r =
        if is_call r "POST" "/api/v1/authorize"
        then authorize_route body k r
        else if is_call r "GET" "/health/live"
        then pure framework.alive
        else if is_call r "GET" "/health/ready"
        then (do h ← on_app (readiness env settings); pure (framework.health h))
        else pure (framework.unrouted r)

    -- A request through the middlewares.
    unfoldable pub service :
        (body : Option (Payment Amount)) → (x_api_key : Option String) → Handler (App Amount)
    unfolding application serve
    service body k = serve env (application body k)
