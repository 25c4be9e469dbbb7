-- ===== src/Middleware.antt =====
-- The three middlewares of app/middleware.py, nested as app/main.py adds them: the request id is
-- outermost, then the audit log, then the rate limiter.
pub mod Refusal
pub mod Auditing
pub mod Passing
use text.Mathlib.Text.{starts_with}
use test_cusa.Prelude.{ℕ, ◌+◌, ◌/◌, ◌%◌, String, Bool, Option, none, some, ltb, if◌then◌else◌}
use test_cusa.Prelude.Int.{ℤ, pos, negsuc, ◌-ℤ◌}
use test_cusa.Runtime.Convert.{round}
use test_cusa.Runtime.{Env, Action, pure, asks, modify, ◌>>=◌, ◌>>◌, when, time, uuid, access}
use test_cusa.Audit.{audit_event}
use test_cusa.RateLimit.{Buckets, admit}

-- What the middlewares look at; `request_id` is `request.state.request_id`.
pub record Request : Type 0 where
  pub path : String
  pub method : String
  pub host : Option String
  pub id_header : Option String
  pub request_id : Option String

pub record Response : Type 0 where
  pub status_code : ℕ
  pub id_header : Option String

pub record Server (C : Type 0) : Type 0 where
  pub buckets : Buckets
  pub inner : C

abbrev pub or_unknown : Option String → String
or_unknown none = "unknown"
or_unknown (some s) = s

-- `request.headers.get("X-Request-ID", made)`
abbrev pub or_made : Option String → String → String
or_made none made = made
or_made (some given) made = given

abbrev pub Handler : Type 0 → Type 0
Handler C = Request → Action (Server C) Response

module _ {Amount C : Type 0} (env : Env Amount) where
  -- `RequestIDMiddleware.dispatch`
  unfoldable pub with_request_id : Handler C → Handler C
  with_request_id call_next r = do
    made ← uuid env
    let id = or_made r.id_header made
    response ← call_next (record r { request_id = some id })
    pure (record response { id_header = some id })

  -- `AuditLoggingMiddleware.dispatch`
  unfoldable pub with_audit : Handler C → Handler C
  unfolding round audit_event
  with_audit call_next r = do
    start_time ← time env
    response ← call_next r
    end_time ← time env
    when (starts_with r.path "/api/") (
        audit_event env "api_access" (or_unknown r.request_id) r.path r.method
          (if ltb response.status_code 400 then "success" else "failure")
          (access response.status_code (round 100 (end_time -ℤ start_time)) r.method r.path))
    pure response

  -- The bucket of the client is charged; the dictionary is read and written with no wait between.
  unfoldable pub charge : Option String → Action (Server C) Bool
  unfolding admit
  charge host = do
    made ← time env
    now ← time env
    admitted ← asks (λ s. (admit made now host s.buckets).1)
    modify (λ s. record s { buckets = (admit made now host s.buckets).0 })
    pure admitted

  -- `RateLimitMiddleware.dispatch`
  unfoldable pub with_rate_limit : Handler C → Handler C
  unfolding charge
  with_rate_limit call_next r = do
    admitted ← charge r.host
    if admitted then call_next r else pure (record { status_code = 429; id_header = none })

  unfoldable pub serve : Handler C → Handler C
  unfolding with_request_id with_audit with_rate_limit
  serve app = with_request_id (with_audit (with_rate_limit app))
