-- ===== src/Tests/ServiceTests.antt =====
-- The whole service on concrete inputs.
use test_cusa.Prelude.{ℕ, ◌≡◌, refl, inl, none, some, [], lookup, leb, ℕ_discrete, String_discrete}
use test_cusa.Prelude.Int.{ℤ_discrete, ◌-ℤ◌, ◌+ℤ◌, scale}
use test_cusa.Runtime.{ok}
use test_cusa.OrderedDict.{move_to_end, remove}
use test_cusa.Breaker.{CircuitState}
use test_cusa.Credentials.Manager.{get_current_credential, has_valid_credentials, last}
use test_cusa.RateLimit.{admit, get_bucket, consume, refilled, make_bucket}
use test_cusa.Middleware.{Response, Server}
use test_cusa.Middleware.Auditing.{Audited}
use test_cusa.Middleware.Passing.{IsAdmitted, begun}
use test_cusa.Models.{validate, has_length}
use test_cusa.Payments.Handler.{App, mem}
use test_cusa.Payments.Schedule.Starting.{IsReady}
use test_cusa.Service.{Framework, service}
use test_cusa.Service.Logging.{service-Audited}
use test_cusa.Service.Denial.{LoggedDenial, service_denied}
use test_cusa.Service.Endpoint.{IsRefused}
use test_cusa.Service.Unavailable.{service_blocked, service-unusable}
use test_cusa.Breaker.{has_timed_out}
use test_cusa.Tests.World.{env, io}
use test_cusa.Tests.CacheTests.{query}
use test_cusa.Tests.PaymentTests.{
  manager, credential, blocked_gateway, app, payment, settings, ready,
}

abbrev pub answered : ℕ → Response
answered n = record { status_code = n; id_header = none }

abbrev pub framework : Framework ℕ
framework = record {
  success = λ r. answered 200;
  http_exception = λ n d. answered n;
  health = λ h. answered h.0;
  alive = answered 200;
  unprocessable = answered 422;
  unrouted = λ r. answered 404;
  success-status = λ r. refl;
  http_exception-status = λ n d. refl;
  health-status = λ n h. refl;
}

-- No client has come yet.
abbrev server : Server (App ℕ)
server = record { buckets = []; inner = ready }

service-Audited_example :
    let (r, _, w) =
      service framework env settings
        (leb 1)
        (λ m n. leb n m)
        (some payment)
        (some "key-1")
        query
        server
        io in
    Audited query "uuid" [] r w.audit
service-Audited_example =
    service-Audited framework env settings (leb 1) (λ m n. leb n m) (some payment) (some "key-1")
      query server io

pub is_admitted : IsAdmitted env query server io
unfolding admit get_bucket consume refilled make_bucket scale ◌-ℤ◌ ◌+ℤ◌ lookup move_to_end remove
    String_discrete
is_admitted = refl

service_denied_example :
    let (r, s, w) =
      service framework env settings
        (leb 1)
        (λ m n. leb n m)
        (some payment)
        (some "wrong")
        query
        server
        io in
    (response : Response) × (r ≡ ok response)
    × (response.status_code ≡ 403)
    × (response.id_header ≡ some "uuid")
    × (s.inner ≡ ready)
    × (w.posts ≡ 0)
    × (w.kv_reads ≡ 0)
    × LoggedDenial query "uuid" (some "wrong") 403 [] w.audit
unfolding validate has_length mem
service_denied_example =
    service_denied framework env settings (leb 1) (λ m n. leb n m) payment (some "wrong") query
      server io refl refl refl is_admitted (inl refl)

abbrev blocked_server : Server (App ℕ)
blocked_server = record {
  buckets = [];
  inner = record ready { gateway_client = some blocked_gateway };
}

manager-IsReady :
    IsReady env settings CircuitState.opened "order-1" manager
      (credential 2)
      blocked_server.inner
      (begun io)
unfolding get_current_credential last lookup ℤ_discrete ℕ_discrete has_valid_credentials
manager-IsReady = record {
  manager = refl;
  current = refl;
  usable = refl;
  gateway = (blocked_gateway, refl, refl);
  unanswered = refl;
}

service_blocked_example :
    let (r, _, w) =
      service framework env settings
        (leb 1)
        (λ m n. leb n m)
        (some payment)
        (some "key-1")
        query
        blocked_server
        io in
    IsRefused framework query "uuid" 503 "Service unavailable: gateway unreachable" r w
    × (w.posts ≡ 0)
unfolding validate has_length mem has_timed_out ◌-ℤ◌
service_blocked_example =
    service_blocked framework env settings (leb 1) (λ m n. leb n m) payment (some "key-1") manager
      (credential 2) blocked_gateway query blocked_server io refl refl refl is_admitted refl refl
      manager-IsReady refl (refl, refl, refl)

-- Nothing was ever loaded.
abbrev bare_server : Server (App ℕ)
bare_server = record { buckets = []; inner = app }

service-unusable_example :
    let (r, s, w) =
      service framework env settings
        (leb 1)
        (λ m n. leb n m)
        (some payment)
        (some "key-1")
        query
        bare_server
        io in
    IsRefused framework query "uuid" 503 "Service unavailable: credential error" r w
    × (s.inner ≡ app)
    × (w.posts ≡ 0)
unfolding validate has_length mem
service-unusable_example =
    service-unusable framework env settings (leb 1) (λ m n. leb n m) payment (some "key-1") query
      bare_server io refl refl refl is_admitted refl refl refl
