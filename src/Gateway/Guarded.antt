-- ===== src/Gateway/Guarded.antt =====
-- Every phase of a call of app/gateway_client.py keeps the circuit breaker well-formed.
use test_cusa.Prelude.{ℕ, ◌<◌, ◌==◌, ◌||◌, leb, Option, none, some, arith}
use test_cusa.Prelude.Int.{ℤ, ◌-ℤ◌}
use test_cusa.Runtime.{Env, Action, Exn, Dict, Body, HttpReply}
use test_cusa.Runtime.Keeps.{Keeps, Keeps-pure, Keeps-throw, Keeps-if, Keeps-bind, Keeps-time}
use test_cusa.Audit.{audit_auth_failure}
use test_cusa.Breaker.{CircuitBreaker}
use test_cusa.Breaker.Machine.{IsValid, Event, react, react-IsValid, react_parameters}
use test_cusa.Credentials.Status.{Credential}
use test_cusa.Gateway
use test_cusa.Gateway.{
  GatewayClient, Payment, RequestLabel, count_request, observe, json_dict, update_metric,
  poll_allows, unavailable, classify, settle, all_rejected, or_else,
}
use test_cusa.Gateway.Phases
use test_cusa.Gateway.Phases.{
  Pending, first_try, second_try, Moved, answered, sent, launch, begin_with, reject, after_first,
}

-- A breaker with a positive threshold, in order.
abbrev pub Sound : CircuitBreaker → Type 0
Sound b = (0 < b.failure_threshold) × IsValid b

abbrev pub Guarded : GatewayClient → Type 0
Guarded g = Sound g.circuit_breaker

react-Sound : (e : Event) (b : CircuitBreaker) → Sound b → Sound (react e b)
react-Sound e b (positive, v) =
    (omega (arith, (react_parameters e b).0), react-IsValid e b positive v)

count_request-Guarded : (l : RequestLabel) → Keeps Guarded (count_request l)
unfolding count_request
count_request-Guarded l = record { at = λ g w h. h }

observe-Guarded : (d : ℤ) → Keeps Guarded (observe d)
unfolding observe
observe-Guarded d = record { at = λ g w h. h }

record_success-Guarded : Keeps Guarded Gateway.record_success
unfolding Gateway.record_success react
record_success-Guarded = record { at = λ g w h. react-Sound Event.succeeded g.circuit_breaker h }

json_dict-Guarded : (b : Body) → Keeps Guarded (json_dict b)
json_dict-Guarded (Body.object d) = Keeps-pure _
json_dict-Guarded Body.no_object = Keeps-throw _
json_dict-Guarded Body.scalar = Keeps-throw _

module _ {Amount : Type 0} (env : Env Amount) where
  update_metric-Guarded : Keeps Guarded (update_metric env)
  unfolding update_metric react
  update_metric-Guarded = record {
    at = λ g w h. react-Sound (Event.polled (env.clock w.clock_reads)) g.circuit_breaker h;
  }

  poll_allows-Guarded : Keeps Guarded (poll_allows env)
  unfolding poll_allows react
  poll_allows-Guarded = record {
    at = λ g w h. react-Sound (Event.polled (env.clock w.clock_reads)) g.circuit_breaker h;
  }

  record_failure-Guarded : Keeps Guarded (Gateway.record_failure env)
  unfolding Gateway.record_failure react
  record_failure-Guarded = record {
    at = λ g w h. react-Sound (Event.failed (env.clock w.clock_reads)) g.circuit_breaker h;
  }

  all_rejected-Guarded : Keeps Guarded (all_rejected env)
  unfolding all_rejected audit_auth_failure
  all_rejected-Guarded = record { at = λ g w h. h }

  unavailable-Guarded : (l : RequestLabel) → Keeps Guarded (unavailable env l)
  unfolding unavailable
  unavailable-Guarded l = Keeps-bind _ _ record_failure-Guarded λ _.
      Keeps-bind _ _ update_metric-Guarded
        λ _. Keeps-bind _ _ (count_request-Guarded l) λ _. Keeps-throw Exn.gateway_unavailable_error

  classify-Guarded : (status_code : ℕ) (b : Body) → Keeps Guarded (classify env status_code b)
  unfolding classify
  classify-Guarded n b =
      let label = RequestLabel.status n in
      Keeps-if (n == 401 || n == 403) _ _
        (Keeps-bind _ _ (count_request-Guarded label) λ _. Keeps-pure none)
        (Keeps-if (leb 500 n) _ _ (unavailable-Guarded label) (
          Keeps-bind _ _ record_success-Guarded λ _.
            Keeps-bind _ _ update_metric-Guarded
              λ _. Keeps-bind _ _ (count_request-Guarded label) λ _. json_dict-Guarded b))

  settle-Guarded : (start : ℤ) (r : HttpReply) → Keeps Guarded (settle env start r)
  unfolding settle
  settle-Guarded start (HttpReply.answer n b) =
      Keeps-bind _ _ (Keeps-time env)
        λ now. Keeps-bind _ _ (observe-Guarded (now -ℤ start)) λ _. classify-Guarded n b
  settle-Guarded start HttpReply.timed_out = Keeps-bind _ _ (Keeps-time env) λ now.
      Keeps-bind _ _ (observe-Guarded (now -ℤ start)) λ _. unavailable-Guarded RequestLabel.timeout
  settle-Guarded start HttpReply.http_error = Keeps-bind _ _ (Keeps-time env) λ now.
      Keeps-bind _ _ (observe-Guarded (now -ℤ start)) λ _. unavailable-Guarded RequestLabel.error
  settle-Guarded start HttpReply.broken = Keeps-throw Exn.other_error

  launch-Guarded : (c : Credential) (p : Payment Amount) → Keeps Guarded (launch env c p)
  unfolding launch
  launch-Guarded c p = record { at = λ g w h. h }

  reject-Guarded : Keeps Guarded (reject {Amount = Amount} env)
  unfolding reject
  reject-Guarded = Keeps-bind _ _ all_rejected-Guarded λ d. Keeps-pure (answered d)

  after_first-Guarded :
      (found : Option Dict) (primary : Credential) (fallback : Option Credential)
      (p : Payment Amount)
      → Keeps Guarded (after_first env found primary fallback p)
  unfolding after_first
  after_first-Guarded (some d) primary fallback p = Keeps-pure _
  after_first-Guarded none primary none p = reject-Guarded
  after_first-Guarded none primary (some c) p =
      Keeps-if (c.identity == primary.identity) _ _ reject-Guarded
        (Keeps-bind _ _ (launch-Guarded c p) λ a. Keeps-pure (sent (second_try a)))

  or_else-Guarded :
      (found : Option Dict) (rest : Action GatewayClient Dict)
      → Keeps Guarded rest
      → Keeps Guarded (or_else env found rest)
  or_else-Guarded none rest k = k
  or_else-Guarded (some d) rest k = Keeps-pure d

  pub resume-Guarded : (t : Pending Amount) (r : HttpReply) → Keeps Guarded (Phases.resume env t r)
  unfolding Phases.resume
  resume-Guarded (first_try a primary fallback) r =
      Keeps-bind _ _ (settle-Guarded a.start_time r)
        λ found. after_first-Guarded found primary fallback a.payment
  resume-Guarded (second_try a) r = Keeps-bind _ _ (settle-Guarded a.start_time r) λ found.
      Keeps-bind _ _ (or_else-Guarded found _ all_rejected-Guarded) λ d. Keeps-pure (answered d)

  begin_with-Guarded :
      (primary fallback : Option Credential) (p : Payment Amount)
      → Keeps Guarded (begin_with env primary fallback p)
  unfolding begin_with
  begin_with-Guarded none fallback p = Keeps-throw _
  begin_with-Guarded (some c) fallback p =
      Keeps-bind _ _ (launch-Guarded c p) λ a. Keeps-pure (first_try a c fallback)

  pub begin-Guarded :
      (primary fallback : Option Credential) (p : Payment Amount)
      → Keeps Guarded (Phases.begin env primary fallback p)
  unfolding Phases.begin
  begin-Guarded primary fallback p = Keeps-bind _ _ update_metric-Guarded λ _.
      Keeps-bind _ _ poll_allows-Guarded λ allowed.
        Keeps-if allowed _ _ (begin_with-Guarded primary fallback p)
          (Keeps-bind _ _ update_metric-Guarded λ _. Keeps-throw Exn.gateway_unavailable_error)
