-- ===== src/Gateway/Attempts.antt =====
-- One attempt of `_try_authorize` in app/gateway_client.py: its result, and what it does to the
-- circuit breaker, for every reply of the gateway.
use test_cusa.Prelude.{ℕ, suc, ◌+◌, ◌≡◌, ◌||◌, Option, none, some, arith, leb, ◌==◌, if◌then◌else◌}
use test_cusa.Prelude.Int.{ℤ}
use test_cusa.Runtime.{Env, Io, Exn, Result, ok, raise, Dict, Body, HttpReply}
use test_cusa.Breaker.{poll}
use test_cusa.Gateway.{GatewayClient, update_metric, settle}

-- What a reply of the gateway means.
pub data Verdict : Type 0 where
  rejected : Verdict
  granted : Dict → Verdict
  unreachable : Verdict
  garbled : Verdict
  scalar : Verdict
  crashed : Verdict

unfoldable pub body_verdict : Body → Verdict
body_verdict (Body.object d) = Verdict.granted d
body_verdict Body.no_object = Verdict.garbled
body_verdict Body.scalar = Verdict.scalar

-- 401 and 403 reject the credential, 500 and above and network errors are an unavailable gateway,
-- and every other status is taken for an answer.
unfoldable pub verdict : HttpReply → Verdict
unfolding body_verdict
verdict (HttpReply.answer status_code body) =
    if status_code == 401 || status_code == 403
    then Verdict.rejected
    else if leb 500 status_code
    then Verdict.unreachable
    else body_verdict body
verdict HttpReply.timed_out = Verdict.unreachable
verdict HttpReply.http_error = Verdict.unreachable
verdict HttpReply.broken = Verdict.crashed

unfoldable pub result : Verdict → Result (Option Dict)
result Verdict.rejected = ok none
result (Verdict.granted d) = ok (some d)
result Verdict.unreachable = raise Exn.gateway_unavailable_error
result Verdict.garbled = raise Exn.value_error
result Verdict.scalar = raise Exn.type_error
result Verdict.crashed = raise Exn.other_error

-- The failures that the breaker has counted after the attempt.
unfoldable pub failures : Verdict → ℕ → ℕ
failures Verdict.rejected n = n
failures (Verdict.granted d) n = 0
failures Verdict.unreachable n = n + 1
failures Verdict.garbled n = 0
failures Verdict.scalar n = 0
failures Verdict.crashed n = n

pub record Attempted (v : Verdict) (g : GatewayClient) (w : Io) (r : Result (Option Dict))
    (g' : GatewayClient) (w' : Io) : Type 0 where
  pub answers : r ≡ result v
  pub posts : w'.posts ≡ w.posts
  pub base_url : g'.base_url ≡ g.base_url
  pub count : g'.circuit_breaker.failure_count ≡ failures v g.circuit_breaker.failure_count
  pub auth_failures : g'.gateway_auth_failures_total ≡ g.gateway_auth_failures_total
  pub audit : w'.audit ≡ w.audit

module _ {Amount : Type 0} (env : Env Amount) where
  pub update_metric_lem :
      (g : GatewayClient) (w : Io)
      → let (r, g', w') = update_metric env g w in
        (r ≡ ok tt)
        × (g'.base_url ≡ g.base_url)
        × (g'.circuit_breaker ≡ poll (env.clock w.clock_reads) g.circuit_breaker)
        × (g'.circuit_breaker.failure_count ≡ g.circuit_breaker.failure_count)
        × (g'.gateway_auth_failures_total ≡ g.gateway_auth_failures_total)
        × (w' ≡ record w { clock_reads = suc w.clock_reads })
  unfolding update_metric
  update_metric_lem g w = ground arith

  pub settle-Attempted :
      (start : ℤ) (reply : HttpReply) (g : GatewayClient) (w : Io)
      → let (r, g', w') = settle env start reply g w in Attempted (verdict reply) g w r g' w'
  unfolding settle verdict result failures
  settle-Attempted start (HttpReply.answer code (Body.object d)) g w = ground arith
  settle-Attempted start (HttpReply.answer code Body.no_object) g w = ground arith
  settle-Attempted start (HttpReply.answer code Body.scalar) g w = ground arith
  settle-Attempted start HttpReply.timed_out g w = ground arith
  settle-Attempted start HttpReply.http_error g w = ground arith
  settle-Attempted start HttpReply.broken g w = ground arith
