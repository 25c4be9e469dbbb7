-- ===== src/Gateway/Quiet.antt =====
-- What `GatewayClient` of app/gateway_client.py writes to the audit log: rejections only.
use Prim.Native.String.{◌++◌ as str_append}
use test_cusa.Prelude.{ℕ, suc, refl, Option, none, some, List, ◌==◌, ◌||◌, leb}
use test_cusa.Prelude.Int.{ℤ, ◌-ℤ◌}
use test_cusa.Runtime.{Env, AuditEvent, Dict, Body, HttpReply, Exn, ◌>>=◌, ◌>>◌, time, Action}
use test_cusa.Runtime.Quiet.{Quiet, Quiet-bind, Quiet-if, Quiet-pure, Quiet-throw, Quiet-time}
use test_cusa.Audit.{audit_auth_failure}
use test_cusa.Audit.Quiet.{Ignores}
use test_cusa.Credentials.Status.{Credential}
use test_cusa.Gateway.{
  GatewayClient, Payment, RequestLabel, authorize_path, request_of, update_metric, poll_allows,
  count_request, observe, record_success, record_failure, send, unavailable, classify, settle,
  try_authorize, all_rejected, or_else, try_fallback, with_credentials, authorize_payment,
  json_dict,
}

module _ {N Amount : Type 0} {f : List AuditEvent → N} (env : Env Amount) where
  json_dict-Quiet : (body : Body) → Quiet f (json_dict body)
  json_dict-Quiet (Body.object d) = Quiet-pure _
  json_dict-Quiet Body.no_object = Quiet-throw _
  json_dict-Quiet Body.scalar = Quiet-throw _

  unavailable-Quiet : (label : RequestLabel) → Quiet f (unavailable env label)
  unfolding unavailable record_failure update_metric count_request
  unavailable-Quiet label = record { at = λ g w. refl }

  classify-Quiet : (status_code : ℕ) (body : Body) → Quiet f (classify env status_code body)
  unfolding classify record_success update_metric count_request
  classify-Quiet n body =
      Quiet-if (n == 401 || n == 403) _ _ (record { at = λ g w. refl })
        (Quiet-if (leb 500 n) _ _ (unavailable-Quiet _)
          (record { at = λ g w. (json_dict-Quiet body).at _ _ }))

  observe-Quiet : (d : ℤ) → Quiet f (observe d)
  unfolding observe
  observe-Quiet d = record { at = λ g w. refl }

  Quiet-timed :
      (start_time : ℤ) (rest : Action GatewayClient (Option Dict))
      → Quiet f rest
      → Quiet f (do now ← time env; observe (now -ℤ start_time); rest)
  Quiet-timed start_time rest quiet =
      Quiet-bind _ _ (Quiet-time env)
        λ now. Quiet-bind _ _ (observe-Quiet (now -ℤ start_time)) λ _. quiet

  settle-Quiet : (start_time : ℤ) (reply : HttpReply) → Quiet f (settle env start_time reply)
  unfolding settle
  settle-Quiet t (HttpReply.answer n body) = Quiet-timed t _ (classify-Quiet n body)
  settle-Quiet t HttpReply.timed_out = Quiet-timed t _ (unavailable-Quiet RequestLabel.timeout)
  settle-Quiet t HttpReply.http_error = Quiet-timed t _ (unavailable-Quiet RequestLabel.error)
  settle-Quiet t HttpReply.broken = Quiet-throw _

  try_authorize-Quiet : (c : Credential) (p : Payment Amount) → Quiet f (try_authorize env c p)
  unfolding try_authorize send
  try_authorize-Quiet c p = record {
    at = λ g w.
        let request = request_of p c (str_append g.base_url authorize_path) in
        let w' = record w { clock_reads = suc w.clock_reads; posts = suc w.posts } in
        (settle-Quiet (env.clock w.clock_reads) (env.post w.posts request)).at g w';
  }

  update_metric-Quiet : Quiet f (update_metric env)
  unfolding update_metric
  update_metric-Quiet = record { at = λ g w. refl }

  poll_allows-Quiet : Quiet f (poll_allows env)
  unfolding poll_allows
  poll_allows-Quiet = record { at = λ g w. refl }

  module _ (ignored : Ignores f "auth_failure") where
    all_rejected-Quiet : Quiet f (all_rejected env)
    unfolding all_rejected audit_auth_failure
    all_rejected-Quiet = record { at = λ g w. ignored.at _ w.audit refl }

    or_else-Quiet :
        (found : Option Dict) (rest : Action GatewayClient Dict)
        → Quiet f rest
        → Quiet f (or_else env found rest)
    or_else-Quiet none rest quiet = quiet
    or_else-Quiet (some d) rest quiet = Quiet-pure d

    Quiet-tried :
        (c : Credential) (p : Payment Amount) (rest : Action GatewayClient Dict)
        → Quiet f rest
        → Quiet f (do found ← try_authorize env c p; or_else env found rest)
    Quiet-tried c p rest quiet =
        Quiet-bind _ _ (try_authorize-Quiet c p) λ found. or_else-Quiet found rest quiet

    try_fallback-Quiet :
        (primary : Credential) (fallback : Option Credential) (p : Payment Amount)
        → Quiet f (try_fallback env primary fallback p)
    unfolding try_fallback
    try_fallback-Quiet primary none p = all_rejected-Quiet
    try_fallback-Quiet primary (some c) p =
        Quiet-if (c.identity == primary.identity) _ _ all_rejected-Quiet
          (Quiet-tried c p _ all_rejected-Quiet)

    with_credentials-Quiet :
        (primary fallback : Option Credential) (p : Payment Amount)
        → Quiet f (with_credentials env primary fallback p)
    unfolding with_credentials
    with_credentials-Quiet none fallback p = Quiet-throw _
    with_credentials-Quiet (some c) fallback p = Quiet-tried c p _ (try_fallback-Quiet c fallback p)

    pub authorize_payment-Quiet :
        (primary fallback : Option Credential) (p : Payment Amount)
        → Quiet f (authorize_payment env primary fallback p)
    unfolding authorize_payment
    authorize_payment-Quiet primary fallback p = Quiet-bind _ _ update_metric-Quiet λ _.
        Quiet-bind _ _ poll_allows-Quiet λ allowed.
          Quiet-if allowed _ _ (with_credentials-Quiet primary fallback p)
            (Quiet-bind _ _ update_metric-Quiet λ _. Quiet-throw Exn.gateway_unavailable_error)
