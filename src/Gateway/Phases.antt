-- ===== src/Gateway/Phases.antt =====
-- `authorize_payment` of app/gateway_client.py cut at its awaits: what runs before a request is
-- sent, and what runs when its reply has come. Between two phases other requests may run.
use Prim.Native.String.{◌++◌ as str_append}
use test_cusa.Prelude.{ℕ, suc, ◌==◌, Option, none, some, if◌then◌else◌}
use test_cusa.Prelude.Int.{ℤ}
use test_cusa.Runtime.{
  Env, Action, ok, Exn, pure, throw, asks, ◌>>=◌, ◌>>◌, time, Dict, HttpReply, PostRequest,
}
use test_cusa.Credentials.Status.{Credential}
use test_cusa.Gateway.{
  GatewayClient, Payment, authorize_path, request_of, update_metric, poll_allows, settle,
  all_rejected, or_else,
}

-- A request that was sent: when, and how many requests were sent before it.
pub record Attempt (Amount : Type 0) : Type 0 where
  pub payment : Payment Amount
  pub start_time : ℤ
  pub request : PostRequest Amount
  pub number : ℕ

-- What a call that waits for a reply holds in its local variables.
pub data Pending (Amount : Type 0) : Type 0 where
  first_try :
      Attempt Amount → (primary : Credential) → (fallback : Option Credential) → Pending Amount
  second_try : Attempt Amount → Pending Amount

-- How a phase ends if it does not raise: with the call's result, or with another request.
pub data Moved (Amount : Type 0) : Type 0 where
  answered : Dict → Moved Amount
  sent : Pending Amount → Moved Amount

module _ {Amount : Type 0} (env : Env Amount) where
  count_post : Action GatewayClient ℕ
  count_post g w = (ok w.posts, g, record w { posts = suc w.posts })

  -- `_try_authorize` up to its await.
  unfoldable pub launch : Credential → Payment Amount → Action GatewayClient (Attempt Amount)
  unfolding count_post request_of
  launch c p = do
    start_time ← time env
    url ← asks (λ g. str_append g.base_url authorize_path)
    number ← count_post
    pure (record {
      payment = p;
      start_time = start_time;
      request = request_of p c url;
      number = number;
    })

  unfoldable pub begin_with :
      (primary fallback : Option Credential)
      → Payment Amount
      → Action GatewayClient (Pending Amount)
  unfolding launch
  begin_with none fallback p = throw Exn.gateway_auth_error
  begin_with (some c) fallback p = do a ← launch c p; pure (first_try a c fallback)

  -- `authorize_payment` up to its first await.
  unfoldable pub begin :
      (primary fallback : Option Credential)
      → Payment Amount
      → Action GatewayClient (Pending Amount)
  unfolding begin_with update_metric poll_allows
  begin primary fallback p = do
    update_metric env
    allowed ← poll_allows env
    if allowed
        then begin_with primary fallback p
        else (do update_metric env; throw Exn.gateway_unavailable_error)

  unfoldable pub reject : Action GatewayClient (Moved Amount)
  reject = do d ← all_rejected env; pure (answered d)

  -- After the reply to the first request: the result, the second request, or the end.
  unfoldable pub after_first :
      (found : Option Dict)
      → (primary : Credential) → (fallback : Option Credential) → Payment Amount
      → Action GatewayClient (Moved Amount)
  unfolding launch reject
  after_first (some d) primary fallback p = pure (answered d)
  after_first none primary none p = reject
  after_first none primary (some c) p =
      if c.identity == primary.identity
      then reject
      else (do a ← launch c p; pure (sent (second_try a)))

  -- `authorize_payment` from a reply to the next await or to its end.
  unfoldable pub resume : Pending Amount → HttpReply → Action GatewayClient (Moved Amount)
  unfolding after_first settle
  resume (first_try a primary fallback) reply = do
    found ← settle env a.start_time reply
    after_first found primary fallback a.payment
  resume (second_try a) reply = do
    found ← settle env a.start_time reply
    d ← or_else env found (all_rejected env)
    pure (answered d)
