-- ===== src/Gateway/Fallback.antt =====
-- `authorize_payment` of app/gateway_client.py: which credentials are tried, and what comes back.
use Prim.Native.String.{◌++◌ as str_append}
use mathlib.Core.Path.{subst, subst₂}
use test_cusa.Prelude.{
  ℕ, suc, ◌+◌, ◌≡◌, sym, String, false, Option, none, some, arith, ◌==◌, Bool-cases, inl, inr,
  if◌then◌else◌,
}
use test_cusa.Runtime.{Env, Action, Io, Exn, Result, ok, raise, Dict, ◌>>=◌}
use test_cusa.Audit.{audit_auth_failure}
use test_cusa.Breaker.{CircuitState, CircuitBreaker, allows_request, has_timed_out}
use test_cusa.Credentials.Status.{Credential}
use test_cusa.Gateway.{
  GatewayClient, Payment, authorize_path, request_of, update_metric, send, poll_allows,
  try_authorize, or_else, all_rejected, try_fallback, with_credentials, authorize_payment,
}
use test_cusa.Gateway.Attempts.{Verdict, verdict, result, settle-Attempted}

-- The outcome of a call: what it returns or raises, how many requests it sent, and how many times
-- all credentials were rejected.
pub record Outcome : Type 0 where
  pub answer : Result Dict
  pub requests : ℕ
  pub auth_failures : ℕ

abbrev pub settled : Verdict → Outcome → Outcome
settled Verdict.rejected rest = record rest { requests = suc rest.requests }
settled (Verdict.granted d) rest = record { answer = ok d; requests = 1; auth_failures = 0 }
settled Verdict.unreachable rest = record {
  answer = raise Exn.gateway_unavailable_error;
  requests = 1;
  auth_failures = 0;
}
settled Verdict.garbled rest = record {
  answer = raise Exn.value_error;
  requests = 1;
  auth_failures = 0;
}
settled Verdict.scalar rest = record {
  answer = raise Exn.type_error;
  requests = 1;
  auth_failures = 0;
}
settled Verdict.crashed rest = record {
  answer = raise Exn.other_error;
  requests = 1;
  auth_failures = 0;
}

abbrev pub refused : Outcome
refused = record { answer = raise Exn.gateway_auth_error; requests = 0; auth_failures = 1 }

module _ {Amount : Type 0} (env : Env Amount) (p : Payment Amount) (url : String) where
  -- The verdict on a request with the credential, after `n` earlier requests.
  abbrev pub tried : ℕ → Credential → Verdict
  tried n c = verdict (env.post n (request_of p c url))

  -- The documented behaviour: the primary credential is tried first; only if it is rejected, and
  -- there is another one, that one is tried too.
  unfoldable pub expected : (n : ℕ) → (primary fallback : Option Credential) → Outcome
  expected n none fallback = record {
    answer = raise Exn.gateway_auth_error;
    requests = 0;
    auth_failures = 0;
  }
  expected n (some primary) none = settled (tried n primary) refused
  expected n (some primary) (some fallback) = settled (tried n primary) (
      if fallback.identity == primary.identity
      then refused
      else settled (tried (suc n) fallback) refused)

-- A call meets an outcome.
pub record Meets (o : Outcome) (g : GatewayClient) (w : Io) (r : Result Dict) (g' : GatewayClient)
    (w' : Io) : Type 0 where
  pub answers : r ≡ o.answer
  pub posts : w'.posts ≡ w.posts + o.requests
  pub auth_failures :
      g'.gateway_auth_failures_total ≡ g.gateway_auth_failures_total + o.auth_failures

module _ {Amount : Type 0} (env : Env Amount) where
  -- What one attempt does: the reply to its request, settled.
  record AttemptedOn (v : Verdict) (g : GatewayClient) (w : Io) (r : Result (Option Dict))
      (g' : GatewayClient) (w' : Io) : Type 0 where
    answers : r ≡ result v
    posts : w'.posts ≡ suc w.posts
    base_url : g'.base_url ≡ g.base_url
    auth_failures : g'.gateway_auth_failures_total ≡ g.gateway_auth_failures_total

  try_authorize_lem :
      (c : Credential) (p : Payment Amount) (g : GatewayClient) (w : Io)
      → let (r, g', w') = try_authorize env c p g w in
        AttemptedOn (tried env p (str_append g.base_url authorize_path) w.posts c) g w r g' w'
  unfolding try_authorize send
  try_authorize_lem c p g w =
      let reply = env.post w.posts (request_of p c (str_append g.base_url authorize_path)) in
      let w2 = record w { clock_reads = suc w.clock_reads; posts = suc w.posts } in
      ground (arith, settle-Attempted env (env.clock w.clock_reads) reply g w2)

  all_rejected-Meets :
      (g : GatewayClient) (w : Io)
      → let (r, g', w') = all_rejected env g w in Meets refused g w r g' w'
  unfolding all_rejected audit_auth_failure
  all_rejected-Meets g w = ground arith

  -- An attempt, and the rest if it was rejected.
  abbrev continued :
      Result (Option Dict) × GatewayClient × Io
      → Action GatewayClient Dict
      → Result Dict × GatewayClient × Io
  continued (ok found, g, w) rest = or_else env found rest g w
  continued (raise e, g, w) rest = (raise e, g, w)

  continued-Meets :
      (v : Verdict) (o : Outcome) (rest : Action GatewayClient Dict) (g : GatewayClient) (w : Io)
      (r1 : Result (Option Dict)) (g1 : GatewayClient) (w1 : Io)
      → AttemptedOn v g w r1 g1 w1
      → (let (r, g', w') = rest g1 w1 in Meets o g1 w1 r g' w')
      → let (r, g', w') = continued (r1, g1, w1) rest in Meets (settled v o) g w r g' w'
  unfolding result
  continued-Meets Verdict.rejected o rest g w r1 g1 w1 a m = ground arith
  continued-Meets (Verdict.granted d) o rest g w r1 g1 w1 a m = ground arith
  continued-Meets Verdict.unreachable o rest g w r1 g1 w1 a m = ground arith
  continued-Meets Verdict.garbled o rest g w r1 g1 w1 a m = ground arith
  continued-Meets Verdict.scalar o rest g w r1 g1 w1 a m = ground arith
  continued-Meets Verdict.crashed o rest g w r1 g1 w1 a m = ground arith

  bind-continued :
      (m : Action GatewayClient (Option Dict)) (rest : Action GatewayClient Dict)
      (g : GatewayClient) (w : Io)
      → ((m >>= λ found. or_else env found rest) g w) ≡ continued (m g w) rest
  bind-continued m rest g w = ground arith

  -- A call under the outcome that is expected of it.
  abbrev Meeting : Outcome → GatewayClient → Io → Result Dict × GatewayClient × Io → Type 0
  Meeting o g w (r, g', w') = Meets o g w r g' w'

  attempt-Meets :
      (c : Credential) (p : Payment Amount) (o : Outcome) (rest : Action GatewayClient Dict)
      (g : GatewayClient) (w : Io)
      → (let (_, g1, w1) = try_authorize env c p g w in Meeting o g1 w1 (rest g1 w1))
      → Meeting
          (settled (tried env p (str_append g.base_url authorize_path) w.posts c) o)
          g
          w
          ((try_authorize env c p >>= λ found. or_else env found rest) g w)
  attempt-Meets c p o rest g w m =
      let (r1, g1, w1) = try_authorize env c p g w in
      let v = tried env p (str_append g.base_url authorize_path) w.posts c in
      subst (Meeting (settled v o) g w) (sym (bind-continued (try_authorize env c p) rest g w))
        (continued-Meets v o rest g w r1 g1 w1 (try_authorize_lem c p g w) m)

  try_fallback-Meets :
      (primary fallback : Credential) (p : Payment Amount) (g : GatewayClient) (w : Io)
      → Meeting
          (if fallback.identity == primary.identity
            then refused
            else settled
                (tried env p (str_append g.base_url authorize_path) w.posts fallback)
                refused)
          g
          w
          (try_fallback env primary (some fallback) p g w)
  unfolding try_fallback
  try_fallback-Meets primary fallback p g w =
      elim (Bool-cases (fallback.identity == primary.identity)) [
        | inl same ↦ rw same (all_rejected-Meets g w)
        | inr other ↦ rw other (
            let (_, g1, w1) = try_authorize env fallback p g w in
            attempt-Meets fallback p refused (all_rejected env) g w (all_rejected-Meets g1 w1))
      ]

  -- With the breaker's leave, a call answers as the replies to its requests say: nothing is sent
  -- without a credential; the primary credential is tried first; if and only if the gateway rejects
  -- it, and the fallback is another credential, that one is tried, once; the result is that of the
  -- last request, or an authentication error, counted once, if every tried credential was rejected.
  pub with_credentials-Meets :
      (primary fallback : Option Credential) (p : Payment Amount) (g : GatewayClient) (w : Io)
      → let (r, g', w') = with_credentials env primary fallback p g w in
        Meets
          (expected env p (str_append g.base_url authorize_path) w.posts primary fallback)
          g
          w
          r
          g'
          w'
  unfolding with_credentials expected
  with_credentials-Meets none fallback p g w = ground arith
  with_credentials-Meets (some primary) none p g w =
      let (_, g1, w1) = try_authorize env primary p g w in
      attempt-Meets primary p refused (try_fallback env primary none p) g w
        (unfold try_fallback in all_rejected-Meets g1 w1)
  with_credentials-Meets (some primary) (some fallback) p g w =
      let (_, g1, w1) = try_authorize env primary p g w in
      let first = try_authorize_lem primary p g w in
      let second = λ (base : String) (n : ℕ).
        (if fallback.identity == primary.identity
          then refused
          else settled (tried env p (str_append base authorize_path) n fallback) refused) in
      attempt-Meets primary p (second g.base_url (suc w.posts))
        (try_fallback env primary (some fallback) p) g w
        (subst₂
          (λ base n.
            Meeting (second base n) g1 w1 (try_fallback env primary (some fallback) p g1 w1))
          first.base_url first.posts (try_fallback-Meets primary fallback p g1 w1))

  -- The two polls in front of a call find the breaker open.
  abbrev pub IsBlocked : CircuitBreaker → Io → Type 0
  IsBlocked b w =
      (b.state ≡ CircuitState.opened)
      × (has_timed_out (env.clock w.clock_reads) b ≡ false)
      × (has_timed_out (env.clock (suc w.clock_reads)) b ≡ false)

  -- While the breaker is open and its timeout has not passed, a call sends nothing and raises
  -- `GatewayUnavailableError`, and the failures that the breaker has counted stay.
  pub authorize_payment_blocked :
      (primary fallback : Option Credential) (p : Payment Amount) (g : GatewayClient) (w : Io)
      → IsBlocked g.circuit_breaker w
      → let (r, g', w') = authorize_payment env primary fallback p g w in
        (r ≡ raise Exn.gateway_unavailable_error)
        × (w'.posts ≡ w.posts)
        × (g'.circuit_breaker.failure_count ≡ g.circuit_breaker.failure_count)
  unfolding authorize_payment update_metric poll_allows allows_request
  authorize_payment_blocked primary fallback p g w blocked = ground arith
