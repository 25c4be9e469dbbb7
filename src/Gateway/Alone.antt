-- ===== src/Gateway/Alone.antt =====
-- The phases of `authorize_payment` of app/gateway_client.py, run one after the other with no other
-- request between, are the call.
use Prim.Native.String.{◌++◌ as str_append}
use test_cusa.Prelude.{
  suc, Bool, true, false, ◌≡◌, ◌∙◌, refl, sym, ◌==◌, Bool-cases, inl, inr, Option, none, some,
  if◌then◌else◌,
}
use test_cusa.Runtime.{Env, Action, Io, Exn, pure, throw, ◌>>◌, ◌>>=◌, Dict}
use test_cusa.Runtime.Binds.{>>=-ext, >>=_assoc}
use test_cusa.Breaker
use test_cusa.Audit.{audit_auth_failure}
use test_cusa.Credentials.Status.{Credential}
use test_cusa.Gateway.{
  GatewayClient, Payment, authorize_path, request_of, settle, try_authorize, all_rejected, or_else,
  try_fallback, with_credentials, authorize_payment, poll_allows, update_metric,
}
use test_cusa.Gateway.Phases.{
  Attempt, Pending, first_try, second_try, Moved, answered, sent, launch, begin_with, begin, reject,
  after_first, resume,
}

abbrev pub attempt_of : {Amount : Type 0} → Pending Amount → Attempt Amount
attempt_of (first_try a primary fallback) = a
attempt_of (second_try a) = a

module _ {Amount : Type 0} (env : Env Amount) where
  -- The reply comes at once.
  abbrev pub resume_now : Pending Amount → Action GatewayClient (Moved Amount)
  resume_now t = let a = attempt_of t in resume env t (env.post a.number a.request)

  -- There is no third request.
  abbrev pub answer_of : Moved Amount → Action GatewayClient Dict
  answer_of (answered d) = pure d
  answer_of (sent t) = throw Exn.other_error

  abbrev pub go_on : Moved Amount → Action GatewayClient Dict
  go_on (answered d) = pure d
  go_on (sent t) = resume_now t >>= answer_of

  abbrev pub complete : Pending Amount → Action GatewayClient Dict
  complete t = resume_now t >>= go_on

  second_lem :
      (found : Option Dict) (g : GatewayClient) (w : Io)
      → or_else env found (all_rejected env) g w
        ≡ ((or_else env found (all_rejected env) >>= λ d. pure (answered d)) >>= answer_of) g w
  unfolding all_rejected audit_auth_failure
  second_lem none g w = refl
  second_lem (some d) g w = refl

  try_second_lem :
      (c : Credential) (p : Payment Amount) (g : GatewayClient) (w : Io)
      → (try_authorize env c p >>= λ found. or_else env found (all_rejected env)) g w
        ≡ ((launch env c p >>= λ a. pure (sent (second_try a))) >>= go_on) g w
  unfolding try_authorize launch resume
  try_second_lem c p g w =
      let url = str_append g.base_url authorize_path in
      let w' = record w { clock_reads = suc w.clock_reads; posts = suc w.posts } in
      let settled = settle env (env.clock w.clock_reads) (env.post w.posts (request_of p c url)) in
      let end = λ (found : Option Dict).
        (or_else env found (all_rejected env) >>= λ d.
        let m : Moved Amount = answered d in pure m) in
      >>=-ext settled _ _ second_lem g w' ∙ sym (>>=_assoc settled end answer_of g w')

  first_lem :
      (primary : Credential) (fallback : Option Credential) (p : Payment Amount)
      (found : Option Dict) (g : GatewayClient) (w : Io)
      → or_else env found (try_fallback env primary fallback p) g w
        ≡ (after_first env found primary fallback p >>= go_on) g w
  unfolding try_fallback after_first reject all_rejected audit_auth_failure
  first_lem primary fallback p (some d) g w = refl
  first_lem primary none p none g w = refl
  first_lem primary (some c) p none g w = elim (Bool-cases (c.identity == primary.identity)) [
    | inl same ↦ rw same refl
    | inr other ↦ rw other (try_second_lem c p g w)
  ]

  with_credentials_lem :
      (primary fallback : Option Credential) (p : Payment Amount) (g : GatewayClient) (w : Io)
      → with_credentials env primary fallback p g w
        ≡ (begin_with env primary fallback p >>= complete) g w
  unfolding with_credentials begin_with try_authorize launch resume
  with_credentials_lem none fallback p g w = refl
  with_credentials_lem (some c) fallback p g w =
      let url = str_append g.base_url authorize_path in
      let w' = record w { clock_reads = suc w.clock_reads; posts = suc w.posts } in
      let settled = settle env (env.clock w.clock_reads) (env.post w.posts (request_of p c url)) in
      let end = λ (found : Option Dict). after_first env found c fallback p in
      >>=-ext settled _ _ (first_lem c fallback p) g w' ∙ sym (>>=_assoc settled end go_on g w')

  guarded_lem :
      (allowed : Bool) (primary fallback : Option Credential) (p : Payment Amount)
      (g : GatewayClient) (w : Io)
      → (if allowed
            then with_credentials env primary fallback p
            else (update_metric env >> throw Exn.gateway_unavailable_error))
          g w
        ≡ ((if allowed
                then begin_with env primary fallback p
                else (update_metric env >> throw Exn.gateway_unavailable_error))
              >>= complete)
            g w
  unfolding update_metric
  guarded_lem true primary fallback p g w = with_credentials_lem primary fallback p g w
  guarded_lem false primary fallback p g w = refl

  -- A call that no other request interrupts does what its phases do, one after the other.
  pub authorize_payment-begin :
      (primary fallback : Option Credential) (p : Payment Amount) (g : GatewayClient) (w : Io)
      → authorize_payment env primary fallback p g w
        ≡ (begin env primary fallback p >>= complete) g w
  unfolding authorize_payment begin
  authorize_payment-begin primary fallback p g w =
      let (_, g1, w1) = update_metric env g w in
      let (_, g2, w2) = poll_allows env g1 w1 in
      let allowed = (Breaker.allows_request (env.clock (suc w.clock_reads)) g1.circuit_breaker).1 in
      guarded_lem allowed primary fallback p g2 w2
