-- ===== src/Payments/Schedule/Starting.antt =====
-- A request of app/main.py that passes every guard before its first wait: it is sent to the gateway,
-- and waits. The breaker is closed or half-open.
use mathlib.Core.Path.{subst}
use test_cusa.Prelude.{
  sym, ap, suc, ◌+◌, ◌≡◌, refl, ◌∙◌, true, false, String, Option, none, some, arith, lookup,
  String_discrete,
}
use test_cusa.Runtime.{Env, Io, Action, ok, Result, pure, ◌>>=◌}
use test_cusa.Runtime.Binds.{onward}
use test_cusa.Models.{PaymentResponse}
use test_cusa.Config.{Settings}
use test_cusa.Breaker.{CircuitState, is_allowing}
use test_cusa.Credentials.Status.{Credential}
use test_cusa.Credentials.Manager.{
  CredentialManager, get_current_credential, get_fallback_credential, has_valid_credentials,
}
use test_cusa.Gateway.{GatewayClient, Payment}
use test_cusa.Gateway.Phases
use test_cusa.Idempotency.{check_idempotency}
use test_cusa.Payments.Handler.{
  App, is_missing, text_of, mem, validate_api_key, require_credentials, look_up, prepare,
  with_gateway, on_gateway,
}
use test_cusa.Payments.Tasks.{Task, waiting, conclude, begin_or, begin_body, begin}
use test_cusa.Payments.Schedule.{open_tasks}

module _ {Amount : Type 0} (env : Env Amount) (settings : Settings) (st : CircuitState) where
  -- A request with the key can be sent: the manager's credential is usable at the next reading of
  -- the clock, the breaker is in the state, and no response is stored.
  pub record IsReady (key : String) (m : CredentialManager) (c : Credential) (a : App Amount)
      (w : Io) : Type 0 where
    pub manager : a.credential_manager ≡ some m
    pub current : get_current_credential m ≡ some c
    pub usable : has_valid_credentials (env.clock w.clock_reads) m ≡ true
    pub gateway : (g : GatewayClient) × (a.gateway_client ≡ some g) × (g.circuit_breaker.state ≡ st)
    pub unanswered : lookup String_discrete key a.idempotency_cache ≡ none

  -- Where the phase before the first wait leads to.
  pub record Sent (m : CredentialManager) (a : App Amount) (w : Io) (x : Task Amount)
      (a' : App Amount) (w' : Io) : Type 0 where
    pub waits : open_tasks x ≡ 1
    pub posts : w'.posts ≡ suc w.posts
    pub manager : a'.credential_manager ≡ some m
    pub gateway :
        (g : GatewayClient) × (a'.gateway_client ≡ some g) × (g.circuit_breaker.state ≡ st)
    pub cache : a'.idempotency_cache ≡ a.idempotency_cache

  pub prepare_lem :
      (p : Payment Amount) (id k : Option String) (m : CredentialManager) (c : Credential)
      (a : App Amount) (w : Io)
      → is_missing k ≡ false
      → mem (text_of k) settings.api_keys ≡ true
      → IsReady p.idempotency_key m c a w
      → prepare env settings p id k a w
        ≡ (ok (m, none), a, record w { uuids = suc w.uuids; clock_reads = suc w.clock_reads })
  unfolding prepare validate_api_key require_credentials look_up check_idempotency
  prepare_lem p id k m c a w there known h = ground arith

  -- With a breaker that allows requests and a credential, the gateway client sends.
  record Launched (g : GatewayClient) (w : Io) (r : Result (Phases.Pending Amount))
      (g' : GatewayClient) (w' : Io) : Type 0 where
    returns : (t : Phases.Pending Amount) × (r ≡ ok t)
    kept : g'.circuit_breaker.state ≡ g.circuit_breaker.state
    posts : w'.posts ≡ suc w.posts

  begin-Launched :
      (c : Credential) (fallback : Option Credential) (p : Payment Amount) (g : GatewayClient)
      (w : Io)
      → is_allowing g.circuit_breaker.state ≡ true
      → let (r, g', w') = Phases.begin env (some c) fallback p g w in Launched g w r g' w'
  unfolding Phases.begin
  begin-Launched c fallback p g w allowing = state_lem g.circuit_breaker.state allowing
    where
      state_lem :
          (state : CircuitState)
          → is_allowing state ≡ true
          → (let g0 = record g { circuit_breaker = record g.circuit_breaker { state = state } } in
              let (r, g', w') = Phases.begin env (some c) fallback p g0 w in Launched g0 w r g' w')
      state_lem CircuitState.closed e = record { returns = (_, refl); kept = refl; posts = refl }
      state_lem CircuitState.opened e = cc
      state_lem CircuitState.half_open e = record { returns = (_, refl); kept = refl; posts = refl }

  waiting_lem :
      (p : Payment Amount) (act : Action GatewayClient (Phases.Pending Amount))
      (t : Phases.Pending Amount) (g g' : GatewayClient) (a : App Amount) (w w' : Io)
      → a.gateway_client ≡ some g
      → act g w ≡ (ok t, g', w')
      → (with_gateway env settings act >>= λ x. pure (waiting p x)) a w
        ≡ (ok (waiting p t), record a { gateway_client = some g' }, w')
  unfolding with_gateway on_gateway
  waiting_lem p act t g g' a w w' held e = ground arith

  pub begin_lem :
      (p : Payment Amount) (id k : Option String) (m : CredentialManager) (c : Credential)
      (a : App Amount) (w : Io)
      → is_allowing st ≡ true
      → is_missing k ≡ false
      → mem (text_of k) settings.api_keys ≡ true
      → IsReady p.idempotency_key m c a w
      → let (x, a', w') = begin env settings p id k a w in Sent m a w x a' w'
  unfolding begin begin_body conclude
  begin_lem p id k m c a w allowing there known h =
      let (g, held, same) = h.gateway in
      let fallback = get_fallback_credential m in
      let entered = record a { in_flight = a.in_flight + 1 } in
      let w1 = record w { uuids = suc w.uuids; clock_reads = suc w.clock_reads } in
      let launched = begin-Launched c fallback p g w1 (ap is_allowing same ∙ allowing) in
      let (r, g', w') = Phases.begin env (some c) fallback p g w1 in
      let t = launched.returns.0 in
      let send = λ (m' : CredentialManager).
        (with_gateway env settings
            (Phases.begin env (get_current_credential m') (get_fallback_credential m') p)
          >>= λ x. pure (waiting p x)) in
      let ready = prepare_lem p id k m c entered w there known (record {
        manager = h.manager;
        current = h.current;
        usable = h.usable;
        gateway = h.gateway;
        unanswered = h.unanswered;
      }) in
      let begun =
        ap (λ cr. Phases.begin env cr fallback p g w1) h.current
        ∙ ap (λ (x : Result (Phases.Pending Amount)). (x, g', w')) launched.returns.1 in
      let went =
        ap
          (onward (λ (x : CredentialManager × Option (PaymentResponse Amount)).
            begin_or env settings x.1 (send x.0)))
          ready
        ∙ waiting_lem p _ t g g' entered w1 w' held begun in
      subst (λ (out : Task Amount × App Amount × Io). Sent m a w out.0 out.1 out.2)
        (sym (ap conclude went))
        (record {
          waits = refl;
          posts = launched.posts;
          manager = h.manager;
          gateway = (g', refl, launched.kept ∙ same);
          cache = refl;
        })
