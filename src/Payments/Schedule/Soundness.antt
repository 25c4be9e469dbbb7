-- ===== src/Payments/Schedule/Soundness.antt =====
-- What stays well-formed in app/main.py whatever the order of arrivals, replies, cancellations and refreshes: the
-- idempotency cache, the gateway client's breaker, and the credential cache.
use test_cusa.Prelude.{ℕ, ◌+◌, ◌≡◌, refl, sym, String, Option, none, some, arith}
use mathlib.Core.Path.{subst}
use mathlib.Core.Option
use test_cusa.Runtime.{Exn, Env, Io, Result, ok, raise, Action, HttpReply, Dict, lift}
use test_cusa.Runtime.Keeps.{Keeps, Keeps-pure, Keeps-bind, Keeps-uuid}
use test_cusa.Config.{Settings}
use test_cusa.Models.{PaymentResponse}
use test_cusa.Audit.{audit_auth_failure}
use test_cusa.Credentials.Cache
use test_cusa.Credentials.Cache.{load_credentials-IsValid}
use test_cusa.Gateway.{GatewayClient, Payment}
use test_cusa.Gateway.Phases.{Pending, Moved, answered, sent}
use test_cusa.Gateway.Guarded.{Guarded, begin-Guarded, resume-Guarded}
use test_cusa.Payments.Handler.{
  App, cached, with_gateway, on_gateway, prepare, finish, respond, validate_api_key,
  require_credentials, look_up,
}
use test_cusa.Payments.Replay.{Cached, prepare-Cached, finish-Cached}
use test_cusa.Payments.Tasks.{
  cancel, Task, waiting, finished, conclude, begin_or, begin_body, go_on, resume_body, begin,
  resume,
}
use test_cusa.Payments.Schedule.{
  cancelled, abort, System, Step, arrive, reply, refresh, Reach, here, next, arrived, replied,
  refreshed,
}

abbrev Held : {A : Type 0} → (A → Type 0) → Option A → Type 0
Held P none = Unit
Held P (some x) = P x

-- The caches, the breaker and the credentials of an application are in order.
pub record IsSound {Amount : Type 0} (a : App Amount) : Type 0 where
  pub cached : Cached a
  pub guarded : Held Guarded a.gateway_client
  pub managed : Held Cache.IsValid a.credential_manager

module _ {Amount : Type 0} (env : Env Amount) (settings : Settings) where
  -- The phases outside the gateway client leave it and the credential manager alone.
  record Same (a0 a : App Amount) : Type 0 where
    gateway : a.gateway_client ≡ a0.gateway_client
    manager : a.credential_manager ≡ a0.credential_manager

  module _ (a0 : App Amount) where
    validate_api_key-Same :
        (k : Option String) (id : String) → Keeps (Same a0) (validate_api_key env settings k id)
    unfolding validate_api_key audit_auth_failure
    validate_api_key-Same k id = record { at = λ a w h. ground arith }

    require_credentials-Same : Keeps (Same a0) (require_credentials env settings)
    unfolding require_credentials
    require_credentials-Same = record { at = λ a w h. ground arith }

    look_up-Same : (key : String) → Keeps (Same a0) (look_up env settings key)
    unfolding look_up
    look_up-Same key = record { at = λ a w h. ground arith }

    prepare-Same :
        (p : Payment Amount) (id k : Option String) → Keeps (Same a0) (prepare env settings p id k)
    unfolding prepare
    prepare-Same p id k = Keeps-bind _ _ (Keeps-uuid env) λ made.
        Keeps-bind _ _ (validate_api_key-Same k (Option.get_or id made)) λ _.
          Keeps-bind _ _ require_credentials-Same
            λ m. Keeps-bind _ _ (look_up-Same p.idempotency_key) λ found. Keeps-pure (m, found)

    finish-Same : (p : Payment Amount) (d : Dict) → Keeps (Same a0) (finish env settings p d)
    unfolding finish respond
    finish-Same p d = record { at = λ a w h. ground arith }

  from_Same :
      {A : Type 0} (m : Action (App Amount) A)
      → Keeps Cached m
      → ((a0 : App Amount) → Keeps (Same a0) m)
      → Keeps IsSound m
  from_Same m kept same = record {
    at = λ a w h.
        let s = (same a).at a w (record { gateway = refl; manager = refl }) in
        record {
          cached = kept.at a w h.cached;
          guarded = subst (Held Guarded) (sym s.gateway) h.guarded;
          managed = subst (Held Cache.IsValid) (sym s.manager) h.managed;
        };
  }

  on_gateway-IsSound :
      {A : Type 0} (r : Result A) (g : GatewayClient) (a : App Amount) (w : Io)
      → Guarded g
      → Cached a
      → Held Cache.IsValid a.credential_manager
      → IsSound (on_gateway env settings g (lift r) a w).1
  unfolding on_gateway
  on_gateway-IsSound (ok x) g a w k c v = record { cached = c; guarded = k; managed = v }
  on_gateway-IsSound (raise e) g a w k c v = record { cached = c; guarded = k; managed = v }

  with_gateway-IsSound :
      {A : Type 0} (act : Action GatewayClient A)
      → Keeps Guarded act
      → Keeps IsSound (with_gateway env settings act)
  unfolding with_gateway
  with_gateway-IsSound act k = record { at = λ a w h. held_lem a w a.gateway_client h }
    where
      held_lem :
          (a : App Amount) (w : Io) (held : Option GatewayClient)
          → IsSound (record a { gateway_client = held })
          → IsSound (with_gateway env settings act (record a { gateway_client = held }) w).1
      held_lem a w none h = h
      held_lem a w (some g) h =
          let (r, g', w') = act g w in
          on_gateway-IsSound r g' a w' (k.at g w h.guarded) h.cached h.managed

  begin_or-IsSound :
      (found : Option (PaymentResponse Amount)) (act : Action (App Amount) (Task Amount))
      → Keeps IsSound act
      → Keeps IsSound (begin_or env settings found act)
  begin_or-IsSound none act k = k
  begin_or-IsSound (some r) act k = Keeps-pure (finished (ok (cached r)))

  begin_body-IsSound :
      (p : Payment Amount) (id k : Option String) → Keeps IsSound (begin_body env settings p id k)
  unfolding begin_body
  begin_body-IsSound p id k =
      Keeps-bind _ _
        (from_Same _ (prepare-Cached env settings p id k) (λ a0. prepare-Same a0 p id k))
        λ ready. begin_or-IsSound ready.1 _ (
          Keeps-bind _ _ (with_gateway-IsSound _ (begin-Guarded env _ _ p))
            λ t. Keeps-pure (waiting p t))

  go_on-IsSound :
      (p : Payment Amount) (moved : Moved Amount) → Keeps IsSound (go_on env settings p moved)
  go_on-IsSound p (answered d) =
      Keeps-bind _ _ (from_Same _ (finish-Cached env settings p d) (λ a0. finish-Same a0 p d))
        λ r. Keeps-pure (finished (ok r))
  go_on-IsSound p (sent t) = Keeps-pure (waiting p t)

  resume_body-IsSound :
      (p : Payment Amount) (t : Pending Amount) (r : HttpReply)
      → Keeps IsSound (resume_body env settings p t r)
  unfolding resume_body
  resume_body-IsSound p t r =
      Keeps-bind _ _ (with_gateway-IsSound _ (resume-Guarded env t r)) (go_on-IsSound p)

  counter-IsSound : (a : App Amount) (n : ℕ) → IsSound a → IsSound (record a { in_flight = n })
  counter-IsSound a n h = record { cached = h.cached; guarded = h.guarded; managed = h.managed }

  conclude-IsSound :
      (out : Result (Task Amount) × App Amount × Io) → IsSound out.1 → IsSound (conclude out).1
  unfolding conclude
  conclude-IsSound (ok (waiting p t), a, w) h = h
  conclude-IsSound (ok (finished r), a, w) h = counter-IsSound a _ h
  conclude-IsSound (raise e, a, w) h = counter-IsSound a _ h

  pub Step-IsSound : {s u : System Amount} → Step env settings s u → IsSound s.app → IsSound u.app
  unfolding arrived replied cancelled refreshed begin resume cancel
  Step-IsSound {s} (arrive p id k) h =
      conclude-IsSound _
        ((begin_body-IsSound p id k).at _ s.io (counter-IsSound s.app (s.app.in_flight + 1) h))
  Step-IsSound {s} (reply i p t r e) h =
      conclude-IsSound _ ((resume_body-IsSound p t r).at s.app s.io h)
  Step-IsSound {s} (abort i p t e) h = conclude-IsSound (raise Exn.cancelled_error, s.app, s.io) h
  Step-IsSound {s} (refresh m e) h = record {
    cached = h.cached;
    guarded = h.guarded;
    managed = load_credentials-IsValid env settings m s.io (subst (Held Cache.IsValid) e h.managed);
  }

  -- Arrivals, replies, cancellations and refreshes, in whatever order, keep the idempotency cache bounded with
  -- distinct keys, the breaker in order, and the credential cache bounded with its current version
  -- in it.
  pub Reach-IsSound : {s u : System Amount} → Reach env settings s u → IsSound s.app → IsSound u.app
  Reach-IsSound here h = h
  Reach-IsSound (next r st) h = Step-IsSound st (Reach-IsSound r h)
