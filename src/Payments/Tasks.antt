-- ===== src/Payments/Tasks.antt =====
-- `authorize_payment` of app/main.py cut at its awaits: a request runs as a task of the event loop,
-- from its arrival to its first wait, and from each reply of the gateway to the next wait or to its
-- end. Between two phases of a task other tasks run on the same globals.
use test_cusa.Prelude.{◌+◌, ◌-◌, String, Option, none, some}
use test_cusa.Runtime.{Env, Action, Io, Exn, Result, ok, raise, pure, ◌>>=◌, HttpReply}
use test_cusa.Config.{Settings}
use test_cusa.Credentials.Manager.{get_current_credential, get_fallback_credential}
use test_cusa.Gateway.{Payment}
use test_cusa.Gateway.Phases
use test_cusa.Gateway.Phases.{Pending, Moved, answered, sent}
use test_cusa.Models.{PaymentResponse}
use test_cusa.Payments.Handler.{App, Reply, cached, prepare, with_gateway, finish}

-- A task waits for a reply of the gateway, or has ended.
pub data Task (Amount : Type 0) : Type 0 where
  waiting : Payment Amount → Pending Amount → Task Amount
  finished : Result (Reply Amount) → Task Amount

module _ {Amount : Type 0} where
  -- The `finally` clause: it runs when the task ends.
  unfoldable pub conclude : Result (Task Amount) × App Amount × Io → Task Amount × App Amount × Io
  conclude (ok (waiting p t), a, w) = (waiting p t, a, w)
  conclude (ok (finished r), a, w) = (finished r, record a { in_flight = a.in_flight - 1 }, w)
  conclude (raise e, a, w) = (finished (raise e), record a { in_flight = a.in_flight - 1 }, w)

module _ {Amount : Type 0} (env : Env Amount) (settings : Settings) where
  abbrev pub begin_or :
      Option (PaymentResponse Amount)
      → Action (App Amount) (Task Amount)
      → Action (App Amount) (Task Amount)
  begin_or (some r) rest = pure (finished (ok (cached r)))
  begin_or none rest = rest

  -- The body of the `try` up to its first await.
  unfoldable pub begin_body :
      Payment Amount → (state_id x_api_key : Option String) → Action (App Amount) (Task Amount)
  unfolding with_gateway
  begin_body p state_id x_api_key = do
    ready ← prepare env settings p state_id x_api_key
    begin_or ready.1 (do
      t ←
          with_gateway env settings
            (Phases.begin env (get_current_credential ready.0) (get_fallback_credential ready.0) p)
      pure (waiting p t))

  abbrev pub go_on : Payment Amount → Moved Amount → Action (App Amount) (Task Amount)
  go_on p (answered d) = do r ← finish env settings p d; pure (finished (ok r))
  go_on p (sent t) = pure (waiting p t)

  -- The body of the `try` from a reply to the next await, or to its end.
  unfoldable pub resume_body :
      Payment Amount → Pending Amount → HttpReply → Action (App Amount) (Task Amount)
  unfolding with_gateway
  resume_body p t reply = do
    moved ← with_gateway env settings (Phases.resume env t reply)
    go_on p moved

  unfoldable pub begin :
      Payment Amount
      → (state_id x_api_key : Option String) → App Amount
      → Io
      → Task Amount × App Amount × Io
  unfolding begin_body
  begin p state_id x_api_key a w =
      conclude (begin_body p state_id x_api_key (record a { in_flight = a.in_flight + 1 }) w)

  unfoldable pub resume :
      Payment Amount → Pending Amount → HttpReply → App Amount → Io → Task Amount × App Amount × Io
  unfolding resume_body
  resume p t reply a w = conclude (resume_body p t reply a w)

-- The event loop cancels a waiting task: no `except` clause catches that, so it ends with the
-- `finally` clause.
unfoldable pub cancel : {Amount : Type 0} → App Amount → Io → Task Amount × App Amount × Io
unfolding conclude
cancel a w = conclude (raise Exn.cancelled_error, a, w)
