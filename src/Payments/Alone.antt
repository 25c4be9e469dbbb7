-- ===== src/Payments/Alone.antt =====
-- `authorize_payment` of app/main.py cut at its awaits, for a task that no other one interrupts, and
-- the same handler as a whole.
use mathlib.Core.Path.{fun_ext}
use test_cusa.Prelude.{String, ◌+◌, ◌-◌, ◌≡◌, ◌∙◌, refl, sym, ap, Option, none, some}
use test_cusa.Runtime.{Env, Action, Io, Exn, Result, ok, raise, pure, throw, lift, ◌>>=◌, Dict}
use test_cusa.Runtime.Binds.{>>=-ext, >>=_assoc, >>=_pure, >>=-ext_on, onward}
use test_cusa.Config.{Settings}
use test_cusa.Credentials.Manager.{
  CredentialManager, get_current_credential, get_fallback_credential,
}
use test_cusa.Gateway.{GatewayClient, Payment}
use test_cusa.Gateway.Phases
use test_cusa.Gateway.Phases.{Pending, Moved, answered, sent}
use test_cusa.Gateway.Alone
use test_cusa.Gateway.Alone.{attempt_of, authorize_payment-begin}
use test_cusa.Models.{PaymentResponse}
use test_cusa.Payments.Handler.{
  App, Reply, prepare, call_gateway, finish, answer_or, authorize_body, authorize_payment,
  with_gateway, translate, translate,
}
use test_cusa.Payments.Tasks.{
  Task, waiting, finished, conclude, begin_or, begin_body, go_on, resume_body, begin, resume,
}
use test_cusa.Payments.Calls.{Holds, with_gateway_>>=, with_gateway-Holds, with_gateway-lift}

module _ {Amount : Type 0} (env : Env Amount) (settings : Settings) where
  -- The replies come at once; there is no third request.
  abbrev pub complete_last : Task Amount → Action (App Amount) (Reply Amount)
  complete_last (finished r) = lift r
  complete_last (waiting p t) = throw Exn.other_error

  abbrev pub resume_now : Payment Amount → Pending Amount → Action (App Amount) (Task Amount)
  resume_now p t =
      let s = attempt_of t in resume_body env settings p t (env.post s.number s.request)

  abbrev pub complete_next : Task Amount → Action (App Amount) (Reply Amount)
  complete_next (finished r) = lift r
  complete_next (waiting p t) = resume_now p t >>= complete_last

  abbrev pub complete : Task Amount → Action (App Amount) (Reply Amount)
  complete (finished r) = lift r
  complete (waiting p t) = resume_now p t >>= complete_next

  -- What a task does with the gateway's answer, by what follows.
  finish_lem :
      (p : Payment Amount) (d : Dict) (k : Task Amount → Action (App Amount) (Reply Amount))
      → ((r : Reply Amount) (a : App Amount) (w : Io) → k (finished (ok r)) a w ≡ pure r a w)
      → (a : App Amount) (w : Io)
      → finish env settings p d a w ≡ (go_on env settings p (answered d) >>= k) a w
  finish_lem p d k e a w =
      sym (>>=_pure (finish env settings p d) a w)
      ∙ >>=-ext (finish env settings p d) pure (λ r. pure (finished (ok r)) >>= k)
          (λ r a' w'. sym (e r a' w')) a w
      ∙ sym (>>=_assoc (finish env settings p d) (λ r. pure (finished (ok r))) k a w)

  -- If what follows a reply agrees, what a reply brings about agrees.
  resume_lem :
      (p : Payment Amount) (kg : Moved Amount → Action GatewayClient Dict)
      (k : Task Amount → Action (App Amount) (Reply Amount))
      → ((moved : Moved Amount) (a : App Amount) (w : Io)
          → Holds a
          → (with_gateway env settings (kg moved) >>= finish env settings p) a w
            ≡ (go_on env settings p moved >>= k) a w)
      → (t : Pending Amount) (a : App Amount) (w : Io)
      → (with_gateway env settings (Alone.resume_now env t >>= kg) >>= finish env settings p) a w
        ≡ (resume_now p t >>= k) a w
  unfolding resume_body
  resume_lem p kg k agree t a w =
      let m = Alone.resume_now env t in
      let wm = with_gateway env settings m in
      let regroup = fun_ext (λ a'. fun_ext (λ w'. with_gateway_>>= env settings m kg a' w')) in
      ap (λ (act : Action (App Amount) Dict). (act >>= finish env settings p) a w) regroup
      ∙ >>=_assoc wm (λ x. with_gateway env settings (kg x)) (finish env settings p) a w
      ∙ >>=-ext_on Holds wm (λ x. with_gateway env settings (kg x) >>= finish env settings p)
          (λ x. go_on env settings p x >>= k) (with_gateway-Holds env settings m) agree a w
      ∙ sym (>>=_assoc wm (go_on env settings p) k a w)

  answered_lem :
      (p : Payment Amount) (d : Dict) (k : Task Amount → Action (App Amount) (Reply Amount))
      → ((r : Reply Amount) (a : App Amount) (w : Io) → k (finished (ok r)) a w ≡ pure r a w)
      → (a : App Amount) (w : Io) → Holds a
      → (with_gateway env settings (pure d) >>= finish env settings p) a w
        ≡ (go_on env settings p (answered d) >>= k) a w
  answered_lem p d k e a w h =
      ap (onward (finish env settings p)) (with_gateway-lift env settings (ok d) a w h)
      ∙ finish_lem p d k e a w

  last_agree :
      (p : Payment Amount) (moved : Moved Amount) (a : App Amount) (w : Io)
      → Holds a
      → (with_gateway env settings (Alone.answer_of env moved) >>= finish env settings p) a w
        ≡ (go_on env settings p moved >>= complete_last) a w
  unfolding translate
  last_agree p (answered d) a w h = answered_lem p d complete_last (λ r a' w'. refl) a w h
  last_agree p (sent t) a w h =
      ap (onward (finish env settings p))
        (with_gateway-lift env settings (raise Exn.other_error) a w h)

  next_agree :
      (p : Payment Amount) (moved : Moved Amount) (a : App Amount) (w : Io)
      → Holds a
      → (with_gateway env settings (Alone.go_on env moved) >>= finish env settings p) a w
        ≡ (go_on env settings p moved >>= complete_next) a w
  next_agree p (answered d) a w h = answered_lem p d complete_next (λ r a' w'. refl) a w h
  next_agree p (sent t) a w h =
      resume_lem p (Alone.answer_of env) complete_last (last_agree p) t a w

  called_lem :
      (m : CredentialManager) (p : Payment Amount) (a : App Amount) (w : Io)
      → (call_gateway env settings m p >>= finish env settings p) a w
        ≡ ((with_gateway env settings
                  (Phases.begin env (get_current_credential m) (get_fallback_credential m) p)
                >>= λ t. pure (waiting p t))
              >>= complete)
            a w
  unfolding call_gateway
  called_lem m p a w =
      let primary = get_current_credential m in
      let fallback = get_fallback_credential m in
      let begun = Phases.begin env primary fallback p in
      let wb = with_gateway env settings begun in
      let cut =
        fun_ext (λ g. fun_ext (λ w'. authorize_payment-begin env primary fallback p g w')) in
      let regroup =
        fun_ext
          (λ a'. fun_ext (λ w'. with_gateway_>>= env settings begun (Alone.complete env) a' w')) in
      ap
        (λ (act : Action GatewayClient Dict).
          (with_gateway env settings act >>= finish env settings p) a w)
        cut
      ∙ ap (λ (act : Action (App Amount) Dict). (act >>= finish env settings p) a w) regroup
      ∙ >>=_assoc wb (λ t. with_gateway env settings (Alone.complete env t)) (finish env settings p)
          a w
      ∙ >>=-ext wb (λ t. with_gateway env settings (Alone.complete env t) >>= finish env settings p)
          (λ t. complete (waiting p t))
          (resume_lem p (Alone.go_on env) complete_next (next_agree p)) a w
      ∙ sym (>>=_assoc wb (λ t. pure (waiting p t)) complete a w)

  ready_lem :
      (m : CredentialManager) (p : Payment Amount) (found : Option (PaymentResponse Amount))
      (a : App Amount) (w : Io)
      → answer_or env settings found (call_gateway env settings m p >>= finish env settings p) a w
        ≡ (begin_or env settings found (
                with_gateway env settings
                  (Phases.begin env (get_current_credential m) (get_fallback_credential m) p)
                >>= λ t. pure (waiting p t))
              >>= complete)
            a w
  ready_lem m p none a w = called_lem m p a w
  ready_lem m p (some r) a w = refl

  authorize_body-begin_body :
      (p : Payment Amount) (id k : Option String) (a : App Amount) (w : Io)
      → authorize_body env settings p id k a w ≡ (begin_body env settings p id k >>= complete) a w
  unfolding authorize_body begin_body
  authorize_body-begin_body p id k a w =
      let prepared = prepare env settings p id k in
      let go = λ (x : CredentialManager × Option (PaymentResponse Amount)).
        begin_or env settings x.1 (
          with_gateway env settings
            (Phases.begin env (get_current_credential x.0) (get_fallback_credential x.0) p)
          >>= λ t. pure (waiting p t)) in
      >>=-ext prepared _ (λ x. go x >>= complete) (λ x. ready_lem x.0 p x.1) a w
      ∙ sym (>>=_assoc prepared go complete a w)

  -- The task after its arrival, with each reply at once: a first request, then perhaps a second.
  abbrev pub run_last : Task Amount × App Amount × Io → Result (Reply Amount) × App Amount × Io
  run_last (finished r, a, w) = (r, a, w)
  run_last (waiting p t, a, w) =
      (raise Exn.other_error, record a { in_flight = a.in_flight - 1 }, w)

  abbrev pub reply_now :
      Payment Amount → Pending Amount → App Amount → Io → Task Amount × App Amount × Io
  reply_now p t a w =
      let s = attempt_of t in resume env settings p t (env.post s.number s.request) a w

  abbrev pub run_next : Task Amount × App Amount × Io → Result (Reply Amount) × App Amount × Io
  run_next (finished r, a, w) = (r, a, w)
  run_next (waiting p t, a, w) = run_last (reply_now p t a w)

  abbrev pub run_alone : Task Amount × App Amount × Io → Result (Reply Amount) × App Amount × Io
  run_alone (finished r, a, w) = (r, a, w)
  run_alone (waiting p t, a, w) = run_next (reply_now p t a w)

  abbrev leave : Result (Reply Amount) × App Amount × Io → Result (Reply Amount) × App Amount × Io
  leave (r, a, w) = (r, record a { in_flight = a.in_flight - 1 }, w)

  leave_last :
      (out : Result (Task Amount) × App Amount × Io)
      → leave (onward complete_last out) ≡ run_last (conclude out)
  unfolding conclude
  leave_last (ok (finished r), a, w) = refl
  leave_last (ok (waiting p t), a, w) = refl
  leave_last (raise e, a, w) = refl

  leave_next :
      (out : Result (Task Amount) × App Amount × Io)
      → leave (onward complete_next out) ≡ run_next (conclude out)
  unfolding conclude resume
  leave_next (ok (finished r), a, w) = refl
  leave_next (ok (waiting p t), a, w) = leave_last (resume_now p t a w)
  leave_next (raise e, a, w) = refl

  leave-complete :
      (out : Result (Task Amount) × App Amount × Io)
      → leave (onward complete out) ≡ run_alone (conclude out)
  unfolding conclude resume
  leave-complete (ok (finished r), a, w) = refl
  leave-complete (ok (waiting p t), a, w) = leave_next (resume_now p t a w)
  leave-complete (raise e, a, w) = refl

  -- A task whose replies come at once, with no other task between, returns or raises what
  -- `authorize_payment` does as a whole, and leaves the same state of the application and of the
  -- outside world.
  pub run_alone-begin :
      (p : Payment Amount) (id k : Option String) (a : App Amount) (w : Io)
      → run_alone (begin env settings p id k a w) ≡ authorize_payment env settings p id k a w
  unfolding authorize_payment begin
  run_alone-begin p id k a w =
      let entered = record a { in_flight = a.in_flight + 1 } in
      sym (
        ap leave (authorize_body-begin_body p id k entered w)
        ∙ leave-complete (begin_body env settings p id k entered w))
