-- ===== src/Payments/Effects.antt =====
-- What a call of app/main.py's endpoint does to the idempotency cache, by its reply.
use mathlib.Core.Option
use test_cusa.Prelude.{
  ◌≡◌, ◌∙◌, sym, ap, String, Option, none, some, arith, lookup, String_discrete, ◌+◌, ◌-◌,
}
use test_cusa.Runtime.{Env, Action, Io, Result, ok, raise, Exn, Dict, Value, pure, ◌>>=◌}
use test_cusa.Runtime.Binds.{onward}
use test_cusa.Runtime.Keeps.{Keeps, Keeps-uuid}
use test_cusa.Runtime.Convert.{get_default}
use test_cusa.OrderedDict.{OrderedDict}
use test_cusa.Config.{Settings}
use test_cusa.Audit.{audit_auth_failure}
use test_cusa.Credentials.Manager.{CredentialManager}
use test_cusa.Gateway.{Payment}
use test_cusa.Models.{PaymentResponse}
use test_cusa.Idempotency.{check_idempotency, store_idempotency}
use test_cusa.Idempotency.Retention
use test_cusa.Idempotency.Retention.{check_idempotency_lem}
use test_cusa.Payments.Handler.{
  App, Reply, fresh, cached, validate_api_key, require_credentials, look_up, prepare, call_gateway,
  with_gateway, finish, respond, answer_or, text_field, authorize_body, authorize_payment,
}

check_idempotency_absent :
    {R : Type 0} (key : String) (cache : OrderedDict String R)
    → lookup String_discrete key cache ≡ none
    → (check_idempotency key cache).0 ≡ cache
unfolding check_idempotency
check_idempotency_absent key cache absent = ground (arith, absent)

module _ {Amount : Type 0} (key : String)
    (before : OrderedDict String (PaymentResponse Amount)) where
  -- The cache is as before.
  abbrev Same : App Amount → Type 0
  Same a = a.idempotency_cache ≡ before

  -- A new response is for a key that had none, and is stored; a stored one is that of the key, and is
  -- moved to the end; an exception changes nothing.
  abbrev pub Effect : Result (Reply Amount) × App Amount × Io → Type 0
  Effect (ok (fresh r), a, w) =
      (lookup String_discrete key before ≡ none)
      × (a.idempotency_cache ≡ store_idempotency key r before)
  Effect (ok (cached r), a, w) =
      (lookup String_discrete key before ≡ some r)
      × (a.idempotency_cache ≡ (check_idempotency key before).0)
  Effect (raise e, a, w) = a.idempotency_cache ≡ before

  -- The cache was looked at.
  abbrev Prepared :
      Result (CredentialManager × Option (PaymentResponse Amount)) × App Amount × Io → Type 0
  Prepared (ok (m, found), a, w) =
      (found ≡ lookup String_discrete key before)
      × (a.idempotency_cache ≡ (check_idempotency key before).0)
  Prepared (raise e, a, w) = a.idempotency_cache ≡ before

  module _ {A B : Type 0} (Q : Result B × App Amount × Io → Type 0)
      (raised : (e : Exn) (a : App Amount) (w : Io) → Same a → Q (raise e, a, w)) where
    rest_lem :
        (f : A → Action (App Amount) B)
        → ((x : A) (a : App Amount) (w : Io) → Same a → Q (f x a w))
        → (out : Result A × App Amount × Io) → Same out.1
        → Q (onward f out)
    rest_lem f h (ok x, a, w) same = h x a w same
    rest_lem f h (raise e, a, w) same = raised e a w same

    bind_lem :
        (m : Action (App Amount) A) (f : A → Action (App Amount) B)
        → Keeps Same m
        → ((x : A) (a : App Amount) (w : Io) → Same a → Q (f x a w))
        → (a : App Amount) (w : Io) → Same a
        → Q ((m >>= f) a w)
    bind_lem m f k h a w same = rest_lem f h (m a w) (k.at a w same)

  store_lem :
      (k : String) (r : PaymentResponse Amount)
      (cache : OrderedDict String (PaymentResponse Amount))
      → k ≡ key
      → cache ≡ before
      → store_idempotency k r cache ≡ store_idempotency key r before
  store_lem k r cache own same = cc

  text_field-Same : (x : Value) → Keeps Same (text_field {C = App Amount} x)
  text_field-Same x = record { at = λ a w h. ground arith }

  -- The request leaves the counter.
  left_lem :
      (out : Result (Reply Amount) × App Amount × Io)
      → Effect out
      → Effect (out.0, record out.1 { in_flight = out.1.in_flight - 1 }, out.2)
  left_lem (ok (fresh r), a, w) e = e
  left_lem (ok (cached r), a, w) e = e
  left_lem (raise x, a, w) e = e

  module _ (env : Env Amount) (settings : Settings) where
    validate_api_key-Same :
        (k : Option String) (id : String) → Keeps Same (validate_api_key env settings k id)
    unfolding validate_api_key audit_auth_failure
    validate_api_key-Same k id = record { at = λ a w h. ground arith }

    require_credentials-Same : Keeps Same (require_credentials env settings)
    unfolding require_credentials
    require_credentials-Same = record { at = λ a w h. ground arith }

    call_gateway-Same :
        (m : CredentialManager) (p : Payment Amount) → Keeps Same (call_gateway env settings m p)
    unfolding call_gateway with_gateway
    call_gateway-Same m p = record { at = λ a w h. ground arith }

    look_up-Prepared :
        (m : CredentialManager) (k : String) (a : App Amount) (w : Io)
        → k ≡ key
        → Retention.IsValid before
        → Same a
        → Prepared ((look_up env settings k >>= λ found. pure (m, found)) a w)
    unfolding look_up
    look_up-Prepared m k a w own v same =
        let (answer, _) = check_idempotency_lem key key before v in
        (
          ap (λ c. (check_idempotency k c).1) same
              ∙ ap (λ j. (check_idempotency j before).1) own
              ∙ answer,
          ap (λ c. (check_idempotency k c).0) same ∙ ap (λ j. (check_idempotency j before).0) own,
        )

    prepare-Prepared :
        (p : Payment Amount) (id k : Option String) (a : App Amount) (w : Io)
        → p.idempotency_key ≡ key
        → Retention.IsValid before
        → Same a
        → Prepared (prepare env settings p id k a w)
    unfolding prepare
    prepare-Prepared p id k a w own v =
        bind_lem Prepared (λ e a' w' s. s) _ _ (Keeps-uuid env)
          (λ made.
            bind_lem Prepared (λ e a' w' s. s) _ _ (validate_api_key-Same k (Option.get_or id made))
              (λ _.
                bind_lem Prepared (λ e a' w' s. s) _ _ require_credentials-Same
                  (λ m a' w'. look_up-Prepared m p.idempotency_key a' w' own v)))
          a w

    respond-Effect :
        (p : Payment Amount) (d : Dict) (t : String) (a : App Amount) (w : Io)
        → p.idempotency_key ≡ key
        → lookup String_discrete key before ≡ none
        → Same a
        → Effect (respond env settings p d t a w)
    unfolding respond
    respond-Effect p d t a w own absent same =
        (absent, store_lem p.idempotency_key _ a.idempotency_cache own same)

    finish-Effect :
        (p : Payment Amount) (d : Dict) (a : App Amount) (w : Io)
        → p.idempotency_key ≡ key
        → lookup String_discrete key before ≡ none
        → Same a
        → Effect (finish env settings p d a w)
    unfolding finish
    finish-Effect p d a w own absent =
        bind_lem Effect (λ e a' w' s. s) _ _ (Keeps-uuid env)
          (λ made.
            bind_lem Effect (λ e a' w' s. s) _ _
              (text_field-Same (get_default "transaction_id" (Value.text made) d))
              (λ t a' w'. respond-Effect p d t a' w' own absent))
          a w

    -- From the cache that was looked at to the reply.
    answered_lem :
        (p : Payment Amount)
        (out : Result (CredentialManager × Option (PaymentResponse Amount)) × App Amount × Io)
        → p.idempotency_key ≡ key
        → Prepared out
        → Effect (
            onward
              (λ (ready : CredentialManager × Option (PaymentResponse Amount)).
                answer_or env settings ready.1
                  (call_gateway env settings ready.0 p >>= finish env settings p))
              out)
    answered_lem p (ok (m, some r), a, w) own (held, looked) = (sym held, looked)
    answered_lem p (ok (m, none), a, w) own (absent, looked) =
        bind_lem Effect (λ e a' w' s. s) _ _ (call_gateway-Same m p)
          (λ d a' w'. finish-Effect p d a' w' own (sym absent)) a w
          (looked ∙ check_idempotency_absent key before (sym absent))
    answered_lem p (raise e, a, w) own same = same

    -- The endpoint's effect on the cache.
    pub authorize_payment-Effect :
        (p : Payment Amount) (id k : Option String) (a : App Amount) (w : Io)
        → p.idempotency_key ≡ key
        → Retention.IsValid before
        → a.idempotency_cache ≡ before
        → Effect (authorize_payment env settings p id k a w)
    unfolding authorize_payment authorize_body
    authorize_payment-Effect p id k a w own v same =
        let entered = record a { in_flight = a.in_flight + 1 } in
        left_lem (authorize_body env settings p id k entered w) (
          answered_lem p (prepare env settings p id k entered w) own
            (prepare-Prepared p id k entered w own v same))
