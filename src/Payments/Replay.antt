-- ===== src/Payments/Replay.antt =====
-- The idempotency of app/main.py's endpoint: the second request with a key gets the first answer.
use mathlib.Core.Option
use mathlib.Core.Path.{subst}
use test_cusa.Prelude.{
  suc, ◌+◌, ◌<◌, length, ◌≡◌, ◌∙◌, sym, ap, String, true, false, Option, none, some, List, arith,
  lookup, String_discrete,
}
use test_cusa.Runtime.{Env, Action, Io, Result, ok, raise, Dict, Value, ◌>>=◌}
use test_cusa.Runtime.Keeps.{Keeps, Keeps-pure, Keeps-uuid, Keeps-bind, Keeps-throw}
use test_cusa.Runtime.Convert.{get_default}
use test_cusa.OrderedDict.{behind}
use test_cusa.Config.{Settings}
use test_cusa.Audit.{audit_auth_failure}
use test_cusa.Credentials.Manager.{CredentialManager}
use test_cusa.Gateway.{GatewayClient, Payment}
use test_cusa.Models.{PaymentResponse}
use test_cusa.Idempotency.{idempotency_cache_max_size}
use test_cusa.Idempotency.Retention
use test_cusa.Idempotency.Retention.{
  check_idempotency_lem, Op, checked, Leaves, run, run_keeps, apply-IsValid, store-IsValid,
  lookup-store_idempotency,
}
use test_cusa.Payments.Handler.{
  App, Reply, fresh, cached, is_missing, text_of, mem, validate_api_key, require_credentials,
  look_up, prepare, call_gateway, with_gateway, finish, respond, answer_or, text_field,
  authorize_body, authorize_payment,
}
use test_cusa.Payments.Access.{unusable}

module _ {Amount : Type 0} where
  -- The application's cache is valid.
  abbrev pub Cached : App Amount → Type 0
  Cached a = Retention.IsValid a.idempotency_cache

  -- A response that was just made is in the cache, under the key.
  abbrev Answered : String → Result (Reply Amount) × App Amount × Io → Type 0
  Answered key (ok (fresh r), a, w) =
      (lookup String_discrete key a.idempotency_cache ≡ some r) × Cached a
  Answered key (ok (cached r), a, w) = Cached a
  Answered key (raise e, a, w) = Cached a

  rest_Answered :
      {A : Type 0} (key : String) (f : A → Action (App Amount) (Reply Amount))
      → ((x : A) (a : App Amount) (w : Io) → Cached a → Answered key (f x a w))
      → (r : Result A) (a : App Amount) (w : Io) → Cached a
      → Answered key (let m : Action (App Amount) A = (λ a' w'. (r, a', w')) in (m >>= f) a w)
  rest_Answered key f h (ok x) a w v = h x a w v
  rest_Answered key f h (raise e) a w v = v

  bind-Answered :
      {A : Type 0} (key : String) (m : Action (App Amount) A)
      (f : A → Action (App Amount) (Reply Amount))
      → Keeps Cached m
      → ((x : A) (a : App Amount) (w : Io) → Cached a → Answered key (f x a w))
      → (a : App Amount) (w : Io) → Cached a
      → Answered key ((m >>= f) a w)
  bind-Answered key m f k h a w v =
      let (r, a', w') = m a w in rest_Answered key f h r a' w' (k.at a w v)

  text_field-Cached : (x : Value) → Keeps Cached (text_field {C = App Amount} x)
  text_field-Cached Value.null = Keeps-throw _
  text_field-Cached (Value.boolean b) = Keeps-throw _
  text_field-Cached (Value.number n) = Keeps-throw _
  text_field-Cached (Value.text t) = Keeps-pure t
  text_field-Cached (Value.compound b) = Keeps-throw _

module _ {Amount : Type 0} (env : Env Amount) (settings : Settings) where
  validate_api_key-Cached :
      (k : Option String) (id : String) → Keeps Cached (validate_api_key env settings k id)
  unfolding validate_api_key audit_auth_failure
  validate_api_key-Cached k id = record { at = λ a w h. ground arith }

  require_credentials-Cached : Keeps Cached (require_credentials env settings)
  unfolding require_credentials
  require_credentials-Cached = record { at = λ a w h. ground arith }

  look_up-Cached : (key : String) → Keeps Cached (look_up env settings key)
  unfolding look_up Retention.apply
  look_up-Cached key = record { at = λ a w h. apply-IsValid (checked key) a.idempotency_cache h }

  pub with_gateway-Cached :
      {A : Type 0} (act : Action GatewayClient A) → Keeps Cached (with_gateway env settings act)
  unfolding with_gateway
  with_gateway-Cached act = record { at = λ a w h. ground arith }

  call_gateway-Cached :
      (m : CredentialManager) (p : Payment Amount) → Keeps Cached (call_gateway env settings m p)
  unfolding call_gateway
  call_gateway-Cached m p = with_gateway-Cached _

  respond-Answered :
      (p : Payment Amount) (d : Dict) (t : String) (a : App Amount) (w : Io)
      → Cached a
      → Answered p.idempotency_key (respond env settings p d t a w)
  unfolding respond
  respond-Answered p d t a w v = (
    lookup-store_idempotency p.idempotency_key _ a.idempotency_cache v,
    store-IsValid p.idempotency_key _ a.idempotency_cache v,
  )

  finish-Answered :
      (p : Payment Amount) (d : Dict) (a : App Amount) (w : Io)
      → Cached a
      → Answered p.idempotency_key (finish env settings p d a w)
  unfolding finish
  finish-Answered p d a w v =
      let given = get_default "transaction_id" (Value.text (env.uuid4 w.uuids)) d in
      bind-Answered p.idempotency_key (text_field given) (respond env settings p d)
        (text_field-Cached given) (respond-Answered p d) a (record w { uuids = suc w.uuids }) v

  Answered-Cached :
      (key : String) (out : Result (Reply Amount) × App Amount × Io)
      → Answered key out
      → Cached out.1
  Answered-Cached key (ok (fresh r), a, w) h = h.1
  Answered-Cached key (ok (cached r), a, w) h = h
  Answered-Cached key (raise e, a, w) h = h

  pub finish-Cached : (p : Payment Amount) (d : Dict) → Keeps Cached (finish env settings p d)
  finish-Cached p d = record {
    at = λ a w h.
        Answered-Cached p.idempotency_key (finish env settings p d a w) (finish-Answered p d a w h);
  }

  answer_or-Answered :
      (key : String) (found : Option (PaymentResponse Amount))
      (act : Action (App Amount) (Reply Amount))
      → ((a : App Amount) (w : Io) → Cached a → Answered key (act a w))
      → (a : App Amount) (w : Io) → Cached a
      → Answered key (answer_or env settings found act a w)
  answer_or-Answered key none act h a w v = h a w v
  answer_or-Answered key (some r) act h a w v = v

  pub prepare-Cached :
      (p : Payment Amount) (id k : Option String) → Keeps Cached (prepare env settings p id k)
  unfolding prepare
  prepare-Cached p id k = Keeps-bind _ _ (Keeps-uuid env) λ made.
      Keeps-bind _ _ (validate_api_key-Cached k (Option.get_or id made)) λ _.
        Keeps-bind _ _ require_credentials-Cached
          λ m. Keeps-bind _ _ (look_up-Cached p.idempotency_key) λ found. Keeps-pure (m, found)

  authorize_body-Answered :
      (p : Payment Amount) (id : Option String) (k : Option String) (a : App Amount) (w : Io)
      → Cached a
      → Answered p.idempotency_key (authorize_body env settings p id k a w)
  unfolding authorize_body
  authorize_body-Answered p id k =
      bind-Answered p.idempotency_key _ _ (prepare-Cached p id k) λ ready.
        answer_or-Answered p.idempotency_key ready.1 _
          (bind-Answered p.idempotency_key _ _ (call_gateway-Cached ready.0 p) (finish-Answered p))

  -- From the answer's shape to what the cache holds.
  Answered-lookup :
      (key : String) (out : Result (Reply Amount) × App Amount × Io) (r : PaymentResponse Amount)
      → Answered key out
      → out.0 ≡ ok (fresh r)
      → (lookup String_discrete key out.1.idempotency_cache ≡ some r) × Cached out.1
  Answered-lookup key (ok (fresh s), a, w) r h e = ground (arith, h)
  Answered-lookup key (ok (cached s), a, w) r h e = ground arith
  Answered-lookup key (raise x, a, w) r h e = ground arith

  -- The endpoint for a key that the cache holds.
  authorize_payment_cached :
      (p : Payment Amount) (id : Option String) (k : Option String) (a : App Amount) (w : Io)
      (r : PaymentResponse Amount)
      → Cached a
      → is_missing k ≡ false
      → mem (text_of k) settings.api_keys ≡ true
      → unusable env settings a.credential_manager w ≡ false
      → lookup String_discrete p.idempotency_key a.idempotency_cache ≡ some r
      → let (r', a', w') = authorize_payment env settings p id k a w in
        (r' ≡ ok (cached r)) × (w'.posts ≡ w.posts)
  unfolding authorize_payment authorize_body prepare validate_api_key require_credentials look_up
  authorize_payment_cached p id k a w r v there known good held =
      let found =
        (check_idempotency_lem p.idempotency_key p.idempotency_key a.idempotency_cache v).0
        ∙ held in
      ground (arith, found)

-- If a request is answered with a new response, then a later request with its idempotency key, a
-- valid API key and usable credentials gets that very response, whatever payment it describes, and
-- nothing is sent to the gateway; provided the cache has seen only checks, and stores under other
-- keys, since, and, with the entries already behind the response, fewer of them than its bound.
pub authorize_payment-replay :
    {Amount : Type 0} (env : Env Amount) (settings : Settings) (p q : Payment Amount)
    (id id' : Option String) (k k' : Option String) (a later : App Amount) (w w' : Io)
    (r : PaymentResponse Amount) (ops : List (Op (PaymentResponse Amount)))
    → Cached a
    → (authorize_payment env settings p id k a w).0 ≡ ok (fresh r)
    → q.idempotency_key ≡ p.idempotency_key
    → Leaves p.idempotency_key ops
    → (let (_, a1, _) = authorize_payment env settings p id k a w in
        (later.idempotency_cache ≡ run ops a1.idempotency_cache)
        × (behind String_discrete p.idempotency_key a1.idempotency_cache + length ops
            < idempotency_cache_max_size))
    → is_missing k' ≡ false
    → mem (text_of k') settings.api_keys ≡ true
    → unusable env settings later.credential_manager w' ≡ false
    → let (r', _, w2) = authorize_payment env settings q id' k' later w' in
      (r' ≡ ok (cached r)) × (w2.posts ≡ w'.posts)
unfolding authorize_payment
authorize_payment-replay env settings p q id id' k k' a later w w' r ops v answered same leaves
      (since, few) there known good =
    let begun = record a { in_flight = a.in_flight + 1 } in
    let out = authorize_body env settings p id k begun w in
    let (held, v1) =
      Answered-lookup env settings p.idempotency_key out r
        (authorize_body-Answered env settings p id k begun w v) answered in
    let (v2, found) =
      run_keeps ops p.idempotency_key r out.1.idempotency_cache v1 leaves held few in
    let last = run ops out.1.idempotency_cache in
    let kept = sym (check_idempotency_lem p.idempotency_key p.idempotency_key last v2).0 ∙ found in
    authorize_payment_cached env settings q id' k' later w' r
      (subst Retention.IsValid (sym since) v2) there known good
      (ap (λ key. lookup String_discrete key later.idempotency_cache) same
        ∙ ap (lookup String_discrete p.idempotency_key) since
        ∙ kept)
