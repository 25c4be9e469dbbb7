-- ===== src/Service/Rotation.antt =====
-- A payment while the gateway's keys are rotated: through the middlewares and the endpoint of
-- app/main.py, to the simulated gateway with the current or the previous credential, and back.
use Prim.Native.String.{◌++◌ as str_append}
use test_cusa.Prelude.{
  ap, ℕ, suc, ◌+◌, ◌≡◌, ◌∙◌, refl, String, Bool, true, false, ◌==◌, inl, inr, Bool-cases, Option,
  some, ◌⊎◌, arith, if◌then◌else◌,
}
use test_cusa.Runtime.{Env, Io, ok, Value, Dict}
use test_cusa.Runtime.Convert.{get, get_default}
use test_cusa.Config.{Settings}
use test_cusa.Breaker.{CircuitState}
use test_cusa.Credentials.Status.{Credential}
use test_cusa.Credentials.Manager.{CredentialManager, get_fallback_credential}
use test_cusa.Gateway.{authorize_path, Payment, request_of, with_credentials}
use test_cusa.Models.{validate, PaymentResponse, PaymentStatus}
use test_cusa.Mock.Service
use test_cusa.Mock.Service.{World, AuthorizeResponse, decide, is_approved}
use test_cusa.Mock.Service.Agreement.{payload_of}
use test_cusa.Mock.Service.Rotation.{
  Rendering, HasKey, against, valid_keys, decision, rotated, with_credentials-rotated,
}
use test_cusa.Payments.Handler
use test_cusa.Payments.Handler.{App, Reply, mem, text_of, is_missing, payment_status}
use test_cusa.Payments.Schedule.Starting.{IsReady}
use test_cusa.Payments.Granted.{polled, guarded_io, response_of, authorize_payment_granted}

get_default_lem :
    (name : String) (v found : Value) (d : Dict)
    → get name d ≡ some found
    → get_default name v d ≡ found
unfolding get_default
get_default_lem name v found d has = ground (arith, has)

status_lem :
    (approved : Bool)
    → payment_status (Value.text (if approved then "approved" else "declined"))
      ≡ (if approved then PaymentStatus.approved else PaymentStatus.declined)
unfolding payment_status
status_lem true = refl
status_lem false = refl

module _ {Amount : Type 0} (is_positive : Amount → Bool) (world : World)
    (rendering : Rendering Amount) (states : ℕ → Service.Gateway) where
  -- The gateway's state at the request that decides: the first one if it takes the primary
  -- credential's key, else the second one.
  abbrev pub deciding : (n : ℕ) → (k1 : String) → Service.Gateway
  deciding n k1 =
      if mem k1 (valid_keys is_positive world rendering) then states n else states (suc n)

  abbrev pub requests : (k1 : String) → ℕ
  requests k1 = if mem k1 (valid_keys is_positive world rendering) then 1 else 2

  -- A response that carries the gateway's decision in a state.
  pub record IsDecision (p : Payment Amount) (gateway : Service.Gateway)
      (reply : PaymentResponse Amount) : Type 0 where
    pub transaction_id : reply.transaction_id ≡ str_append "txn-" (world.hex gateway.ids)
    pub status : reply.status ≡ (
        if is_approved (world.random gateway.draws)
        then PaymentStatus.approved
        else PaymentStatus.declined)
    pub merchant_id : reply.merchant_id ≡ p.merchant_id
    pub amount : reply.amount ≡ p.amount
    pub currency : reply.currency ≡ p.currency

  pub response_of-IsDecision :
      (env : Env Amount) (settings : Settings) (p : Payment Amount) (c : Credential) (url : String)
      (gateway : Service.Gateway) (w : Io)
      → let decided =
          decision is_positive world rendering gateway (payload_of (request_of p c url)) in
        IsDecision p gateway
          (response_of env settings p (rendering.fields decided) decided.transaction_id w)
  unfolding decide
  response_of-IsDecision env settings p c url gateway w =
      let decided =
        decision is_positive world rendering gateway (payload_of (request_of p c url)) in
      record {
        transaction_id = refl;
        status =
            ap payment_status (
              get_default_lem "status" (Value.text "error") (Value.text decided.status)
                (rendering.fields decided) (rendering.fields-status decided))
            ∙ status_lem (is_approved (world.random gateway.draws));
        merchant_id = refl;
        amount = refl;
        currency = refl;
      }

  -- With either key among the gateway's, the call is answered.
  rotated-granted :
      (p : Payment Amount) (c1 c2 : Credential) (url : String) (n : ℕ) (k1 k2 : String)
      → mem k1 (valid_keys is_positive world rendering) ≡ true
        ⊎ mem k2 (valid_keys is_positive world rendering) ≡ true
      → rotated is_positive world rendering states p c1 c2 url n k1 k2 ≡ record {
        answer = ok (
            rendering.fields (
              decision is_positive world rendering
                (deciding n k1)
                (payload_of (request_of p c1 url))));
        requests = requests k1;
        auth_failures = 0;
      }
  unfolding request_of
  rotated-granted p c1 c2 url n k1 k2 (inl listed) = rw listed refl
  rotated-granted p c1 c2 url n k1 k2 (inr listed) =
      elim (Bool-cases (mem k1 (valid_keys is_positive world rendering))) [
        | inl first ↦ rw first refl
        | inr never ↦ rw (never, listed) refl
      ]

  -- The endpoint, with usable credentials of which the gateway takes at least one.
  pub endpoint_rotated :
      (is_at_most : ℕ → Amount → Bool) (env : Env Amount) (settings : Settings)
      (input p : Payment Amount) (m : CredentialManager) (c1 c2 : Credential) (k1 s1 k2 s2 : String)
      (id k : Option String) (a : App Amount) (w : Io)
      → validate is_positive is_at_most input ≡ some p
      → is_missing k ≡ false
      → mem (text_of k) settings.api_keys ≡ true
      → IsReady
          (against is_positive world rendering states env)
          settings
          CircuitState.closed
          p.idempotency_key
          m
          c1
          a
          w
      → get_fallback_credential m ≡ some c2
      → HasKey is_positive world rendering c1 k1 s1
      → HasKey is_positive world rendering c2 k2 s2
      → c2.identity == c1.identity ≡ false
      → mem k1 (valid_keys is_positive world rendering) ≡ true
        ⊎ mem k2 (valid_keys is_positive world rendering) ≡ true
      → let (r, _, w') =
          Handler.authorize_payment
            (against is_positive world rendering states env)
            settings
            p
            id
            k
            a
            w in
        (reply : PaymentResponse Amount) × (r ≡ ok (Reply.fresh reply))
        × IsDecision p (deciding w.posts k1) reply
        × (w'.posts ≡ w.posts + requests k1)
  endpoint_rotated is_at_most env settings input p m c1 c2 k1 s1 k2 s2 id k a w taken there known h
        previous has1 has2 other listed =
      let world_env = against is_positive world rendering states env in
      let (g, held, closed) = h.gateway in
      let url = str_append g.base_url authorize_path in
      let decided =
        decision is_positive world rendering (deciding w.posts k1)
          (payload_of (request_of p c1 url)) in
      let (_, g', w') =
        with_credentials world_env (some c1) (some c2) p (polled g) (guarded_io w) in
      let met =
        with_credentials-rotated is_positive world rendering is_at_most states env input p c1 c2 k1
          s1 k2 s2 (polled g) (guarded_io w) taken has1 has2 other in
      let granted = rotated-granted p c1 c2 url w.posts k1 k2 listed in
      let answered =
        ap (λ c. with_credentials world_env (some c1) c p (polled g) (guarded_io w)) previous
        ∙ ap (λ r. (r, g', w')) (met.answers ∙ ap (λ o. o.answer) granted) in
      let (replied, posts) =
        authorize_payment_granted world_env settings p id k m c1 (rendering.fields decided)
          decided.transaction_id g g' a w w' there known h held closed answered
          (rendering.fields-transaction_id decided) in
      (
        response_of world_env settings p (rendering.fields decided) decided.transaction_id
            (record w' { uuids = suc w'.uuids }),
        replied,
        response_of-IsDecision world_env settings p c1 url (deciding w.posts k1)
            (record w' { uuids = suc w'.uuids }),
        posts ∙ met.posts ∙ ap (λ o. w.posts + o.requests) granted,
      )
