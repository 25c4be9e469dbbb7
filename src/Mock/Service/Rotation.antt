-- ===== src/Mock/Service/Rotation.antt =====
-- The connector against the simulated gateway: what a rotation of the gateway's keys does to a
-- payment. FastAPI's rendering of an answer is a parameter, with what its documentation promises.
use test_cusa.Prelude.{
  ℕ, suc, ◌≡◌, ◌∙◌, refl, String, Bool, true, false, ◌==◌, inl, inr, Bool-cases, some, List,
  if◌then◌else◌,
}
use test_cusa.Runtime.{Env, Io, ok, raise, Exn, Value, Dict, Body, HttpReply, PostRequest}
use test_cusa.Runtime.Convert.{get}
use test_cusa.Credentials.Status.{Credential}
use test_cusa.Gateway.{authorize_path, GatewayClient, Payment, request_of, with_credentials}
use test_cusa.Gateway.Attempts.{Verdict, verdict}
use test_cusa.Gateway.Fallback.{Outcome, expected, tried, Meets, with_credentials-Meets}
use test_cusa.Payments.Handler.{mem, is_missing}
use Prim.Native.String.{◌++◌ as str_append}
use mathlib.Core.Path.{subst}
use test_cusa.Models.{validate}
use test_cusa.Mock.Service.Agreement.{payload_of, validate-is_valid_request}
use test_cusa.Mock.Keys.{get_valid_keys}
use test_cusa.Mock.Service
use test_cusa.Mock.Service.{
  AuthorizeRequest, AuthorizeResponse, Answer, World, decide, is_approved, authorize_transaction,
  is_valid_request,
}

-- How FastAPI sends an answer, and how it refuses a request that does not fit its model.
pub record Rendering (Amount : Type 0) : Type 0 where
  pub render : Answer Amount → HttpReply
  pub fields : AuthorizeResponse Amount → Dict
  pub detail : ℕ → String → Body
  pub unprocessable : HttpReply
  pub render-response :
      (r : AuthorizeResponse Amount)
      → render (Answer.response r) ≡ HttpReply.answer 200 (Body.object (fields r))
  pub render-http_exception :
      (n : ℕ) (d : String) → render (Answer.http_exception n d) ≡ HttpReply.answer n (detail n d)
  pub fields-transaction_id :
      (r : AuthorizeResponse Amount)
      → get "transaction_id" (fields r) ≡ some (Value.text r.transaction_id)
  pub fields-status :
      (r : AuthorizeResponse Amount) → get "status" (fields r) ≡ some (Value.text r.status)

module _ {Amount : Type 0} (is_positive : Amount → Bool) (world : World)
    (rendering : Rendering Amount) where
  -- A request as it reaches the gateway in a state: httpx sends headers that are text only.
  abbrev pub deliver :
      Service.Gateway → PostRequest Amount → (api_key api_secret : Value) → HttpReply
  deliver g q (Value.text k) (Value.text s) =
      if is_valid_request is_positive (payload_of q)
      then rendering.render (authorize_transaction world (payload_of q) (some k) g).0
      else rendering.unprocessable
  deliver g q _ _ = HttpReply.broken

  -- The outside world with the gateway in it: `states n` is its state when the connector's request
  -- number `n` arrives, whatever other clients have sent before.
  abbrev pub against : (states : ℕ → Service.Gateway) → Env Amount → Env Amount
  against states env = record env { post = λ n q. deliver (states n) q q.api_key q.api_secret }

  abbrev pub valid_keys : List String
  valid_keys = get_valid_keys world.valid_api_keys

  -- What the gateway decides in a state, after its first reading of the clock.
  abbrev pub decision : Service.Gateway → AuthorizeRequest Amount → AuthorizeResponse Amount
  decision g payload = decide world payload (record g { clock_reads = suc g.clock_reads })

  -- A credential with a key and a secret, which are texts.
  pub record HasKey (c : Credential) (k s : String) : Type 0 where
    pub key : c.api_key ≡ Value.text k
    pub secret : c.api_secret ≡ Value.text s
    pub nonempty : is_missing (some k) ≡ false

  -- The gateway's answer to a request that fits its model.
  tried_fitting :
      (states : ℕ → Service.Gateway) (env : Env Amount) (p : Payment Amount) (url : String) (n : ℕ)
      (c : Credential) (k s : String)
      → is_valid_request is_positive (payload_of (request_of p c url)) ≡ true
      → HasKey c k s
      → tried (against states env) p url n c
        ≡ verdict (
            rendering.render
              (authorize_transaction world (payload_of (request_of p c url)) (some k) (states n)).0)
  unfolding request_of
  tried_fitting states env p url n c k s fits has = rw (has.key, has.secret, fits) refl

  pub tried_listed :
      (states : ℕ → Service.Gateway) (env : Env Amount) (p : Payment Amount) (url : String) (n : ℕ)
      (c : Credential) (k s : String)
      → is_valid_request is_positive (payload_of (request_of p c url)) ≡ true
      → HasKey c k s
      → mem k valid_keys ≡ true
      → tried (against states env) p url n c
        ≡ Verdict.granted (rendering.fields (decision (states n) (payload_of (request_of p c url))))
  unfolding verdict authorize_transaction
  tried_listed states env p url n c k s fits has listed =
      tried_fitting states env p url n c k s fits has
      ∙ rw (has.nonempty, listed, rendering.render-response) refl

  tried_unlisted :
      (states : ℕ → Service.Gateway) (env : Env Amount) (p : Payment Amount) (url : String) (n : ℕ)
      (c : Credential) (k s : String)
      → is_valid_request is_positive (payload_of (request_of p c url)) ≡ true
      → HasKey c k s
      → mem k valid_keys ≡ false
      → tried (against states env) p url n c ≡ Verdict.rejected
  unfolding verdict authorize_transaction
  tried_unlisted states env p url n c k s fits has listed =
      tried_fitting states env p url n c k s fits has
      ∙ rw (has.nonempty, listed, rendering.render-http_exception) refl

  -- The outcome of a call while the gateway's keys are being rotated.
  abbrev pub rotated :
      (states : ℕ → Service.Gateway) (p : Payment Amount) (primary fallback : Credential)
      (url : String) (n : ℕ) (k1 k2 : String)
      → Outcome
  rotated states p primary fallback url n k1 k2 =
      if mem k1 valid_keys
      then record {
        answer =
            ok (rendering.fields (decision (states n) (payload_of (request_of p primary url))));
        requests = 1;
        auth_failures = 0;
      }
      else if mem k2 valid_keys
      then record {
        answer =
            ok (
              rendering.fields
                (decision (states (suc n)) (payload_of (request_of p fallback url))));
        requests = 2;
        auth_failures = 0;
      }
      else record { answer = raise Exn.gateway_auth_error; requests = 2; auth_failures = 1 }

  expected-rotated :
      (states : ℕ → Service.Gateway) (env : Env Amount) (p : Payment Amount) (url : String) (n : ℕ)
      (primary fallback : Credential) (k1 s1 k2 s2 : String)
      → is_valid_request is_positive (payload_of (request_of p primary url)) ≡ true
      → HasKey primary k1 s1
      → HasKey fallback k2 s2
      → fallback.identity == primary.identity ≡ false
      → expected (against states env) p url n (some primary) (some fallback)
        ≡ rotated states p primary fallback url n k1 k2
  unfolding expected request_of
  expected-rotated states env p url n primary fallback k1 s1 k2 s2 fits has1 has2 other =
      elim (Bool-cases (mem k1 valid_keys)) [
        | inl in_keys ↦
            rw (in_keys, tried_listed states env p url n primary k1 s1 fits has1 in_keys) refl
        | inr not_in ↦
            rw (not_in, tried_unlisted states env p url n primary k1 s1 fits has1 not_in, other)
              (elim (Bool-cases (mem k2 valid_keys)) [
                | inl in_keys ↦
                    rw
                      (
                        in_keys,
                        tried_listed states env p url (suc n) fallback k2 s2 fits has2 in_keys,
                      )
                      refl
                | inr never ↦
                    rw
                      (
                        never,
                        tried_unlisted states env p url (suc n) fallback k2 s2 fits has2 never,
                      )
                      refl
              ])
      ]

  -- While the gateway's keys are rotated, a payment that the connector takes goes through with
  -- either credential: if the primary credential's key is among the gateway's keys, the result is
  -- the gateway's decision, on one request; if only the fallback's is, its decision on the second
  -- request, and no authentication failure is counted; if neither is, an authentication error is
  -- raised and counted, after both were tried. The two credentials are different ones with texts
  -- for keys and secrets, and the keys are not empty.
  pub with_credentials-rotated :
      (is_at_most : ℕ → Amount → Bool) (states : ℕ → Service.Gateway) (env : Env Amount)
      (input p : Payment Amount) (primary fallback : Credential) (k1 s1 k2 s2 : String)
      (g : GatewayClient) (w : Io)
      → validate is_positive is_at_most input ≡ some p
      → HasKey primary k1 s1
      → HasKey fallback k2 s2
      → fallback.identity == primary.identity ≡ false
      → let (r, g', w') =
          with_credentials (against states env) (some primary) (some fallback) p g w in
        Meets
          (rotated states p primary fallback (str_append g.base_url authorize_path) w.posts k1 k2)
          g
          w
          r
          g'
          w'
  with_credentials-rotated is_at_most states env input p primary fallback k1 s1 k2 s2 g w taken has1
        has2 other =
      let url = str_append g.base_url authorize_path in
      let fits = validate-is_valid_request is_positive is_at_most input p primary url taken in
      let (r, g', w') =
        with_credentials (against states env) (some primary) (some fallback) p g w in
      subst (λ o. Meets o g w r g' w')
        (expected-rotated states env p url w.posts primary fallback k1 s1 k2 s2 fits has1 has2
          other)
        (with_credentials-Meets (against states env) (some primary) (some fallback) p g w)
