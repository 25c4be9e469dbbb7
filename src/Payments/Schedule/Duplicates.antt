-- ===== src/Payments/Schedule/Duplicates.antt =====
-- Two requests with one idempotency key in app/main.py, the second of which arrives while the first
-- waits for the gateway.
use test_cusa.Prelude.{
  ap, ◌+◌, ◌≡◌, ◌∙◌, true, false, String, Option, arith, lookup, String_discrete,
}
use test_cusa.Runtime.{Env, Io}
use test_cusa.Config.{Settings}
use test_cusa.Breaker.{CircuitState, is_allowing}
use test_cusa.Credentials.Status.{Credential}
use test_cusa.Credentials.Manager.{CredentialManager, has_valid_credentials}
use test_cusa.Gateway.{Payment}
use test_cusa.Payments.Handler.{App, is_missing, text_of, mem}
use test_cusa.Payments.Tasks.{begin}
use test_cusa.Payments.Schedule.{open_tasks}
use test_cusa.Payments.Schedule.Starting.{IsReady, begin_lem}

module _ {Amount : Type 0} (env : Env Amount) (settings : Settings) where
  -- A request that arrives while an earlier one with its idempotency key waits for the gateway is
  -- sent to the gateway as well: with valid API keys, a credential that is usable at both readings
  -- of the clock, a closed or half-open breaker and no stored response, both wait, and two requests were sent.
  pub begin-duplicate :
      (st : CircuitState) (p q : Payment Amount) (id id' k k' : Option String)
      (m : CredentialManager) (c : Credential) (a : App Amount) (w : Io)
      → is_allowing st ≡ true
      → is_missing k ≡ false
      → mem (text_of k) settings.api_keys ≡ true
      → is_missing k' ≡ false
      → mem (text_of k') settings.api_keys ≡ true
      → q.idempotency_key ≡ p.idempotency_key
      → IsReady env settings st p.idempotency_key m c a w
      → let (x, a1, w1) = begin env settings p id k a w in
        has_valid_credentials (env.clock w1.clock_reads) m ≡ true
        → let (y, _, w2) = begin env settings q id' k' a1 w1 in
          (open_tasks x ≡ 1) × (open_tasks y ≡ 1) × (w2.posts ≡ w.posts + 2)
  begin-duplicate st p q id id' k k' m c a w allowing there known there' known' same h usable =
      let first = begin_lem env settings st p id k m c a w allowing there known h in
      let (_, a1, w1) = begin env settings p id k a w in
      let second = begin_lem env settings st q id' k' m c a1 w1 allowing there' known' (record {
        manager = first.manager;
        current = h.current;
        usable = usable;
        gateway = first.gateway;
        unanswered =
            ap (λ key. lookup String_discrete key a1.idempotency_cache) same
            ∙ ap (lookup String_discrete p.idempotency_key) first.cache
            ∙ h.unanswered;
      }) in
      (first.waits, second.waits, omega (arith, first.posts, second.posts))
