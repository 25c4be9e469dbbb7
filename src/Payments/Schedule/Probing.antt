-- ===== src/Payments/Schedule/Probing.antt =====
-- Requests of app/main.py that arrive while the breaker is half-open.
use mathlib.Core.Path.{subst}
use test_cusa.OrderedDict.{OrderedDict}
use test_cusa.Prelude.{
  ℕ, List, [], ◌∷◌, All, length, sum_of, sym, ◌+◌, ◌≡◌, refl, true, false, String, Option, none,
  some, arith, lookup, String_discrete,
}
use test_cusa.Runtime.{Env, Io}
use test_cusa.Models.{PaymentResponse}
use test_cusa.Config.{Settings}
use test_cusa.Breaker.{CircuitState}
use test_cusa.Credentials.Status.{Credential}
use test_cusa.Credentials.Manager.{CredentialManager, get_current_credential, has_valid_credentials}
use test_cusa.Gateway.{GatewayClient, Payment}
use test_cusa.Payments.Handler.{App, is_missing, text_of, mem}
use test_cusa.Payments.Tasks.{Task, begin}
use test_cusa.Payments.Schedule.{open_tasks}
use test_cusa.Payments.Schedule.Starting.{begin_lem}

-- A request as it arrives: the payment, the id in its state, and its API key.
pub record Arrival (Amount : Type 0) : Type 0 where
  pub payment : Payment Amount
  pub state_id : Option String
  pub x_api_key : Option String

module _ {Amount : Type 0} (env : Env Amount) (settings : Settings) where
  -- The requests arrive one after the other, each up to its first wait.
  abbrev pub begin_all :
      List (Arrival Amount) → App Amount → Io → List (Task Amount) × App Amount × Io
  begin_all [] a w = ([], a, w)
  begin_all (r ∷ rs) a w =
      let (x, a1, w1) = begin env settings r.payment r.state_id r.x_api_key a w in
      let (xs, a2, w2) = begin_all rs a1 w1 in (x ∷ xs, a2, w2)

  -- The request has a valid API key, and the cache has no response for it.
  pub record IsNew (cache : OrderedDict String (PaymentResponse Amount)) (r : Arrival Amount)
      : Type 0 where
    pub given : is_missing r.x_api_key ≡ false
    pub known : mem (text_of r.x_api_key) settings.api_keys ≡ true
    pub unanswered : lookup String_discrete r.payment.idempotency_key cache ≡ none

  -- While the breaker is half-open, requests that arrive before the gateway replies are all sent:
  -- with valid API keys, a credential that is usable all the time, and no stored responses, each of
  -- them waits, and the breaker stays half-open.
  pub begin_all-half_open :
      (rs : List (Arrival Amount)) (m : CredentialManager) (c : Credential) (g : GatewayClient)
      (a : App Amount) (w : Io)
      → a.credential_manager ≡ some m
      → get_current_credential m ≡ some c
      → ((n : ℕ) → has_valid_credentials (env.clock n) m ≡ true)
      → a.gateway_client ≡ some g
      → g.circuit_breaker.state ≡ CircuitState.half_open
      → All (IsNew a.idempotency_cache) rs
      → let (xs, a', w') = begin_all rs a w in
        (sum_of open_tasks xs ≡ length rs)
        × (w'.posts ≡ w.posts + length rs)
        × ((g' : GatewayClient) × (a'.gateway_client ≡ some g')
            × (g'.circuit_breaker.state ≡ CircuitState.half_open))
  begin_all-half_open [] m c g a w managed current usable held half fresh =
      (refl, omega arith, (g, held, half))
  begin_all-half_open (r ∷ rs) m c g a w managed current usable held half (new, fresh) =
      let first =
        begin_lem env settings CircuitState.half_open r.payment r.state_id r.x_api_key m c a w refl
          new.given new.known
          (record {
            manager = managed;
            current = current;
            usable = usable w.clock_reads;
            gateway = (g, held, half);
            unanswered = new.unanswered;
          }) in
      let (x, a1, w1) = begin env settings r.payment r.state_id r.x_api_key a w in
      let (g1, held1, half1) = first.gateway in
      let rest =
        begin_all-half_open rs m c g1 a1 w1 first.manager current usable held1 half1
          (subst (λ cache. All (IsNew cache) rs) (sym first.cache) fresh) in
      (omega (arith, first.waits, rest.0), omega (arith, first.posts, rest.1), rest.2)
