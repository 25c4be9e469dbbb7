-- ===== src/Health/Ready.antt =====
-- When the readiness probe of app/main.py says that the service is ready.
use mathlib.Core.Path.{subst}
use test_cusa.Prelude.{
  ap, sym, ◌∙◌, ℕ, suc, ◌≡◌, refl, Bool, false, ◌&&◌, some, arith, if◌then◌else◌,
}
use test_cusa.Runtime.{Env, Io, Result, ok, raise, ◌>>=◌, lift}
use test_cusa.Runtime.Binds.{onward}
use test_cusa.Config.{Settings}
use test_cusa.Audit.{audit_health_check}
use test_cusa.Vault.Client
use test_cusa.Credentials.Manager.{
  CredentialManager, is_usable, get_current_credential, credential_status, has_valid_credentials,
}
use test_cusa.Gateway
use test_cusa.Models.{HealthStatus}
use test_cusa.Payments.Handler.{App}
use test_cusa.Credentials.Status.{CredentialStatus}
use test_cusa.Health.{readiness, report, probe_vault, probe_credentials, probe_gateway}

-- A test that raised has failed.
abbrev pub passed : {C : Type 0} → Result Bool × C × Io → Bool
passed (ok b, _, _) = b
passed (raise _, _, _) = false

module _ {Amount : Type 0} (env : Env Amount) (settings : Settings) where
  -- The manager after its client was asked.
  abbrev asked_manager : CredentialManager → Io → CredentialManager
  asked_manager m w = record m { vault_client = (Client.is_authenticated env m.vault_client w).1 }

  probe_vault_lem :
      (a : App Amount) (w : Io) (m : CredentialManager)
      → a.credential_manager ≡ some m
      → let asked = Client.is_authenticated env m.vault_client w in
        probe_vault env settings a w
        ≡ (ok (passed asked), record a { credential_manager = some (asked_manager m w) }, asked.2)
  unfolding probe_vault
  probe_vault_lem a w m there = ground (arith, there)

  probe_credentials_lem :
      (a : App Amount) (w : Io) (m : CredentialManager)
      → a.credential_manager ≡ some m
      → probe_credentials env settings a w ≡ (
        ok (credential_status (env.clock w.clock_reads) m),
        a,
        record w { clock_reads = suc w.clock_reads },
      )
  unfolding probe_credentials
  probe_credentials_lem a w m there = ground (arith, there)

  -- The gateway's part: a result, the same cache, and no payment.
  record Harmless (a : App Amount) (w : Io) (r : Result Bool) (a' : App Amount) (w' : Io)
      : Type 0 where
    answers : r ≡ ok (passed (r, a', w'))
    posts : w'.posts ≡ w.posts
    cache : a'.idempotency_cache ≡ a.idempotency_cache

  probe_gateway_lem :
      (a : App Amount) (w : Io)
      → let (r, a', w') = probe_gateway env settings a w in Harmless a w r a' w'
  unfolding probe_gateway Gateway.check_reachability
  probe_gateway_lem a w = ground arith

  -- An answer, given what Vault and the credential manager said.
  abbrev pub Reported :
      (connected usable : Bool) (a : App Amount) (w : Io)
      → Result (ℕ × HealthStatus) × App Amount × Io
      → Type 0
  Reported connected usable a w out =
      ((health : HealthStatus) × (out.0 ≡ ok (if connected && usable then 200 else 503, health))
        × (health.status ≡ (if connected && usable then "ready" else "not_ready"))
        × (health.vault_connected ≡ connected))
      × (out.2.posts ≡ w.posts)
      × (out.1.idempotency_cache ≡ a.idempotency_cache)

  report_lem :
      (connected : Bool) (c : CredentialStatus) (a : App Amount) (w : Io) (r : Result Bool)
      (a' : App Amount) (w' : Io)
      → Harmless a w r a' w'
      → Reported connected (is_usable c) a w ((lift r >>= report env settings connected c) a' w')
  unfolding report audit_health_check
  report_lem connected c a w (ok b) a' w' h = ((_, refl, refl, refl), h.posts, h.cache)
  report_lem connected c a w (raise e) a' w' h = ground (arith, h.answers)

  -- With a credential manager, the probe answers 200 exactly when Vault says that the client is
  -- authenticated and the manager has a usable credential, else 503, whatever the gateway answers;
  -- its body says the same, and from Vault's answer on no payment is sent; the idempotency cache
  -- stays.
  pub readiness_lem :
      (a : App Amount) (w : Io) (m : CredentialManager)
      → a.credential_manager ≡ some m
      → let asked = Client.is_authenticated env m.vault_client w in
        let usable = has_valid_credentials (env.clock (asked.2).clock_reads) m in
        Reported (passed asked) usable a asked.2 (readiness env settings a w)
  unfolding readiness has_valid_credentials credential_status get_current_credential
  readiness_lem a w m there =
      let (_, _, w1) = Client.is_authenticated env m.vault_client w in
      let m1 = asked_manager m w in
      let a1 = record a { credential_manager = some m1 } in
      let w2 = record w1 { clock_reads = suc w1.clock_reads } in
      let (r, a3, w3) = probe_gateway env settings a1 w2 in
      let v = passed (Client.is_authenticated env m.vault_client w) in
      let c = credential_status (env.clock w1.clock_reads) m1 in
      let to_gateway =
        λ (x : CredentialStatus). (probe_gateway env settings >>= report env settings v x) in
      let from_vault = λ (y : Bool).
        (probe_credentials env settings >>= λ x.
        (probe_gateway env settings >>= report env settings y x)) in
      let asked =
        ap (onward from_vault) (probe_vault_lem a w m there)
        ∙ ap (onward to_gateway) (probe_credentials_lem a1 w1 m1 refl) in
      let harmless = probe_gateway_lem a1 w2 in
      subst (Reported v (is_usable c) a w1) (sym asked) (
        report_lem v c a w1 r a3 w3
          (record { answers = harmless.answers; posts = harmless.posts; cache = harmless.cache }))
