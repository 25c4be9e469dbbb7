-- ===== src/Health.antt =====
-- The readiness probe of app/main.py, and the start of the application. The module's
-- `_vault_client` is the credential manager's client, and is set together with it.
pub mod Ready
pub mod Quiet
pub mod Shutdown
use test_cusa.Prelude.{ℕ, suc, String, Bool, false, ◌&&◌, Option, none, some, if◌then◌else◌}
use test_cusa.Prelude.Int.{pos, ◌-ℤ◌, ltb_ℤ}
use test_cusa.Runtime.{Env, Action, Result, ok, raise, Io, pure, asks, modify, ◌>>=◌, ◌>>◌, time}
use test_cusa.Runtime
use test_cusa.Runtime.Convert.{round}
use test_cusa.Config.{Settings}
use test_cusa.Audit.{audit_health_check}
use test_cusa.Vault.Client
use test_cusa.Credentials.Status.{CredentialStatus}
use test_cusa.Credentials.Manager.{CredentialManager, credential_status, is_usable}
use test_cusa.Credentials.Load.{load_credentials}
use test_cusa.Credentials.Manager
use test_cusa.Credentials.Refresh.{start_refresh_loop}
use test_cusa.Gateway
use test_cusa.Gateway.{GatewayClient}
use test_cusa.Models.{HealthStatus}
use test_cusa.Payments.Handler.{App}

-- `cred_status.value`
unfoldable pub value : CredentialStatus → String
value CredentialStatus.valid = "valid"
value CredentialStatus.expiring_soon = "expiring_soon"
value CredentialStatus.expired = "expired"
value CredentialStatus.error = "error"

module _ {Amount : Type 0} (env : Env Amount) (settings : Settings) where
  -- Is Vault authenticated? No manager or an exception is a no.
  unfoldable pub probe_vault : Action (App Amount) Bool
  probe_vault a w = elim a.credential_manager [
    | none ↦ (ok false, a, w)
    | some m ↦
        let (r, v, w') = Client.is_authenticated env m.vault_client w in
        let a' = record a { credential_manager = some (record m { vault_client = v }) } in
        (elim r [ ok b ↦ ok b | raise e ↦ ok false ], a', w')
  ]

  unfoldable pub probe_credentials : Action (App Amount) CredentialStatus
  unfolding credential_status
  probe_credentials a = elim a.credential_manager [
    | none ↦ pure CredentialStatus.error a
    | some m ↦ (do now ← time env; pure (credential_status now m)) a
  ]

  unfoldable pub probe_gateway : Action (App Amount) Bool
  probe_gateway a w = elim a.gateway_client [
    | none ↦ (ok false, a, w)
    | some g ↦
        let (r, g', w') = Gateway.check_reachability env g w in
        (elim r [ ok b ↦ ok b | raise e ↦ ok false ], record a { gateway_client = some g' }, w')
  ]

  -- From the three probes to the status code and the body.
  unfoldable pub report :
      (vault_connected : Bool)
      → CredentialStatus
      → (gateway_reachable : Bool) → Action (App Amount) (ℕ × HealthStatus)
  unfolding is_usable value
  report vault_connected cred_status gateway_reachable = do
    now ← time env
    start ← asks (λ a. a.start_time)
    let is_ready = vault_connected && is_usable cred_status
    let word = if is_ready then "ready" else "not_ready"
    let uptime = round 10_000 (if ltb_ℤ (pos 0) start then now -ℤ start else pos 0)
    audit_health_check env word
        (Runtime.health word vault_connected (value cred_status) gateway_reachable uptime)
    pure (
      if is_ready then 200 else 503,
      record {
        status = word;
        vault_connected = vault_connected;
        credential_status = value cred_status;
        gateway_reachable = gateway_reachable;
        uptime = uptime;
      },
    )

  unfoldable pub readiness : Action (App Amount) (ℕ × HealthStatus)
  unfolding probe_vault probe_credentials probe_gateway report
  readiness = do
    vault_connected ← probe_vault
    cred_status ← probe_credentials
    gateway_reachable ← probe_gateway
    report vault_connected cred_status gateway_reachable

  -- The manager is there, or is made from the settings.
  abbrev the_manager : Option CredentialManager → CredentialManager
  the_manager none = Manager.init settings (Client.init settings none none none none) none
  the_manager (some m) = m

  abbrev the_gateway : Option GatewayClient → GatewayClient
  the_gateway none = Gateway.init settings none
  the_gateway (some g) = g

  -- `lifespan` up to its `yield`: a failed load does not stop the start.
  unfoldable pub startup : Action (App Amount) (Unit {0})
  unfolding load_credentials start_refresh_loop Manager.init Client.init Gateway.init
  startup a w =
      let (_, m, w') =
        load_credentials env settings (the_manager a.credential_manager)
          (record w { clock_reads = suc w.clock_reads }) in
      (
        ok tt,
        record a {
          start_time = env.clock w.clock_reads;
          credential_manager = some (start_refresh_loop m);
          gateway_client = some (the_gateway a.gateway_client);
        },
        w',
      )
