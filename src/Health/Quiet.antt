-- ===== src/Health/Quiet.antt =====
-- What the readiness probe of app/main.py writes to the audit log: the health check only.
use test_cusa.Prelude.{Option, none, some, ◌≡◌, refl, arith, Bool, List}
use test_cusa.Runtime.{Env, AuditEvent, Io}
use test_cusa.Runtime.Quiet.{Quiet, Quiet-bind}
use test_cusa.Config.{Settings}
use test_cusa.Audit.{audit_health_check}
use test_cusa.Audit.Quiet.{Ignores}
use test_cusa.Vault.Quiet.{is_authenticated-Quiet}
use test_cusa.Credentials.Status.{CredentialStatus}
use test_cusa.Credentials.Manager.{CredentialManager}
use test_cusa.Gateway
use test_cusa.Gateway.{GatewayClient}
use test_cusa.Payments.Handler.{App}
use test_cusa.Health.{readiness, report, probe_vault, probe_credentials, probe_gateway}

module _ {Amount : Type 0} (env : Env Amount) (settings : Settings) where
  asked_lem :
      {N : Type 0} (f : List AuditEvent → N) (a : App Amount) (w : Io)
      (held : Option CredentialManager)
      → a.credential_manager ≡ held
      → f (probe_vault env settings a w).2.audit ≡ f w.audit
  unfolding probe_vault
  asked_lem f a w none there = ground (arith, there)
  asked_lem f a w (some m) there =
      ground (arith, there, (is_authenticated-Quiet {f = f} env).at m.vault_client w)

module _ {N Amount : Type 0} {f : List AuditEvent → N} (env : Env Amount)
    (settings : Settings) where
  probe_vault-Quiet : Quiet f (probe_vault env settings)
  probe_vault-Quiet = record { at = λ a w. asked_lem env settings f a w a.credential_manager refl }

  probe_credentials-Quiet : Quiet f (probe_credentials env settings)
  unfolding probe_credentials
  probe_credentials-Quiet = record { at = λ a w. ground arith }

  probe_gateway-Quiet : Quiet f (probe_gateway env settings)
  unfolding probe_gateway Gateway.check_reachability
  probe_gateway-Quiet = record { at = λ a w. ground arith }

  module _ (ignored : Ignores f "health_check") where
    report-Quiet :
        (vault_connected : Bool) (s : CredentialStatus) (reachable : Bool)
        → Quiet f (report env settings vault_connected s reachable)
    unfolding report audit_health_check
    report-Quiet vault_connected s reachable = record { at = λ a w. ignored.at _ w.audit refl }

    pub readiness-Quiet : Quiet f (readiness env settings)
    unfolding readiness
    readiness-Quiet = Quiet-bind _ _ probe_vault-Quiet λ connected.
        Quiet-bind _ _ probe_credentials-Quiet
          λ s. Quiet-bind _ _ probe_gateway-Quiet λ reachable. report-Quiet connected s reachable
