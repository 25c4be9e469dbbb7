-- ===== src/Config.antt =====
-- app/config.py: the settings, with their defaults. Reading them from environment variables is
-- pydantic's work.
use text.Mathlib.Text.{◌==◌ as str_eq}
use test_cusa.Prelude.{String, List, [], Option, none, some, if◌then◌else◌}
use test_cusa.Prelude.Int.{ℤ, pos}

pub record Settings : Type 0 where
  pub vault_addr : String
  pub vault_role : String
  pub vault_secret_path : String
  pub vault_auth_method : String
  pub vault_token : String
  pub vaultgateway_url : String
  pub credential_check_interval : ℤ
  pub graceful_shutdown_timeout : ℤ
  pub service_port : ℤ
  pub log_level : String
  pub api_keys : List String

abbrev pub default_settings : Settings
default_settings = record {
  vault_addr = "http://vault.orbitpay.svc.cluster.local:8200";
  vault_role = "payment-gateway-connector";
  vault_secret_path = "secret/data/orbitpay/vaultgateway";
  vault_auth_method = "kubernetes";
  vault_token = "";
  vaultgateway_url = "http://vaultgateway-mock.orbitpay.svc.cluster.local:8080";
  credential_check_interval = pos 30;
  graceful_shutdown_timeout = pos 30;
  service_port = pos 8000;
  log_level = "INFO";
  api_keys = [];
}

-- `given or default`, for an optional text: the empty text counts as missing.
abbrev pub or_default : Option String → String → String
or_default none d = d
or_default (some s) d = if str_eq s "" then d else s
