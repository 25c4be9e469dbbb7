-- ===== src/Credentials/Load.antt =====
-- How a secret from Vault enters the cache of `CredentialManager` in app/credential_manager.py.
use test_cusa.Prelude.{
  ℕ, suc, ◌+◌, Bool, true, false, not, ◌&&◌, ◌||◌, Option, none, some, ite, is_some, if◌then◌else◌,
}
use test_cusa.Prelude.Int.{ℤ, ℤ_discrete, option_discrete}
use test_cusa.Runtime.{
  Env, Action, Result, ok, raise, Exn, pure, throw, lift, asks, modify, ◌>>=◌, ◌>>◌, when, time,
  catch, Value, Dict, Payload,
}
use test_cusa.Runtime.Convert.{truthy, get, get_default, parse_int, whole_seconds}
use test_cusa.Config.{Settings}
use test_cusa.Audit.{audit_credential_access, audit_rotation_event}
use test_cusa.OrderedDict.{set_item, shrink}
use test_cusa.Vault.Client.{VaultClient, SecretData, read_secret}
use test_cusa.Credentials.Status.{Credential, age}
use test_cusa.Credentials.Manager.{
  CredentialManager, LastError, get_current_credential, max_cache_size,
}

-- `int(ttl) if ttl is not None else None`
unfoldable pub ttl_of : Option Value → Result (Option ℤ)
ttl_of none = ok none
ttl_of (some Value.null) = ok none
ttl_of (some (Value.boolean true)) = ok (some (ℤ.pos 1))
ttl_of (some (Value.boolean false)) = ok (some (ℤ.pos 0))
ttl_of (some (Value.number n)) = ok (some n)
ttl_of (some (Value.text s)) = elim (parse_int s) [
  | none ↦ raise Exn.value_error
  | some n ↦ ok (some n)
]
ttl_of (some (Value.compound nonempty)) = raise Exn.type_error

unfoldable pub new_credential :
    SecretData → (api_key api_secret : Value) → (loaded_at : ℤ) → Option ℤ → ℕ → Credential
new_credential secret api_key api_secret loaded_at ttl identity = record {
  identity = identity;
  api_key = api_key;
  api_secret = api_secret;
  version = secret.version;
  loaded_at = loaded_at;
  created_time = secret.created_time;
  ttl = ttl;
}

-- The versions, and the cache with the new credential under its key, cut to its bound.
unfoldable pub install :
    (key : ℤ) (version : Option ℤ) → (ℕ → Credential) → CredentialManager → CredentialManager
install key version make m = record m {
  previous_version = m.current_version;
  current_version = version;
  credentials_made = suc m.credentials_made;
  cache = shrink max_cache_size (set_item ℤ_discrete key (make m.credentials_made) m.cache);
}

-- `self.credential_version.set(version)`, and no error any more.
unfoldable pub set_version : Option ℤ → CredentialManager → CredentialManager
set_version none m = m
set_version (some v) m = record m { credential_version = some v }

module _ {Amount : Type 0} (env : Env Amount) (settings : Settings) where
  unfoldable pub update_age_metric : Action CredentialManager (Unit {0})
  unfolding get_current_credential age
  update_age_metric m = elim (get_current_credential m) [
    | none ↦ pure tt m
    | some c ↦
        (do now ← time env; modify (λ m'. record m' { credential_age_seconds = some (age now c) }))
          m
  ]

  -- `version if version is not None else int(time.time())`
  unfoldable pub cache_key : Option ℤ → Action CredentialManager ℤ
  cache_key (some v) = pure v
  cache_key none = do now ← time env; pure (whole_seconds now)

  -- The end of `_process_secret`: a rotation is counted and audited.
  unfoldable pub report_rotation : (old version : Option ℤ) → Action CredentialManager (Unit {0})
  report_rotation old version =
      when (is_some old && not (ite (option_discrete old version) true false)) do
        modify λ m. record m { credential_rotation_total = m.credential_rotation_total + 1 }
        audit_rotation_event env settings.vault_secret_path old version "success"

  -- The end of `_process_secret`, after the cache was written.
  unfoldable pub announce : (old version : Option ℤ) → Action CredentialManager Bool
  announce old version = do
    modify (set_version version)
    update_age_metric
    modify (λ m. record m { last_error = none })
    report_rotation old version
    pure true

  -- A secret whose version is new.
  unfoldable pub accept_secret :
      SecretData → (api_key api_secret : Value) → Option Value → Action CredentialManager Bool
  accept_secret secret api_key api_secret ttl_value = do
    loaded_at ← time env
    ttl ← lift (ttl_of ttl_value)
    old_version ← asks (λ m. m.current_version)
    key ← cache_key secret.version
    modify (install key secret.version (new_credential secret api_key api_secret loaded_at ttl))
    announce old_version secret.version

  unfoldable pub keep_version : Action CredentialManager Bool
  keep_version = do update_age_metric; pure true

  -- An unchanged version is left as it is.
  unfoldable pub compare_version :
      SecretData → (api_key api_secret : Value) → Option Value → Action CredentialManager Bool
  compare_version secret api_key api_secret ttl_value m w =
      ite (option_discrete secret.version m.current_version) (keep_version m w)
        (accept_secret secret api_key api_secret ttl_value m w)

  unfoldable pub refuse_secret : Action CredentialManager Bool
  refuse_secret = do
    modify λ m. record m {
      last_error = some LastError.missing_fields;
      credential_fetch_errors_total = m.credential_fetch_errors_total + 1;
    }
    pure false

  unfoldable pub process_dict : SecretData → Dict → Action CredentialManager Bool
  process_dict secret d =
      let api_key = get_default "api_key" (Value.text "") d in
      let api_secret = get_default "api_secret" (Value.text "") d in
      if not (truthy api_key) || not (truthy api_secret)
      then refuse_secret
      else compare_version secret api_key api_secret (get "ttl" d)

  -- `.get` of a payload that is no dict raises.
  unfoldable pub process_payload : Payload → SecretData → Action CredentialManager Bool
  process_payload Payload.opaque secret = throw Exn.attribute_error
  process_payload (Payload.dict d) secret = process_dict secret d

  unfoldable pub process_secret : SecretData → Action CredentialManager Bool
  unfolding process_payload
  process_secret secret = process_payload secret.secret_payload secret

  -- An action of the manager's Vault client.
  abbrev pub on_vault : {A : Type 0} → Action VaultClient A → Action CredentialManager A
  on_vault act m w = let (r, v, w') = act m.vault_client w in (r, record m { vault_client = v }, w')

  -- The `except` clause of `load_credentials`.
  unfoldable pub load_failed : Exn → Action CredentialManager Bool
  load_failed e = do
    modify λ m. record m {
      last_error = some (LastError.raised e);
      credential_fetch_errors_total = m.credential_fetch_errors_total + 1;
    }
    audit_credential_access env settings.vault_secret_path none "failure"
    pure false

  -- The `try` block of `load_credentials`.
  unfoldable pub fetch_and_process : Action CredentialManager Bool
  fetch_and_process = do secret ← on_vault (read_secret env settings none); process_secret secret

  unfoldable pub load_credentials : Action CredentialManager Bool
  load_credentials m w = catch (fetch_and_process m w) load_failed
