-- ===== src/Credentials/Replied.antt =====
-- How a load of app/credential_manager.py ends for a given reply of Vault and a given version held:
-- with nothing taken, with the credentials kept, or with a new one that carries the secret's fields.
use test_cusa.Prelude.{◌+◌, ◌≡◌, Bool, true, false, ◌&&◌, Option, some, ite, arith, if◌then◌else◌}
use test_cusa.Prelude.Int.{ℤ, option_discrete}
use test_cusa.Runtime.{Result, ok, raise, Exn, Value, Payload}
use test_cusa.Runtime.Convert.{truthy, get, get_default}
use test_cusa.Vault.Client.{SecretData, VaultClient}
use test_cusa.Credentials.Status.{Credential}
use test_cusa.Credentials.Manager.{CredentialManager, LastError}
use test_cusa.Credentials.Load.{ttl_of}
use test_cusa.Credentials.Outcome.{key_at, Accepted, Unchanged}

-- The load answers False: nothing is taken, and the error is counted and remembered.
pub record Failed (error : LastError) (m : CredentialManager) (r : Result Bool)
    (m' : CredentialManager) : Type 0 where
  pub result : r ≡ ok false
  pub unchanged : Unchanged m m'
  pub errors : m'.credential_fetch_errors_total ≡ m.credential_fetch_errors_total + 1
  pub remembered : m'.last_error ≡ some error
  pub rotations : m'.credential_rotation_total ≡ m.credential_rotation_total

-- The load answers True and leaves the credentials as they are.
pub record Kept (m : CredentialManager) (r : Result Bool) (m' : CredentialManager) : Type 0 where
  pub result : r ≡ ok true
  pub unchanged : Unchanged m m'
  pub errors : m'.credential_fetch_errors_total ≡ m.credential_fetch_errors_total
  pub rotations : m'.credential_rotation_total ≡ m.credential_rotation_total

-- The load answers True and holds a new credential with the fields of the secret, cached under its
-- version, or under the whole seconds of a reading of the clock if it has none.
pub record Taken (secret : SecretData) (api_key api_secret : Value) (ttl : Option ℤ)
    (loaded_at cached_at : ℤ) (m : CredentialManager) (r : Result Bool) (m' : CredentialManager)
    : Type 0 where
  pub credential : Credential
  pub result : r ≡ ok true
  pub accepted : Accepted secret credential (key_at secret.version cached_at) m m'
  pub has_key : credential.api_key ≡ api_key
  pub has_secret : credential.api_secret ≡ api_secret
  pub has_ttl : credential.ttl ≡ ttl
  pub has_created : credential.created_time ≡ secret.created_time
  pub dated : credential.loaded_at ≡ loaded_at

-- A new version is taken if its ttl is a number or missing.
abbrev pub Takes :
    SecretData
    → (api_key api_secret : Value) → Result (Option ℤ)
    → (loaded_at cached_at : ℤ) → CredentialManager
    → Result Bool
    → CredentialManager
    → Type 0
Takes secret k s (ok ttl) loaded_at cached_at = Taken secret k s ttl loaded_at cached_at
Takes secret k s (raise e) loaded_at cached_at = Failed (LastError.raised e)

-- A secret needs a key and a secret that are not empty, and a version other than the one held.
abbrev pub Heeds :
    SecretData
    → Payload
    → (loaded_at cached_at : ℤ) → (m : CredentialManager) → Result Bool
    → CredentialManager
    → Type 0
Heeds secret Payload.opaque loaded_at cached_at m r m' =
    Failed (LastError.raised Exn.attribute_error) m r m'
Heeds secret (Payload.dict d) loaded_at cached_at m r m' =
    let k = get_default "api_key" (Value.text "") d in
    let s = get_default "api_secret" (Value.text "") d in
    if truthy k && truthy s
    then ite (option_discrete secret.version m.current_version) (Kept m r m')
        (Takes secret k s (ttl_of (get "ttl" d)) loaded_at cached_at m r m')
    else Failed LastError.missing_fields m r m'

abbrev pub Follows :
    (reply : Result SecretData)
    → (loaded_at cached_at : ℤ) → (m : CredentialManager) → Result Bool
    → CredentialManager
    → Type 0
Follows (ok secret) loaded_at cached_at m r m' =
    Heeds secret secret.secret_payload loaded_at cached_at m r m'
Follows (raise e) loaded_at cached_at m r m' = Failed (LastError.raised e) m r m'

-- Another state of the Vault client changes nothing of this.
module _ (m : CredentialManager) (v : VaultClient) (r : Result Bool) (m' : CredentialManager) where
  abbrev m0 : CredentialManager
  m0 = record m { vault_client = v }

  Failed-vault : (error : LastError) → Failed error m0 r m' → Failed error m r m'
  Failed-vault error f = ground (arith, f)

  Kept-vault : Kept m0 r m' → Kept m r m'
  Kept-vault k = ground (arith, k)

  Takes-vault :
      (secret : SecretData) (k s : Value) (ttl : Result (Option ℤ)) (loaded_at cached_at : ℤ)
      → Takes secret k s ttl loaded_at cached_at m0 r m'
      → Takes secret k s ttl loaded_at cached_at m r m'
  Takes-vault secret k s (ok ttl) loaded_at cached_at t = record {
    credential = t.credential;
    result = t.result;
    accepted = ground (arith, t.accepted);
    has_key = t.has_key;
    has_secret = t.has_secret;
    has_ttl = t.has_ttl;
    has_created = t.has_created;
    dated = t.dated;
  }
  Takes-vault secret k s (raise e) loaded_at cached_at f = Failed-vault (LastError.raised e) f

  decided-vault :
      (secret : SecretData) (k s : Value) (ttl : Result (Option ℤ)) (loaded_at cached_at : ℤ)
      (has_fields : Bool) (same : Dec (secret.version ≡ m.current_version))
      → (if has_fields
          then ite same (Kept m0 r m') (Takes secret k s ttl loaded_at cached_at m0 r m')
          else Failed LastError.missing_fields m0 r m')
      → if has_fields
        then ite same (Kept m r m') (Takes secret k s ttl loaded_at cached_at m r m')
        else Failed LastError.missing_fields m r m'
  decided-vault secret k s ttl loaded_at cached_at true (yes same) x = Kept-vault x
  decided-vault secret k s ttl loaded_at cached_at true (no new) x =
      Takes-vault secret k s ttl loaded_at cached_at x
  decided-vault secret k s ttl loaded_at cached_at false same x =
      Failed-vault LastError.missing_fields x

  Heeds-vault :
      (secret : SecretData) (p : Payload) (loaded_at cached_at : ℤ)
      → Heeds secret p loaded_at cached_at m0 r m'
      → Heeds secret p loaded_at cached_at m r m'
  Heeds-vault secret Payload.opaque loaded_at cached_at x =
      Failed-vault (LastError.raised Exn.attribute_error) x
  Heeds-vault secret (Payload.dict d) loaded_at cached_at x =
      let k = get_default "api_key" (Value.text "") d in
      let s = get_default "api_secret" (Value.text "") d in
      decided-vault secret k s (ttl_of (get "ttl" d)) loaded_at cached_at (truthy k && truthy s)
        (option_discrete secret.version m.current_version) x

  pub Follows-vault :
      (reply : Result SecretData) (loaded_at cached_at : ℤ)
      → Follows reply loaded_at cached_at m0 r m'
      → Follows reply loaded_at cached_at m r m'
  Follows-vault (raise e) loaded_at cached_at x = Failed-vault (LastError.raised e) x
  Follows-vault (ok secret) loaded_at cached_at x =
      Heeds-vault secret secret.secret_payload loaded_at cached_at x
