-- ===== src/Credentials/Outcome.antt =====
-- How a load of app/credential_manager.py can end, as relations between the manager before and after.
use test_cusa.Prelude.{
  suc, ◌+◌, ◌≡◌, refl, ◌≢◌, Bool, true, false, not, ◌&&◌, Option, none, some, ◌⊎◌, inl, inr, ite,
  is_some, arith, if◌then◌else◌,
}
use test_cusa.Prelude.Int.{ℤ, ℤ_discrete, option_discrete}
use test_cusa.Runtime.{Result, ok, raise}
use test_cusa.Runtime.Convert.{whole_seconds}
use test_cusa.OrderedDict.{set_item, shrink}
use test_cusa.Vault.Client.{SecretData, VaultClient}
use test_cusa.Credentials.Status.{Credential}
use test_cusa.Credentials.Manager.{CredentialManager, LastError, max_cache_size}

-- A change of version from one that was known.
abbrev pub rotates : (old version : Option ℤ) → Bool
rotates old version = is_some old && not (ite (option_discrete old version) true false)

-- The key under which a credential is cached, given the clock's reading.
abbrev pub key_at : Option ℤ → (now : ℤ) → ℤ
key_at (some v) now = v
key_at none now = whole_seconds now

-- A version is its own key.
abbrev pub Keyed : Option ℤ → ℤ → Type 0
Keyed none key = Unit
Keyed (some v) key = key ≡ v

pub Keyed-key_at : (version : Option ℤ) (now : ℤ) → Keyed version (key_at version now)
Keyed-key_at none now = tt
Keyed-key_at (some v) now = refl

-- A secret that is accepted: what the manager holds afterwards.
pub record Accepted (secret : SecretData) (credential : Credential) (key : ℤ)
    (m m' : CredentialManager) : Type 0 where
  pub versioned : credential.version ≡ secret.version
  pub fresh : credential.identity ≡ m.credentials_made
  pub keyed : Keyed secret.version key
  pub current : m'.current_version ≡ secret.version
  pub previous : m'.previous_version ≡ m.current_version
  pub cache : m'.cache ≡ shrink max_cache_size (set_item ℤ_discrete key credential m.cache)
  pub made : m'.credentials_made ≡ suc m.credentials_made
  pub interval : m'.check_interval ≡ m.check_interval
  pub no_error : m'.last_error ≡ none
  pub errors : m'.credential_fetch_errors_total ≡ m.credential_fetch_errors_total
  pub rotations : m'.credential_rotation_total ≡ (
      if rotates m.current_version secret.version
      then m.credential_rotation_total + 1
      else m.credential_rotation_total)

-- The credentials are what they were.
pub record Unchanged (m m' : CredentialManager) : Type 0 where
  pub cache : m'.cache ≡ m.cache
  pub current : m'.current_version ≡ m.current_version
  pub previous : m'.previous_version ≡ m.previous_version
  pub made : m'.credentials_made ≡ m.credentials_made
  pub interval : m'.check_interval ≡ m.check_interval

-- What became of a secret, by how its processing ended.
abbrev pub Processed :
    SecretData → (m : CredentialManager) → Result Bool → CredentialManager → Type 0
Processed secret m (ok true) m' =
    ((secret.version ≡ m.current_version)
      × Unchanged m m'
      × (m'.credential_rotation_total ≡ m.credential_rotation_total)
      × (m'.credential_fetch_errors_total ≡ m.credential_fetch_errors_total)
      × (m'.last_error ≡ m.last_error))
    ⊎ ((secret.version ≢ m.current_version)
        × ((credential : Credential) × (key : ℤ) × Accepted secret credential key m m'))
Processed secret m (ok false) m' =
    Unchanged m m'
    × (m'.credential_rotation_total ≡ m.credential_rotation_total)
    × (m'.credential_fetch_errors_total ≡ m.credential_fetch_errors_total + 1)
    × (m'.last_error ≡ some LastError.missing_fields)
Processed secret m (raise e) m' = m' ≡ m

-- What one load does, by how it ended. If it succeeds, the credentials are what they were, for a
-- secret of the current version, or the new credential is in the cache; if it fails, they are what
-- they were, and one error is counted and remembered. It never raises.
abbrev pub Loaded : (m : CredentialManager) → Result Bool → CredentialManager → Type 0
Loaded m (ok true) m' =
    (secret : SecretData) × (((secret.version ≡ m.current_version) × Unchanged m m')
      ⊎ ((secret.version ≢ m.current_version)
          × ((credential : Credential) × (key : ℤ) × Accepted secret credential key m m')))
Loaded m (ok false) m' =
    Unchanged m m'
    × (m'.credential_fetch_errors_total ≡ m.credential_fetch_errors_total + 1)
    × (is_some m'.last_error ≡ true)
Loaded m (raise e) m' = ⊥

-- Another state of the Vault client changes nothing of this.
pub Loaded-vault :
    (m : CredentialManager) (v : VaultClient) (r : Result Bool) (m' : CredentialManager)
    → Loaded (record m { vault_client = v }) r m'
    → Loaded m r m'
Loaded-vault m v (ok true) m' (secret, inl (same, u)) = (secret, inl (same, ground (arith, u)))
Loaded-vault m v (ok true) m' (secret, inr (new, (c, k, a))) =
    (secret, inr (new, (c, k, ground (arith, a))))
Loaded-vault m v (ok false) m' l = ground arith
Loaded-vault m v (raise e) m' l = l
