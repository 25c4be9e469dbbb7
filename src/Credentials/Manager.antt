-- ===== src/Credentials/Manager.antt =====
-- `CredentialManager`: the cache of credentials by version, and how a secret enters it.
use mathlib.Core.Option
use test_cusa.Prelude.{ℕ, String, Bool, true, false, Option, none, some, List, [], ◌∷◌, lookup}
use test_cusa.Prelude.Int.{ℤ, ℤ_discrete}
use test_cusa.Runtime.{Exn}
use test_cusa.Config.{Settings}
use test_cusa.OrderedDict.{OrderedDict}
use test_cusa.Vault.Client.{VaultClient}
use test_cusa.Credentials.Status.{Credential, CredentialStatus, age, status}

abbrev pub max_cache_size : ℕ
max_cache_size = 5

-- What `str(exc)` or the fixed message of `_last_error` tells.
pub data LastError : Type 0 where
  raised : Exn → LastError
  missing_fields : LastError

-- The task of the refresh loop is there or not.
pub record CredentialManager : Type 0 where
  pub vault_client : VaultClient
  pub check_interval : ℤ
  pub cache : OrderedDict ℤ Credential
  pub current_version : Option ℤ
  pub previous_version : Option ℤ
  pub last_error : Option LastError
  pub refresh_task : Bool
  pub running : Bool
  pub credentials_made : ℕ
  pub credential_version : Option ℤ
  pub credential_age_seconds : Option ℤ
  pub credential_rotation_total : ℕ
  pub credential_fetch_errors_total : ℕ

unfoldable pub init : Settings → VaultClient → Option ℤ → CredentialManager
init settings client interval = record {
  vault_client = client;
  check_interval = Option.get_or interval settings.credential_check_interval;
  cache = [];
  current_version = none;
  previous_version = none;
  last_error = none;
  refresh_task = false;
  running = false;
  credentials_made = 0;
  credential_version = none;
  credential_age_seconds = none;
  credential_rotation_total = 0;
  credential_fetch_errors_total = 0;
}

abbrev pub values : OrderedDict ℤ Credential → List Credential
values [] = []
values (e ∷ d) = e.1 ∷ values d

-- `next(reversed(items))`, if there is one
unfoldable pub last : List Credential → Option Credential
last [] = none
last (c ∷ []) = some c
last (c ∷ c' ∷ cs) = last (c' ∷ cs)

-- `items[-2]`, if `len(items) >= 2`
unfoldable pub second_last : List Credential → Option Credential
second_last [] = none
second_last (c ∷ []) = none
second_last (c ∷ c' ∷ []) = some c
second_last (c ∷ c' ∷ c'' ∷ cs) = second_last (c' ∷ c'' ∷ cs)

unfoldable pub get_current_credential : CredentialManager → Option Credential
unfolding last
get_current_credential m = elim m.current_version [
  | some v ↦ lookup ℤ_discrete v m.cache
  | none ↦ last (values m.cache)
]

unfoldable pub get_fallback_credential : CredentialManager → Option Credential
unfolding second_last
get_fallback_credential m = elim m.previous_version [
  | some v ↦ lookup ℤ_discrete v m.cache
  | none ↦ second_last (values m.cache)
]

unfoldable pub credential_status : (now : ℤ) → CredentialManager → CredentialStatus
unfolding get_current_credential status
credential_status now m = elim (get_current_credential m) [
  | none ↦ CredentialStatus.error
  | some c ↦ status now c
]

-- `status in (VALID, EXPIRING_SOON)`
unfoldable pub is_usable : CredentialStatus → Bool
is_usable CredentialStatus.valid = true
is_usable CredentialStatus.expiring_soon = true
is_usable CredentialStatus.expired = false
is_usable CredentialStatus.error = false

unfoldable pub has_valid_credentials : (now : ℤ) → CredentialManager → Bool
unfolding credential_status is_usable
has_valid_credentials now m = is_usable (credential_status now m)

pub record CredentialInfo : Type 0 where
  pub version : Option ℤ
  pub age_seconds : Option ℤ
  pub status : CredentialStatus
  pub last_rotation : Option String

unfoldable pub get_credential_info : (now : ℤ) → CredentialManager → CredentialInfo
unfolding get_current_credential
get_credential_info now m = elim (get_current_credential m) [
  | none ↦ record {
    version = none;
    age_seconds = none;
    status = CredentialStatus.error;
    last_rotation = none;
  }
  | some c ↦ record {
    version = c.version;
    age_seconds = some (age now c);
    status = status now c;
    last_rotation = c.created_time;
  }
]
