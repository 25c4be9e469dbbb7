-- ===== src/Credentials/Status.antt =====
-- `CredentialStatus` and `Credential`: how long a credential is good.
use test_cusa.Prelude.{ℕ, ◌*◌, String, Option, none, some, if◌then◌else◌}
use test_cusa.Prelude.Int.{ℤ, pos, ◌-ℤ◌, scale, leb_ℤ}
use test_cusa.Runtime.{Value}

-- One second, in microseconds.
abbrev pub second : ℕ
second = 1_000_000

abbrev pub expiry_soon_threshold_seconds : ℕ
expiry_soon_threshold_seconds = 3600

pub data CredentialStatus : Type 0 where
  valid expiring_soon expired error : CredentialStatus

-- `identity` is the object itself, which Python's `is` compares.
pub record Credential : Type 0 where
  pub identity : ℕ
  pub api_key : Value
  pub api_secret : Value
  pub version : Option ℤ
  pub loaded_at : ℤ
  pub created_time : Option String
  pub ttl : Option ℤ

unfoldable pub age : (now : ℤ) → Credential → ℤ
age now c = now -ℤ c.loaded_at

unfoldable pub status : (now : ℤ) → Credential → CredentialStatus
unfolding age
status now c = elim c.ttl [
  | none ↦ CredentialStatus.valid
  | some ttl ↦
      let remaining = scale second ttl -ℤ age now c in
      if leb_ℤ remaining (pos 0)
      then CredentialStatus.expired
      else if leb_ℤ remaining (pos (expiry_soon_threshold_seconds * second))
      then CredentialStatus.expiring_soon
      else CredentialStatus.valid
]
