-- ===== src/Vault/Client.antt =====
-- `VaultClient`: authentication, one read, and the retry loop.
use text.Mathlib.Text.{◌==◌ as str_eq}
use test_cusa.Prelude.{
  ℕ, suc, zero, ◌*◌, ◌-◌, ◌^◌, String, Bool, false, not, ◌&&◌, Option, none, some, [], ◌∷◌, ltb,
  if◌then◌else◌,
}
use test_cusa.Prelude.Int.{ℤ}
use test_cusa.Runtime.{
  Env, Action, Result, ok, raise, Exn, Io, pure, throw, lift, asks, modify, modify_io, ◌>>=◌, ◌>>◌,
  when, HvacClient, token_client, session_client, TokenFile, contents, not_found, unreadable,
  LoginReply, logged_in, refused, crashed, KvReply, Wrapper, Metadata, Payload, dict, Field,
}
use test_cusa.Config.{Settings, or_default}
use test_cusa.Audit.{audit_credential_access}
use test_cusa.Vault.Path.{parse_kv2_path}

abbrev pub max_retries : ℕ
max_retries = 3

-- In microseconds.
abbrev pub initial_backoff : ℕ
initial_backoff = 500_000

-- Of the metadata the fields `version` and `created_time`; no code reads the others, which the
-- source keeps in a field `metadata`.
pub record SecretData : Type 0 where
  pub secret_payload : Payload
  pub version : Option ℤ
  pub created_time : Option String

pub record VaultClient : Type 0 where
  pub addr : String
  pub auth_method : String
  pub role : String
  pub token : String
  pub client : Option HvacClient

-- `jwt.strip()` of the token file is part of what `contents` holds.
unfoldable pub read_token_file : {Amount : Type 0} → Env Amount → Action VaultClient TokenFile
read_token_file env c w =
    (ok (env.token_file w.token_reads), c, record w { token_reads = suc w.token_reads })

unfoldable pub kubernetes_login :
    {Amount : Type 0} → Env Amount → String → String → Action VaultClient LoginReply
kubernetes_login env role jwt c w =
    (ok (env.login w.logins role jwt), c, record w { logins = suc w.logins })

unfoldable pub session : LoginReply → Action VaultClient HvacClient
session logged_in v w = (ok (session_client v.addr w.logins), v, w)
session refused v w = (raise Exn.vault_auth_error, v, w)
session crashed v w = (raise Exn.other_error, v, w)

-- The `except` clauses of `_read_kv2`.
unfoldable pub kv2_outcome : KvReply → Result (Field Wrapper)
kv2_outcome (KvReply.response d) = ok d
kv2_outcome KvReply.nothing = raise Exn.vault_secret_not_found_error
kv2_outcome KvReply.invalid_path = raise Exn.vault_secret_not_found_error
kv2_outcome KvReply.forbidden = raise Exn.vault_auth_error
kv2_outcome KvReply.vault_error = raise Exn.vault_connection_error
kv2_outcome KvReply.failed = raise Exn.other_error

module _ {Amount : Type 0} (env : Env Amount) where
  unfoldable pub login_with : TokenFile → Action VaultClient HvacClient
  unfolding kubernetes_login session
  login_with (contents jwt) = do
    role ← asks (λ v. v.role)
    reply ← kubernetes_login env role jwt
    session reply
  login_with not_found = throw Exn.vault_connection_error
  login_with unreadable = throw Exn.other_error

  -- `_create_client`
  unfoldable pub create_client : Action VaultClient HvacClient
  unfolding read_token_file login_with
  create_client v =
      if str_eq v.auth_method "token" && not (str_eq v.token "")
      then pure (token_client v.addr v.token) v
      else if str_eq v.auth_method "kubernetes"
      then (do file ← read_token_file env; login_with file) v
      else if not (str_eq v.token "")
      then pure (token_client v.addr v.token) v
      else throw Exn.vault_auth_error v

  -- The property `client`: created at its first use, and kept.
  unfoldable pub get_client : Action VaultClient HvacClient
  unfolding create_client
  get_client v = elim v.client [
    | some c ↦ pure c v
    | none ↦ (do c ← create_client; modify (λ v'. record v' { client = some c }); pure c) v
  ]

  -- The answer of `is_authenticated` of hvac; `none` is an exception.
  unfoldable pub ask_authenticated : HvacClient → Action VaultClient Bool
  ask_authenticated c v w = elim (env.is_authenticated w.auth_checks c) [
    | none ↦ (raise Exn.other_error, v, record w { auth_checks = suc w.auth_checks })
    | some b ↦ (ok b, v, record w { auth_checks = suc w.auth_checks })
  ]

  -- `except Exception: return False`
  abbrev pub or_false : Result Bool × VaultClient × Io → Result Bool × VaultClient × Io
  or_false (ok b, v, w) = (ok b, v, w)
  or_false (raise e, v, w) = (ok false, v, w)

  unfoldable pub is_authenticated : Action VaultClient Bool
  unfolding get_client ask_authenticated
  is_authenticated v w = or_false ((do c ← get_client; ask_authenticated c) v w)

  unfoldable pub read_secret_version : HvacClient → String → String → Action VaultClient KvReply
  read_secret_version c mount path v w =
      (ok (env.kv_read w.kv_reads c mount path), v, record w { kv_reads = suc w.kv_reads })

  unfoldable pub read_kv2 : (path : String) → Action VaultClient (Field Wrapper)
  unfolding get_client read_secret_version kv2_outcome
  read_kv2 path =
      let (mount, sub) = parse_kv2_path path in
      do c ← get_client; reply ← read_secret_version c mount sub; lift (kv2_outcome reply)

-- `data_wrapper.get("data", {})`
unfoldable pub payload_or_empty : Option Payload → Payload
payload_or_empty none = dict []
payload_or_empty (some p) = p

unfoldable pub secret_of : Option Payload → Field Metadata → Result SecretData
unfolding payload_or_empty
secret_of p Field.absent =
    ok (record { secret_payload = payload_or_empty p; version = none; created_time = none })
secret_of p Field.not_a_dict = raise Exn.vault_connection_error
secret_of p (Field.given m) = ok (record {
  secret_payload = payload_or_empty p;
  version = m.version;
  created_time = m.created_time;
})

-- A missing wrapper reads as an empty dict; a wrapper that is no dict is a format error.
unfoldable pub parse_response : Field Wrapper → Result SecretData
unfolding secret_of
parse_response Field.absent = secret_of none Field.absent
parse_response Field.not_a_dict = raise Exn.vault_connection_error
parse_response (Field.given d) = secret_of d.payload d.metadata

-- What the retry loop does with an attempt: give back, raise at once, or try again.
pub data Verdict : Type 0 where
  finished : SecretData → Verdict
  fatal : Exn → Verdict
  transient : Verdict

unfoldable pub verdict : Result SecretData → Verdict
verdict (ok s) = Verdict.finished s
verdict (raise Exn.vault_auth_error) = Verdict.fatal Exn.vault_auth_error
verdict (raise Exn.vault_secret_not_found_error) = Verdict.fatal Exn.vault_secret_not_found_error
verdict (raise e) = Verdict.transient

unfoldable pub sleep : ℕ → Action VaultClient (Unit {0})
sleep n = modify_io (λ w. record w { sleeps = n ∷ w.sleeps })

module _ {Amount : Type 0} (env : Env Amount) (path : String) where
  -- The body of the `try`, up to the parsed secret.
  unfoldable pub attempt_read : Action VaultClient SecretData
  unfolding read_kv2 parse_response
  attempt_read = do reply ← read_kv2 env path; lift (parse_response reply)

  -- The attempt, with its exception kept as a value.
  abbrev pub tried : Action VaultClient Verdict
  unfolding verdict
  tried v w = let (r, v', w') = attempt_read v w in (ok (verdict r), v', w')

  -- What follows an attempt, with `left` more to make; attempt `n` waits 0.5 * 2 ^ (n - 1) seconds
  -- before the next one.
  unfoldable pub conclude :
      (left : ℕ) → Action VaultClient SecretData → Verdict → Action VaultClient SecretData
  unfolding sleep
  conclude left retry (Verdict.finished s) = do
    audit_credential_access env path s.version "success"
    pure s
  conclude left retry (Verdict.fatal e) = do
    audit_credential_access env path none "failure"
    throw e
  conclude left retry Verdict.transient =
      let number = max_retries - left in
      do when (ltb number max_retries) (sleep (initial_backoff * 2 ^ (number - 1))); retry

  -- The loop with `left` attempts still to make.
  unfoldable pub attempts : ℕ → Action VaultClient SecretData
  unfolding tried
  attempts zero = do
    audit_credential_access env path none "failure"
    throw Exn.vault_connection_error
  attempts (suc left) = let retry = attempts left in do outcome ← tried; conclude left retry outcome

-- `path or settings.vault_secret_path`, then the loop.
unfoldable pub read_secret :
    {Amount : Type 0} → Env Amount → Settings → Option String → Action VaultClient SecretData
unfolding attempts
read_secret env settings path =
    attempts env (or_default path settings.vault_secret_path) max_retries

unfoldable pub init : Settings → (addr auth_method role token : Option String) → VaultClient
init settings addr auth_method role token = record {
  addr = or_default addr settings.vault_addr;
  auth_method = or_default auth_method settings.vault_auth_method;
  role = or_default role settings.vault_role;
  token = or_default token settings.vault_token;
  client = none;
}
