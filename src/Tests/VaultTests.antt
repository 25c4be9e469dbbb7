-- ===== src/Tests/VaultTests.antt =====
-- The Vault client on concrete inputs.
use test_cusa.Prelude.{◌≡◌, refl, String, none, [], ◌∷◌, arith}
use test_cusa.Runtime.{Exn, raise}
use test_cusa.Config.{default_settings}
use test_cusa.Audit.{audit_credential_access}
use test_cusa.Vault.Path.{parse_kv2_path}
use test_cusa.Vault.Client.{read_secret, attempt_read, get_client, conclude, verdict}
use test_cusa.Vault.Paths.{◌//◌, parse_kv2_path_lem}
use test_cusa.Vault.Retry.{Reports, read_secret-Reports}
use test_cusa.Vault.Replies.{decide, replies, read_secret-decide}
use test_cusa.Tests.World.{env, failing, io, vault, hvac_client}

paths :
    (parse_kv2_path "secret/data/orbitpay/vaultgateway" ≡ ("secret", "orbitpay/vaultgateway"))
    × (parse_kv2_path "kv/app/db" ≡ ("kv", "app/db"))
    × (parse_kv2_path "secret" ≡ ("secret", ""))
unfolding parse_kv2_path
paths = (refl, refl, refl)

parse_kv2_path_lem_example :
    (parse_kv2_path "kv" ≡ ("kv", ""))
    × (parse_kv2_path ("kv" // "a") ≡ ("kv", "a"))
    × (parse_kv2_path ("kv" // "data" // "a/b") ≡ ("kv", "a/b"))
    × ((String.◌∷◌ "a" "" ≡ "data" → ⊥)
        → parse_kv2_path ("kv" // "a" // "a/b") ≡ ("kv", "a" // "a/b"))
parse_kv2_path_lem_example = parse_kv2_path_lem "kv" "a" "a/b" (omega arith) (omega arith)

-- Three failures in passing: two waits, and a connection error.
gives_up :
    let (r, _, w) = read_secret failing default_settings none vault io in
    (r ≡ raise Exn.vault_connection_error) × (w.sleeps ≡ 1_000_000 ∷ 500_000 ∷ [])
unfolding read_secret attempt_read get_client conclude verdict audit_credential_access
gives_up = (refl, refl)

read_secret-Reports_example :
    let (r, _, w) = read_secret failing default_settings none vault io in
    Reports "secret/data/orbitpay/vaultgateway" 3 1_500_000 io r w
read_secret-Reports_example = read_secret-Reports failing default_settings none vault io

read_secret-decide_example :
    (read_secret env default_settings none vault io).0
    ≡ decide (replies env "secret/data/orbitpay/vaultgateway" hvac_client 3 0)
read_secret-decide_example = read_secret-decide env default_settings none hvac_client vault io refl
