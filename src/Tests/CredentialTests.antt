-- ===== src/Tests/CredentialTests.antt =====
-- The credential manager on concrete inputs.
use test_cusa.Prelude.{
  String, Bool, if◌then◌else◌, ◌≡◌, ◌≢◌, refl, true, false, none, some, [], ◌∷◌, arith, lookup,
  ℕ_discrete,
}
use test_cusa.Prelude.Int.{ℤ, pos, ℤ_discrete, option_discrete}
use test_cusa.Runtime.{ok, Value, Payload}
use test_cusa.Runtime.Convert.{truthy, get, get_default}
use test_cusa.Config.{default_settings}
use test_cusa.Audit.{audit_credential_access, audit_rotation_event}
use test_cusa.OrderedDict.{set_item, shrink, behind}
use test_cusa.Vault.Path.{parse_kv2_path}
use test_cusa.Vault.Client.{SecretData, read_secret, attempt_read, get_client, conclude, verdict}
use test_cusa.Credentials.Status.{Credential}
use test_cusa.Credentials.Manager
use test_cusa.Credentials.Manager.{
  CredentialManager, get_fallback_credential, has_valid_credentials,
}
use test_cusa.Credentials.Load.{
  ttl_of, new_credential, install, set_version, update_age_metric, cache_key, report_rotation,
  announce, accept_secret, keep_version, compare_version, refuse_secret, process_dict,
  process_secret, load_failed, fetch_and_process, load_credentials,
}
use test_cusa.Credentials.Replied.{Taken}
use test_cusa.Credentials.Deciding.{load_credentials-Follows}
use test_cusa.Credentials.Cache.{IsValid, load_credentials-IsValid}
use test_cusa.Credentials.Window.{
  Window, load_credentials-Window, load_credentials_loses_fallback, process_secret_unversioned,
}
use test_cusa.Credentials.Refresh.{refresh_loop, elapsed, stopped}
use test_cusa.Credentials.Backoff.{AllPaced, refresh_loop-Paced}
use text.Mathlib.Text.{◌==◌ as str_eq}
use test_cusa.Runtime.Blind.{image}
use test_cusa.Vault.Secrecy.{hidden}
use test_cusa.Credentials.Disguise.{IsDisguise, hide_manager}
use test_cusa.Credentials.Secrecy.{load_credentials-disguise}
use test_cusa.Tests.World.{env, io, vault, secret_dict, at_second}

loading : Unit {0}
unfolding Manager.init read_secret attempt_read get_client conclude verdict audit_credential_access
    audit_rotation_event set_item shrink truthy get get_default option_discrete ℤ_discrete lookup
    ttl_of new_credential install set_version update_age_metric cache_key report_rotation announce
    accept_secret keep_version compare_version refuse_secret process_dict process_secret load_failed
    fetch_and_process load_credentials parse_kv2_path ℕ_discrete behind
loading = tt

abbrev old_credential : ℤ → Credential
old_credential v = record {
  identity = 0;
  api_key = Value.text "old";
  api_secret = Value.text "old";
  version = some v;
  loaded_at = pos 0;
  created_time = none;
  ttl = none;
}

abbrev fresh : CredentialManager
fresh = Manager.init default_settings vault none

-- A manager that holds version 6.
abbrev holding : CredentialManager
holding = record fresh {
  cache = (pos 6, old_credential (pos 6)) ∷ [];
  current_version = some (pos 6);
  credentials_made = 1;
}

holding-IsValid : IsValid holding
unfolding loading
holding-IsValid = record {
  distinct = (refl, tt);
  bounded = omega arith;
  current = (old_credential (pos 6), refl, refl);
}

rotated :
    let (r, m, _) = load_credentials env default_settings holding io in
    (r ≡ ok true)
    × (m.current_version ≡ some (pos 7))
    × (get_fallback_credential m ≡ some (old_credential (pos 6)))
unfolding loading get_fallback_credential
rotated = (refl, refl, refl)

-- What Vault answers.
abbrev versioned : SecretData
versioned = record {
  secret_payload = Payload.dict secret_dict;
  version = some (pos 7);
  created_time = some "2024-01-01";
}

load_credentials-Follows_example :
    let (r, m, _) = load_credentials env default_settings holding io in
    Taken versioned
      (Value.text "key-7")
      (Value.text "secret-7")
      none
      (at_second 1001)
      (at_second 1002)
      holding
      r
      m
unfolding loading
load_credentials-Follows_example = load_credentials-Follows env default_settings holding io

load_credentials-IsValid_example : IsValid (load_credentials env default_settings holding io).1
load_credentials-IsValid_example =
    load_credentials-IsValid env default_settings holding io holding-IsValid

six_not_seven : ◌≢◌ {A = ℤ} (pos 7) (pos 6)
six_not_seven = λ e. ground arith

load_credentials-Window_example :
    Window holding (load_credentials env default_settings holding io).1 (pos 7)
unfolding loading
load_credentials-Window_example =
    load_credentials-Window env default_settings holding io (pos 6) (pos 7) holding-IsValid refl
      (omega arith) refl six_not_seven

-- Versions 1 to 5 are cached, and the current version is 1 again.
abbrev entry : ℤ → ℤ × Credential
entry v = (v, old_credential v)

abbrev full : CredentialManager
full = record fresh {
  cache = entry (pos 1) ∷ entry (pos 2) ∷ entry (pos 3) ∷ entry (pos 4) ∷ entry (pos 5) ∷ [];
  current_version = some (pos 1);
  previous_version = some (pos 5);
  credentials_made = 5;
}

full-IsValid : IsValid full
unfolding loading
full-IsValid = record {
  distinct = (refl, (refl, (refl, (refl, (refl, tt)))));
  bounded = omega arith;
  current = (old_credential (pos 1), refl, refl);
}

load_credentials_loses_fallback_example :
    get_fallback_credential (load_credentials env default_settings full io).1 ≡ none
unfolding loading
load_credentials_loses_fallback_example =
    load_credentials_loses_fallback env default_settings full io (old_credential (pos 1))
      (entry (pos 2) ∷ entry (pos 3) ∷ entry (pos 4) ∷ entry (pos 5) ∷ []) (pos 1) (pos 7)
      full-IsValid refl refl refl refl refl

abbrev unversioned : SecretData
unversioned = record {
  secret_payload = Payload.dict secret_dict;
  version = none;
  created_time = none;
}

process_secret_unversioned_example :
    let (r, m, _) = process_secret env default_settings unversioned fresh io in
    (r ≡ ok true) × (m.cache ≡ []) × (has_valid_credentials (pos 0) m ≡ false)
unfolding loading
process_secret_unversioned_example =
    process_secret_unversioned env default_settings unversioned secret_dict fresh io (pos 0) refl
      refl refl refl refl refl

abbrev looping : CredentialManager
looping = record holding { running = true }

looping-IsValid : IsValid looping
unfolding loading
looping-IsValid = record {
  distinct = (refl, tt);
  bounded = omega arith;
  current = (old_credential (pos 6), refl, refl);
}

refresh_loop-Paced_example :
    let (delays, m, _) =
      refresh_loop env default_settings (elapsed ∷ elapsed ∷ stopped ∷ []) 2 looping io in
    AllPaced (pos 30) delays × IsValid m
unfolding loading
refresh_loop-Paced_example =
    refresh_loop-Paced env default_settings (elapsed ∷ elapsed ∷ stopped ∷ []) 2 looping io
      looping-IsValid (omega arith) (omega arith)

-- Another key and another secret.
abbrev masked : Value → Value
masked (Value.text s) = if str_eq s "" then Value.text "" else Value.text "other"
masked v = v

masked_text :
    (s : String) (empty : Bool)
    → str_eq s "" ≡ empty
    → truthy (if empty then Value.text "" else Value.text "other") ≡ truthy (Value.text s)
unfolding truthy
masked_text s true e = rw e refl
masked_text s false e = rw e refl

masked_truth : (v : Value) → truthy (masked v) ≡ truthy v
masked_truth (Value.text s) = masked_text s (str_eq s "") refl
masked_truth Value.null = refl
masked_truth (Value.boolean b) = refl
masked_truth (Value.number n) = refl
masked_truth (Value.compound b) = refl

masked-IsDisguise : IsDisguise masked
masked-IsDisguise = record { truth = masked_truth; default = refl }

load_credentials-disguise_example :
    load_credentials (hidden masked env) default_settings (hide_manager masked holding) io
    ≡ image (hide_manager masked) (λ x. x) (load_credentials env default_settings holding io)
load_credentials-disguise_example =
    load_credentials-disguise masked masked-IsDisguise env default_settings holding io
