-- ===== src/Tests/RotationTests.antt =====
-- The service through a rotation and a Vault outage, on concrete inputs.
use test_cusa.Prelude.{
  ℕ, ◌≡◌, ◌≢◌, true, refl, inr, none, some, [], ◌∷◌, arith, lookup, leb, ℕ_discrete,
  String_discrete,
}
use test_cusa.Prelude.Int.{ℤ, pos, ℤ_discrete, option_discrete, ◌-ℤ◌}
use test_cusa.Runtime.{Value}
use test_cusa.Runtime.Convert.{truthy, get, get_default}
use test_cusa.Models.{PaymentResponse}
use test_cusa.Audit.{audit_credential_access, audit_rotation_event}
use test_cusa.OrderedDict.{set_item, shrink, behind}
use test_cusa.Vault.Path.{parse_kv2_path}
use test_cusa.Vault.Client.{read_secret, attempt_read, get_client, conclude, verdict}
use test_cusa.Breaker.{CircuitState}
use test_cusa.Credentials.Status.{Credential, status, age}
use test_cusa.Credentials.Cache.{IsValid}
use test_cusa.Credentials.Manager
use test_cusa.Credentials.Manager.{
  CredentialManager, get_current_credential, get_fallback_credential, has_valid_credentials, last,
  credential_status, is_usable,
}
use test_cusa.Credentials.Load.{
  ttl_of, new_credential, install, set_version, update_age_metric, cache_key, report_rotation,
  announce, accept_secret, keep_version, compare_version, refuse_secret, process_dict,
  process_secret, load_failed, fetch_and_process, load_credentials,
}
use test_cusa.Middleware.{Server}
use test_cusa.Middleware.Passing.{begun}
use test_cusa.Mock.Keys.{get_valid_keys, clean, strip, strip_left, strip_right, is_space}
use test_cusa.Runtime.Text.{split}
use test_cusa.Mock.Service.Rotation.{HasKey, against, valid_keys}
use test_cusa.Models.{validate, has_length}
use test_cusa.Payments.Handler.{App, mem}
use test_cusa.Payments.Schedule.Starting.{IsReady}
use test_cusa.Service.{service}
use test_cusa.Service.Rotation.{IsDecision}
use test_cusa.Service.Endpoint.{IsServed}
use test_cusa.Service.Outage.{service_outage}
use test_cusa.Vault.Outage.{IsOut}
use test_cusa.Vault.Client.{kv2_outcome}
use test_cusa.Credentials.Refresh.{refresh_loop, elapsed}
use test_cusa.Service.Downtime.{service_rotated}
use test_cusa.Tests.World.{env, failing, io, vault, at_second}
use test_cusa.Tests.CacheTests.{query}
use test_cusa.Tests.MockTests.{world, mock, rendering, old_credential, has_old}
use test_cusa.Tests.PaymentTests.{payment, gateway, settings, ready}
use test_cusa.Tests.ServiceTests.{framework, is_admitted}

-- A manager whose current credential has the key that the gateway takes.
abbrev before : CredentialManager
before = record (Manager.init settings vault none) {
  cache = (pos 1, old_credential) ∷ [];
  current_version = some (pos 1);
  credentials_made = 2;
}

abbrev after : CredentialManager
after = (load_credentials (against (leb 1) world rendering (λ n. mock) env) settings before io).1

-- What the load made of Vault's version 7.
abbrev loaded : Credential
loaded = record {
  identity = 2;
  api_key = Value.text "key-7";
  api_secret = Value.text "secret-7";
  version = some (pos 7);
  loaded_at = at_second 1001;
  created_time = some "2024-01-01";
  ttl = none;
}

loading : Unit {0}
unfolding Manager.init read_secret attempt_read get_client conclude verdict audit_credential_access
    audit_rotation_event set_item shrink truthy get get_default option_discrete ℤ_discrete lookup
    ttl_of new_credential install set_version update_age_metric cache_key report_rotation announce
    accept_secret keep_version compare_version refuse_secret process_dict process_secret load_failed
    fetch_and_process load_credentials parse_kv2_path ℕ_discrete behind get_current_credential last
    has_valid_credentials is_usable credential_status status age ◌-ℤ◌
loading = tt

before-IsValid : IsValid before
unfolding loading
before-IsValid = record {
  distinct = (refl, tt);
  bounded = omega arith;
  current = (old_credential, refl, refl);
}

current_lem : get_current_credential after ≡ some loaded
unfolding loading
current_lem = refl

abbrev rotated_server : Server (App ℕ)
rotated_server = record { buckets = []; inner = record ready { credential_manager = some after } }

seven_not_one : ◌≢◌ {A = ℤ} (pos 7) (pos 1)
seven_not_one = λ e. ground arith

has_loaded : HasKey (leb 1) world rendering loaded "key-7" "secret-7"
has_loaded = record { key = refl; secret = refl; nonempty = refl }

old_key_listed : mem "old-key" (valid_keys (leb 1) world rendering) ≡ true
unfolding get_valid_keys clean strip strip_left strip_right is_space split mem
old_key_listed = refl

loaded-IsReady :
    IsReady
      (against (leb 1) world rendering (λ n. mock) env)
      settings
      CircuitState.closed
      "order-1"
      after
      loaded
      rotated_server.inner
      (begun io)
unfolding loading
loaded-IsReady = record {
  manager = refl;
  current = refl;
  usable = refl;
  gateway = (gateway, refl, refl);
  unanswered = refl;
}

-- The gateway takes the old key only, so the payment needs two requests.
service_rotated_example :
    let world_env = against (leb 1) world rendering (λ n. mock) env in
    let (r, _, w) =
      service framework world_env settings
        (leb 1)
        (λ m n. leb n m)
        (some payment)
        (some "key-1")
        query
        rotated_server
        io in
    (reply : PaymentResponse ℕ) × IsServed framework query "uuid" reply r w
    × IsDecision (leb 1) world rendering (λ n. mock) payment mock reply
    × (w.posts ≡ 2)
unfolding loading validate has_length mem get_valid_keys clean strip strip_left strip_right is_space
    split
service_rotated_example =
    service_rotated (leb 1) world rendering (λ n. mock) framework env settings (λ m n. leb n m)
      before io (pos 1) (pos 7) loaded old_credential "key-7" "secret-7" "old-key" "secret" payment
      (some "key-1") query rotated_server io before-IsValid refl (omega arith) refl (omega arith)
      has_loaded has_old (inr old_key_listed) refl refl refl is_admitted refl refl refl
      seven_not_one loaded-IsReady

failing-IsOut : IsOut failing
unfolding kv2_outcome
failing-IsOut = λ n c mount path. tt

abbrev looping : CredentialManager
looping = record before { running = true }

-- The loop has failed to load twice.
abbrev stale_server : Server (App ℕ)
stale_server = record {
  buckets = [];
  inner = record ready {
    credential_manager =
        some
          (refresh_loop (against (leb 1) world rendering (λ n. mock) failing) settings
            (elapsed ∷ elapsed ∷ []) 0 looping io).1;
  };
}

current_before : get_current_credential looping ≡ some old_credential
unfolding loading
current_before = refl

usable_before : has_valid_credentials (at_second 1003) looping ≡ true
unfolding loading
usable_before = refl

nothing_stored : lookup String_discrete "order-1" stale_server.inner.idempotency_cache ≡ none
unfolding lookup
nothing_stored = refl

service_outage_example :
    let world_env = against (leb 1) world rendering (λ n. mock) failing in
    let (r, _, w) =
      service framework world_env settings
        (leb 1)
        (λ m n. leb n m)
        (some payment)
        (some "key-1")
        query
        stale_server
        io in
    (reply : PaymentResponse ℕ) × IsServed framework query "uuid" reply r w
    × IsDecision (leb 1) world rendering (λ n. mock) payment mock reply
    × (w.posts ≡ 1)
unfolding validate has_length mem
service_outage_example =
    service_outage (leb 1) world rendering (λ n. mock) framework failing settings (λ m n. leb n m)
      looping io (elapsed ∷ elapsed ∷ []) 0 old_credential "old-key" "secret" gateway payment
      (some "key-1") query stale_server io failing-IsOut current_before has_old old_key_listed refl
      refl refl is_admitted refl refl usable_before refl refl nothing_stored refl
