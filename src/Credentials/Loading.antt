-- ===== src/Credentials/Loading.antt =====
-- What one load of app/credential_manager.py does to the manager, on every branch.
use mathlib.Core.Logic.{if_pos, if_neg}
use test_cusa.Prelude.{
  suc, ◌+◌, ◌≡◌, refl, ◌≢◌, Bool, true, false, not, ◌||◌, Option, none, arith, Bool-cases, inl, inr,
  if◌then◌else◌,
}
use test_cusa.Prelude.Int.{ℤ, option_discrete}
use test_cusa.Runtime.{Env, Io, Result, ok, raise, Value, Payload, Dict, catch, lift, ◌>>=◌}
use test_cusa.Runtime.Convert.{truthy, get, get_default}
use test_cusa.Config.{Settings}
use test_cusa.Audit.{audit_credential_access, audit_rotation_event}
use test_cusa.Vault.Client.{SecretData, read_secret}
use test_cusa.Credentials.Manager.{CredentialManager}
use test_cusa.Credentials.Load.{
  new_credential, install, set_version, ttl_of, update_age_metric, cache_key, report_rotation,
  announce, accept_secret, keep_version, compare_version, refuse_secret, process_dict,
  process_payload, process_secret, fetch_and_process, load_failed, load_credentials,
}
use test_cusa.Credentials.Outcome.{
  rotates, key_at, Keyed-key_at, Accepted, Processed, Loaded, Loaded-vault,
}

module _ {Amount : Type 0} (env : Env Amount) (settings : Settings) where
  update_age_metric_lem :
      (m : CredentialManager) (w : Io)
      → let (r, m', w') = update_age_metric env settings m w in
        (r ≡ ok tt)
        × (m' ≡ record m { credential_age_seconds = m'.credential_age_seconds })
        × (w'.audit ≡ w.audit)
  unfolding update_age_metric
  update_age_metric_lem m w = ground arith

  pub keep_version_lem :
      (m : CredentialManager) (w : Io)
      → let (r, m', w') = keep_version env settings m w in
        (r ≡ ok true) × (m' ≡ record m { credential_age_seconds = m'.credential_age_seconds })
  unfolding keep_version
  keep_version_lem m w = ground (arith, update_age_metric_lem m w)

  cache_key_lem :
      (version : Option ℤ) (m : CredentialManager) (w : Io)
      → let (r, m', w') = cache_key env settings version m w in
        (r ≡ ok (key_at version (env.clock w.clock_reads))) × (m' ≡ m) × (w'.audit ≡ w.audit)
  unfolding cache_key
  cache_key_lem version m w = ground arith

  report_rotation_lem :
      (old version : Option ℤ) (m : CredentialManager) (w : Io)
      → let (r, m', w') = report_rotation env settings old version m w in
        (r ≡ ok tt)
        × (m' ≡ record m {
          credential_rotation_total =
              if rotates old version
              then m.credential_rotation_total + 1
              else m.credential_rotation_total;
        })
  unfolding report_rotation audit_rotation_event
  report_rotation_lem old version m w = ground arith

  -- The announcement of a new version touches only the metrics and the last error.
  record Announced (old version : Option ℤ) (m m' : CredentialManager) : Type 0 where
    current : m'.current_version ≡ m.current_version
    previous : m'.previous_version ≡ m.previous_version
    cache : m'.cache ≡ m.cache
    made : m'.credentials_made ≡ m.credentials_made
    interval : m'.check_interval ≡ m.check_interval
    no_error : m'.last_error ≡ none
    errors : m'.credential_fetch_errors_total ≡ m.credential_fetch_errors_total
    rotations : m'.credential_rotation_total ≡ (
        if rotates old version
        then m.credential_rotation_total + 1
        else m.credential_rotation_total)

  set_version_lem :
      (version : Option ℤ) (m : CredentialManager)
      → set_version version m
        ≡ record m { credential_version = (set_version version m).credential_version }
  unfolding set_version
  set_version_lem version m = ground arith

  announce_lem :
      (old version : Option ℤ) (m : CredentialManager) (w : Io)
      → let (r, m', w') = announce env settings old version m w in
        (r ≡ ok true) × Announced old version m m'
  unfolding announce
  announce_lem old version m w =
      let m1 = set_version version m in
      let (r2, m2, w2) = update_age_metric env settings m1 w in
      let m3 = record m2 { last_error = none } in
      ground (
        arith,
        set_version_lem version m,
        update_age_metric_lem m1 w,
        report_rotation_lem old version m3 w2,
      )

  pub accept_secret_lem :
      (secret : SecretData) (k s : Value) (t : Option Value) (ttl : Option ℤ)
      (m : CredentialManager) (w : Io)
      → ttl_of t ≡ ok ttl
      → let (r, m', w') = accept_secret env settings secret k s t m w in
        let credential =
          new_credential secret k s (env.clock w.clock_reads) ttl m.credentials_made in
        (r ≡ ok true)
        × Accepted secret credential (key_at secret.version (env.clock (suc w.clock_reads))) m m'
  unfolding accept_secret
  accept_secret_lem secret k s t ttl m w e =
      let w1 = record w { clock_reads = suc w.clock_reads } in
      let (_, m2, w2) = cache_key env settings secret.version m w1 in
      let credential = new_credential secret k s (env.clock w.clock_reads) ttl in
      let key = key_at secret.version (env.clock (suc w.clock_reads)) in
      let m3 = install key secret.version credential m in
      unfold install new_credential in
      ground (
        arith,
        cache_key_lem secret.version m w1,
        announce_lem m.current_version secret.version m3 w2,
        Keyed-key_at secret.version (env.clock (suc w.clock_reads)),
      )

  accept_secret-Processed :
      (secret : SecretData) (k s : Value) (t : Option Value) (m : CredentialManager) (w : Io)
      → secret.version ≢ m.current_version
      → let (r, m', w') = accept_secret env settings secret k s t m w in Processed secret m r m'
  accept_secret-Processed secret k s t m w new = go (ttl_of t) refl
    where
      go :
          (ttl : Result (Option ℤ))
          → ttl_of t ≡ ttl
          → let (r, m', w') = accept_secret env settings secret k s t m w in Processed secret m r m'
      go (ok ttl) e =
          let (fine, accepted) = accept_secret_lem secret k s t ttl m w e in
          rw fine (
            inr (
              new,
              (
                new_credential secret k s (env.clock w.clock_reads) ttl m.credentials_made,
                key_at secret.version (env.clock (suc w.clock_reads)),
                accepted,
              ),
            ))
      go (raise x) e = unfold accept_secret in rw e refl

  compare_version-Processed :
      (secret : SecretData) (k s : Value) (t : Option Value) (m : CredentialManager) (w : Io)
      → let (r, m', w') = compare_version env settings secret k s t m w in Processed secret m r m'
  unfolding compare_version
  compare_version-Processed secret k s t m w =
      let kept = keep_version env settings m w in
      let taken = accept_secret env settings secret k s t m w in
      elim (option_discrete secret.version m.current_version) [
        | yes same ↦
            let (fine, aged) = keep_version_lem m w in
            rw (if_pos _ same kept taken) (rw fine (inl (ground (arith, aged, same))))
        | no new ↦ rw (if_neg _ new kept taken) (accept_secret-Processed secret k s t m w new)
      ]

  process_dict-Processed :
      (secret : SecretData) (d : Dict) (m : CredentialManager) (w : Io)
      → let (r, m', w') = process_dict env settings secret d m w in Processed secret m r m'
  unfolding process_dict refuse_secret
  process_dict-Processed secret d m w =
      let k = get_default "api_key" (Value.text "") d in
      let s = get_default "api_secret" (Value.text "") d in
      elim (Bool-cases (not (truthy k) || not (truthy s))) [
        | inl missing ↦ rw missing (ground arith)
        | inr there ↦ rw there (compare_version-Processed secret k s (get "ttl" d) m w)
      ]

  process_payload-Processed :
      (p : Payload) (secret : SecretData) (m : CredentialManager) (w : Io)
      → let (r, m', w') = process_payload env settings p secret m w in Processed secret m r m'
  unfolding process_payload
  process_payload-Processed Payload.opaque secret m w = refl
  process_payload-Processed (Payload.dict d) secret m w = process_dict-Processed secret d m w

  -- Catching the exceptions of a processed secret.
  catch-Loaded :
      (secret : SecretData) (m : CredentialManager) (r : Result Bool) (m' : CredentialManager)
      (w : Io)
      → Processed secret m r m'
      → let (r', m2, _) = catch (r, m', w) (load_failed env settings) in Loaded m r' m2
  unfolding load_failed audit_credential_access
  catch-Loaded secret m (ok true) m' w (inl (same, u, _, _, _)) = (secret, inl (same, u))
  catch-Loaded secret m (ok true) m' w (inr (new, a)) = (secret, inr (new, a))
  catch-Loaded secret m (ok false) m' w p = ground arith
  catch-Loaded secret m (raise e) m' w p = ground arith

  finish-Loaded :
      (r : Result SecretData) (m : CredentialManager) (w : Io)
      → let (r', m', w') = (lift r >>= process_secret env settings) m w in
        let (r2, m2, _) = catch (r', m', w') (load_failed env settings) in Loaded m r2 m2
  unfolding process_secret
  finish-Loaded (ok secret) m w =
      let (r, m', w') = process_secret env settings secret m w in
      catch-Loaded secret m r m' w' (process_payload-Processed secret.secret_payload secret m w)
  finish-Loaded (raise e) m w = unfold load_failed audit_credential_access in ground arith

  -- A load never raises; on success the credentials are those of an unchanged version, or the new
  -- credential entered the cache under its version; on failure the cache and the versions are what
  -- they were, one fetch error is counted, and the error is remembered.
  pub load_credentials-Loaded :
      (m : CredentialManager) (w : Io)
      → let (r, m', _) = load_credentials env settings m w in Loaded m r m'
  unfolding load_credentials fetch_and_process
  load_credentials-Loaded m w =
      let (r, v, w') = read_secret env settings none m.vault_client w in
      let m' = record m { vault_client = v } in Loaded-vault m v _ _ (finish-Loaded r m' w')
