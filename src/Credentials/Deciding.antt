-- ===== src/Credentials/Deciding.antt =====
-- What `load_credentials` of app/credential_manager.py makes of each reply of Vault: the reply and
-- the version that is held decide how it ends, and a new credential carries the fields of the secret.
use test_cusa.Prelude.{suc, ◌≡◌, refl, Option, none, ite, arith, Bool-cases, inl, inr}
use test_cusa.Prelude.Int.{ℤ, option_discrete}
use test_cusa.Runtime.{Env, Io, Result, ok, raise, Value, Payload, Dict, catch, lift, ◌>>=◌}
use test_cusa.Runtime.Convert.{truthy, get, get_default}
use test_cusa.Config.{Settings}
use test_cusa.Audit.{audit_credential_access}
use test_cusa.Vault.Client.{SecretData, read_secret}
use test_cusa.Credentials.Manager.{CredentialManager}
use test_cusa.Credentials.Load.{
  ttl_of, new_credential, accept_secret, keep_version, compare_version, refuse_secret, process_dict,
  process_payload, process_secret, fetch_and_process, load_failed, load_credentials,
}
use test_cusa.Credentials.Loading.{keep_version_lem, accept_secret_lem}
use test_cusa.Credentials.Replied.{Kept, Takes, Heeds, Follows, Follows-vault}

module _ {Amount : Type 0} (env : Env Amount) (settings : Settings) where
  accept_secret-Takes :
      (secret : SecretData) (k s : Value) (t : Option Value) (m : CredentialManager) (w : Io)
      → let (r, m', _) =
          catch (accept_secret env settings secret k s t m w) (load_failed env settings) in
        Takes secret k s (ttl_of t) (env.clock w.clock_reads) (env.clock (suc w.clock_reads)) m r m'
  unfolding load_failed audit_credential_access
  accept_secret-Takes secret k s t m w = go (ttl_of t) refl
    where
      go :
          (ttl : Result (Option ℤ))
          → ttl_of t ≡ ttl
          → let (r, m', _) =
              catch (accept_secret env settings secret k s t m w) (load_failed env settings) in
            Takes secret k s ttl (env.clock w.clock_reads) (env.clock (suc w.clock_reads)) m r m'
      go (ok ttl) e =
          let (fine, accepted) = accept_secret_lem env settings secret k s t ttl m w e in
          record {
            credential = new_credential secret k s (env.clock w.clock_reads) ttl m.credentials_made;
            result = rw fine refl;
            accepted = rw fine accepted;
            has_key = unfold new_credential in refl;
            has_secret = unfold new_credential in refl;
            has_ttl = unfold new_credential in refl;
            has_created = unfold new_credential in refl;
            dated = unfold new_credential in refl;
          }
      go (raise x) e = unfold accept_secret in rw e (ground arith)

  -- A secret with a key and a secret, by whether its version is the one held.
  compare :
      (secret : SecretData) (k s : Value) (t : Option Value) (m : CredentialManager) (w : Io)
      (same : Dec (secret.version ≡ m.current_version))
      → let (r, m', _) =
          catch
            (ite same (keep_version env settings m w) (accept_secret env settings secret k s t m w))
            (load_failed env settings) in
        ite same (Kept m r m') (
          Takes secret k s
            (ttl_of t)
            (env.clock w.clock_reads)
            (env.clock (suc w.clock_reads))
            m
            r
            m')
  compare secret k s t m w (no new) = accept_secret-Takes secret k s t m w
  compare secret k s t m w (yes same) =
      let (fine, aged) = keep_version_lem env settings m w in rw fine (ground (arith, aged))

  process_dict-Heeds :
      (secret : SecretData) (d : Dict) (m : CredentialManager) (w : Io)
      → let (r, m', _) =
          catch (process_dict env settings secret d m w) (load_failed env settings) in
        Heeds secret
          (Payload.dict d)
          (env.clock w.clock_reads)
          (env.clock (suc w.clock_reads))
          m
          r
          m'
  unfolding process_dict refuse_secret compare_version load_failed
  process_dict-Heeds secret d m w =
      let k = get_default "api_key" (Value.text "") d in
      let s = get_default "api_secret" (Value.text "") d in
      elim (Bool-cases (truthy k)) [
        | inr no_key ↦ rw no_key (ground arith)
        | inl has_key ↦ elim (Bool-cases (truthy s)) [
          | inr no_secret ↦ rw (has_key, no_secret) (ground arith)
          | inl has_secret ↦
              rw (has_key, has_secret)
                (compare secret k s (get "ttl" d) m w
                  (option_discrete secret.version m.current_version))
        ]
      ]

  process_payload-Heeds :
      (p : Payload) (secret : SecretData) (m : CredentialManager) (w : Io)
      → let (r, m', _) =
          catch (process_payload env settings p secret m w) (load_failed env settings) in
        Heeds secret p (env.clock w.clock_reads) (env.clock (suc w.clock_reads)) m r m'
  unfolding process_payload load_failed audit_credential_access
  process_payload-Heeds Payload.opaque secret m w = ground arith
  process_payload-Heeds (Payload.dict d) secret m w = process_dict-Heeds secret d m w

  -- What a load does is decided by the reply of Vault and the version held. It answers True for a
  -- secret of that version, which leaves the credentials as they are, and for another one, which
  -- becomes the current version: a credential with the secret's key, secret, ttl and times is entered
  -- into the cache. It answers False, keeps the credentials and remembers the one error that it
  -- counts if Vault is not read, if the payload is no dictionary, if its key or secret is missing or
  -- empty, or if a new version's ttl is no number.
  pub load_credentials-Follows :
      (m : CredentialManager) (w : Io)
      → let (reply, _, w') = read_secret env settings none m.vault_client w in
        let (r, m', _) = load_credentials env settings m w in
        Follows reply (env.clock w'.clock_reads) (env.clock (suc w'.clock_reads)) m r m'
  unfolding load_credentials fetch_and_process
  load_credentials-Follows m w =
      let (reply, v, w') = read_secret env settings none m.vault_client w in
      let m' = record m { vault_client = v } in
      Follows-vault m v _ _ reply (env.clock w'.clock_reads) (env.clock (suc w'.clock_reads))
        (finish reply m' w')
    where
      finish :
          (reply : Result SecretData) (m : CredentialManager) (w : Io)
          → let (r, m', _) =
              catch ((lift reply >>= process_secret env settings) m w) (load_failed env settings) in
            Follows reply (env.clock w.clock_reads) (env.clock (suc w.clock_reads)) m r m'
      finish (ok secret) m w =
          unfold process_secret in process_payload-Heeds secret.secret_payload secret m w
      finish (raise e) m w = unfold load_failed audit_credential_access in ground arith
