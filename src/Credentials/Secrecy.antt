-- ===== src/Credentials/Secrecy.antt =====
-- What the credential manager of app/credential_manager.py does with the key and the secret of a
-- credential: it tests them for being empty, and keeps them. A disguise of the values in Vault shows
-- in the cached credentials, and nowhere else.
use test_cusa.Prelude.{ap, ◌∙◌, ◌≡◌, refl, Bool, false, not, ◌||◌, Option, none, ite}
use test_cusa.Prelude.Int.{option_discrete}
use test_cusa.Runtime.{Env, Io, Result, ok, raise, Exn, Value, Dict, Payload, catch}
use test_cusa.Runtime.Convert.{truthy, get, get_default}
use test_cusa.Runtime.Blind.{image, Blind, Blind-throw, Blind-bind, Blind-if}
use test_cusa.Config.{Settings}
use test_cusa.Audit.{audit_credential_access, audit_event}
use test_cusa.Vault.Client.{VaultClient, SecretData, read_secret}
use test_cusa.Vault.Secrecy.{hide_dict, hide_payload, hide_secret, hidden, read_secret-Blind}
use test_cusa.Credentials.Manager.{CredentialManager}
use test_cusa.Credentials.Load.{
  compare_version, refuse_secret, process_dict, process_payload, process_secret, on_vault,
  load_failed, fetch_and_process, load_credentials,
}
use test_cusa.Credentials.Disguise.{IsDisguise, hide_manager, get-hide, get_default-hide}
use test_cusa.Credentials.Accepting.{accept_secret-Blind, keep_version-Blind}

module _ (disguise : Value → Value) (ok_disguise : IsDisguise disguise) {Amount : Type 0}
    (env : Env Amount) (settings : Settings) where
  abbrev hide : CredentialManager → CredentialManager
  hide = hide_manager disguise

  abbrev to : Env Amount
  to = hidden disguise env

  ite-image :
      {X : Type 0} (dec : Dec X) (a b a' b' : Result Bool × CredentialManager × Io)
      → a' ≡ image hide (λ x. x) a
      → b' ≡ image hide (λ x. x) b
      → ite dec a' b' ≡ image hide (λ x. x) (ite dec a b)
  ite-image (yes x) a b a' b' ea eb = ea
  ite-image (no x) a b a' b' ea eb = eb

  compare_version-Blind :
      (secret : SecretData) (k s : Value) (ttl : Option Value)
      → Blind hide
          (λ x. x)
          (compare_version env settings secret k s ttl)
          (compare_version to settings (hide_secret disguise secret) (disguise k) (disguise s) ttl)
  unfolding compare_version
  compare_version-Blind secret k s ttl = record {
    at = λ m w.
        ite-image (option_discrete secret.version m.current_version) _ _ _ _
          ((keep_version-Blind disguise ok_disguise env settings).at m w)
          ((accept_secret-Blind disguise ok_disguise env settings secret k s ttl).at m w);
  }

  process_dict-Blind :
      (secret : SecretData) (d : Dict)
      → Blind hide
          (λ x. x)
          (process_dict env settings secret d)
          (process_dict to settings (hide_secret disguise secret) (hide_dict disguise d))
  unfolding process_dict refuse_secret
  process_dict-Blind secret d =
      let k = get_default "api_key" (Value.text "") d in
      let s = get_default "api_secret" (Value.text "") d in
      rw
        (
          get_default-hide disguise ok_disguise "api_key" d refl,
          get_default-hide disguise ok_disguise "api_secret" d refl,
          get-hide disguise "ttl" false d refl,
          ok_disguise.truth k,
          ok_disguise.truth s,
        )
        (Blind-if (not (truthy k) || not (truthy s)) _ _ _ _ (record { at = λ m w. refl })
          (compare_version-Blind secret k s (get "ttl" d)))

  process_secret-Blind :
      (secret : SecretData)
      → Blind hide
          (λ x. x)
          (process_secret env settings secret)
          (process_secret to settings (hide_secret disguise secret))
  unfolding process_secret process_payload
  process_secret-Blind secret = payload_lem secret.secret_payload
    where
      payload_lem :
          (p : Payload)
          → Blind hide
              (λ x. x)
              (process_payload env settings p secret)
              (process_payload to settings (hide_payload disguise p) (hide_secret disguise secret))
      payload_lem Payload.opaque = Blind-throw Exn.attribute_error
      payload_lem (Payload.dict d) = process_dict-Blind secret d

  on_vault-Blind :
      Blind hide
        (hide_secret disguise)
        (on_vault env settings (read_secret env settings none))
        (on_vault to settings (read_secret to settings none))
  on_vault-Blind = record {
    at = λ m w.
        ap
          (λ (out : Result SecretData × VaultClient × Io).
            (out.0, record (hide m) { vault_client = out.1 }, out.2))
          ((read_secret-Blind disguise env settings none).at m.vault_client w);
  }

  fetch_and_process-Blind :
      Blind hide (λ x. x) (fetch_and_process env settings) (fetch_and_process to settings)
  unfolding fetch_and_process
  fetch_and_process-Blind =
      Blind-bind _ _ (process_secret env settings) (process_secret to settings) on_vault-Blind
        process_secret-Blind

  catch-Blind :
      (out : Result Bool × CredentialManager × Io)
      → catch (image hide (λ x. x) out) (load_failed to settings)
        ≡ image hide (λ x. x) (catch out (load_failed env settings))
  unfolding load_failed audit_credential_access audit_event
  catch-Blind (ok b, m, w) = refl
  catch-Blind (raise e, m, w) = refl

  -- If the key and the secret of every credential in Vault and in the cache are replaced by
  -- others that are empty where they were, a load reports the same, and has the same effects on
  -- the outside world, its audit events included; the new values show in the cached credentials
  -- alone.
  pub load_credentials-disguise :
      (m : CredentialManager) (w : Io)
      → load_credentials to settings (hide m) w
        ≡ image hide (λ x. x) (load_credentials env settings m w)
  unfolding load_credentials
  load_credentials-disguise m w =
      ap (λ out. catch out (load_failed to settings)) (fetch_and_process-Blind.at m w)
      ∙ catch-Blind (fetch_and_process env settings m w)
