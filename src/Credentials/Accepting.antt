-- ===== src/Credentials/Accepting.antt =====
-- A new credential enters the cache of app/credential_manager.py: what that shows of the key and the
-- secret under a disguise of the values in Vault.
use test_cusa.Prelude.{
  ap, ◌∙◌, ◌+◌, ◌≡◌, refl, Bool, true, false, not, ◌&&◌, is_some, Option, none, some, ite,
}
use test_cusa.Prelude.Int.{ℤ, option_discrete}
use test_cusa.Runtime.{
  Env, Action, Io, Result, ok, raise, Value, pure, lift, when, modify, asks, time, ◌>>=◌, ◌>>◌,
}
use test_cusa.Runtime.Blind.{image, Blind, Blind-bind}
use test_cusa.Config.{Settings}
use test_cusa.Audit.{audit_rotation_event, audit_event}
use test_cusa.Vault.Client.{SecretData}
use test_cusa.Vault.Secrecy.{hide_secret, hidden}
use test_cusa.Credentials.Status.{Credential, age}
use test_cusa.Credentials.Manager.{CredentialManager, get_current_credential}
use test_cusa.Credentials.Load.{
  new_credential, install, ttl_of, update_age_metric, cache_key, report_rotation, announce,
  accept_secret, keep_version,
}
use test_cusa.Credentials.Disguise.{
  IsDisguise, map_option, hide_credential, hide_manager, set_version-hide, install-hide,
  get_current_credential-hide,
}

module _ (disguise : Value → Value) (ok_disguise : IsDisguise disguise) {Amount : Type 0}
    (env : Env Amount) (settings : Settings) where
  abbrev hide : CredentialManager → CredentialManager
  hide = hide_manager disguise

  abbrev to : Env Amount
  to = hidden disguise env

  -- The end of `_update_age_metric`, for the current credential.
  abbrev stamped :
      Option Credential → CredentialManager → Io → Result (Unit {0}) × CredentialManager × Io
  stamped found m = elim found [
    | none ↦ pure tt m
    | some c ↦
        (do now ← time env; modify (λ m'. record m' { credential_age_seconds = some (age now c) }))
          m
  ]

  stamped-hide :
      (found : Option Credential) (m : CredentialManager) (w : Io)
      → stamped (map_option (hide_credential disguise) found) (hide m) w
        ≡ image hide (λ x. x) (stamped found m w)
  unfolding age
  stamped-hide none m w = refl
  stamped-hide (some c) m w = refl

  update_age_metric-Blind :
      Blind hide (λ x. x) (update_age_metric env settings) (update_age_metric to settings)
  unfolding update_age_metric
  update_age_metric-Blind = record {
    at = λ m w.
        ap (λ found. stamped found (hide m) w) (get_current_credential-hide disguise m)
        ∙ stamped-hide (get_current_credential m) m w;
  }

  when-Blind :
      (b : Bool) (act act' : Action CredentialManager (Unit {0}))
      → Blind hide (λ x. x) act act'
      → Blind hide (λ x. x) (when b act) (when b act')
  when-Blind true act act' h = h
  when-Blind false act act' h = record { at = λ m w. refl }

  cache_key-Blind :
      (version : Option ℤ)
      → Blind hide (λ x. x) (cache_key env settings version) (cache_key to settings version)
  unfolding cache_key
  cache_key-Blind none = record { at = λ m w. refl }
  cache_key-Blind (some v) = record { at = λ m w. refl }

  report_rotation-Blind :
      (old version : Option ℤ)
      → Blind hide
          (λ x. x)
          (report_rotation env settings old version)
          (report_rotation to settings old version)
  unfolding report_rotation audit_rotation_event audit_event
  report_rotation-Blind old version =
      when-Blind (is_some old && not (ite (option_discrete old version) true false))
        (do
          modify λ m. record m { credential_rotation_total = m.credential_rotation_total + 1 }
          audit_rotation_event env settings.vault_secret_path old version "success")
        (do
          modify λ m. record m { credential_rotation_total = m.credential_rotation_total + 1 }
          audit_rotation_event to settings.vault_secret_path old version "success")
        (record { at = λ m w. refl })

  modify-Blind :
      (f f' : CredentialManager → CredentialManager)
      → ((m : CredentialManager) → f' (hide m) ≡ hide (f m))
      → Blind hide (λ x. x) (modify f) (modify f')
  modify-Blind f f' e = record { at = λ m w. ap (λ m'. (ok tt, m', w)) (e m) }

  lift-Blind : {A : Type 0} (r : Result A) → Blind hide (λ x. x) (lift r) (lift r)
  lift-Blind (ok x) = record { at = λ m w. refl }
  lift-Blind (raise e) = record { at = λ m w. refl }

  announce-Blind :
      (old version : Option ℤ)
      → Blind hide (λ x. x) (announce env settings old version) (announce to settings old version)
  unfolding announce
  announce-Blind old version =
      Blind-bind {f = λ x. x} _ _ _ _
        (modify-Blind _ _ (set_version-hide disguise ok_disguise version))
        λ _. Blind-bind {f = λ x. x} _ _ _ _ update_age_metric-Blind λ _.
          Blind-bind {f = λ x. x} _ _ _ _
            (modify-Blind (λ m. record m { last_error = none })
              (λ m. record m { last_error = none }) (λ m. refl))
            λ _.
              Blind-bind {f = λ x. x} _ _ (λ _. pure true) (λ _. pure true)
                (report_rotation-Blind old version) λ _. record { at = λ m w. refl }

  pub accept_secret-Blind :
      (secret : SecretData) (k s : Value) (ttl : Option Value)
      → Blind hide
          (λ x. x)
          (accept_secret env settings secret k s ttl)
          (accept_secret to settings (hide_secret disguise secret) (disguise k) (disguise s) ttl)
  unfolding accept_secret new_credential
  accept_secret-Blind secret k s ttl =
      Blind-bind {f = λ x. x} (time env) (time to) _ _ (record { at = λ m w. refl })
        λ loaded_at.
          Blind-bind {f = λ x. x} (lift (ttl_of ttl)) (lift (ttl_of ttl)) _ _
            (lift-Blind (ttl_of ttl))
            λ t.
              Blind-bind {f = λ x. x} (asks (λ m. m.current_version))
                (asks (λ m. m.current_version)) _ _ (record { at = λ m w. refl })
                λ old. Blind-bind {f = λ x. x} _ _ _ _ (cache_key-Blind secret.version) λ key.
                  Blind-bind {f = λ x. x} _ _ _ _
                    (modify-Blind
                      (install key secret.version (new_credential secret k s loaded_at t))
                      (install key secret.version (
                        new_credential (hide_secret disguise secret) (disguise k) (disguise s)
                          loaded_at t))
                      λ m. install-hide disguise ok_disguise key secret.version _ _ m λ n. refl)
                    λ _. announce-Blind old secret.version

  pub keep_version-Blind :
      Blind hide (λ x. x) (keep_version env settings) (keep_version to settings)
  unfolding keep_version
  keep_version-Blind =
      Blind-bind {f = λ x. x} _ _ (λ _. pure true) (λ _. pure true) update_age_metric-Blind
        λ _. record { at = λ m w. refl }
