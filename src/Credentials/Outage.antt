-- ===== src/Credentials/Outage.antt =====
-- The refresh loop of app/credential_manager.py while Vault answers no read: the cached credentials
-- stay in use.
use mathlib.Core.Path.{subst, subst₂}
use test_cusa.Prelude.{ℕ, ◌+◌, ◌≡◌, refl, ◌∙◌, ap, Bool, true, false, none, List, [], ◌∷◌, arith}
use test_cusa.Prelude.Int.{ℤ}
use test_cusa.Runtime.{Env, Io, Result, ok, raise, lift, ◌>>=◌, catch}
use test_cusa.Config.{Settings}
use test_cusa.Audit.{audit_credential_access}
use test_cusa.Vault.Client.{SecretData, read_secret}
use test_cusa.Vault.Outage.{IsRaise, IsOut, read_secret-IsRaise}
use test_cusa.Credentials.Manager.{
  CredentialManager, get_current_credential, get_fallback_credential, has_valid_credentials,
  credential_status,
}
use test_cusa.Credentials.Load.{load_credentials, fetch_and_process, process_secret, load_failed}
use test_cusa.Credentials.Outcome.{Unchanged, Loaded}
use test_cusa.Credentials.Loading.{load_credentials-Loaded}
use test_cusa.Credentials.Refresh.{delay, WakeUp, turn, after_load, refresh_loop}

-- The waits of a loop all of whose loads fail, after some errors in a row.
abbrev pub Backoffs : (interval : ℤ) → (errors : ℕ) → List ℤ → Type 0
Backoffs interval errors [] = Unit
Backoffs interval errors (d ∷ ds) = (d ≡ delay interval errors) × Backoffs interval (errors + 1) ds

-- Equal caches and versions give equal answers.
pub Unchanged-current :
    (m m' : CredentialManager)
    → Unchanged m m'
    → get_current_credential m' ≡ get_current_credential m
unfolding get_current_credential
Unchanged-current m m' u = ground (arith, u.cache, u.current)

pub Unchanged-fallback :
    (m m' : CredentialManager)
    → Unchanged m m'
    → get_fallback_credential m' ≡ get_fallback_credential m
unfolding get_fallback_credential
Unchanged-fallback m m' u = ground (arith, u.cache, u.previous)

pub Unchanged-valid :
    (m m' : CredentialManager) (now : ℤ)
    → Unchanged m m'
    → has_valid_credentials now m' ≡ has_valid_credentials now m
unfolding has_valid_credentials credential_status
Unchanged-valid m m' now u = ground (arith, Unchanged-current m m' u)

same_lem : (m : CredentialManager) → Unchanged m m
same_lem m = record { cache = refl; current = refl; previous = refl; made = refl; interval = refl }

-- A failed load is one more error.
after_lem :
    (errors : ℕ) (loaded : Result Bool × CredentialManager × Io)
    → loaded.0 ≡ ok false
    → ((after_load errors loaded).0 ≡ errors + 1) × ((after_load errors loaded).1 ≡ loaded.1)
unfolding after_load
after_lem errors (r, m, w) failed = ground (arith, failed)

Unchanged-trans :
    (m1 m2 m3 : CredentialManager) → Unchanged m1 m2 → Unchanged m2 m3 → Unchanged m1 m3
Unchanged-trans m1 m2 m3 u v = record {
  cache = v.cache ∙ u.cache;
  current = v.current ∙ u.current;
  previous = v.previous ∙ u.previous;
  made = v.made ∙ u.made;
  interval = v.interval ∙ u.interval;
}

module _ {Amount : Type 0} (env : Env Amount) (settings : Settings) (out : IsOut env) where
  failed_lem :
      (r : Result SecretData) (m : CredentialManager) (w : Io)
      → IsRaise r
      → (catch ((lift r >>= process_secret env settings) m w) (load_failed env settings)).0
        ≡ ok false
  unfolding load_failed audit_credential_access
  failed_lem (ok s) m w h = absurd h
  failed_lem (raise e) m w h = refl

  load_credentials_fails :
      (m : CredentialManager) (w : Io)
      → let (r, m', _) = load_credentials env settings m w in (r ≡ ok false) × Unchanged m m'
  unfolding load_credentials fetch_and_process
  load_credentials_fails m w =
      let (r, v, w') = read_secret env settings none m.vault_client w in
      let failed =
        failed_lem r (record m { vault_client = v }) w'
          (read_secret-IsRaise env settings none m.vault_client w out) in
      let (_, m', _) = load_credentials env settings m w in
      (failed, (subst (λ x. Loaded m x m') failed (load_credentials-Loaded env settings m w)).0)

  turn-Outage :
      (running : Bool) (wake : WakeUp) (interval : ℤ) (errors : ℕ)
      (later : List ℤ × CredentialManager × Io) (m : CredentialManager) (w : Io)
      → Unchanged m later.1
      → Backoffs interval (errors + 1) later.0
      → let (delays, m', _) = turn running wake (delay interval errors) later m w in
        Unchanged m m' × Backoffs interval errors delays
  turn-Outage false wake interval errors later m w u paced = (same_lem m, tt)
  turn-Outage true WakeUp.elapsed interval errors later m w u paced = (u, (refl, paced))
  turn-Outage true WakeUp.stopped interval errors later m w u paced = (
    record { cache = refl; current = refl; previous = refl; made = refl; interval = refl },
    (refl, tt),
  )
  turn-Outage true WakeUp.cancelled interval errors later m w u paced = (same_lem m, (refl, tt))

  -- While Vault answers no read, the refresh loop changes neither the cached credentials nor the
  -- versions, however long it runs and however its waits end, so the current and the fallback
  -- credential stay what they were; and its waits grow by the number of errors in a row.
  pub refresh_loop-Outage :
      (wakes : List WakeUp) (errors : ℕ) (m : CredentialManager) (w : Io)
      → let (delays, m', _) = refresh_loop env settings wakes errors m w in
        Unchanged m m' × Backoffs m.check_interval errors delays
  unfolding refresh_loop after_load
  refresh_loop-Outage [] errors m w = (same_lem m, tt)
  refresh_loop-Outage (wake ∷ wakes) errors m w =
      let loaded = load_credentials env settings m w in
      let (failed, u) = load_credentials_fails m w in
      let after = after_load errors loaded in
      let counted = after_lem errors loaded failed in
      let (u', paced) = refresh_loop-Outage wakes after.0 after.1 after.2 in
      let later = refresh_loop env settings wakes after.0 after.1 after.2 in
      turn-Outage m.running wake m.check_interval errors later m w
        (Unchanged-trans m loaded.1 later.1 u (subst (λ x. Unchanged x later.1) counted.1 u'))
        (subst₂ (λ i n. Backoffs i n later.0) (ap (λ x. x.check_interval) counted.1 ∙ u.interval)
          counted.0 paced)
