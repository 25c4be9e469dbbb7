-- ===== src/Credentials/Window.antt =====
-- The dual-credential window of app/credential_manager.py: what the current and the fallback
-- credential are after a rotation.
use mathlib.Core.Path.{subst}
use test_cusa.Prelude.{
  ◌+◌, ◌<◌, ◌≡◌, ◌∙◌, sym, ◌≢◌, Bool, true, false, none, some, [], ◌∷◌, ◌++◌, length-append, arith,
  lookup, length, inl, inr,
}
use test_cusa.Prelude.Int.{ℤ, ℤ_discrete}
use test_cusa.Runtime.{Env, Io, Result, ok, raise, Value, Payload, Dict}
use test_cusa.Runtime.Convert.{truthy, get_default}
use test_cusa.Config.{Settings}
use test_cusa.OrderedDict.{OrderedDict, set_item, shrink, IsDistinct, behind}
use test_cusa.OrderedDict.Bounds.{shrink_full, set_item_absent}
use test_cusa.OrderedDict.Lookup.{lookup-append}
use test_cusa.OrderedDict.Recency.{lookup-enter_ne}
use test_cusa.Vault.Client.{SecretData}
use test_cusa.Credentials.Status.{Credential}
use test_cusa.Credentials.Manager.{
  CredentialManager, max_cache_size, get_current_credential, get_fallback_credential,
  has_valid_credentials,
}
use test_cusa.Credentials.Load.{
  load_credentials, process_secret, process_dict, compare_version, keep_version, update_age_metric,
}
use test_cusa.Credentials.Outcome.{Accepted, Keyed, Loaded}
use test_cusa.Credentials.Loading.{load_credentials-Loaded}
use test_cusa.Credentials.Cache.{IsValid, Current, lookup-install}

-- The window after a rotation from `old` to `new`: requests may use the new credential, and the one
-- that was current as the fallback; the rotation is counted.
pub record Window (m m' : CredentialManager) (new : ℤ) : Type 0 where
  pub credential : Credential
  pub versioned : credential.version ≡ some new
  pub fresh : credential.identity ≡ m.credentials_made
  pub current : get_current_credential m' ≡ some credential
  pub fallback : get_fallback_credential m' ≡ get_current_credential m
  pub counted : m'.credential_rotation_total ≡ m.credential_rotation_total + 1

Accepted-Window :
    (secret : SecretData) (c : Credential) (key old new : ℤ) (m m' : CredentialManager)
    → IsValid m
    → Accepted secret c key m m'
    → m.current_version ≡ some old
    → m'.current_version ≡ some new
    → new ≢ old
    → behind ℤ_discrete old m.cache + 1 < max_cache_size
    → Window m m' new
unfolding get_current_credential get_fallback_credential
Accepted-Window secret c key old new m m' v a was is ne room =
    let known : secret.version ≡ some new = sym a.current ∙ is in
    let own_key : key ≡ new = subst (λ x. Keyed x key) known a.keyed in
    let (c0, found, _) = subst (λ x. Current x m.cache) was v.current in
    let other : old ≢ key = λ e. ne (sym (e ∙ own_key)) in
    let entered = lookup-install key c m.cache v.bounded in
    let (kept, _) =
      lookup-enter_ne ℤ_discrete max_cache_size key old c c0 m.cache other found room in
    record {
      credential = c;
      versioned = a.versioned ∙ known;
      fresh = a.fresh;
      current = ground (arith, own_key, entered, a.cache, is);
      fallback = ground (arith, kept, found, a.cache, a.previous, was);
      counted = ground (arith, a.rotations, was, known);
    }

-- A load that changes the current version accepted a secret of the new one.
Loaded-Accepted :
    (m m' : CredentialManager) (r : Result Bool) (old new : ℤ)
    → Loaded m r m'
    → m.current_version ≡ some old
    → m'.current_version ≡ some new
    → new ≢ old
    → (secret : SecretData) × (c : Credential) × (key : ℤ) × Accepted secret c key m m'
Loaded-Accepted m m' (ok true) old new (secret, inl (_, u)) was is ne =
    absurd (ground (arith, u.current, is, was, ne))
Loaded-Accepted m m' (ok true) old new (secret, inr (_, (c, key, a))) was is ne =
    (secret, c, key, a)
Loaded-Accepted m m' (ok false) old new l was is ne =
    absurd (ground (arith, l.0.current, is, was, ne))
Loaded-Accepted m m' (raise e) old new l was is ne = absurd l

-- A successful load that moves the current version from `old` to `new` opens the dual-credential
-- window: the new credential is the current one, the one that was current is the fallback, and one
-- rotation is counted; provided the old credential is not the next one that a full cache drops.
pub load_credentials-Window :
    {Amount : Type 0} (env : Env Amount) (settings : Settings) (m : CredentialManager) (w : Io)
    (old new : ℤ)
    → IsValid m
    → m.current_version ≡ some old
    → behind ℤ_discrete old m.cache + 1 < max_cache_size
    → let (r, m', _) = load_credentials env settings m w in
      m'.current_version ≡ some new → new ≢ old → Window m m' new
load_credentials-Window env settings m w old new v was room is ne =
    let (r, m', _) = load_credentials env settings m w in
    let (secret, c, key, a) =
      Loaded-Accepted m m' r old new (load_credentials-Loaded env settings m w) was is ne in
    Accepted-Window secret c key old new m m' v a was is ne room

lookup-none_ne :
    (c0 : Credential) (old new : ℤ) (rest : OrderedDict ℤ Credential)
    → lookup ℤ_discrete new ((old, c0) ∷ rest) ≡ none
    → new ≢ old
unfolding lookup
lookup-none_ne c0 old new rest absent = λ same. ground arith

lookup_last :
    (c0 c : Credential) (old new : ℤ) (rest : OrderedDict ℤ Credential)
    → lookup ℤ_discrete new ((old, c0) ∷ rest) ≡ none
    → lookup {B = Credential} ℤ_discrete old ((new, c) ∷ []) ≡ none
unfolding lookup
lookup_last c0 c old new rest absent = ground arith

full_cache_loses_previous :
    (c c0 : Credential) (new old : ℤ) (rest : OrderedDict ℤ Credential)
    → IsDistinct ℤ_discrete ((old, c0) ∷ rest)
    → length rest + 1 ≡ max_cache_size
    → lookup ℤ_discrete new ((old, c0) ∷ rest) ≡ none
    → lookup ℤ_discrete old (shrink max_cache_size (set_item ℤ_discrete new c ((old, c0) ∷ rest)))
      ≡ none
full_cache_loses_previous c c0 new old rest d full absent =
    rw
      (
        set_item_absent ℤ_discrete new c ((old, c0) ∷ rest) absent,
        shrink_full max_cache_size (old, c0) (rest ++ (new, c) ∷ [])
            (omega (arith, length-append rest ((new, c) ∷ []))),
        lookup-append ℤ_discrete old rest ((new, c) ∷ []),
        d.0,
      )
      (lookup_last c0 c old new rest absent)

-- A rotation to a version that is not cached, with a full cache whose oldest entry is the current
-- credential (as it is after a return to the oldest version), drops that credential: the window
-- that it opens has no fallback.
pub load_credentials_loses_fallback :
    {Amount : Type 0} (env : Env Amount) (settings : Settings) (m : CredentialManager) (w : Io)
    (c0 : Credential) (rest : OrderedDict ℤ Credential) (old new : ℤ)
    → IsValid m
    → m.cache ≡ (old, c0) ∷ rest
    → length m.cache ≡ max_cache_size
    → m.current_version ≡ some old
    → lookup ℤ_discrete new m.cache ≡ none
    → let (_, m', _) = load_credentials env settings m w in
      m'.current_version ≡ some new → get_fallback_credential m' ≡ none
unfolding get_fallback_credential
load_credentials_loses_fallback env settings m w c0 rest old new v shape full was absent is =
    let (r, m', _) = load_credentials env settings m w in
    let absent' = subst (λ d. lookup ℤ_discrete new d ≡ none) shape absent in
    let ne = lookup-none_ne c0 old new rest absent' in
    let (secret, c, key, a) =
      Loaded-Accepted m m' r old new (load_credentials-Loaded env settings m w) was is ne in
    let own_key : key ≡ new = subst (λ x. Keyed x key) (sym a.current ∙ is) a.keyed in
    let gone =
      full_cache_loses_previous c c0 new old rest
        (subst (λ d. IsDistinct ℤ_discrete d) shape v.distinct)
        (omega (arith, subst (λ d. length d ≡ max_cache_size) shape full)) absent' in
    ground (arith, a.previous, was, a.cache, shape, own_key, gone)

-- A secret without a version, given to a manager that has none yet: it is reported as loaded, but no
-- credential is cached, and the service stays without a usable one.
pub process_secret_unversioned :
    {Amount : Type 0} (env : Env Amount) (settings : Settings) (secret : SecretData) (d : Dict)
    (m : CredentialManager) (w : Io) (now : ℤ)
    → secret.secret_payload ≡ Payload.dict d
    → truthy (get_default "api_key" (Value.text "") d) ≡ true
    → truthy (get_default "api_secret" (Value.text "") d) ≡ true
    → secret.version ≡ none
    → m.current_version ≡ none
    → m.cache ≡ []
    → let (r, m', _) = process_secret env settings secret m w in
      (r ≡ ok true) × (m'.cache ≡ []) × (has_valid_credentials now m' ≡ false)
unfolding process_secret process_dict compare_version keep_version update_age_metric
    has_valid_credentials get_current_credential
process_secret_unversioned env settings secret d m w now has_payload k s unversioned fresh empty =
    ground arith
