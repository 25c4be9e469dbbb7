-- ===== src/Credentials/Cache.antt =====
-- The invariant of the credential cache of app/credential_manager.py, and that loading keeps it.
use test_cusa.Prelude.{
  ◌≤◌, ◌≡◌, Bool, true, false, Option, none, some, arith, lookup, length, Option-cases, inl, inr,
}
use test_cusa.Prelude.Int.{ℤ, ℤ_discrete}
use test_cusa.Runtime.{Env, Io, Result, ok, raise}
use test_cusa.Config.{Settings}
use test_cusa.OrderedDict.{OrderedDict, set_item, shrink, IsDistinct}
use test_cusa.OrderedDict.Lookup.{lookup-set_item_self}
use test_cusa.OrderedDict.Bounds.{
  length-shrink-le, shrink_of_length-le, length-set_item_present, set_item-IsDistinct,
  shrink-IsDistinct,
}
use test_cusa.OrderedDict.Recency.{lookup-enter}
use test_cusa.Vault.Client.{SecretData, VaultClient}
use test_cusa.Credentials.Status.{Credential}
use test_cusa.Credentials.Manager.{CredentialManager, max_cache_size, init}
use test_cusa.Credentials.Load.{load_credentials}
use test_cusa.Credentials.Outcome.{Accepted, Unchanged, Keyed, Loaded}
use test_cusa.Credentials.Loading.{load_credentials-Loaded}

-- The current version, if there is one, is in the cache.
abbrev pub Current : Option ℤ → OrderedDict ℤ Credential → Type 0
Current none cache = Unit
Current (some v) cache =
    (c : Credential) × (lookup ℤ_discrete v cache ≡ some c) × (c.version ≡ some v)

pub record IsValid (m : CredentialManager) : Type 0 where
  pub distinct : IsDistinct ℤ_discrete m.cache
  pub bounded : length m.cache ≤ max_cache_size
  pub current : Current m.current_version m.cache

-- What is put into a full or a partly filled cache is found there.
pub lookup-install :
    (key : ℤ) (c : Credential) (cache : OrderedDict ℤ Credential)
    → length cache ≤ max_cache_size
    → lookup ℤ_discrete key (shrink max_cache_size (set_item ℤ_discrete key c cache)) ≡ some c
lookup-install key c cache bounded = elim (Option-cases (lookup ℤ_discrete key cache)) [
  | inl absent ↦ (lookup-enter ℤ_discrete max_cache_size key c cache (omega arith) absent).0
  | inr (old, present) ↦
      let same = length-set_item_present ℤ_discrete key c old cache present in
      rw (shrink_of_length-le max_cache_size (set_item ℤ_discrete key c cache) (rw same bounded))
        (lookup-set_item_self ℤ_discrete key c cache)
]

Current-install :
    (version : Option ℤ) (key : ℤ) (c : Credential) (cache : OrderedDict ℤ Credential)
    → length cache ≤ max_cache_size
    → Keyed version key
    → c.version ≡ version
    → Current version (shrink max_cache_size (set_item ℤ_discrete key c cache))
Current-install none key c cache bounded keyed versioned = tt
Current-install (some v) key c cache bounded keyed versioned =
    (c, rw (← keyed) (lookup-install key c cache bounded), versioned)

Accepted-IsValid :
    (secret : SecretData) (c : Credential) (key : ℤ) (m m' : CredentialManager)
    → Accepted secret c key m m'
    → IsValid m
    → IsValid m'
Accepted-IsValid secret c key m m' a v = record {
  distinct = rw a.cache (
      shrink-IsDistinct ℤ_discrete max_cache_size (set_item ℤ_discrete key c m.cache)
        (set_item-IsDistinct ℤ_discrete key c m.cache v.distinct));
  bounded = rw a.cache (length-shrink-le max_cache_size (set_item ℤ_discrete key c m.cache));
  current =
      rw (a.current, a.cache)
        (Current-install secret.version key c m.cache v.bounded a.keyed a.versioned);
}

Unchanged-IsValid : (m m' : CredentialManager) → Unchanged m m' → IsValid m → IsValid m'
Unchanged-IsValid m m' u v = record {
  distinct = rw u.cache v.distinct;
  bounded = rw u.cache v.bounded;
  current = rw (u.current, u.cache) v.current;
}

Loaded-IsValid :
    (m : CredentialManager) (r : Result Bool) (m' : CredentialManager)
    → Loaded m r m'
    → IsValid m
    → IsValid m'
Loaded-IsValid m (ok true) m' (secret, inl (_, u)) v = Unchanged-IsValid m m' u v
Loaded-IsValid m (ok true) m' (secret, inr (_, (c, key, a))) v =
    Accepted-IsValid secret c key m m' a v
Loaded-IsValid m (ok false) m' l v = Unchanged-IsValid m m' l.0 v
Loaded-IsValid m (raise e) m' l v = absurd l

-- A load keeps the cache within its bound and its keys distinct, and the credential of the current
-- version, if the current version is known, in the cache, whatever Vault answers.
pub load_credentials-IsValid :
    {Amount : Type 0} (env : Env Amount) (settings : Settings) (m : CredentialManager) (w : Io)
    → IsValid m
    → IsValid (load_credentials env settings m w).1
load_credentials-IsValid env settings m w v =
    let (r, m', _) = load_credentials env settings m w in
    Loaded-IsValid m r m' (load_credentials-Loaded env settings m w) v

pub init-IsValid :
    (settings : Settings) (client : VaultClient) (interval : Option ℤ)
    → IsValid (init settings client interval)
unfolding init
init-IsValid settings client interval = record {
  distinct = tt;
  bounded = omega arith;
  current = tt;
}
