-- ===== src/Credentials/Disguise.antt =====
-- Credentials of app/credential_manager.py with other values for their keys and secrets, in Vault and
-- in the cache.
use text.Mathlib.Text.{◌==◌ as str_eq}
use text.Mathlib.TextEquality.{eq_iff}
use mathlib.Core.Path.{subst}
use test_cusa.Prelude.{
  arith, sym, ap, ◌∙◌, ℕ, suc, ◌≡◌, refl, String, Bool, true, false, ◌||◌, Option, none, some, [],
  ◌∷◌, length, lookup, ltb, Bool-cases, inl, inr, if◌then◌else◌,
}
use test_cusa.Prelude.Int.{ℤ, ℤ_discrete}
use test_cusa.Runtime.{Value, Dict}
use test_cusa.Runtime.Convert.{truthy, get, get_default}
use test_cusa.OrderedDict.{OrderedDict, set_item, shrink}
use test_cusa.Vault.Secrecy.{hide_value, hide_dict}
use test_cusa.Credentials.Status.{Credential}
use test_cusa.Credentials.Manager.{
  CredentialManager, max_cache_size, values, last, get_current_credential,
}
use test_cusa.Credentials.Load.{install, set_version}

-- A disguise is empty exactly where the value is.
pub record IsDisguise (disguise : Value → Value) : Type 0 where
  pub truth : (v : Value) → truthy (disguise v) ≡ truthy v
  pub default : disguise (Value.text "") ≡ Value.text ""

abbrev pub map_option : {A B : Type 0} → (A → B) → Option A → Option B
map_option f none = none
map_option f (some x) = some (f x)

module _ (disguise : Value → Value) where
  abbrev pub hide_credential : Credential → Credential
  hide_credential c = record c { api_key = disguise c.api_key; api_secret = disguise c.api_secret }

  abbrev pub hide_cache : OrderedDict ℤ Credential → OrderedDict ℤ Credential
  hide_cache [] = []
  hide_cache (e ∷ d) = (e.0, hide_credential e.1) ∷ hide_cache d

  abbrev pub hide_manager : CredentialManager → CredentialManager
  hide_manager m = record m { cache = hide_cache m.cache }

  pub lookup-hide :
      (k : ℤ) (d : OrderedDict ℤ Credential)
      → lookup ℤ_discrete k (hide_cache d) ≡ map_option hide_credential (lookup ℤ_discrete k d)
  unfolding lookup
  lookup-hide k [] = refl
  lookup-hide k (e ∷ d) = ground (arith, lookup-hide k d)

  set_item-hide :
      (k : ℤ) (c : Credential) (d : OrderedDict ℤ Credential)
      → set_item ℤ_discrete k (hide_credential c) (hide_cache d)
        ≡ hide_cache (set_item ℤ_discrete k c d)
  unfolding set_item
  set_item-hide k c [] = refl
  set_item-hide k c (e ∷ d) = ground (arith, set_item-hide k c d)

  length-hide : (d : OrderedDict ℤ Credential) → length (hide_cache d) ≡ length d
  length-hide [] = refl
  length-hide (e ∷ d) = ap suc (length-hide d)

  shrink-hide :
      (n : ℕ) (d : OrderedDict ℤ Credential) → shrink n (hide_cache d) ≡ hide_cache (shrink n d)
  unfolding shrink
  shrink-hide n [] = refl
  shrink-hide n (e ∷ d) = elim (Bool-cases (ltb n (length (e ∷ d)))) [
    | inl long ↦ rw (length-hide d, long, shrink-hide n d) refl
    | inr short ↦ rw (length-hide d, short) refl
  ]

  last-hide :
      (d : OrderedDict ℤ Credential)
      → last (values (hide_cache d)) ≡ map_option hide_credential (last (values d))
  unfolding last
  last-hide [] = refl
  last-hide (e ∷ []) = refl
  last-hide (e ∷ e' ∷ d) = last-hide (e' ∷ d)

  pub get_current_credential-hide :
      (m : CredentialManager)
      → get_current_credential (hide_manager m)
        ≡ map_option hide_credential (get_current_credential m)
  unfolding get_current_credential
  get_current_credential-hide m = version_lem m.current_version
    where
      version_lem :
          (version : Option ℤ)
          → get_current_credential (hide_manager (record m { current_version = version }))
            ≡ map_option hide_credential
                (get_current_credential (record m { current_version = version }))
      version_lem none = last-hide m.cache
      version_lem (some v) = lookup-hide v m.cache

  hidden_value :
      (hides : Bool) (v : Value)
      → some (hide_value disguise hides v)
        ≡ (if hides then map_option disguise (some v) else some v)
  hidden_value true v = refl
  hidden_value false v = refl

  pub get-hide :
      (name : String) (hides : Bool) (d : Dict)
      → (str_eq "api_key" name || str_eq "api_secret" name) ≡ hides
      → get name (hide_dict disguise d)
        ≡ (if hides then map_option disguise (get name d) else get name d)
  unfolding get
  get-hide name hides [] e = ground arith
  get-hide name hides ((n, v) ∷ d) e = elim (Bool-cases (str_eq name n)) [
    | inl same ↦
        let hides_it : (str_eq "api_key" n || str_eq "api_secret" n) ≡ hides =
          subst (λ x. (str_eq "api_key" x || str_eq "api_secret" x) ≡ hides)
            ((eq_iff name n).0 same) e in
        rw (same, hides_it) (hidden_value hides v)
    | inr other ↦ rw other (get-hide name hides d e)
  ]

  module _ (ok_disguise : IsDisguise disguise) where
    default_lem :
        (found : Option Value)
        → (elim (map_option disguise found) [ none ↦ Value.text "" | some v ↦ v ])
          ≡ disguise (elim found [ none ↦ Value.text "" | some v ↦ v ])
    default_lem none = sym ok_disguise.default
    default_lem (some v) = refl

    pub get_default-hide :
        (name : String) (d : Dict)
        → (str_eq "api_key" name || str_eq "api_secret" name) ≡ true
        → get_default name (Value.text "") (hide_dict disguise d)
          ≡ disguise (get_default name (Value.text "") d)
    unfolding get_default
    get_default-hide name d e =
        ap (λ (found : Option Value). elim found [ none ↦ Value.text "" | some v ↦ v ])
          (get-hide name true d e)
        ∙ default_lem (get name d)

    pub set_version-hide :
        (version : Option ℤ) (m : CredentialManager)
        → set_version version (hide_manager m) ≡ hide_manager (set_version version m)
    unfolding set_version
    set_version-hide none m = refl
    set_version-hide (some v) m = refl

    pub install-hide :
        (key : ℤ) (version : Option ℤ) (make make' : ℕ → Credential) (m : CredentialManager)
        → ((n : ℕ) → make' n ≡ hide_credential (make n))
        → install key version make' (hide_manager m) ≡ hide_manager (install key version make m)
    unfolding install
    install-hide key version make make' m e =
        let n = m.credentials_made in
        ap
          (λ cache. record m {
            previous_version = m.current_version;
            current_version = version;
            credentials_made = suc n;
            cache = cache;
          })
          (ap (λ c. shrink max_cache_size (set_item ℤ_discrete key c (hide_cache m.cache))) (e n)
            ∙ ap (shrink max_cache_size) (set_item-hide key (make n) m.cache)
            ∙ shrink-hide max_cache_size (set_item ℤ_discrete key (make n) m.cache))
