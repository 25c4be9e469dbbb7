-- ===== src/OrderedDict.antt =====
-- Python's `collections.OrderedDict`, oldest entry first, as the service uses it: the credential
-- cache (app/credential_manager.py), the idempotency cache (app/main.py) and the rate limiter's
-- buckets (app/middleware.py) are such dictionaries, cut to a bound from the front.
pub mod Lookup
pub mod Bounds
pub mod Recency
use test_cusa.Prelude.{
  ℕ, suc, Bool, Option, none, some, ◌≡◌, List, [], ◌∷◌, ◌++◌, ltb, length, lookup, ite, is_some,
  if◌then◌else◌,
}

abbrev pub OrderedDict {ℓ} : Type ℓ → Type ℓ → Type ℓ
OrderedDict K V = List (K × V)

module _ {ℓ} {K V : Type ℓ} (dec : Discrete K) where
  -- `d[k] = v`: a present key keeps its place, a new one goes to the end.
  unfoldable pub set_item : K → V → OrderedDict K V → OrderedDict K V
  set_item k v [] = (k, v) ∷ []
  set_item k v (e ∷ d) = ite (dec k e.0) ((e.0, v) ∷ d) (e ∷ set_item k v d)

  -- `k in d`
  abbrev pub contains : K → OrderedDict K V → Bool
  contains k d = is_some (lookup dec k d)

  -- `del d[k]`
  unfoldable pub remove : K → OrderedDict K V → OrderedDict K V
  remove k [] = []
  remove k (e ∷ d) = ite (dec k e.0) d (e ∷ remove k d)

  -- `d.move_to_end(k)`, where `k in d`
  unfoldable pub move_to_end : K → OrderedDict K V → OrderedDict K V
  unfolding remove
  move_to_end k d = elim (lookup dec k d) [ none ↦ d | some v ↦ remove k d ++ (k, v) ∷ [] ]

module _ {ℓ} {K V : Type ℓ} where
  -- `while len(d) > bound: d.popitem(last=False)`
  unfoldable pub shrink : ℕ → OrderedDict K V → OrderedDict K V
  shrink bound [] = []
  shrink bound (e ∷ d) =
      let rest = shrink bound d in if ltb bound (length (e ∷ d)) then rest else e ∷ d

module _ {ℓ} {K V : Type ℓ} (dec : Discrete K) where
  -- No key stands twice.
  abbrev pub IsDistinct : OrderedDict K V → Type ℓ
  IsDistinct [] = Unit
  IsDistinct (e ∷ d) = (lookup dec e.0 d ≡ none) × IsDistinct d

  -- How many entries stand behind the first one with the key.
  unfoldable pub behind : K → OrderedDict K V → ℕ
  behind k [] = 0
  behind k (e ∷ d) = elim (dec k e.0) [ yes here ↦ length d | no other ↦ behind k d ]
