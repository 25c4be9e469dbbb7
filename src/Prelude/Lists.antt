-- ===== src/Prelude/Lists.antt =====
-- Lists measured by native numbers, and predicates on all elements.
use Prim.Native.Nat.{ℕ, zero, suc, ◌+◌, ◌≤◌}
use mathlib.Core.Option.{Option, none, some}
use mathlib.Core.Path.{◌≡◌}
use mathlib.Core.List.{List, [], ◌∷◌, ◌++◌}
use native.Mathlib.Omega.{arith}

module _ {ℓ} {A : Type ℓ} where
  abbrev pub length : List A → ℕ
  length [] = 0
  length (x ∷ xs) = suc (length xs)

  pub length-append : (xs ys : List A) → length (xs ++ ys) ≡ length xs + length ys
  length-append [] ys = omega arith
  length-append (x ∷ xs) ys = omega (arith, length-append xs ys)

abbrev pub All {ℓ κ} : {A : Type ℓ} → (A → Type κ) → List A → Type κ
All P [] = Unit
All P (x ∷ xs) = P x × All P xs

module _ {ℓ} {A : Type ℓ} where
  abbrev pub get_elem? : List A → ℕ → Option A
  get_elem? [] i = none
  get_elem? (x ∷ xs) zero = some x
  get_elem? (x ∷ xs) (suc i) = get_elem? xs i

  -- A write out of bounds changes nothing.
  abbrev pub set : List A → ℕ → A → List A
  set [] i v = []
  set (x ∷ xs) zero v = v ∷ xs
  set (x ∷ xs) (suc i) v = x ∷ set xs i v

-- A sum over a list, and what one more or another element makes of it.
module _ {ℓ} {A : Type ℓ} (f : A → ℕ) where
  abbrev pub sum_of : List A → ℕ
  sum_of [] = 0
  sum_of (x ∷ xs) = f x + sum_of xs

  pub sum_of-append : (xs : List A) (x : A) → sum_of (xs ++ x ∷ []) ≡ sum_of xs + f x
  sum_of-append [] x = omega arith
  sum_of-append (y ∷ ys) x = omega (arith, sum_of-append ys x)

  pub sum_of-set :
      (xs : List A) (i : ℕ) (x y : A)
      → get_elem? xs i ≡ some x
      → sum_of (set xs i y) + f x ≡ sum_of xs + f y
  sum_of-set [] i x y e = cc
  sum_of-set (z ∷ zs) zero x y e = let same : z ≡ x = cc in rw same (omega arith)
  sum_of-set (z ∷ zs) (suc i) x y e = omega (arith, sum_of-set zs i x y e)

  pub le_sum_of : (xs : List A) (i : ℕ) (x : A) → get_elem? xs i ≡ some x → f x ≤ sum_of xs
  le_sum_of [] i x e = cc
  le_sum_of (z ∷ zs) zero x e = let same : z ≡ x = cc in rw same (omega arith)
  le_sum_of (z ∷ zs) (suc i) x e = omega (arith, le_sum_of zs i x e)
