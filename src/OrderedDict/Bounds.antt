-- ===== src/OrderedDict/Bounds.antt =====
-- The bound of a dictionary that is cut from the front, and the invariant on its keys.
use test_cusa.Prelude.{
  ℕ, ◌+◌, ◌≤◌, ◌≡◌, refl, none, some, [], ◌∷◌, ◌++◌, lookup, arith, length, length-append,
  Option-cases, inl, inr,
}
use test_cusa.OrderedDict.{OrderedDict, set_item, remove, move_to_end, shrink, IsDistinct}
use test_cusa.OrderedDict.Lookup.{
  lookup-set_item_ne, lookup-remove_ne, lookup-remove_self, lookup-append,
}

module _ {ℓ} {K V : Type ℓ} where
  pub length-shrink-le : (n : ℕ) (d : OrderedDict K V) → length (shrink n d) ≤ n
  unfolding shrink
  length-shrink-le n [] = omega arith
  length-shrink-le n (e ∷ d) = ground (arith, length-shrink-le n d)

  -- The loop does nothing while the dictionary is within its bound.
  pub shrink_of_length-le : (n : ℕ) (d : OrderedDict K V) → length d ≤ n → shrink n d ≡ d
  unfolding shrink
  shrink_of_length-le n [] h = refl
  shrink_of_length-le n (e ∷ d) h = ground arith

  -- One entry too many: exactly the oldest goes.
  pub shrink_full : (n : ℕ) (e : K × V) (d : OrderedDict K V) → length d ≡ n → shrink n (e ∷ d) ≡ d
  unfolding shrink
  shrink_full n e d h = ground (arith, shrink_of_length-le n d)

module _ {ℓ} {K V : Type ℓ} (dec : Discrete K) where
  pub length-set_item-le :
      (k : K) (v : V) (d : OrderedDict K V) → length (set_item dec k v d) ≤ length d + 1
  unfolding set_item
  length-set_item-le k v [] = omega arith
  length-set_item-le k v (e ∷ d) = ground (arith, length-set_item-le k v d)

  pub length-set_item_present :
      (k : K) (v w : V) (d : OrderedDict K V)
      → lookup dec k d ≡ some w
      → length (set_item dec k v d) ≡ length d
  unfolding lookup set_item
  length-set_item_present k v w [] h = cc
  length-set_item_present k v w (e ∷ d) h = ground (arith, length-set_item_present k v w d)

  pub set_item_absent :
      (k : K) (v : V) (d : OrderedDict K V)
      → lookup dec k d ≡ none
      → set_item dec k v d ≡ d ++ (k, v) ∷ []
  unfolding lookup set_item
  set_item_absent k v [] h = refl
  set_item_absent k v (e ∷ d) h = ground (arith, set_item_absent k v d)

  pub set_item-IsDistinct :
      (k : K) (v : V) (d : OrderedDict K V) → IsDistinct dec d → IsDistinct dec (set_item dec k v d)
  unfolding set_item lookup
  set_item-IsDistinct k v [] h = (refl, tt)
  set_item-IsDistinct k v (e ∷ d) h =
      ground (arith, set_item-IsDistinct k v d h.1, lookup-set_item_ne dec k e.0 v d)

  remove-IsDistinct :
      (k : K) (d : OrderedDict K V) → IsDistinct dec d → IsDistinct dec (remove dec k d)
  unfolding remove
  remove-IsDistinct k [] h = tt
  remove-IsDistinct k (e ∷ d) h =
      ground (arith, remove-IsDistinct k d h.1, lookup-remove_ne dec k e.0 d)

  append_one-IsDistinct :
      (k : K) (v : V) (d : OrderedDict K V)
      → lookup dec k d ≡ none
      → IsDistinct dec d
      → IsDistinct dec (d ++ (k, v) ∷ [])
  unfolding lookup
  append_one-IsDistinct k v [] a h = (refl, tt)
  append_one-IsDistinct k v (e ∷ d) a h =
      ground (arith, append_one-IsDistinct k v d, lookup-append dec e.0 d ((k, v) ∷ []))

  pub move_to_end-IsDistinct :
      (k : K) (d : OrderedDict K V) → IsDistinct dec d → IsDistinct dec (move_to_end dec k d)
  unfolding move_to_end
  move_to_end-IsDistinct k d h = elim (Option-cases (lookup dec k d)) [
    | inl absent ↦ ground arith
    | inr (v, found) ↦
        let gone = lookup-remove_self dec k d h in
        rw (found, move_to_end)
          (append_one-IsDistinct k v (remove dec k d) gone (remove-IsDistinct k d h))
  ]

  pub shrink-IsDistinct :
      (n : ℕ) (d : OrderedDict K V) → IsDistinct dec d → IsDistinct dec (shrink n d)
  unfolding shrink
  shrink-IsDistinct n [] h = tt
  shrink-IsDistinct n (e ∷ d) h = ground (arith, shrink-IsDistinct n d h.1)

  length-remove :
      (k : K) (w : V) (d : OrderedDict K V)
      → lookup dec k d ≡ some w
      → length (remove dec k d) + 1 ≡ length d
  unfolding lookup remove
  length-remove k w [] h = cc
  length-remove k w (e ∷ d) h = ground (arith, length-remove k w d)

  pub length-remove-le : (k : K) (d : OrderedDict K V) → length (remove dec k d) ≤ length d
  unfolding remove
  length-remove-le k [] = omega arith
  length-remove-le k (e ∷ d) = ground (arith, length-remove-le k d)

  pub length-move_to_end : (k : K) (d : OrderedDict K V) → length (move_to_end dec k d) ≡ length d
  unfolding move_to_end
  length-move_to_end k d = elim (Option-cases (lookup dec k d)) [
    | inl absent ↦ ground arith
    | inr (v, found) ↦
        ground (arith, length-remove k v d found, length-append (remove dec k d) ((k, v) ∷ []))
  ]
