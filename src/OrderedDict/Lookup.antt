-- ===== src/OrderedDict/Lookup.antt =====
-- What a lookup finds after each operation of an ordered dictionary.
use test_cusa.Prelude.{
  ◌≡◌, refl, ◌≢◌, none, some, [], ◌∷◌, ◌++◌, lookup, arith, Option-cases, inl, inr,
}
use test_cusa.OrderedDict.{OrderedDict, set_item, remove, move_to_end, IsDistinct}

module _ {ℓ} {K V : Type ℓ} (dec : Discrete K) where
  pub lookup-set_item_self :
      (k : K) (v : V) (d : OrderedDict K V) → lookup dec k (set_item dec k v d) ≡ some v
  unfolding lookup set_item
  lookup-set_item_self k v [] = ground arith
  lookup-set_item_self k v (e ∷ d) = ground (arith, lookup-set_item_self k v d)

  pub lookup-set_item_ne :
      (k j : K) (v : V) (d : OrderedDict K V)
      → j ≢ k
      → lookup dec j (set_item dec k v d) ≡ lookup dec j d
  unfolding lookup set_item
  lookup-set_item_ne k j v [] h = ground arith
  lookup-set_item_ne k j v (e ∷ d) h = ground (arith, lookup-set_item_ne k j v d h)

  pub lookup-append :
      (k : K) (d d' : OrderedDict K V)
      → lookup dec k (d ++ d')
        ≡ (elim (lookup dec k d) [ none ↦ lookup dec k d' | some v ↦ some v ])
  unfolding lookup
  lookup-append k [] d' = refl
  lookup-append k (e ∷ d) d' = ground (arith, lookup-append k d d')

  pub lookup-remove_ne :
      (k j : K) (d : OrderedDict K V) → j ≢ k → lookup dec j (remove dec k d) ≡ lookup dec j d
  unfolding lookup remove
  lookup-remove_ne k j [] h = refl
  lookup-remove_ne k j (e ∷ d) h = ground (arith, lookup-remove_ne k j d h)

  pub lookup-remove_self :
      (k : K) (d : OrderedDict K V) → IsDistinct dec d → lookup dec k (remove dec k d) ≡ none
  unfolding lookup remove
  lookup-remove_self k [] h = refl
  lookup-remove_self k (e ∷ d) h = ground (arith, lookup-remove_self k d h.1)

  -- Moving an entry to the end changes no lookup.
  pub lookup-move_to_end :
      (k j : K) (d : OrderedDict K V)
      → IsDistinct dec d
      → lookup dec j (move_to_end dec k d) ≡ lookup dec j d
  unfolding lookup move_to_end
  lookup-move_to_end k j d h = elim (Option-cases (lookup dec k d)) [
    | inl absent ↦ ground arith
    | inr (v, found) ↦ ground (
      arith,
      lookup-append j (remove dec k d) ((k, v) ∷ []),
      lookup-remove_ne k j d,
      lookup-remove_self k d h,
      dec j k,
    )
  ]
