-- ===== src/OrderedDict/Recency.antt =====
-- How long an entry lives: a key is kept while fewer entries than the bound stand behind it, and
-- one operation puts at most one more entry there.
use test_cusa.Prelude.{
  ℕ, ◌+◌, ◌≤◌, ◌<◌, ◌≡◌, ◌∙◌, ◌≢◌, none, some, [], ◌∷◌, ◌++◌, lookup, arith, length, length-append,
  Option-cases, inl, inr,
}
use test_cusa.OrderedDict.{OrderedDict, set_item, remove, move_to_end, shrink, behind, IsDistinct}
use test_cusa.OrderedDict.Lookup.{
  lookup-remove_ne, lookup-remove_self, lookup-set_item_self, lookup-set_item_ne,
}
use test_cusa.OrderedDict.Bounds.{
  length-remove-le, length-set_item-le, set_item_absent, length-set_item_present,
}

module _ {ℓ} {K V : Type ℓ} (dec : Discrete K) where
  pub behind-le-length : (k : K) (d : OrderedDict K V) → behind dec k d ≤ length d
  unfolding behind
  behind-le-length k [] = omega arith
  behind-le-length k (e ∷ d) = ground (arith, behind-le-length k d)

  pub behind-lt-length :
      (k : K) (v : V) (d : OrderedDict K V) → lookup dec k d ≡ some v → behind dec k d < length d
  unfolding behind lookup
  behind-lt-length k v [] h = cc
  behind-lt-length k v (e ∷ d) h = ground (arith, behind-lt-length k v d)

  -- An entry with fewer than `n` entries behind it survives the cut to `n`.
  pub lookup-shrink :
      (n : ℕ) (k : K) (v : V) (d : OrderedDict K V)
      → lookup dec k d ≡ some v
      → behind dec k d < n
      → (lookup dec k (shrink n d) ≡ some v) × (behind dec k (shrink n d) ≡ behind dec k d)
  unfolding lookup behind shrink
  lookup-shrink n k v [] h b = cc
  lookup-shrink n k v (e ∷ d) h b = ground (arith, lookup-shrink n k v d)

  pub behind-set_item_ne :
      (k j : K) (w : V) (v : V) (d : OrderedDict K V)
      → j ≢ k
      → lookup dec j d ≡ some w
      → behind dec j (set_item dec k v d) ≤ behind dec j d + 1
  unfolding behind set_item lookup
  behind-set_item_ne k j w v [] ne h = cc
  behind-set_item_ne k j w v (e ∷ d) ne h =
      ground (arith, behind-set_item_ne k j w v d ne, length-set_item-le dec k v d)

  pub behind-append :
      (k : K) (v : V) (d d' : OrderedDict K V)
      → lookup dec k d ≡ some v
      → behind dec k (d ++ d') ≡ behind dec k d + length d'
  unfolding behind lookup
  behind-append k v [] d' h = cc
  behind-append k v (e ∷ d) d' h = ground (arith, behind-append k v d d', length-append d d')

  -- A key that was not there ends up last.
  pub behind-append_new :
      (k : K) (v : V) (d : OrderedDict K V)
      → lookup dec k d ≡ none
      → behind dec k (d ++ (k, v) ∷ []) ≡ 0
  unfolding behind lookup
  behind-append_new k v [] h = ground arith
  behind-append_new k v (e ∷ d) h = ground (arith, behind-append_new k v d)

  behind-remove-le :
      (k j : K) (d : OrderedDict K V) → j ≢ k → behind dec j (remove dec k d) ≤ behind dec j d
  unfolding behind remove
  behind-remove-le k j [] ne = omega arith
  behind-remove-le k j (e ∷ d) ne =
      ground (arith, behind-remove-le k j d ne, length-remove-le dec k d)

  pub behind-move_to_end_ne :
      (k j : K) (w : V) (d : OrderedDict K V)
      → j ≢ k
      → lookup dec j d ≡ some w
      → behind dec j (move_to_end dec k d) ≤ behind dec j d + 1
  unfolding move_to_end
  behind-move_to_end_ne k j w d ne h = elim (Option-cases (lookup dec k d)) [
    | inl absent ↦ ground arith
    | inr (v, found) ↦
        rw (found, move_to_end)
          (omega (
            arith,
            behind-remove-le k j d ne,
            behind-append j w (remove dec k d) ((k, v) ∷ []) (rw (lookup-remove_ne dec k j d ne) h),
          ))
  ]

  -- A key that is put in, and was not there, is found after the cut, with nothing behind it.
  pub lookup-enter :
      (n : ℕ) (k : K) (v : V) (d : OrderedDict K V)
      → 0 < n
      → lookup dec k d ≡ none
      → (lookup dec k (shrink n (set_item dec k v d)) ≡ some v)
        × (behind dec k (shrink n (set_item dec k v d)) ≡ 0)
  lookup-enter n k v d room absent =
      let last : behind dec k (set_item dec k v d) ≡ 0 =
        rw (set_item_absent dec k v d absent) (behind-append_new k v d absent) in
      let (found, place) =
        lookup-shrink n k v (set_item dec k v d) (lookup-set_item_self dec k v d)
          (omega (arith, last)) in
      (found, place ∙ last)

  -- Another key that is put in leaves an entry that is not among the oldest.
  pub lookup-enter_ne :
      (n : ℕ) (k j : K) (v w : V) (d : OrderedDict K V)
      → j ≢ k
      → lookup dec j d ≡ some w
      → behind dec j d + 1 < n
      → (lookup dec j (shrink n (set_item dec k v d)) ≡ some w)
        × (behind dec j (shrink n (set_item dec k v d)) ≤ behind dec j d + 1)
  lookup-enter_ne n k j v w d ne found place =
      let moved = behind-set_item_ne k j w v d ne found in
      let (kept, same) =
        lookup-shrink n j w (set_item dec k v d) (lookup-set_item_ne dec k j v d ne ∙ found)
          (omega (arith, moved)) in
      (kept, omega (arith, same, moved))

  -- Writing to a key that is there moves nothing.
  pub behind-set_item_present :
      (k j : K) (v w : V) (d : OrderedDict K V)
      → lookup dec k d ≡ some w
      → behind dec j (set_item dec k v d) ≡ behind dec j d
  unfolding behind set_item lookup
  behind-set_item_present k j v w [] found = cc
  behind-set_item_present k j v w (e ∷ d) found =
      ground (arith, behind-set_item_present k j v w d, length-set_item_present dec k v w d)

  -- A key that is moved to the end has nothing behind it.
  pub behind-move_to_end_self :
      (k : K) (v : V) (d : OrderedDict K V)
      → IsDistinct dec d
      → lookup dec k d ≡ some v
      → behind dec k (move_to_end dec k d) ≡ 0
  unfolding move_to_end
  behind-move_to_end_self k v d distinct found =
      rw (found, move_to_end)
        (behind-append_new k v (remove dec k d) (lookup-remove_self dec k d distinct))
