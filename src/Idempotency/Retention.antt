-- ===== src/Idempotency/Retention.antt =====
-- How long the idempotency cache of app/main.py answers for a key.
use test_cusa.Prelude.{
  ◌+◌, ◌≤◌, ◌<◌, ◌≡◌, ◌∙◌, ◌≢◌, String, some, List, [], ◌∷◌, lookup, length, arith, Option-cases,
  inl, inr, String_discrete,
}
use test_cusa.OrderedDict.{OrderedDict, set_item, IsDistinct, behind}
use test_cusa.OrderedDict.Lookup.{lookup-set_item_self, lookup-move_to_end}
use test_cusa.OrderedDict.Bounds.{
  length-shrink-le, shrink_of_length-le, length-set_item_present, set_item-IsDistinct,
  shrink-IsDistinct, move_to_end-IsDistinct, length-move_to_end,
}
use test_cusa.OrderedDict.Recency.{
  behind-move_to_end_ne, behind-move_to_end_self, lookup-enter, lookup-enter_ne,
}
use test_cusa.Idempotency.{check_idempotency, store_idempotency, idempotency_cache_max_size}

abbrev dec : Discrete String
dec = String_discrete

-- What requests do to the cache.
pub data Op (R : Type 0) : Type 0 where
  checked : String → Op R
  stored : String → R → Op R

module _ {R : Type 0} where
  pub record IsValid (cache : OrderedDict String R) : Type 0 where
    pub distinct : IsDistinct dec cache
    pub bounded : length cache ≤ idempotency_cache_max_size

  unfoldable pub apply : Op R → OrderedDict String R → OrderedDict String R
  unfolding check_idempotency store_idempotency
  apply (checked key) cache = (check_idempotency key cache).0
  apply (stored key r) cache = store_idempotency key r cache

  unfoldable pub run : List (Op R) → OrderedDict String R → OrderedDict String R
  run [] cache = cache
  run (op ∷ ops) cache = run ops (apply op cache)

  -- No operation stores under the key.
  abbrev pub Leaves : String → List (Op R) → Type 0
  Leaves key [] = Unit
  Leaves key (checked k ∷ ops) = Leaves key ops
  Leaves key (stored k r ∷ ops) = (key ≢ k) × Leaves key ops

  Leaves-head :
      (key : String) (op : Op R) (ops : List (Op R)) → Leaves key (op ∷ ops) → Leaves key (op ∷ [])
  Leaves-head key (checked k) ops l = tt
  Leaves-head key (stored k r) ops l = (l.0, tt)

  Leaves-tail :
      (key : String) (op : Op R) (ops : List (Op R)) → Leaves key (op ∷ ops) → Leaves key ops
  Leaves-tail key (checked k) ops l = l
  Leaves-tail key (stored k r) ops l = l.1

  pub store-IsValid :
      (key : String) (r : R) (cache : OrderedDict String R)
      → IsValid cache
      → IsValid (store_idempotency key r cache)
  unfolding store_idempotency
  store-IsValid key r cache v = record {
    distinct =
        shrink-IsDistinct dec idempotency_cache_max_size (set_item dec key r cache)
          (set_item-IsDistinct dec key r cache v.distinct);
    bounded = length-shrink-le idempotency_cache_max_size (set_item dec key r cache);
  }

  pub apply-IsValid :
      (op : Op R) (cache : OrderedDict String R) → IsValid cache → IsValid (apply op cache)
  unfolding apply
  apply-IsValid (checked key) cache v =
      ground
        (arith, move_to_end-IsDistinct dec key cache v.distinct, length-move_to_end dec key cache)
  apply-IsValid (stored key r) cache v = store-IsValid key r cache v

  -- The answer of a check is what the cache holds, and the check changes no answer.
  pub check_idempotency_lem :
      (key k : String) (cache : OrderedDict String R)
      → IsValid cache
      → ((check_idempotency key cache).1 ≡ lookup dec key cache)
        × (lookup dec k (check_idempotency key cache).0 ≡ lookup dec k cache)
  unfolding check_idempotency
  check_idempotency_lem key k cache v = ground (
    arith,
    lookup-move_to_end dec key key cache v.distinct,
    lookup-move_to_end dec key k cache v.distinct,
  )

  pub lookup-store_idempotency :
      (key : String) (r : R) (cache : OrderedDict String R)
      → IsValid cache
      → lookup dec key (store_idempotency key r cache) ≡ some r
  unfolding store_idempotency
  lookup-store_idempotency key r cache v = elim (Option-cases (lookup dec key cache)) [
    | inl absent ↦ (lookup-enter dec idempotency_cache_max_size key r cache (omega arith) absent).0
    | inr (old, present) ↦
        let same = length-set_item_present dec key r old cache present in
        rw
          (shrink_of_length-le idempotency_cache_max_size (set_item dec key r cache)
            (rw same v.bounded))
          (lookup-set_item_self dec key r cache)
  ]

  -- A stored response is what the next check returns.
  pub check-store_idempotency :
      (key : String) (r : R) (cache : OrderedDict String R)
      → IsValid cache
      → (check_idempotency key (store_idempotency key r cache)).1 ≡ some r
  check-store_idempotency key r cache v =
      let v' = store-IsValid key r cache v in
      (check_idempotency_lem key key (store_idempotency key r cache) v').0
      ∙ lookup-store_idempotency key r cache v

  -- One operation that does not store under the key keeps its response, and puts at most one entry
  -- behind it.
  apply_keeps :
      (op : Op R) (key : String) (r : R) (cache : OrderedDict String R)
      → IsValid cache
      → Leaves key (op ∷ [])
      → lookup dec key cache ≡ some r
      → behind dec key cache + 1 < idempotency_cache_max_size
      → (lookup dec key (apply op cache) ≡ some r)
        × (behind dec key (apply op cache) ≤ behind dec key cache + 1)
  unfolding apply
  apply_keeps (stored k s) key r cache v leaves found place =
      lookup-enter_ne dec idempotency_cache_max_size k key s r cache leaves.0 found place
  apply_keeps (checked k) key r cache v leaves found place = elim (dec key k) [
    | yes same ↦ ground (
      arith,
      lookup-move_to_end dec k key cache v.distinct,
      behind-move_to_end_self dec k r cache v.distinct,
    )
    | no other ↦ ground (
      arith,
      lookup-move_to_end dec k key cache v.distinct,
      behind-move_to_end_ne dec k key r cache other found,
    )
  ]

  -- A response stays in the cache, and is what a check returns, through any sequence of checks and
  -- of stores under other keys that, with the entries already behind it, is shorter than the bound.
  pub run_keeps :
      (ops : List (Op R)) (key : String) (r : R) (cache : OrderedDict String R)
      → IsValid cache
      → Leaves key ops
      → lookup dec key cache ≡ some r
      → behind dec key cache + length ops < idempotency_cache_max_size
      → IsValid (run ops cache) × ((check_idempotency key (run ops cache)).1 ≡ some r)
  unfolding run
  run_keeps [] key r cache v leaves found place =
      (v, (check_idempotency_lem key key cache v).0 ∙ found)
  run_keeps (op ∷ ops) key r cache v leaves found place =
      let (kept, moved) =
        apply_keeps op key r cache v (Leaves-head key op ops leaves) found (omega arith) in
      run_keeps ops key r (apply op cache) (apply-IsValid op cache v)
        (Leaves-tail key op ops leaves) kept (omega (arith, moved))
