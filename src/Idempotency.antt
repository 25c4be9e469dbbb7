-- ===== src/Idempotency.antt =====
-- The idempotency cache of app/main.py: responses by idempotency key, least recently used first.
-- A response is any value here.
pub mod Retention
use test_cusa.Prelude.{ℕ, String, Option, none, some, lookup, String_discrete}
use test_cusa.OrderedDict.{OrderedDict, set_item, move_to_end, shrink}

abbrev pub idempotency_cache_max_size : ℕ
idempotency_cache_max_size = 10_000

module _ {R : Type 0} where
  -- `_check_idempotency`: the cache, and the stored response.
  unfoldable pub check_idempotency : String → OrderedDict String R → OrderedDict String R × Option R
  check_idempotency key cache = elim (lookup String_discrete key cache) [
    | none ↦ (cache, none)
    | some r ↦
        let cache' = move_to_end String_discrete key cache in
        (cache', lookup String_discrete key cache')
  ]

  unfoldable pub store_idempotency : String → R → OrderedDict String R → OrderedDict String R
  store_idempotency key r cache =
      shrink idempotency_cache_max_size (set_item String_discrete key r cache)
