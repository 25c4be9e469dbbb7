-- ===== src/RateLimit/Limiter.antt =====
-- The rate limiter's buckets in app/middleware.py: each request charges its client's bucket and no
-- other, and the dictionary keeps its bound.
use mathlib.Core.Option
use test_cusa.Prelude.{
  ◌+◌, ◌≤◌, ◌<◌, ◌≡◌, ◌∙◌, ◌↔◌, ◌≢◌, Bool, true, String, if◌then◌else◌, Option, some, lookup,
  length, arith, String_discrete,
}
use test_cusa.Prelude.Int.{ℤ, pos, ◌+ℤ◌, ◌-ℤ◌, ◌≤ℤ◌, leb_ℤ, scale, -ℤ_parts}
use test_cusa.OrderedDict.{set_item, IsDistinct, behind}
use test_cusa.OrderedDict.Lookup.{lookup-set_item_self, lookup-set_item_ne, lookup-move_to_end}
use test_cusa.OrderedDict.Bounds.{
  length-shrink-le, length-set_item_present, set_item-IsDistinct, shrink-IsDistinct,
  move_to_end-IsDistinct, length-move_to_end,
}
use test_cusa.OrderedDict.Recency.{
  behind-move_to_end_ne, behind-set_item_present, lookup-enter, lookup-enter_ne,
}
use test_cusa.RateLimit.{
  TokenBucket, Buckets, make_bucket, consume, refilled, get_bucket, admit, client_key, token,
  max_rate_limit_entries, rate_limit_requests_per_second,
}

abbrev dec : Discrete String
dec = String_discrete

-- The bucket that a request of the client is charged to: its own, or a full one.
unfoldable pub bucket_of : (made : ℤ) → String → Buckets → TokenBucket
bucket_of made key buckets =
    Option.get_or (lookup dec key buckets)
      (make_bucket made rate_limit_requests_per_second rate_limit_requests_per_second)

pub record IsValid (buckets : Buckets) : Type 0 where
  pub distinct : IsDistinct dec buckets
  pub bounded : length buckets ≤ max_rate_limit_entries

-- What `get_bucket` hands to the charge: the client's bucket, found under its key.
get_bucket_lem :
    (made : ℤ) (key : String) (buckets : Buckets)
    → IsDistinct dec buckets
    → ((get_bucket made key buckets).1 ≡ bucket_of made key buckets)
      × (lookup dec key (get_bucket made key buckets).0 ≡ some (bucket_of made key buckets))
unfolding get_bucket bucket_of
get_bucket_lem made key buckets d = ground (
  arith,
  lookup-move_to_end dec key key buckets d,
  lookup-enter dec max_rate_limit_entries key
      (make_bucket made rate_limit_requests_per_second rate_limit_requests_per_second) buckets
      (omega arith),
)

get_bucket-IsValid :
    (made : ℤ) (key : String) (buckets : Buckets)
    → IsValid buckets
    → IsValid (get_bucket made key buckets).0
unfolding get_bucket
get_bucket-IsValid made key buckets v =
    let made_bucket =
      make_bucket made rate_limit_requests_per_second rate_limit_requests_per_second in
    let entered = set_item dec key made_bucket buckets in
    ground (
      arith,
      move_to_end-IsDistinct dec key buckets v.distinct,
      length-move_to_end dec key buckets,
      shrink-IsDistinct dec max_rate_limit_entries entered
          (set_item-IsDistinct dec key made_bucket buckets v.distinct),
      length-shrink-le max_rate_limit_entries entered,
    )

get_bucket_ne :
    (made : ℤ) (key j : String) (b : TokenBucket) (buckets : Buckets)
    → IsDistinct dec buckets
    → j ≢ key
    → lookup dec j buckets ≡ some b
    → behind dec j buckets + 1 < max_rate_limit_entries
    → (lookup dec j (get_bucket made key buckets).0 ≡ some b)
      × (behind dec j (get_bucket made key buckets).0 ≤ behind dec j buckets + 1)
unfolding get_bucket
get_bucket_ne made key j b buckets d ne found place = ground (
  arith,
  lookup-move_to_end dec key j buckets d,
  behind-move_to_end_ne dec key j b buckets ne found,
  lookup-enter_ne dec max_rate_limit_entries key j
      (make_bucket made rate_limit_requests_per_second rate_limit_requests_per_second) b buckets ne
      found place,
)

-- A bucket's tokens at a time: what it held and what its rate has added since, up to its capacity.
unfoldable pub level_at : (now : ℤ) → TokenBucket → ℤ
level_at now b =
    let grown = b.tokens +ℤ scale b.rate (now -ℤ b.last_refill) in
    if leb_ℤ grown (pos b.capacity) then grown else pos b.capacity

-- The bucket `b'` is `b` after a request at a time: without one token if it was admitted, its rate
-- and capacity as before, and dated with that time.
pub record Charged (now : ℤ) (admitted : Bool) (b b' : TokenBucket) : Type 0 where
  pub tokens : b'.tokens ≡ level_at now b -ℤ pos (if admitted then token else 0)
  pub last_refill : b'.last_refill ≡ now
  pub rate : b'.rate ≡ b.rate
  pub capacity : b'.capacity ≡ b.capacity

consume-Charged :
    (now : ℤ) (b : TokenBucket)
    → ((consume now token b).1 ≡ leb_ℤ (pos token) (level_at now b))
      × Charged now (leb_ℤ (pos token) (level_at now b)) b (consume now token b).0
unfolding consume refilled level_at
consume-Charged now b = ground (arith, -ℤ_parts (level_at now b) (pos 0))

-- A request is admitted exactly when its client's bucket holds a token after the refill, which the
-- capacity bounds; a client without a bucket has a full one. That bucket stays in the dictionary,
-- less a token if the request was admitted, with its refill dated. The dictionary keeps distinct
-- clients and at most its maximal number of them.
pub admit_lem :
    (made now : ℤ) (host : Option String) (buckets : Buckets)
    → IsValid buckets
    → let (buckets', admitted) = admit made now host buckets in
      let b = bucket_of made (client_key host) buckets in
      ((admitted ≡ true) ↔ (pos token ≤ℤ level_at now b))
      × ((b' : TokenBucket) × (lookup dec (client_key host) buckets' ≡ some b')
          × Charged now admitted b b')
      × IsValid buckets'
unfolding admit
admit_lem made now host buckets v =
    let key = client_key host in
    let (buckets', b) = get_bucket made key buckets in
    let (own, found) = get_bucket_lem made key buckets v.distinct in
    let valid = get_bucket-IsValid made key buckets v in
    let b' = (consume now token b).0 in
    let (verdict, charged) = consume-Charged now b in
    (
      rw⁻¹ own (rw verdict (ground arith)),
      (b', lookup-set_item_self dec key b' buckets', rw⁻¹ own (rw verdict charged)),
      record {
        distinct = set_item-IsDistinct dec key b' buckets' valid.distinct;
        bounded = rw (length-set_item_present dec key b' _ buckets' found) valid.bounded;
      },
    )

-- A request leaves the bucket of every other client as it is, unless that client's entry is the
-- next to be dropped; one more entry at most then stands behind it.
pub admit_ne :
    (made now : ℤ) (host : Option String) (j : String) (b : TokenBucket) (buckets : Buckets)
    → IsValid buckets
    → j ≢ client_key host
    → lookup dec j buckets ≡ some b
    → behind dec j buckets + 1 < max_rate_limit_entries
    → (lookup dec j (admit made now host buckets).0 ≡ some b)
      × (behind dec j (admit made now host buckets).0 ≤ behind dec j buckets + 1)
unfolding admit
admit_ne made now host j b buckets v ne found place =
    let key = client_key host in
    let (buckets', own) = get_bucket made key buckets in
    let (kept, place') = get_bucket_ne made key j b buckets v.distinct ne found place in
    let b' = (consume now token own).0 in
    (
      lookup-set_item_ne dec key j b' buckets' ne ∙ kept,
      rw
          (behind-set_item_present dec key j b' _ buckets'
            (get_bucket_lem made key buckets v.distinct).1)
          place',
    )
