-- ===== src/RateLimit.antt =====
-- The rate limiter of app/middleware.py. A bucket's tokens are counted in millionths, so that a
-- rate in tokens per second adds exactly its value in each microsecond; the source computes in
-- floating point.
pub mod Bucket
pub mod Limiter
use test_cusa.Prelude.{
  ℕ, ◌*◌, String, Bool, true, false, Option, none, some, lookup, String_discrete, if◌then◌else◌,
}
use test_cusa.Prelude.Int.{ℤ, pos, ◌+ℤ◌, ◌-ℤ◌, scale, min_ℤ, leb_ℤ}
use test_cusa.OrderedDict.{OrderedDict, set_item, move_to_end, shrink}

abbrev pub max_rate_limit_entries : ℕ
max_rate_limit_entries = 10_000

abbrev pub rate_limit_requests_per_second : ℕ
rate_limit_requests_per_second = 100

-- One token, in millionths.
abbrev pub token : ℕ
token = 1_000_000

-- `_TokenBucket`; the rate is in tokens per second, the capacity in millionths of a token.
pub record TokenBucket : Type 0 where
  pub rate : ℕ
  pub capacity : ℕ
  pub tokens : ℤ
  pub last_refill : ℤ

unfoldable pub make_bucket : (now : ℤ) → (rate capacity : ℕ) → TokenBucket
make_bucket now rate capacity = record {
  rate = rate;
  capacity = capacity * token;
  tokens = pos (capacity * token);
  last_refill = now;
}

-- `min(capacity, tokens + elapsed * rate)`
unfoldable pub refilled : (now : ℤ) → TokenBucket → ℤ
refilled now b = min_ℤ (pos b.capacity) (b.tokens +ℤ scale b.rate (now -ℤ b.last_refill))

-- `consume`, of an amount in millionths.
unfoldable pub consume : (now : ℤ) → (amount : ℕ) → TokenBucket → TokenBucket × Bool
consume now amount b =
    let level = refilled now b in
    if leb_ℤ (pos amount) level
    then (record b { tokens = level -ℤ pos amount; last_refill = now }, true)
    else (record b { tokens = level; last_refill = now }, false)

abbrev pub Buckets : Type 0
Buckets = OrderedDict String TokenBucket

-- `_get_bucket`: the buckets, and the one of the key.
unfoldable pub get_bucket : (now : ℤ) → (key : String) → Buckets → Buckets × TokenBucket
unfolding make_bucket
get_bucket now key buckets = elim (lookup String_discrete key buckets) [
  | some b ↦ (move_to_end String_discrete key buckets, b)
  | none ↦
      let b = make_bucket now rate_limit_requests_per_second rate_limit_requests_per_second in
      (shrink max_rate_limit_entries (set_item String_discrete key b buckets), b)
]

abbrev pub client_key : Option String → String
client_key none = "unknown"
client_key (some host) = host

-- The limiter's part of `dispatch`: whether the request of this client goes on. The bucket that is
-- charged is the object in the dictionary. `made` and `now` are the clock's readings when the
-- bucket is made and when it is charged.
unfoldable pub admit : (made now : ℤ) → (host : Option String) → Buckets → Buckets × Bool
admit made now host buckets =
    let key = client_key host in
    let (buckets', b) = get_bucket made key buckets in
    let (b', admitted) = consume now token b in (set_item String_discrete key b' buckets', admitted)
