-- ===== src/RateLimit/Bucket.antt =====
-- One token bucket of app/middleware.py under a sequence of requests.
use test_cusa.Prelude.{
  ℕ, ◌+◌, ◌*◌, ◌≤◌, ◌≡◌, ap, Bool, true, List, [], ◌∷◌, arith, Bool-cases, inl, inr, if◌then◌else◌,
}
use mathlib.Core.Path.{subst₂}
use test_cusa.Prelude.Int.{
  ℤ, pos, pos_part, neg_part, ◌+ℤ◌, ◌-ℤ◌, ◌≤ℤ◌, scale, leb_ℤ, int_laws, +ℤ_parts, -ℤ_parts,
  scale_parts,
}
use test_cusa.RateLimit.{TokenBucket, token, refilled, consume, make_bucket}

pub record IsValid (b : TokenBucket) : Type 0 where
  pub nonneg : pos 0 ≤ℤ b.tokens
  pub fits : b.tokens ≤ℤ pos b.capacity

-- The clock does not step back.
abbrev pub Ascending : ℤ → List ℤ → Type 0
Ascending t [] = Unit
Ascending t (u ∷ us) = (t ≤ℤ u) × Ascending u us

unfoldable pub last_time : ℤ → List ℤ → ℤ
last_time t [] = t
last_time t (u ∷ us) = last_time u us

-- Requests at the given times, one token each: the bucket after them, and how many were admitted.
unfoldable pub consume_all : List ℤ → TokenBucket → TokenBucket × ℕ
unfolding consume
consume_all [] b = (b, 0)
consume_all (t ∷ ts) b =
    let (b', admitted) = consume t token b in
    let (b'', n) = consume_all ts b' in (b'', if admitted then n + 1 else n)

-- Time passed, as tokens.
scale_nonneg : (r : ℕ) (t u : ℤ) → t ≤ℤ u → pos 0 ≤ℤ scale r (u -ℤ t)
scale_nonneg r t u h =
    let d = u -ℤ t in
    let forward : neg_part d ≤ pos_part d = omega (arith, -ℤ_parts u t) in
    let more : r * neg_part d ≤ r * pos_part d = grind arith in omega (arith, scale_parts r d)

scale_chain : (r : ℕ) (t u v : ℤ) → scale r (u -ℤ t) +ℤ scale r (v -ℤ u) ≤ℤ scale r (v -ℤ t)
scale_chain r t u v = omega (
  int_laws,
  scale_parts r (u -ℤ t),
  scale_parts r (v -ℤ u),
  scale_parts r (v -ℤ t),
  ap (λ (x : ℕ). r * x) (-ℤ_parts u t),
  ap (λ (x : ℕ). r * x) (-ℤ_parts v u),
  ap (λ (x : ℕ). r * x) (-ℤ_parts v t),
)

refilled_bounds :
    (now : ℤ) (b : TokenBucket)
    → (refilled now b ≤ℤ pos b.capacity)
      × (refilled now b ≤ℤ b.tokens +ℤ scale b.rate (now -ℤ b.last_refill))
unfolding refilled
refilled_bounds now b = ground arith

refilled_nonneg :
    (now : ℤ) (b : TokenBucket) → b.last_refill ≤ℤ now → pos 0 ≤ℤ b.tokens → pos 0 ≤ℤ refilled now b
unfolding refilled
refilled_nonneg now b h v = ground (
  arith,
  +ℤ_parts b.tokens (scale b.rate (now -ℤ b.last_refill)),
  scale_nonneg b.rate b.last_refill now h,
)

-- A request takes from the tokens what it is charged, and adds at most the time's worth.
consume_cost :
    (now : ℤ) (b : TokenBucket)
    → (consume now token b).0.tokens +ℤ pos (if (consume now token b).1 then token else 0)
      ≤ℤ b.tokens +ℤ scale b.rate (now -ℤ b.last_refill)
unfolding consume
consume_cost now b = elim (Bool-cases (leb_ℤ (pos token) (refilled now b))) [
  | inl enough ↦ rw enough (omega (int_laws, (refilled_bounds now b).1))
  | inr short ↦ rw short (omega (int_laws, (refilled_bounds now b).1))
]

consume_fields :
    (now : ℤ) (b : TokenBucket)
    → ((consume now token b).0.last_refill ≡ now)
      × ((consume now token b).0.rate ≡ b.rate)
      × ((consume now token b).0.capacity ≡ b.capacity)
unfolding consume
consume_fields now b = ground arith

-- With a clock that does not step back a bucket's tokens stay between nothing and its capacity.
pub consume-IsValid :
    (now : ℤ) (b : TokenBucket) → b.last_refill ≤ℤ now → IsValid b → IsValid (consume now token b).0
unfolding consume
consume-IsValid now b h v = ground (
  arith,
  refilled_bounds now b,
  refilled_nonneg now b h v.nonneg,
  -ℤ_parts (refilled now b) (pos token),
)

charged :
    (c : Bool) (n : ℕ) → (if c then n + 1 else n) * token ≡ n * token + (if c then token else 0)
charged c n = ground arith

-- What all requests took, by the tokens before and after and the time that passed.
consume_all_cost :
    (ts : List ℤ) (b : TokenBucket)
    → (consume_all ts b).0.tokens +ℤ pos ((consume_all ts b).1 * token)
      ≤ℤ b.tokens +ℤ scale b.rate (last_time b.last_refill ts -ℤ b.last_refill)
unfolding consume_all last_time
consume_all_cost [] b =
    omega (int_laws, scale_nonneg b.rate b.last_refill b.last_refill (omega arith))
consume_all_cost (t ∷ ts) b =
    let (b', admitted) = consume t token b in
    let (same_time, same_rate, _) = consume_fields t b in
    let later : (consume_all ts b').0.tokens +ℤ pos ((consume_all ts b').1 * token)
        ≤ℤ b'.tokens +ℤ scale b.rate (last_time t ts -ℤ t) =
      subst₂
        (λ r u.
          (consume_all ts b').0.tokens +ℤ pos ((consume_all ts b').1 * token)
          ≤ℤ b'.tokens +ℤ scale r (last_time u ts -ℤ u))
        same_rate same_time (consume_all_cost ts b') in
    omega (
      int_laws,
      later,
      consume_cost t b,
      charged admitted (consume_all ts b').1,
      scale_chain b.rate b.last_refill t (last_time t ts),
    )

consume_all_nonneg :
    (ts : List ℤ) (b : TokenBucket)
    → Ascending b.last_refill ts
    → IsValid b
    → IsValid (consume_all ts b).0
unfolding consume_all
consume_all_nonneg [] b a v = v
consume_all_nonneg (t ∷ ts) b a v =
    consume_all_nonneg ts (consume t token b).0 (rw ((consume_fields t b).0) a.1)
      (consume-IsValid t b a.0 v)

-- However requests arrive at a new bucket, while the clock does not step back, the number of
-- admitted ones is at most the capacity plus the rate times the seconds that passed since it was
-- made (both sides are in millionths of a token), and the bucket stays within its capacity.
pub consume_all_bound :
    (ts : List ℤ) (made : ℤ) (rate capacity : ℕ)
    → Ascending made ts
    → (pos ((consume_all ts (make_bucket made rate capacity)).1 * token)
        ≤ℤ pos (capacity * token) +ℤ scale rate (last_time made ts -ℤ made))
      × IsValid (consume_all ts (make_bucket made rate capacity)).0
unfolding make_bucket
consume_all_bound ts made rate capacity a =
    let b = make_bucket made rate capacity in
    let v : IsValid b = omega arith in
    let after = consume_all_nonneg ts b a v in
    (omega (int_laws, consume_all_cost ts b, after.nonneg), after)

-- A client that leaves its bucket alone for the time of one token is admitted.
pub consume_refilled :
    (now : ℤ) (b : TokenBucket)
    → IsValid b
    → token ≤ b.capacity
    → pos token ≤ℤ scale b.rate (now -ℤ b.last_refill)
    → (consume now token b).1 ≡ true
unfolding consume refilled
consume_refilled now b v room waited =
    ground (arith, +ℤ_parts b.tokens (scale b.rate (now -ℤ b.last_refill)))
