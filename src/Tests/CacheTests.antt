-- ===== src/Tests/CacheTests.antt =====
-- The rate limiter and the idempotency cache on concrete inputs.
use text.Mathlib.TextEquality.{eq_iff}
use test_cusa.Prelude.{
  ◌↔◌, ℕ, ◌+◌, ◌*◌, ◌≤◌, ◌≡◌, refl, ◌≢◌, String, String_discrete, true, some, List, [], ◌∷◌, arith,
  lookup,
}
use test_cusa.Prelude.Int.{ℤ, pos, ◌≤ℤ◌, ◌+ℤ◌, ◌-ℤ◌, scale}
use test_cusa.OrderedDict.{behind}
use test_cusa.RateLimit.{TokenBucket, Buckets, make_bucket, consume, admit, token}
use test_cusa.RateLimit.Bucket.{last_time, consume_all, consume_all_bound, consume_refilled}
use test_cusa.RateLimit.Bucket
use test_cusa.RateLimit.Limiter
use test_cusa.RateLimit.Limiter.{bucket_of, level_at, Charged, admit_lem, admit_ne}
use test_cusa.Idempotency.Retention.{Op, checked, run, run_keeps, check-store_idempotency}
use test_cusa.Idempotency.Retention
use test_cusa.Prelude.{none, false}
use test_cusa.OrderedDict.{move_to_end, remove}
use test_cusa.RateLimit.{get_bucket, refilled}
use test_cusa.Runtime.{ok}
use test_cusa.Middleware.{Request, Server, Handler, serve}
use test_cusa.Middleware.Refusal.{serve_refused}
use test_cusa.Tests.World.{env, io, at_second}

abbrev arrivals : List ℤ
arrivals = at_second 1 ∷ at_second 1 ∷ at_second 2 ∷ []

consume_all_bound_example :
    (pos ((consume_all arrivals (make_bucket (at_second 1) 100 100)).1 * token)
      ≤ℤ pos (100 * token) +ℤ scale 100 (last_time (at_second 1) arrivals -ℤ at_second 1))
    × Bucket.IsValid (consume_all arrivals (make_bucket (at_second 1) 100 100)).0
consume_all_bound_example = consume_all_bound arrivals (at_second 1) 100 100 (omega arith)

abbrev drained : TokenBucket
drained = record { rate = 100; capacity = 100 * token; tokens = pos 0; last_refill = at_second 1 }

consume_refilled_example : (consume (at_second 2) token drained).1 ≡ true
unfolding scale ◌-ℤ◌
consume_refilled_example =
    consume_refilled (at_second 2) drained (omega arith) (omega arith) (omega arith)

abbrev buckets : Buckets
buckets = ("10.0.0.1", drained) ∷ []

buckets-IsValid : Limiter.IsValid buckets
unfolding lookup
buckets-IsValid = record { distinct = (refl, tt); bounded = omega arith }

admit_lem_example :
    let (buckets', admitted) = admit (at_second 1) (at_second 1) (some "10.0.0.1") buckets in
    let b = bucket_of (at_second 1) "10.0.0.1" buckets in
    ((admitted ≡ true) ↔ (pos token ≤ℤ level_at (at_second 1) b))
    × ((b' : TokenBucket) × (lookup String_discrete "10.0.0.1" buckets' ≡ some b')
        × Charged (at_second 1) admitted b b')
    × Limiter.IsValid buckets'
admit_lem_example = admit_lem (at_second 1) (at_second 1) (some "10.0.0.1") buckets buckets-IsValid

another_client : ◌≢◌ {A = String} "10.0.0.1" "10.0.0.2"
another_client = λ e. ground (arith, eq_iff "10.0.0.1" "10.0.0.2")

admit_ne_example :
    let (buckets', _) = admit (at_second 1) (at_second 1) (some "10.0.0.2") buckets in
    (lookup String_discrete "10.0.0.1" buckets' ≡ some drained)
    × (behind String_discrete "10.0.0.1" buckets' ≤ behind String_discrete "10.0.0.1" buckets + 1)
unfolding lookup behind String_discrete
admit_ne_example =
    admit_ne (at_second 1) (at_second 1) (some "10.0.0.2") "10.0.0.1" drained buckets
      buckets-IsValid another_client refl (omega arith)

abbrev responses : List (String × ℕ)
responses = ("order-1", 1) ∷ []

responses-IsValid : Retention.IsValid responses
unfolding lookup
responses-IsValid = record { distinct = (refl, tt); bounded = omega arith }

abbrev pub query : Request
query = record {
  path = "/api/v1/authorize";
  method = "POST";
  host = some "10.0.0.1";
  id_header = none;
  request_id = none;
}

-- The client's bucket was emptied at the moment that the request arrives.
abbrev server : Server ℕ
server = record {
  buckets = ("10.0.0.1", record drained { last_refill = at_second 1002 }) ∷ [];
  inner = 5;
}

abbrev counting : Handler ℕ
counting q s w =
    (ok (record { status_code = 200; id_header = none }), record s { inner = s.inner + 1 }, w)

is_refused : (admit (at_second 1001) (at_second 1002) (some "10.0.0.1") server.buckets).1 ≡ false
unfolding admit get_bucket consume refilled scale ◌-ℤ◌ ◌+ℤ◌ lookup move_to_end remove
    String_discrete
is_refused = refl

serve_refused_example :
    let (r, s, w) = serve env counting query server io in
    (r ≡ ok (record { status_code = 429; id_header = some "uuid" })) × (s.inner ≡ 5) × (w.posts ≡ 0)
serve_refused_example = serve_refused env counting query server io is_refused
