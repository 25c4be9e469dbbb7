-- ===== src/Payments/Sequence/Once.antt =====
-- Requests to app/main.py's endpoint that do not overlap: each idempotency key has one response.
use mathlib.Core.Path.{subst}
use test_cusa.Prelude.{
  ◌+◌, ◌≤◌, ◌≡◌, ◌∙◌, sym, ap, refl, ◌≢◌, String, none, some, List, [], ◌∷◌, arith, length, lookup,
  String_discrete,
}
use test_cusa.Runtime.{Env, Io, Result, ok, raise}
use test_cusa.OrderedDict.{OrderedDict, set_item}
use test_cusa.OrderedDict.Bounds.{length-set_item-le, shrink_of_length-le, length-move_to_end}
use test_cusa.OrderedDict.Lookup.{lookup-set_item_ne}
use test_cusa.Config.{Settings}
use test_cusa.Models.{PaymentResponse}
use test_cusa.Idempotency.{check_idempotency, store_idempotency, idempotency_cache_max_size}
use test_cusa.Idempotency.Retention
use test_cusa.Idempotency.Retention.{
  check_idempotency_lem, lookup-store_idempotency, store-IsValid, apply-IsValid, checked,
}
use test_cusa.Payments.Handler.{App, Reply, fresh, cached, authorize_payment}
use test_cusa.Payments.Replay.{Cached}
use test_cusa.Payments.Effects.{Effect, authorize_payment-Effect}
use test_cusa.Payments.Sequence.{
  Event, request, refresh, Log, requests, pick, replies_to, AllCached, Once, reload, in_turn,
}

module _ {Amount : Type 0} where
  pick_lem :
      (P : List (Reply Amount) → Type 0) (k key : String) (d : Dec (k ≡ key)) (x : Reply Amount)
      (rest : List (Reply Amount))
      → (k ≡ key → P (x ∷ rest))
      → (k ≢ key → P rest)
      → P (pick d x rest)
  pick_lem P k key (yes same) x rest hit miss = hit same
  pick_lem P k key (no other) x rest hit miss = miss other

module _ {R : Type 0} where
  -- With room in the cache, a store drops nothing.
  store_lem :
      (k : String) (r : R) (cache : OrderedDict String R)
      → length cache + 1 ≤ idempotency_cache_max_size
      → store_idempotency k r cache ≡ set_item String_discrete k r cache
  unfolding store_idempotency
  store_lem k r cache room =
      shrink_of_length-le idempotency_cache_max_size (set_item String_discrete k r cache)
        (omega (arith, length-set_item-le String_discrete k r cache))

  length-check_idempotency :
      (k : String) (cache : OrderedDict String R)
      → length (check_idempotency k cache).0 ≡ length cache
  unfolding check_idempotency
  length-check_idempotency k cache = ground (arith, length-move_to_end String_discrete k cache)

-- What a request leaves in the cache.
record Left {R : Type 0} (k : String) (before after : OrderedDict String R) : Type 0 where
  valid : Retention.IsValid after
  bounded : length after ≤ length before + 1
  others : (j : String) → j ≢ k → lookup String_discrete j after ≡ lookup String_discrete j before
  kept :
      (r : R) → lookup String_discrete k before ≡ some r → lookup String_discrete k after ≡ some r

module _ {R : Type 0} (k : String) (before : OrderedDict String R) where
  store-Left :
      (r : R)
      → Retention.IsValid before
      → length before + 1 ≤ idempotency_cache_max_size
      → lookup String_discrete k before ≡ none
      → Left k before (store_idempotency k r before)
  store-Left r v room absent =
      let stored = store_lem k r before room in
      record {
        valid = store-IsValid k r before v;
        bounded = rw stored (length-set_item-le String_discrete k r before);
        others = λ j other. rw stored (lookup-set_item_ne String_discrete k j r before other);
        kept = λ s held. ground (arith, absent, held);
      }

  check-Left : Retention.IsValid before → Left k before (check_idempotency k before).0
  check-Left v = record {
    valid = unfold Retention.apply in apply-IsValid (checked k) before v;
    bounded = omega (arith, length-check_idempotency k before);
    others = λ j other. (check_idempotency_lem k j before v).1;
    kept = λ s held. (check_idempotency_lem k k before v).1 ∙ held;
  }

  unchanged : Retention.IsValid before → Left k before before
  unchanged v = record {
    valid = v;
    bounded = omega arith;
    others = λ j other. refl;
    kept = λ s held. held;
  }

Left-lookup :
    {R : Type 0} (k key : String) (before after : OrderedDict String R) (r : R)
    → Left k before after
    → lookup String_discrete key before ≡ some r
    → lookup String_discrete key after ≡ some r
Left-lookup k key before after r left held = elim (String_discrete key k) [
  | yes same ↦
      ap (λ j. lookup String_discrete j after) same
      ∙ left.kept r (ap (λ j. lookup String_discrete j before) (sym same) ∙ held)
  | no other ↦ left.others key other ∙ held
]

module _ {Amount : Type 0} where
  Effect-Left :
      (k : String) (before : OrderedDict String (PaymentResponse Amount))
      (out : Result (Reply Amount) × App Amount × Io)
      → Retention.IsValid before
      → length before + 1 ≤ idempotency_cache_max_size
      → Effect k before out
      → Left k before out.1.idempotency_cache
  Effect-Left k before (ok (fresh r), a, w) v room (absent, stored) =
      subst (Left k before) (sym stored) (store-Left k before r v room absent)
  Effect-Left k before (ok (cached r), a, w) v room (held, looked) =
      subst (Left k before) (sym looked) (check-Left k before v)
  Effect-Left k before (raise e, a, w) v room same =
      subst (Left k before) (sym same) (unchanged k before v)

  -- A request while the key's response is stored.
  step_held :
      (k key : String) (before : OrderedDict String (PaymentResponse Amount))
      (out : Result (Reply Amount) × App Amount × Io) (r : PaymentResponse Amount) (l : Log Amount)
      → Effect k before out
      → lookup String_discrete key before ≡ some r
      → AllCached r (replies_to key l)
      → AllCached r (replies_to key ((k, out.0) ∷ l))
  unfolding replies_to
  step_held k key before (ok (fresh s), a, w) r l (absent, stored) held rest =
      pick_lem (AllCached r) k key (String_discrete k key) (fresh s) (replies_to key l)
        (λ same. ground (arith, same, absent, held)) (λ other. rest)
  step_held k key before (ok (cached s), a, w) r l (found, looked) held rest =
      pick_lem (AllCached r) k key (String_discrete k key) (cached s) (replies_to key l)
        (λ same. (ground (arith, same, found, held), rest)) (λ other. rest)
  step_held k key before (raise e, a, w) r l same held rest = rest

  -- A request while the key has no response.
  step_absent :
      (k key : String) (before : OrderedDict String (PaymentResponse Amount))
      (out : Result (Reply Amount) × App Amount × Io) (l : Log Amount)
      → Retention.IsValid before
      → Effect k before out
      → Left k before out.1.idempotency_cache
      → lookup String_discrete key before ≡ none
      → ((s : PaymentResponse Amount)
          → lookup String_discrete key out.1.idempotency_cache ≡ some s
          → AllCached s (replies_to key l))
      → (lookup String_discrete key out.1.idempotency_cache ≡ none → Once (replies_to key l))
      → Once (replies_to key ((k, out.0) ∷ l))
  unfolding replies_to
  step_absent k key before (ok (fresh s), a, w) l v (absent, stored) left none_yet hit miss =
      pick_lem Once k key (String_discrete k key) (fresh s) (replies_to key l)
        (λ same. hit s (
          ap (λ j. lookup String_discrete j a.idempotency_cache) (sym same)
          ∙ ap (lookup String_discrete k) stored
          ∙ lookup-store_idempotency k s before v))
        (λ other. miss (left.others key (λ e. other (sym e)) ∙ none_yet))
  step_absent k key before (ok (cached s), a, w) l v (found, looked) left none_yet hit miss =
      pick_lem Once k key (String_discrete k key) (cached s) (replies_to key l)
        (λ same. ground (arith, same, found, none_yet))
        (λ other. miss (left.others key (λ e. other (sym e)) ∙ none_yet))
  step_absent k key before (raise e, a, w) l v same left none_yet hit miss =
      miss (ap (lookup String_discrete key) same ∙ none_yet)

module _ {Amount : Type 0} (env : Env Amount) (settings : Settings) where
  reload_lem :
      (a : App Amount) (w : Io)
      → (reload env settings a w).0.idempotency_cache ≡ a.idempotency_cache
  unfolding reload
  reload_lem a w = ground arith

  cached_lem :
      (es : List (Event Amount)) (a : App Amount) (w : Io) (key : String)
      (r : PaymentResponse Amount)
      → Cached a
      → lookup String_discrete key a.idempotency_cache ≡ some r
      → length a.idempotency_cache + requests es ≤ idempotency_cache_max_size
      → AllCached r (replies_to key (in_turn env settings es a w).0)
  unfolding in_turn replies_to
  cached_lem [] a w key r v held room = tt
  cached_lem (request p id k ∷ es) a w key r v held room =
      let before = a.idempotency_cache in
      let out = authorize_payment env settings p id k a w in
      let effect =
        authorize_payment-Effect p.idempotency_key before env settings p id k a w refl v refl in
      let left = Effect-Left p.idempotency_key before out v (omega (arith, room)) effect in
      let (_, a1, w1) = out in
      let (l, _, _) = in_turn env settings es a1 w1 in
      step_held p.idempotency_key key before out r l effect held (
        cached_lem es a1 w1 key r left.valid
          (Left-lookup p.idempotency_key key before _ r left held)
          (omega (arith, left.bounded, room)))
  cached_lem (refresh ∷ es) a w key r v held room =
      let (a1, w1) = reload env settings a w in
      let same = reload_lem a w in
      cached_lem es a1 w1 key r (subst Retention.IsValid (sym same) v)
        (ap (lookup String_discrete key) same ∙ held) (omega (arith, ap length same, room))

  -- Requests that do not overlap, with refreshes of the credentials between them, are answered once
  -- for each idempotency key: the first response to a key that is not in the cache is a new one, and
  -- every later response to a request with that key is that very response from the cache, whatever
  -- payment it describes, and however many requests ended by an exception before or between;
  -- provided the cache is valid and has room for all the requests.
  pub in_turn-Once :
      (es : List (Event Amount)) (a : App Amount) (w : Io) (key : String)
      → Cached a
      → lookup String_discrete key a.idempotency_cache ≡ none
      → length a.idempotency_cache + requests es ≤ idempotency_cache_max_size
      → Once (replies_to key (in_turn env settings es a w).0)
  unfolding in_turn replies_to
  in_turn-Once [] a w key v none_yet room = tt
  in_turn-Once (request p id k ∷ es) a w key v none_yet room =
      let before = a.idempotency_cache in
      let out = authorize_payment env settings p id k a w in
      let effect =
        authorize_payment-Effect p.idempotency_key before env settings p id k a w refl v refl in
      let left = Effect-Left p.idempotency_key before out v (omega (arith, room)) effect in
      let (_, a1, w1) = out in
      let (l, _, _) = in_turn env settings es a1 w1 in
      let room1 : length a1.idempotency_cache + requests es ≤ idempotency_cache_max_size =
        omega (arith, left.bounded, room) in
      step_absent p.idempotency_key key before out l v effect left none_yet
        (λ s held. cached_lem es a1 w1 key s left.valid held room1)
        (λ still. in_turn-Once es a1 w1 key left.valid still room1)
  in_turn-Once (refresh ∷ es) a w key v none_yet room =
      let (a1, w1) = reload env settings a w in
      let same = reload_lem a w in
      in_turn-Once es a1 w1 key (subst Retention.IsValid (sym same) v)
        (ap (lookup String_discrete key) same ∙ none_yet) (omega (arith, ap length same, room))
