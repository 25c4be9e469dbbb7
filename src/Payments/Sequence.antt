-- ===== src/Payments/Sequence.antt =====
-- Requests to app/main.py's endpoint that do not overlap, with refreshes of the credentials between
-- them: how the requests with one idempotency key are answered.
pub mod Once
use mathlib.Core.Path.{subst}
use test_cusa.Prelude.{
  ℕ, suc, ◌+◌, ◌≤◌, ◌≡◌, ◌∙◌, sym, ap, refl, ◌≢◌, String, Option, none, some, List, [], ◌∷◌, arith,
  length, lookup, String_discrete,
}
use test_cusa.Runtime.{Env, Io, Result, ok, raise}
use test_cusa.OrderedDict.{OrderedDict, set_item}
use test_cusa.OrderedDict.Bounds.{
  length-set_item-le, length-shrink-le, shrink_of_length-le, length-move_to_end,
}
use test_cusa.OrderedDict.Lookup.{lookup-set_item_ne}
use test_cusa.Config.{Settings}
use test_cusa.Credentials.Load.{load_credentials}
use test_cusa.Gateway.{Payment}
use test_cusa.Models.{PaymentResponse}
use test_cusa.Idempotency.{check_idempotency, store_idempotency, idempotency_cache_max_size}
use test_cusa.Idempotency.Retention
use test_cusa.Idempotency.Retention.{
  check_idempotency_lem, lookup-store_idempotency, store-IsValid, apply-IsValid, checked,
}
use test_cusa.Payments.Handler.{App, Reply, fresh, cached, authorize_payment}
use test_cusa.Payments.Replay.{Cached}
use test_cusa.Payments.Effects.{Effect, authorize_payment-Effect}

pub data Event (Amount : Type 0) : Type 0 where
  request : Payment Amount → (state_id x_api_key : Option String) → Event Amount
  refresh : Event Amount

abbrev pub Log : Type 0 → Type 0
Log Amount = List (String × Result (Reply Amount))

module _ {Amount : Type 0} where
  abbrev pub requests : List (Event Amount) → ℕ
  requests [] = 0
  requests (request p id k ∷ es) = suc (requests es)
  requests (refresh ∷ es) = requests es

  abbrev pub pick :
      {k key : String} → Dec (k ≡ key) → Reply Amount → List (Reply Amount) → List (Reply Amount)
  pick (yes same) x rest = x ∷ rest
  pick (no other) x rest = rest

  -- The responses to the requests with the key, in order.
  unfoldable pub replies_to : String → Log Amount → List (Reply Amount)
  replies_to key [] = []
  replies_to key ((k, ok x) ∷ l) = pick (String_discrete k key) x (replies_to key l)
  replies_to key ((k, raise e) ∷ l) = replies_to key l

  -- All are the stored response.
  abbrev pub AllCached : PaymentResponse Amount → List (Reply Amount) → Type 0
  AllCached r [] = Unit
  AllCached r (cached s ∷ l) = (s ≡ r) × AllCached r l
  AllCached r (fresh s ∷ l) = ⊥

  -- The first response is a new one, and all others are that one again.
  abbrev pub Once : List (Reply Amount) → Type 0
  Once [] = Unit
  Once (fresh r ∷ l) = AllCached r l
  Once (cached r ∷ l) = ⊥

module _ {Amount : Type 0} (env : Env Amount) (settings : Settings) where
  -- One round of the refresh loop, if there is a credential manager.
  unfoldable pub reload : App Amount → Io → App Amount × Io
  unfolding load_credentials
  reload a w = elim a.credential_manager [
    | none ↦ (a, w)
    | some m ↦
        let (_, m', w') = load_credentials env settings m w in
        (record a { credential_manager = some m' }, w')
  ]

  -- The events one after the other: what each request got, under its idempotency key.
  unfoldable pub in_turn : List (Event Amount) → App Amount → Io → Log Amount × App Amount × Io
  unfolding authorize_payment reload
  in_turn [] a w = ([], a, w)
  in_turn (request p id k ∷ es) a w =
      let (r, a1, w1) = authorize_payment env settings p id k a w in
      let (l, a2, w2) = in_turn es a1 w1 in ((p.idempotency_key, r) ∷ l, a2, w2)
  in_turn (refresh ∷ es) a w = let (a1, w1) = reload a w in in_turn es a1 w1
