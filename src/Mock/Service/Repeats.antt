-- ===== src/Mock/Service/Repeats.antt =====
-- What every answer of the simulated gateway leaves behind, and what a repeated request does.
use text.Mathlib.TextLemmas.{append_cancel_left}
use test_cusa.Prelude.{
  ℕ, ◌+◌, ◌-◌, ◌==◌, ◌*◌, ◌^◌, ltb, suc, ◌≡◌, ◌≢◌, refl, String, true, false, Option, some, ◌∷◌,
  arith, if◌then◌else◌,
}
use test_cusa.Prelude.Int.{◌-ℤ◌}
use test_cusa.Payments.Handler.{mem, is_missing, text_of}
use test_cusa.Mock.Keys.{get_valid_keys}
use test_cusa.Mock.Service.{
  AuthorizeRequest, AuthorizeResponse, World, is_approved, Gateway, Answer, response,
  http_exception, endpoint, observe, decide, authorize_transaction,
}

abbrev pub code : {Amount : Type 0} → Answer Amount → ℕ
code (response r) = 200
code (http_exception n d) = n

module _ (world : World) where
  -- What a request leaves behind: it is counted under its status and its time is observed, and a
  -- transaction is drawn for an answer only.
  pub record Counted (n : ℕ) (g g' : Gateway) : Type 0 where
    pub requests : g'.requests_total ≡ (endpoint, n) ∷ g.requests_total
    pub durations :
        g'.request_duration_seconds
        ≡ (endpoint, world.clock (g'.clock_reads - 1) -ℤ world.clock g.clock_reads)
          ∷ g.request_duration_seconds
    pub draws : g'.draws ≡ g.draws + (if n == 200 then 1 else 0)
    pub ids : g'.ids ≡ g.ids + (if n == 200 then 1 else 0)

  -- A request without a key is answered with 401, one with a key that is not listed with 403, and
  -- one with a listed key with 200.
  abbrev pub code_for : (x_gateway_api_key : Option String) → ℕ
  code_for key =
      if is_missing key
      then 401
      else if mem (text_of key) (get_valid_keys world.valid_api_keys)
      then 200
      else 403

  -- A response that is decided by one random number, approved if it is below 0.9, and dated by one
  -- reading of the clock.
  pub record Decided {Amount : Type 0} (draw reading : ℕ) (r : AuthorizeResponse Amount)
      : Type 0 where
    pub status :
        r.status ≡ (if ltb (10 * world.random draw) (9 * 2 ^ 53) then "approved" else "declined")
    pub timestamp : r.timestamp ≡ world.isoformat (world.clock reading)

module _ {Amount : Type 0} (world : World) where
  -- Every request is answered with the status that its key deserves; it is counted once, under that
  -- status, the time from its start is observed once, and one decision and one id are drawn if and
  -- only if the status is 200.
  pub authorize_transaction-Counted :
      (payload : AuthorizeRequest Amount) (key : Option String) (g : Gateway)
      → let (answer, g') = authorize_transaction world payload key g in
        (code answer ≡ code_for world key) × Counted world (code_for world key) g g'
  unfolding authorize_transaction observe
  authorize_transaction-Counted payload key g = ground arith

  -- A request with a listed key that is sent twice, with the same idempotency key, is decided twice,
  -- as two requests: both are counted, each response has the status of its own random number and the
  -- time of its own reading of the clock, and their transaction ids differ if their hex texts do.
  pub authorize_transaction-repeated :
      (payload : AuthorizeRequest Amount) (k : String) (g : Gateway)
      → is_missing (some k) ≡ false
      → mem k (get_valid_keys world.valid_api_keys) ≡ true
      → world.hex g.ids ≢ world.hex (suc g.ids)
      → let (one, g1) = authorize_transaction world payload (some k) g in
        let (two, g2) = authorize_transaction world payload (some k) g1 in
        (first again : AuthorizeResponse Amount) × (one ≡ response first)
        × (two ≡ response again)
        × Decided world g.draws (suc g.clock_reads) first
        × Decided world (suc g.draws) (suc (suc (suc (suc g.clock_reads)))) again
        × (first.transaction_id ≢ again.transaction_id)
        × (g2.requests_total ≡ (endpoint, 200) ∷ (endpoint, 200) ∷ g.requests_total)
  unfolding authorize_transaction observe decide is_approved
  authorize_transaction-repeated payload k g there listed ne =
      rw (there, listed)
        (
          _,
          _,
          refl,
          refl,
          record { status = ground arith; timestamp = refl },
          record { status = ground arith; timestamp = refl },
          λ e. ne (append_cancel_left "txn-" (world.hex g.ids) (world.hex (suc g.ids)) e),
          refl,
        )
