-- ===== src/Mock/Service.antt =====
-- `authorize_transaction` of the simulated gateway, with its counters.
pub mod Agreement
pub mod Repeats
pub mod Rotation
use Prim.Native.String.{count, ◌++◌ as str_append}
use test_cusa.Prelude.{
  ℕ, suc, zero, ◌+◌, ◌<◌, String, Bool, true, false, not, ◌&&◌, Option, none, some, List, [], ◌∷◌,
  ltb, leb, ◌==◌, if◌then◌else◌,
}
use test_cusa.Prelude.Int.{ℤ, ◌-ℤ◌}
use test_cusa.Models.{has_length}
use test_cusa.Payments.Handler.{mem, is_missing, text_of}
use test_cusa.Mock.Keys.{get_valid_keys}

pub record AuthorizeRequest (Amount : Type 0) : Type 0 where
  pub merchant_id : String
  pub amount : Amount
  pub currency : String
  pub card_token : String
  pub idempotency_key : String

pub record AuthorizeResponse (Amount : Type 0) : Type 0 where
  pub transaction_id : String
  pub status : String
  pub merchant_id : String
  pub amount : Amount
  pub currency : String
  pub timestamp : String
  pub message : String

-- `random` is a number of steps of 2 ^ -53, of which Python's `random.random()` is a multiple;
-- `hex` is `uuid.uuid4().hex[:12]`, `isoformat` the text of a time. Each is read by the number of
-- earlier calls, and `valid_api_keys` is the environment variable.
pub record World : Type 0 where
  pub clock : ℕ → ℤ
  pub random : ℕ → ℕ
  pub hex : ℕ → String
  pub isoformat : ℤ → String
  pub valid_api_keys : Option String

-- The counters by endpoint, newest first, and how often the outside world was asked.
pub record Gateway : Type 0 where
  pub requests_total : List (String × ℕ)
  pub request_duration_seconds : List (String × ℤ)
  pub clock_reads : ℕ
  pub draws : ℕ
  pub ids : ℕ

-- A response, or an `HTTPException`.
pub data Answer (Amount : Type 0) : Type 0 where
  response : AuthorizeResponse Amount → Answer Amount
  http_exception : (status_code : ℕ) → (detail : String) → Answer Amount

abbrev pub endpoint : String
endpoint = "/api/v1/transactions/authorize"

-- `random.random() < 0.9`: the double 0.9 is this many steps of 2 ^ -53.
unfoldable pub is_approved : ℕ → Bool
is_approved n = ltb n 8_106_479_329_266_893

-- `AuthorizeRequest`'s field checks.
unfoldable pub is_valid_request :
    {Amount : Type 0} → (is_positive : Amount → Bool) → AuthorizeRequest Amount → Bool
unfolding has_length
is_valid_request is_positive r =
    leb 1 (count r.merchant_id)
    && is_positive r.amount
    && has_length 3 3 r.currency
    && leb 1 (count r.card_token)
    && leb 1 (count r.idempotency_key)

-- The request is counted and its time observed; `start` is the reading of the clock before.
unfoldable pub observe : World → (status_code : ℕ) → (start : ℤ) → Gateway → Gateway
observe world status_code start g = record g {
  requests_total = (endpoint, status_code) ∷ g.requests_total;
  request_duration_seconds =
      (endpoint, world.clock g.clock_reads -ℤ start) ∷ g.request_duration_seconds;
  clock_reads = suc g.clock_reads;
}

module _ {Amount : Type 0} (world : World) where
  -- The response to a request with a valid key.
  unfoldable pub decide : AuthorizeRequest Amount → Gateway → AuthorizeResponse Amount
  unfolding is_approved
  decide payload g =
      let approved = is_approved (world.random g.draws) in
      record {
        transaction_id = str_append "txn-" (world.hex g.ids);
        status = if approved then "approved" else "declined";
        merchant_id = payload.merchant_id;
        amount = payload.amount;
        currency = payload.currency;
        timestamp = world.isoformat (world.clock g.clock_reads);
        message = if approved then "Transaction approved" else "Transaction declined";
      }

  unfoldable pub authorize_transaction :
      AuthorizeRequest Amount
      → (x_gateway_api_key : Option String) → Gateway
      → Answer Amount × Gateway
  unfolding observe decide
  authorize_transaction payload key g0 =
      let start = world.clock g0.clock_reads in
      let g = record g0 { clock_reads = suc g0.clock_reads } in
      if is_missing key
      then (http_exception 401 "Missing API key", observe world 401 start g)
      else if not (mem (text_of key) (get_valid_keys world.valid_api_keys))
      then (http_exception 403 "Invalid API key", observe world 403 start g)
      else (
        response (decide payload g),
        observe world 200 start
            (record g { draws = suc g.draws; ids = suc g.ids; clock_reads = suc g.clock_reads }),
      )
