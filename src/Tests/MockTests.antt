-- ===== src/Tests/MockTests.antt =====
-- The simulated gateway on concrete inputs.
use Prim.Native.String.{◌++◌ as str_append}
use test_cusa.Prelude.{
  true, ℕ, ◌+◌, ◌≢◌, ◌==◌, if◌then◌else◌, ◌≡◌, refl, String, some, [], ◌∷◌, arith, leb,
}
use text.Mathlib.TextEquality.{eq_iff}
use test_cusa.Runtime.{Value, Dict, HttpReply, Body}
use test_cusa.Runtime.Text.{split, join}
use test_cusa.Credentials.Status.{Credential}
use test_cusa.Models.{validate, has_length}
use test_cusa.Gateway.{with_credentials, authorize_path}
use test_cusa.Gateway.Fallback.{Meets}
use test_cusa.Payments.Handler.{mem}
use test_cusa.Mock.Keys.{is_space, get_valid_keys, clean, strip, strip_left, strip_right}
use test_cusa.Mock.Keys.Reading.{IsKey, get_valid_keys-join}
use test_cusa.Mock.Service.{
  World, Gateway, AuthorizeRequest, AuthorizeResponse, Answer, response, http_exception, endpoint,
  authorize_transaction,
}
use test_cusa.Mock.Service.Repeats.{Decided, authorize_transaction-repeated}
use test_cusa.Runtime.Convert.{get}
use test_cusa.Gateway.{request_of}
use test_cusa.Mock.Service.{is_valid_request}
use test_cusa.Mock.Service.Agreement.{payload_of, validate-is_valid_request}
use test_cusa.Mock.Service.Rotation.{Rendering, HasKey, against, rotated, with_credentials-rotated}
use test_cusa.Tests.World.{env, io, at_second}
use test_cusa.Tests.PaymentTests.{payment, credential, gateway}

abbrev one_key : String
one_key = "key-1"

one_key-IsKey : IsKey one_key
unfolding is_space
one_key-IsKey = record {
  nonempty = refl;
  plain = omega arith;
  starts = refl;
  ends = (λ _. refl, (λ _. refl, (λ _. refl, (λ _. refl, (λ _. refl, tt)))));
}

get_valid_keys-join_example : get_valid_keys (some "key-1,key-1") ≡ "key-1" ∷ "key-1" ∷ []
unfolding join
get_valid_keys-join_example =
    get_valid_keys-join "key-1" ("key-1" ∷ []) (one_key-IsKey, (one_key-IsKey, tt))

-- Spaces and empty entries are dropped.
read : get_valid_keys (some " a, ,b,,") ≡ "a" ∷ "b" ∷ []
unfolding get_valid_keys clean strip strip_left strip_right is_space split
read = refl

abbrev pub world : World
world = record {
  clock = λ n. at_second (2000 + n);
  random = λ n. 5_000_000_000_000_000;
  hex = λ n. "0123456789ab";
  isoformat = λ t. "2024-01-01T00:00:00+00:00";
  valid_api_keys = some "old-key";
}

abbrev pub mock : Gateway
mock = record {
  requests_total = [];
  request_duration_seconds = [];
  clock_reads = 0;
  draws = 0;
  ids = 0;
}

abbrev request : AuthorizeRequest ℕ
request = record {
  merchant_id = "m-1";
  amount = 1000;
  currency = "EUR";
  card_token = "tok-1";
  idempotency_key = "order-1";
}

-- The first two ids differ.
abbrev twice : World
twice = record world { hex = λ n. if n == 0 then "0123456789ab" else "ba9876543210" }

other_ids : ◌≢◌ {A = String} "0123456789ab" "ba9876543210"
other_ids = λ e. ground (arith, eq_iff "0123456789ab" "ba9876543210")

authorize_transaction-repeated_example :
    let (one, g1) = authorize_transaction twice request (some "old-key") mock in
    let (two, g2) = authorize_transaction twice request (some "old-key") g1 in
    (first again : AuthorizeResponse ℕ) × (one ≡ response first)
    × (two ≡ response again)
    × Decided twice 0 1 first
    × Decided twice 1 4 again
    × (first.transaction_id ≢ again.transaction_id)
    × (g2.requests_total ≡ (endpoint, 200) ∷ (endpoint, 200) ∷ [])
unfolding get_valid_keys clean strip strip_left strip_right is_space split mem
authorize_transaction-repeated_example =
    authorize_transaction-repeated twice request "old-key" mock refl refl other_ids

abbrev fields : AuthorizeResponse ℕ → Dict
fields r =
    ("transaction_id", Value.text r.transaction_id)
    ∷ ("status", Value.text r.status)
    ∷ ("merchant_id", Value.text r.merchant_id)
    ∷ ("currency", Value.text r.currency)
    ∷ ("timestamp", Value.text r.timestamp)
    ∷ ("message", Value.text r.message)
    ∷ []

abbrev detail : ℕ → String → Body
detail n d = Body.object (("detail", Value.text d) ∷ [])

abbrev render : Answer ℕ → HttpReply
render (response r) = HttpReply.answer 200 (Body.object (fields r))
render (http_exception n d) = HttpReply.answer n (detail n d)

pub get-transaction_id :
    (r : AuthorizeResponse ℕ) → get "transaction_id" (fields r) ≡ some (Value.text r.transaction_id)
unfolding get
get-transaction_id r = refl

pub get-status : (r : AuthorizeResponse ℕ) → get "status" (fields r) ≡ some (Value.text r.status)
unfolding get
get-status r = refl

abbrev pub rendering : Rendering ℕ
rendering = record {
  render = render;
  fields = fields;
  detail = detail;
  unprocessable = HttpReply.answer 422 Body.no_object;
  render-response = λ r. refl;
  render-http_exception = λ n d. refl;
  fields-transaction_id = get-transaction_id;
  fields-status = get-status;
}

-- The new version of the credential, whose key the gateway does not know yet, and the old one.
abbrev new_credential : Credential
new_credential = record (credential 2) { api_key = Value.text "new-key" }

abbrev pub old_credential : Credential
old_credential = record (credential 1) { api_key = Value.text "old-key" }

has_new : HasKey (leb 1) world rendering new_credential "new-key" "secret"
has_new = record { key = refl; secret = refl; nonempty = refl }

pub has_old : HasKey (leb 1) world rendering old_credential "old-key" "secret"
has_old = record { key = refl; secret = refl; nonempty = refl }

with_credentials-rotated_example :
    let (r, g', w') =
      with_credentials
        (against (leb 1) world rendering (λ n. mock) env)
        (some new_credential)
        (some old_credential)
        payment
        gateway
        io in
    Meets
      (rotated
        (leb 1)
        world
        rendering
        (λ n. mock)
        payment
        new_credential
        old_credential
        (str_append "http://gateway" authorize_path)
        0
        "new-key"
        "old-key")
      gateway
      io
      r
      g'
      w'
unfolding validate has_length
with_credentials-rotated_example =
    with_credentials-rotated (leb 1) world rendering (λ m n. leb n m) (λ n. mock) env payment
      payment new_credential old_credential "new-key" "secret" "old-key" "secret" gateway io refl
      has_new has_old refl

validate-is_valid_request_example :
    is_valid_request (leb 1) (payload_of (request_of payment (credential 1) "http://gateway"))
    ≡ true
unfolding validate has_length
validate-is_valid_request_example =
    validate-is_valid_request (leb 1) (λ m n. leb n m) payment payment (credential 1)
      "http://gateway" refl
