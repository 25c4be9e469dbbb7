-- ===== src/Models.antt =====
-- app/models.py: the validation of a payment request, and the payload types. An amount is a float;
-- the two comparisons of its bounds are parameters.
use Prim.Native.String.{count}
use test_cusa.Prelude.{ℕ, String, Bool, ◌&&◌, Option, none, some, leb, if◌then◌else◌}
use test_cusa.Prelude.Int.{ℤ}
use test_cusa.Gateway.{Payment}

pub data PaymentStatus : Type 0 where
  approved declined error : PaymentStatus

pub record PaymentResponse (Amount : Type 0) : Type 0 where
  pub transaction_id : String
  pub status : PaymentStatus
  pub merchant_id : String
  pub amount : Amount
  pub currency : String
  pub timestamp : ℤ

pub record HealthStatus : Type 0 where
  pub status : String
  pub vault_connected : Bool
  pub credential_status : String
  pub gateway_reachable : Bool
  pub uptime : ℤ

-- `Field(min_length=low, max_length=high)`: characters are counted.
unfoldable pub has_length : (low high : ℕ) → String → Bool
has_length low high s = leb low (count s) && leb (count s) high

module _ {Amount : Type 0} (is_positive : Amount → Bool) (is_at_most : ℕ → Amount → Bool) where
  -- `PaymentRequest`: the payment, if every field is in its range.
  unfoldable pub validate : Payment Amount → Option (Payment Amount)
  unfolding has_length
  validate p =
      if has_length 1 64 p.merchant_id
        && (is_positive p.amount && is_at_most 1_000_000 p.amount)
        && has_length 3 3 p.currency
        && has_length 1 128 p.card_token
        && has_length 1 128 p.idempotency_key
      then some p
      else none
