-- ===== src/Mock/Service/Agreement.antt =====
-- The two models of a payment: `PaymentRequest` of app/models.py and `AuthorizeRequest` of the
-- simulated gateway. What the connector takes from a client, the gateway takes from the connector.
use test_cusa.Prelude.{ℕ, ◌≡◌, String, Bool, true, some, arith}
use test_cusa.Runtime.{PostRequest}
use test_cusa.Models.{validate, has_length}
use test_cusa.Credentials.Status.{Credential}
use test_cusa.Gateway.{Payment, request_of}
use test_cusa.Mock.Service.{AuthorizeRequest, is_valid_request}

-- The JSON body of the connector's request, as the gateway's model reads it.
abbrev pub payload_of : {Amount : Type 0} → PostRequest Amount → AuthorizeRequest Amount
payload_of q = record {
  merchant_id = q.merchant_id;
  amount = q.amount;
  currency = q.currency;
  card_token = q.card_token;
  idempotency_key = q.idempotency_key;
}

module _ {Amount : Type 0} (is_positive : Amount → Bool) (is_at_most : ℕ → Amount → Bool) where
  -- A payment that the connector's model takes makes a request that the gateway's model takes.
  pub validate-is_valid_request :
      (input p : Payment Amount) (c : Credential) (url : String)
      → validate is_positive is_at_most input ≡ some p
      → is_valid_request is_positive (payload_of (request_of p c url)) ≡ true
  unfolding validate is_valid_request request_of has_length
  validate-is_valid_request input p c url taken = ground arith
