-- ===== src/Gateway/Errors.antt =====
-- What `authorize_payment` of app/gateway_client.py may raise.
use test_cusa.Prelude.{
  ℕ, suc, sym, String, Bool, true, false, Option, none, some, ◌==◌, if◌then◌else◌,
}
use test_cusa.Runtime.{Env, Exn}
use test_cusa.Runtime.Raises.{Fails, Raises, Raises-bind, Raises-if, Raises-throw}
use test_cusa.Credentials.Status.{Credential}
use test_cusa.Gateway.{
  Payment, authorize_path, with_credentials, authorize_payment, update_metric, poll_allows,
}
use test_cusa.Gateway.Fallback.{Outcome, expected, tried, settled, refused, with_credentials-Meets}
use test_cusa.Gateway.Attempts.{Verdict}
use Prim.Native.String.{◌++◌ as str_append}
use mathlib.Core.Path.{subst}

-- The two documented exceptions, two for a body of which `dict` makes no dictionary, and one for a
-- failure of the HTTP client that is no HTTP error.
pub data IsGatewayError : Exn → Type 0 where
  unavailable : IsGatewayError Exn.gateway_unavailable_error
  rejected : IsGatewayError Exn.gateway_auth_error
  garbled : IsGatewayError Exn.value_error
  scalar : IsGatewayError Exn.type_error
  crashed : IsGatewayError Exn.other_error

settled-Fails :
    (v : Verdict) (rest : Outcome)
    → Fails IsGatewayError rest.answer
    → Fails IsGatewayError (settled v rest).answer
settled-Fails Verdict.rejected rest h = h
settled-Fails (Verdict.granted d) rest h = tt
settled-Fails Verdict.unreachable rest h = IsGatewayError.unavailable
settled-Fails Verdict.garbled rest h = IsGatewayError.garbled
settled-Fails Verdict.scalar rest h = IsGatewayError.scalar
settled-Fails Verdict.crashed rest h = IsGatewayError.crashed

if_Fails :
    (b : Bool) (o o' : Outcome)
    → Fails IsGatewayError o.answer
    → Fails IsGatewayError o'.answer
    → Fails IsGatewayError (if b then o else o').answer
if_Fails true o o' h h' = h
if_Fails false o o' h h' = h'

module _ {Amount : Type 0} (env : Env Amount) where
  expected-Fails :
      (p : Payment Amount) (url : String) (n : ℕ) (primary fallback : Option Credential)
      → Fails IsGatewayError (expected env p url n primary fallback).answer
  unfolding expected
  expected-Fails p url n none fallback = IsGatewayError.rejected
  expected-Fails p url n (some primary) none =
      settled-Fails (tried env p url n primary) refused IsGatewayError.rejected
  expected-Fails p url n (some primary) (some fallback) =
      settled-Fails (tried env p url n primary) _ (
        if_Fails (fallback.identity == primary.identity) refused _ IsGatewayError.rejected
          (settled-Fails (tried env p url (suc n) fallback) refused IsGatewayError.rejected))

  update_metric-Raises : Raises IsGatewayError (update_metric env)
  unfolding update_metric
  update_metric-Raises = record { at = λ g w. tt }

  poll_allows-Raises : Raises IsGatewayError (poll_allows env)
  unfolding poll_allows
  poll_allows-Raises = record { at = λ g w. tt }

  with_credentials-Raises :
      (primary fallback : Option Credential) (p : Payment Amount)
      → Raises IsGatewayError (with_credentials env primary fallback p)
  with_credentials-Raises primary fallback p = record {
    at = λ g w.
        subst (Fails IsGatewayError)
          (sym (with_credentials-Meets env primary fallback p g w).answers)
          (expected-Fails p (str_append g.base_url authorize_path) w.posts primary fallback);
  }

  pub authorize_payment-Raises :
      (primary fallback : Option Credential) (p : Payment Amount)
      → Raises IsGatewayError (authorize_payment env primary fallback p)
  unfolding authorize_payment
  authorize_payment-Raises primary fallback p = Raises-bind _ _ update_metric-Raises λ _.
      Raises-bind _ _ poll_allows-Raises λ allowed.
        Raises-if allowed _ _ (with_credentials-Raises primary fallback p)
          (Raises-bind _ _ update_metric-Raises λ _. Raises-throw _ IsGatewayError.unavailable)
