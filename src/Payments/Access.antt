-- ===== src/Payments/Access.antt =====
-- Who gets through to the gateway in app/main.py: the checks in front of it.
use mathlib.Core.Option
use test_cusa.Prelude.{
  ◌≡◌, String, Bool, true, false, not, Option, none, some, List, [], ◌∷◌, arith, ◌⊎◌, if◌then◌else◌,
}
use test_cusa.Runtime.{Env, Io, Exn, raise, AuditEvent, rejection}
use test_cusa.Config.{Settings}
use test_cusa.Audit.{audit_auth_failure}
use test_cusa.Credentials.Manager.{CredentialManager, has_valid_credentials}
use test_cusa.Gateway.{Payment}
use test_cusa.Payments.Handler.{
  App, credential_error, is_missing, text_of, mem, validate_api_key, require_credentials,
  authorize_body, prepare, authorize_payment,
}

-- The answer to a request without a valid key.
unfoldable pub denial : Option String → Exn
denial k =
    if is_missing k
    then Exn.http_exception 401 "Missing API key"
    else Exn.http_exception 403 "Invalid API key"

abbrev pub reason : Option String → String
reason k = if is_missing k then "missing_api_key" else "invalid_api_key"

-- One rejection was audited, for the request's id.
abbrev pub Rejection : String → String → (before after : List AuditEvent) → Type 0
Rejection why id before [] = ⊥
Rejection why id before (e ∷ after) =
    (after ≡ before) × (e.event ≡ "auth_failure") × (e.metadata ≡ rejection why (some id))

module _ {Amount : Type 0} (env : Env Amount) (settings : Settings) where
  -- A request whose key is missing, empty or not configured is denied with 401 or 403: nothing is
  -- sent to the gateway, no credential is looked at, the state is as before, and the rejection is
  -- audited once under the request's id, or a new one if it has none.
  pub authorize_payment_denied :
      (p : Payment Amount) (id : Option String) (k : Option String) (a : App Amount) (w : Io)
      → mem (text_of k) settings.api_keys ≡ false ⊎ is_missing k ≡ true
      → let (r, a', w') = authorize_payment env settings p id k a w in
        (r ≡ raise (denial k))
        × (a' ≡ a)
        × (w'.posts ≡ w.posts)
        × (w'.kv_reads ≡ w.kv_reads)
        × Rejection (reason k) (Option.get_or id (env.uuid4 w.uuids)) w.audit w'.audit
  unfolding authorize_payment authorize_body prepare validate_api_key audit_auth_failure denial
  authorize_payment_denied p id k a w h = ground arith

  abbrev pub unusable : Option CredentialManager → Io → Bool
  unusable none w = true
  unusable (some m) w = not (has_valid_credentials (env.clock w.clock_reads) m)

  -- Without a usable credential a request with a valid key gets 503: nothing is sent to the gateway,
  -- nothing is answered from the cache, and the state is as before.
  pub authorize_payment-unusable :
      (p : Payment Amount) (id : Option String) (k : Option String) (a : App Amount) (w : Io)
      → is_missing k ≡ false
      → mem (text_of k) settings.api_keys ≡ true
      → unusable a.credential_manager w ≡ true
      → let (r, a', w') = authorize_payment env settings p id k a w in
        (r ≡ raise credential_error) × (a' ≡ a) × (w'.posts ≡ w.posts)
  unfolding authorize_payment authorize_body prepare validate_api_key require_credentials
  authorize_payment-unusable p id k a w there known bad = ground arith
