-- ===== src/Vault/Secrecy.antt =====
-- What the Vault client of app/vault_client.py does with the secret that it reads: nothing but to
-- hand it on. A disguise of the secret's values changes the result alone.
use text.Mathlib.Text.{◌==◌ as str_eq}
use test_cusa.Prelude.{
  arith, sym, ℕ, suc, zero, ◌≡◌, refl, ap, ◌∙◌, String, Bool, true, false, ◌||◌, Option, none, some,
  [], ◌∷◌,
}
use test_cusa.Runtime.{
  Env, Action, Io, Result, ok, raise, Value, Dict, Payload, Field, Wrapper, Metadata, HvacClient,
  KvReply, when, lift,
}
use test_cusa.Runtime.Blind.{map_result, image, Blind, Blind-bind}
use test_cusa.Config.{Settings, or_default}
use test_cusa.Audit.{audit_credential_access, audit_event}
use test_cusa.Vault.Client.{
  VaultClient, SecretData, Verdict, get_client, create_client, login_with, read_token_file,
  kubernetes_login, session, read_secret_version, kv2_outcome, parse_response, secret_of,
  payload_or_empty, read_kv2, attempt_read, tried, verdict, conclude, attempts, read_secret, sleep,
  max_retries,
}
use test_cusa.Vault.Path.{parse_kv2_path}

module _ (disguise : Value → Value) where
  abbrev pub hide_value : Bool → Value → Value
  hide_value true v = disguise v
  hide_value false v = v

  -- The key and the secret of the credential.
  abbrev pub hide_dict : Dict → Dict
  hide_dict [] = []
  hide_dict ((n, v) ∷ d) =
      (n, hide_value (str_eq "api_key" n || str_eq "api_secret" n) v) ∷ hide_dict d

  abbrev pub hide_payload : Payload → Payload
  hide_payload Payload.opaque = Payload.opaque
  hide_payload (Payload.dict d) = Payload.dict (hide_dict d)

  abbrev pub hide_secret : SecretData → SecretData
  hide_secret s = record s { secret_payload = hide_payload s.secret_payload }

  abbrev hide_wrapped : Option Payload → Option Payload
  hide_wrapped none = none
  hide_wrapped (some p) = some (hide_payload p)

  abbrev hide_field : Field Wrapper → Field Wrapper
  hide_field Field.absent = Field.absent
  hide_field Field.not_a_dict = Field.not_a_dict
  hide_field (Field.given x) = Field.given (record x { payload = hide_wrapped x.payload })

  abbrev hide_reply : KvReply → KvReply
  hide_reply (KvReply.response d) = KvReply.response (hide_field d)
  hide_reply KvReply.nothing = KvReply.nothing
  hide_reply KvReply.invalid_path = KvReply.invalid_path
  hide_reply KvReply.forbidden = KvReply.forbidden
  hide_reply KvReply.vault_error = KvReply.vault_error
  hide_reply KvReply.failed = KvReply.failed

  -- A Vault whose secrets have a disguised key and secret.
  abbrev pub hidden : {Amount : Type 0} → Env Amount → Env Amount
  hidden env = record env { kv_read = λ n c mount path. hide_reply (env.kv_read n c mount path) }

  abbrev hide_verdict : Verdict → Verdict
  hide_verdict (Verdict.finished s) = Verdict.finished (hide_secret s)
  hide_verdict (Verdict.fatal e) = Verdict.fatal e
  hide_verdict Verdict.transient = Verdict.transient

  -- The client itself holds no secret of the store.
  abbrev same : VaultClient → VaultClient
  same v = v

  kv2_outcome-hide :
      (r : KvReply) → kv2_outcome (hide_reply r) ≡ map_result hide_field (kv2_outcome r)
  unfolding kv2_outcome
  kv2_outcome-hide (KvReply.response d) = refl
  kv2_outcome-hide KvReply.nothing = refl
  kv2_outcome-hide KvReply.invalid_path = refl
  kv2_outcome-hide KvReply.forbidden = refl
  kv2_outcome-hide KvReply.vault_error = refl
  kv2_outcome-hide KvReply.failed = refl

  secret_of-hide :
      (p : Option Payload) (m : Field Metadata)
      → secret_of (hide_wrapped p) m ≡ map_result hide_secret (secret_of p m)
  unfolding secret_of payload_or_empty
  secret_of-hide none Field.absent = refl
  secret_of-hide none Field.not_a_dict = refl
  secret_of-hide none (Field.given m) = refl
  secret_of-hide (some p) Field.absent = refl
  secret_of-hide (some p) Field.not_a_dict = refl
  secret_of-hide (some p) (Field.given m) = refl

  parse_response-hide :
      (f : Field Wrapper)
      → parse_response (hide_field f) ≡ map_result hide_secret (parse_response f)
  unfolding parse_response
  parse_response-hide Field.absent = secret_of-hide none Field.absent
  parse_response-hide Field.not_a_dict = refl
  parse_response-hide (Field.given x) = secret_of-hide x.payload x.metadata

  verdict-hide :
      (r : Result SecretData) → verdict (map_result hide_secret r) ≡ hide_verdict (verdict r)
  unfolding verdict
  verdict-hide (ok s) = refl
  verdict-hide (raise e) = ground arith

  image_id : {A : Type 0} (out : Result A × VaultClient × Io) → image same (λ x. x) out ≡ out
  image_id (ok a, v, w) = refl
  image_id (raise e, v, w) = refl

  module _ {Amount : Type 0} (env : Env Amount) where
    get_client-Blind : Blind same (λ c. c) (get_client env) (get_client (hidden env))
    unfolding get_client create_client login_with read_token_file kubernetes_login session
    get_client-Blind = record { at = λ v w. sym (image_id (get_client env v w)) }

    read_secret_version-Blind :
        (c : HvacClient) (mount path : String)
        → Blind same hide_reply
            (read_secret_version env c mount path)
            (read_secret_version (hidden env) c mount path)
    unfolding read_secret_version
    read_secret_version-Blind c mount path = record { at = λ v w. refl }

    read_kv2-Blind :
        (path : String) → Blind same hide_field (read_kv2 env path) (read_kv2 (hidden env) path)
    unfolding read_kv2
    read_kv2-Blind path =
        let (mount, sub) = parse_kv2_path path in
        Blind-bind _ _ _ _ get_client-Blind λ c.
          Blind-bind _ _ (λ r. lift (kv2_outcome r)) (λ r. lift (kv2_outcome r))
            (read_secret_version-Blind c mount sub)
            λ r. record { at = λ v w. ap (λ x. (x, v, w)) (kv2_outcome-hide r) }

    attempt_read-Blind :
        (path : String)
        → Blind same hide_secret (attempt_read env path) (attempt_read (hidden env) path)
    unfolding attempt_read
    attempt_read-Blind path =
        Blind-bind _ _ (λ r. lift (parse_response r)) (λ r. lift (parse_response r))
          (read_kv2-Blind path)
          λ r. record { at = λ v w. ap (λ x. (x, v, w)) (parse_response-hide r) }

    tried-Blind :
        (path : String) → Blind same hide_verdict (tried env path) (tried (hidden env) path)
    unfolding verdict
    tried-Blind path = record {
      at = λ v w.
          let (r, v1, w1) = attempt_read env path v w in
          ap (λ (x : Result SecretData × VaultClient × Io). (ok (verdict x.0), x.1, x.2))
            ((attempt_read-Blind path).at v w)
          ∙ ap (λ x. (ok x, v1, w1)) (verdict-hide r);
    }

    when-Blind : (b : Bool) (n : ℕ) → Blind same (λ x. x) (when b (sleep n)) (when b (sleep n))
    unfolding sleep
    when-Blind true n = record { at = λ v w. refl }
    when-Blind false n = record { at = λ v w. refl }

    conclude-Blind :
        (path : String) (left : ℕ) (retry retry' : Action VaultClient SecretData) (o : Verdict)
        → Blind same hide_secret retry retry'
        → Blind same hide_secret
            (conclude env path left retry o)
            (conclude (hidden env) path left retry' (hide_verdict o))
    unfolding conclude audit_credential_access audit_event
    conclude-Blind path left retry retry' (Verdict.finished s) b = record { at = λ v w. refl }
    conclude-Blind path left retry retry' (Verdict.fatal e) b = record { at = λ v w. refl }
    conclude-Blind path left retry retry' Verdict.transient b =
        Blind-bind {f = λ x. x} _ _ _ _ (when-Blind _ _) λ _. b

    attempts-Blind :
        (path : String) (n : ℕ)
        → Blind same hide_secret (attempts env path n) (attempts (hidden env) path n)
    unfolding attempts audit_credential_access audit_event
    attempts-Blind path zero = record { at = λ v w. refl }
    attempts-Blind path (suc n) =
        Blind-bind _ _ (conclude env path n (attempts env path n))
          (conclude (hidden env) path n (attempts (hidden env) path n)) (tried-Blind path)
          λ o. conclude-Blind path n _ _ o (attempts-Blind path n)

    pub read_secret-Blind :
        (settings : Settings) (path : Option String)
        → Blind same hide_secret
            (read_secret env settings path)
            (read_secret (hidden env) settings path)
    unfolding read_secret
    read_secret-Blind settings path =
        attempts-Blind (or_default path settings.vault_secret_path) max_retries
