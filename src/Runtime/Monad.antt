-- ===== src/Runtime/Monad.antt =====
-- Exceptions, the record of what was done to the outside world, and actions: an action reads and
-- writes its component's state, and what it wrote before it raised stays written.
use test_cusa.Prelude.{ℕ, suc, String, Bool, true, false, Option, List}
use test_cusa.Prelude.Int.{ℤ}
use test_cusa.Runtime.External.{Env}

pub data Exn : Type 0 where
  vault_connection_error vault_auth_error vault_secret_not_found_error : Exn
  gateway_unavailable_error gateway_auth_error : Exn
  http_exception : (status_code : ℕ) → (detail : String) → Exn
  attribute_error type_error value_error validation_error : Exn
  cancelled_error : Exn
  other_error : Exn

pub data Result (A : Type 0) : Type 0 where
  ok : A → Result A
  raise : Exn → Result A

-- The metadata that the audit functions attach.
pub data AuditMetadata : Type 0 where
  secret_version : Option ℤ → AuditMetadata
  versions : (old_version new_version : Option ℤ) → AuditMetadata
  rejection : (reason : String) → (request_id : Option String) → AuditMetadata
  access : (status_code : ℕ) → (duration : ℤ) → (method path : String) → AuditMetadata
  health :
      (status : String)
      → (vault_connected : Bool) → (credential_status : String) → (gateway_reachable : Bool)
      → (uptime : ℤ) → AuditMetadata

pub record AuditEvent : Type 0 where
  pub event : String
  pub actor : String
  pub resource : String
  pub action : String
  pub outcome : String
  pub metadata : AuditMetadata
  pub audit_timestamp : ℤ

-- How often each outside call was made, what was audited (newest first), and the waits of the
-- retry loop in microseconds (newest first).
pub record Io : Type 0 where
  pub clock_reads : ℕ
  pub uuids : ℕ
  pub token_reads : ℕ
  pub logins : ℕ
  pub auth_checks : ℕ
  pub kv_reads : ℕ
  pub posts : ℕ
  pub gets : ℕ
  pub audit : List AuditEvent
  pub sleeps : List ℕ

abbrev pub Action : Type 0 → Type 0 → Type 0
Action C A = C → Io → Result A × C × Io

module _ {C A : Type 0} where
  abbrev pub pure : A → Action C A
  pure a c w = (ok a, c, w)

  abbrev pub throw : Exn → Action C A
  throw e c w = (raise e, c, w)

  abbrev pub lift : Result A → Action C A
  lift r c w = (r, c, w)

  abbrev pub asks : (C → A) → Action C A
  asks f c w = (ok (f c), c, w)

infixl 5 ◌>>=◌ ◌>>◌
abbrev pub ◌>>=◌ : {C A B : Type 0} → Action C A → (A → Action C B) → Action C B
◌>>=◌ m f c w = let (r, c', w') = m c w in elim r [ ok a ↦ f a c' w' | raise e ↦ (raise e, c', w') ]

abbrev pub ◌>>◌ : {C B : Type 0} → Action C (Unit {0}) → Action C B → Action C B
m >> k = m >>= λ _. k

-- `try` and `except Exception` round what an action did.
abbrev pub catch : {C A : Type 0} → Result A × C × Io → (Exn → Action C A) → Result A × C × Io
catch (ok a, c, w) handler = (ok a, c, w)
catch (raise e, c, w) handler = handler e c w

module _ {C : Type 0} where
  abbrev pub modify : (C → C) → Action C (Unit {0})
  modify f c w = (ok tt, f c, w)

  abbrev pub modify_io : (Io → Io) → Action C (Unit {0})
  modify_io f c w = (ok tt, c, f w)

  -- `if b: m`
  abbrev pub when : Bool → Action C (Unit {0}) → Action C (Unit {0})
  when true m = m
  when false m = pure tt

  -- `time.time()`
  abbrev pub time : {Amount : Type 0} → Env Amount → Action C ℤ
  time env c w = (ok (env.clock w.clock_reads), c, record w { clock_reads = suc w.clock_reads })

  -- `str(uuid.uuid4())`
  abbrev pub uuid : {Amount : Type 0} → Env Amount → Action C String
  uuid env c w = (ok (env.uuid4 w.uuids), c, record w { uuids = suc w.uuids })
