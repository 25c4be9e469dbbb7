-- ===== src/Middleware/Auditing.antt =====
-- The audit log of app/middleware.py: which accesses it records, and how.
use text.Mathlib.Text.{starts_with, ◌==◌ as str_eq}
use test_cusa.Prelude.{
  ℕ, suc, ◌+◌, ◌≡◌, refl, String, Bool, true, false, some, none, List, [], ◌∷◌, ltb, if◌then◌else◌,
}
use test_cusa.Prelude.Int.{ℤ, ◌-ℤ◌}
use test_cusa.Runtime.{
  Env, Io, Result, ok, raise, AuditEvent, access, lift, Action, ◌>>=◌, ◌>>◌, when, time, pure,
}
use test_cusa.Runtime.Convert.{round}
use test_cusa.Audit.{audit_event}
use test_cusa.RateLimit.{admit}
use test_cusa.Middleware.{
  Request, Response, Server, Handler, or_made, or_unknown, with_request_id, with_audit,
  with_rate_limit, charge, serve,
}

-- How many accesses are recorded.
abbrev pub accesses : List AuditEvent → ℕ
accesses [] = 0
accesses (e ∷ es) = (if str_eq e.event "api_access" then 1 else 0) + accesses es

-- The record of an access by a request with an id, answered with a status.
pub record Describes (path method id : String) (status_code : ℕ) (e : AuditEvent) : Type 0 where
  pub event : e.event ≡ "api_access"
  pub actor : e.actor ≡ id
  pub resource : e.resource ≡ path
  pub action : e.action ≡ method
  pub outcome : e.outcome ≡ (if ltb status_code 400 then "success" else "failure")
  pub metadata : (d : ℤ) × (e.metadata ≡ access status_code d method path)

-- What a request leaves in the log.
abbrev pub AuditedIf :
    (api : Bool)
    → (path method id : String) → (before : List AuditEvent) → Result Response
    → (after : List AuditEvent) → Type 0
AuditedIf api path method id before (raise e) after = accesses after ≡ accesses before
AuditedIf false path method id before (ok response) after = accesses after ≡ accesses before
AuditedIf true path method id before (ok response) after =
    (e : AuditEvent) × (rest : List AuditEvent) × (after ≡ e ∷ rest)
    × (accesses rest ≡ accesses before)
    × Describes path method id response.status_code e

abbrev pub Audited :
    Request
    → (id : String) → (before : List AuditEvent) → Result Response
    → (after : List AuditEvent) → Type 0
Audited q id = AuditedIf (starts_with q.path "/api/") q.path q.method id

-- The header with the id changes nothing in the log.
named_lem :
    {C : Type 0} (api : Bool) (path method id : String) (before : List AuditEvent)
    (r : Result Response) (s : Server C) (w : Io)
    → AuditedIf api path method id before r w.audit
    → let (r', _, w') =
        (lift r >>= λ response. pure (record response { id_header = some id })) s w in
      AuditedIf api path method id before r' w'.audit
named_lem api path method id before (raise e) s w h = h
named_lem true path method id before (ok response) s w h = h
named_lem false path method id before (ok response) s w h = h

-- A handler that records no access.
pub record IsSilent {C : Type 0} (h : Handler C) : Type 0 where
  pub at :
      (q : Request) (s : Server C) (w : Io)
      → let (_, _, w') = h q s w in accesses w'.audit ≡ accesses w.audit

if_quiet :
    {C A : Type 0} (b : Bool) (m n : Action C A) (c : C) (w : Io)
    → accesses (m c w).2.audit ≡ accesses w.audit
    → accesses (n c w).2.audit ≡ accesses w.audit
    → accesses ((if b then m else n) c w).2.audit ≡ accesses w.audit
if_quiet true m n c w km kn = km
if_quiet false m n c w km kn = kn

module _ {Amount C : Type 0} (env : Env Amount) where
  with_rate_limit-IsSilent : (app : Handler C) → IsSilent app → IsSilent (with_rate_limit env app)
  unfolding with_rate_limit charge
  with_rate_limit-IsSilent app silent = record {
    at = λ q s w.
        let now = env.clock (suc w.clock_reads) in
        let decided = admit (env.clock w.clock_reads) now q.host s.buckets in
        let s1 = record s { buckets = decided.0 } in
        let w1 = record w { clock_reads = suc (suc w.clock_reads) } in
        if_quiet decided.1 (app q) (pure (record { status_code = 429; id_header = none })) s1 w1
          (silent.at q s1 w1) refl;
  }

  -- The end of the audit, from the handler's result on.
  abbrev pub recorded :
      (api : Bool)
      → (path method id : String) → (start_time : ℤ) → Response
      → Action (Server C) Response
  recorded api path method id start_time response = do
    end_time ← time env
    when api (
        audit_event env "api_access" id path method
          (if ltb response.status_code 400 then "success" else "failure")
          (access response.status_code (round 100 (end_time -ℤ start_time)) method path))
    pure response

  recorded_lem :
      (api : Bool) (path method id : String) (start_time : ℤ) (before : List AuditEvent)
      (r : Result Response) (s : Server C) (w : Io)
      → accesses w.audit ≡ accesses before
      → let (r', _, w') = (lift r >>= recorded api path method id start_time) s w in
        AuditedIf api path method id before r' w'.audit
  unfolding audit_event
  recorded_lem api path method id start_time before (raise e) s w kept = kept
  recorded_lem false path method id start_time before (ok response) s w kept = kept
  recorded_lem true path method id start_time before (ok response) s w kept = (
    _,
    w.audit,
    refl,
    kept,
    record {
      event = refl;
      actor = refl;
      resource = refl;
      action = refl;
      outcome = refl;
      metadata = (_, refl);
    },
  )

  with_audit-Audited :
      (next : Handler C) (q : Request) (s : Server C) (w : Io)
      → IsSilent next
      → let (r, _, w') = with_audit env next q s w in
        Audited q (or_unknown q.request_id) w.audit r w'.audit
  unfolding with_audit audit_event
  with_audit-Audited next q s w silent =
      let w1 = record w { clock_reads = suc w.clock_reads } in
      let (r, s2, w2) = next q s w1 in
      recorded_lem (starts_with q.path "/api/") q.path q.method (or_unknown q.request_id)
        (env.clock w.clock_reads) w.audit r s2 w2 (silent.at q s w1)

  -- An API request that is answered, by the application or by the rate limiter, leaves exactly one
  -- access in the log, the newest event: under its id, with its path and method, the answer's status
  -- and whether it is below 400. A request to another path leaves none, and one that ends by an
  -- exception leaves none either. The application itself records no access.
  pub serve-Audited :
      (app : Handler C) (q : Request) (s : Server C) (w : Io)
      → IsSilent app
      → let (r, _, w') = serve env app q s w in
        Audited q (or_made q.id_header (env.uuid4 w.uuids)) w.audit r w'.audit
  unfolding serve with_request_id
  serve-Audited app q s w silent =
      let id = or_made q.id_header (env.uuid4 w.uuids) in
      let q1 = record q { request_id = some id } in
      let w1 = record w { uuids = suc w.uuids } in
      let limited = with_rate_limit env app in
      let (r, s2, w2) = with_audit env limited q1 s w1 in
      named_lem (starts_with q.path "/api/") q.path q.method id w.audit r s2 w2
        (with_audit-Audited limited q1 s w1 (with_rate_limit-IsSilent app silent))
