-- ===== src/Middleware/Passing.antt =====
-- An API request that the rate limiter of app/middleware.py lets pass: what reaches the
-- application, and what is made of its answer.
use text.Mathlib.Text.{starts_with}
use test_cusa.Prelude.{suc, ◌≡◌, refl, sym, ◌∙◌, String, Bool, true, some, ◌∷◌}
use test_cusa.Prelude.Int.{ℤ}
use test_cusa.Runtime.{Env, Io, ok, pure, lift, ◌>>=◌, Result, AuditEvent}
use test_cusa.Audit.{audit_event}
use test_cusa.RateLimit.{admit}
use test_cusa.Middleware.{
  Request, Response, Server, Handler, or_made, with_request_id, with_audit, with_rate_limit, charge,
  serve,
}
use test_cusa.Middleware.Auditing.{Describes, recorded}
use mathlib.Core.Path.{subst}

abbrev pub begun : Io → Io
begun w = record w { uuids = suc w.uuids; clock_reads = suc (suc (suc w.clock_reads)) }

module _ {Amount : Type 0} (env : Env Amount) where
  -- The request's id: the one of its header, or else a new one.
  abbrev pub id_of : Request → Io → String
  id_of q w = or_made q.id_header (env.uuid4 w.uuids)

  -- What the application is called with.
  abbrev pub identified : Request → Io → Request
  identified q w = record q { request_id = some (id_of q w) }

module _ {C : Type 0} where
  -- The application's answer on its way out: it gets the id, and its access is recorded.
  pub record IsSent (q : Request) (id : String) (response : Response) (s2 : Server C) (w2 : Io)
      (r : Result Response) (s' : Server C) (w' : Io) : Type 0 where
    pub answers : r ≡ ok (record response { id_header = some id })
    pub state : s' ≡ s2
    pub posts : w'.posts ≡ w2.posts
    pub kv_reads : w'.kv_reads ≡ w2.kv_reads
    pub logged :
        (e : AuditEvent) × (w'.audit ≡ e ∷ w2.audit)
        × Describes q.path q.method id response.status_code e

module _ {Amount C : Type 0} (env : Env Amount) where
  -- The rate limiter's decision, with the buckets after it.
  abbrev pub IsAdmitted : Request → Server C → Io → Type 0
  IsAdmitted q s w =
      (admit (env.clock (suc w.clock_reads)) (env.clock (suc (suc w.clock_reads))) q.host
        s.buckets).1
      ≡ true

  abbrev pub charged : Request → Server C → Io → Server C
  charged q s w = record s {
    buckets =
        (admit (env.clock (suc w.clock_reads)) (env.clock (suc (suc w.clock_reads))) q.host
          s.buckets).0;
  }

  with_rate_limit_lem :
      (app : Handler C) (q : Request) (s : Server C) (w : Io)
      → (admit (env.clock w.clock_reads) (env.clock (suc w.clock_reads)) q.host s.buckets).1 ≡ true
      → with_rate_limit env app q s w
        ≡ app q
            (record s {
              buckets =
                  (admit
                    (env.clock w.clock_reads)
                    (env.clock (suc w.clock_reads))
                    q.host
                    s.buckets).0;
            })
            (record w { clock_reads = suc (suc w.clock_reads) })
  unfolding with_rate_limit charge
  with_rate_limit_lem app q s w admitted = rw admitted refl

  -- The way out, from what the application did.
  abbrev sent :
      (api : Bool)
      → Request
      → (id : String) → (start_time : ℤ) → Result Response × Server C × Io
      → Result Response × Server C × Io
  sent api q id start_time (r, s, w) =
      (do
        answer ← lift r >>= recorded env api q.path q.method id start_time
        pure (record answer { id_header = some id }))
        s w

  abbrev IsSentBy :
      Request → (id : String) → Response → Server C → Io → Result Response × Server C × Io → Type 0
  IsSentBy q id response s2 w2 (r, s', w') = IsSent q id response s2 w2 r s' w'

  sent_lem :
      (q : Request) (id : String) (start_time : ℤ) (response : Response) (s2 : Server C) (w2 : Io)
      → IsSentBy q id response s2 w2 (sent true q id start_time (ok response, s2, w2))
  unfolding audit_event
  sent_lem q id start_time response s2 w2 = record {
    answers = refl;
    state = refl;
    posts = refl;
    kv_reads = refl;
    logged = (
      _,
      refl,
      record {
        event = refl;
        actor = refl;
        resource = refl;
        action = refl;
        outcome = refl;
        metadata = (_, refl);
      },
    );
  }

  with_audit-IsSent :
      (next : Handler C) (q : Request) (id : String) (s : Server C) (w : Io) (response : Response)
      (s2 : Server C) (w2 : Io)
      → starts_with q.path "/api/" ≡ true
      → next (record q { request_id = some id }) s (record w { clock_reads = suc w.clock_reads })
        ≡ (ok response, s2, w2)
      → IsSentBy q id response s2 w2 (
          (do
            answer ← with_audit env next (record q { request_id = some id })
            pure (record answer { id_header = some id }))
            s w)
  unfolding with_audit audit_event
  with_audit-IsSent next q id s w response s2 w2 api answered =
      let start_time = env.clock w.clock_reads in
      subst
        (λ t. IsSentBy q id response s2 w2 (sent (starts_with q.path "/api/") q id start_time t))
        (sym answered)
        (subst (λ b. IsSentBy q id response s2 w2 (sent b q id start_time (ok response, s2, w2)))
          (sym api) (sent_lem q id start_time response s2 w2))

  pub serve-IsSent :
      (app : Handler C) (q : Request) (s : Server C) (w : Io) (response : Response) (s2 : Server C)
      (w2 : Io)
      → IsAdmitted q s w
      → starts_with q.path "/api/" ≡ true
      → app (identified env q w) (charged q s w) (begun w) ≡ (ok response, s2, w2)
      → let (r, s', w') = serve env app q s w in IsSent q (id_of env q w) response s2 w2 r s' w'
  unfolding serve with_request_id
  serve-IsSent app q s w response s2 w2 admitted api answered =
      with_audit-IsSent (with_rate_limit env app) q (id_of env q w) s
        (record w { uuids = suc w.uuids }) response s2 w2 api
        (with_rate_limit_lem app (identified env q w) s _ admitted ∙ answered)
