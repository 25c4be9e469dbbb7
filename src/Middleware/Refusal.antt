-- ===== src/Middleware/Refusal.antt =====
-- A request over the rate limit of app/middleware.py, and the request id of every answer.
use test_cusa.Prelude.{suc, ◌≡◌, false, some, arith}
use test_cusa.Runtime.{Env, Io, ok}
use test_cusa.Audit.{audit_event}
use test_cusa.RateLimit.{admit}
use test_cusa.Middleware.{
  Request, Server, Handler, or_made, with_request_id, with_audit, with_rate_limit, charge, serve,
}

module _ {Amount C : Type 0} (env : Env Amount) where
  -- A request whose client's bucket has no token is answered 429 with the request's id, the one of
  -- its header or else a new one; the application is not called, so its state is as before and
  -- nothing is sent, and only the bucket was looked at.
  pub serve_refused :
      (app : Handler C) (q : Request) (s : Server C) (w : Io)
      → (let made = env.clock (suc w.clock_reads) in
          let now = env.clock (suc (suc w.clock_reads)) in
          (admit made now q.host s.buckets).1 ≡ false)
      → let (r, s', w') = serve env app q s w in
        (r
          ≡ ok (record {
            status_code = 429;
            id_header = some (or_made q.id_header (env.uuid4 w.uuids));
          }))
        × (s'.inner ≡ s.inner)
        × (w'.posts ≡ w.posts)
  unfolding serve with_request_id with_audit with_rate_limit charge audit_event
  serve_refused app q s w refused = ground arith
