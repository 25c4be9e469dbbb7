-- ===== src/Payments/Schedule/Counting.antt =====
-- What holds whatever the order of arrivals, replies, cancellations and refreshes in app/main.py: the request
-- counter counts the tasks that wait, and the caches and the breaker stay well-formed.
use test_cusa.Prelude.{
  ℕ, ◌+◌, ◌-◌, ◌≡◌, refl, get_elem?, String, Option, none, some, arith, sum_of, sum_of-append,
  sum_of-set, le_sum_of,
}
use test_cusa.Runtime.{Exn, Env, Io, Result, ok, raise, Action, HttpReply}
use test_cusa.Runtime.Keeps.{Keeps, Keeps-pure, Keeps-bind}
use test_cusa.Config.{Settings}
use test_cusa.Models.{PaymentResponse}
use test_cusa.Gateway.{Payment}
use test_cusa.Gateway.Phases.{Pending, Moved, answered, sent}
use test_cusa.Payments.Handler.{App}
use test_cusa.Payments.InFlight.{Counts, prepare-Counts, finish-Counts, with_gateway-Counts}
use test_cusa.Payments.Tasks.{
  cancel, Task, waiting, finished, conclude, begin_or, begin_body, go_on, resume_body, begin,
  resume,
}
use test_cusa.Payments.Schedule.{
  cancelled, abort, System, Step, arrive, reply, refresh, Reach, here, next, open_tasks, arrived,
  replied, refreshed,
}

module _ {Amount : Type 0} (env : Env Amount) (settings : Settings) (n : ℕ) where
  begin_or-Counts :
      (found : Option (PaymentResponse Amount)) (act : Action (App Amount) (Task Amount))
      → Keeps (Counts env settings n) act
      → Keeps (Counts env settings n) (begin_or env settings found act)
  begin_or-Counts none act k = k
  begin_or-Counts (some r) act k = Keeps-pure _

  begin_body-Counts :
      (p : Payment Amount) (id k : Option String)
      → Keeps (Counts env settings n) (begin_body env settings p id k)
  unfolding begin_body
  begin_body-Counts p id k = Keeps-bind _ _ (prepare-Counts env settings n p id k) λ ready.
      begin_or-Counts ready.1 _
        (Keeps-bind _ _ (with_gateway-Counts env settings n _) λ t. Keeps-pure (waiting p t))

  go_on-Counts :
      (p : Payment Amount) (moved : Moved Amount)
      → Keeps (Counts env settings n) (go_on env settings p moved)
  go_on-Counts p (answered d) =
      Keeps-bind _ _ (finish-Counts env settings n p d) λ r. Keeps-pure (finished (ok r))
  go_on-Counts p (sent t) = Keeps-pure (waiting p t)

  resume_body-Counts :
      (p : Payment Amount) (t : Pending Amount) (r : HttpReply)
      → Keeps (Counts env settings n) (resume_body env settings p t r)
  unfolding resume_body
  resume_body-Counts p t r = Keeps-bind _ _ (with_gateway-Counts env settings n _) (go_on-Counts p)

conclude_counts :
    {Amount : Type 0} (out : Result (Task Amount) × App Amount × Io) (n : ℕ)
    → out.1.in_flight ≡ n + 1
    → let (x, a, _) = conclude out in a.in_flight ≡ n + open_tasks x
unfolding conclude
conclude_counts (ok (waiting p t), a, w) n e = omega arith
conclude_counts (ok (finished r), a, w) n e = omega arith
conclude_counts (raise e, a, w) n h = omega arith

-- The counter of running requests is the number of tasks that wait for the gateway.
abbrev pub Balanced : {Amount : Type 0} → System Amount → Type 0
Balanced s = s.app.in_flight ≡ sum_of open_tasks s.tasks

module _ {Amount : Type 0} (env : Env Amount) (settings : Settings) where
  arrived-Balanced :
      (p : Payment Amount) (id k : Option String) (s : System Amount)
      → Balanced s
      → Balanced (arrived env settings p id k s)
  unfolding arrived begin
  arrived-Balanced p id k s b =
      let a = record s.app { in_flight = s.app.in_flight + 1 } in
      let out = begin_body env settings p id k a s.io in
      let kept = (begin_body-Counts env settings (s.app.in_flight + 1) p id k).at a s.io refl in
      let counted = conclude_counts out s.app.in_flight kept in
      omega (arith, counted, sum_of-append open_tasks s.tasks (conclude out).0)

  pub replied-Balanced :
      (i : ℕ) (p : Payment Amount) (t : Pending Amount) (r : HttpReply) (s : System Amount)
      → get_elem? s.tasks i ≡ some (waiting p t)
      → Balanced s
      → Balanced (replied env settings i p t r s)
  unfolding replied resume
  replied-Balanced i p t r s e b =
      let out = resume_body env settings p t r s.app s.io in
      let open_one = le_sum_of open_tasks s.tasks i (waiting p t) e in
      let kept = (resume_body-Counts env settings s.app.in_flight p t r).at s.app s.io refl in
      let counted = conclude_counts out (s.app.in_flight - 1) (omega arith) in
      omega (arith, sum_of-set open_tasks s.tasks i (waiting p t) (conclude out).0 e)

  cancelled-Balanced :
      (i : ℕ) (p : Payment Amount) (t : Pending Amount) (s : System Amount)
      → get_elem? s.tasks i ≡ some (waiting p t)
      → Balanced s
      → Balanced (cancelled env settings i s)
  unfolding cancelled cancel
  cancelled-Balanced i p t s e b =
      let out : Result (Task Amount) × App Amount × Io = (raise Exn.cancelled_error, s.app, s.io) in
      let open_one = le_sum_of open_tasks s.tasks i (waiting p t) e in
      let counted = conclude_counts out (s.app.in_flight - 1) (omega arith) in
      omega (arith, sum_of-set open_tasks s.tasks i (waiting p t) (conclude out).0 e)

  pub Step-Balanced : {s u : System Amount} → Step env settings s u → Balanced s → Balanced u
  unfolding refreshed
  Step-Balanced {s} (arrive p id k) b = arrived-Balanced p id k s b
  Step-Balanced {s} (reply i p t r e) b = replied-Balanced i p t r s e b
  Step-Balanced {s} (abort i p t e) b = cancelled-Balanced i p t s e b
  Step-Balanced (refresh m e) b = b

  -- From a state in which the counter of requests in flight is the number of tasks that wait for the
  -- gateway, such as one without tasks, arrivals, replies, cancellations and refreshes lead, in whatever order, only
  -- to states in which it is that number too.
  pub Reach-Balanced : {s u : System Amount} → Reach env settings s u → Balanced s → Balanced u
  Reach-Balanced here b = b
  Reach-Balanced (next r st) b = Step-Balanced st (Reach-Balanced r b)
