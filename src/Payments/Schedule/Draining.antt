-- ===== src/Payments/Schedule/Draining.antt =====
-- The service stops waiting: app/main.py sends at most two requests for a payment, so once no more
-- requests arrive, replies alone bring every task to its end.
use test_cusa.Prelude.{
  ℕ, suc, zero, ◌+◌, ◌*◌, ◌∙◌, ◌<◌, ◌≤◌, ◌≡◌, ◌==◌, Bool-cases, inl, inr, ◌⊎◌, refl, get_elem?,
  Option, none, some, List, [], ◌∷◌, arith, sum_of, sum_of-set,
}
use test_cusa.Runtime.{Env, Io, Result, ok, raise, Action, HttpReply, Dict, pure, ◌>>=◌, lift}
use test_cusa.Config.{Settings}
use test_cusa.Credentials.Status.{Credential}
use test_cusa.Gateway.{GatewayClient, Payment, settle, or_else, all_rejected}
use test_cusa.Audit.{audit_auth_failure}
use test_cusa.Gateway.Phases
use test_cusa.Gateway.Phases.{Pending, first_try, second_try, Moved, answered, sent}
use test_cusa.Payments.Handler.{App, with_gateway, on_gateway, finish}
use test_cusa.Payments.Tasks.{Task, waiting, finished, conclude, go_on, resume_body, resume}
use test_cusa.Payments.Schedule.{System, open_tasks, replies_left, replied}
use test_cusa.Payments.Schedule.Counting.{Balanced, replied-Balanced}

-- The result of a phase keeps a property.
abbrev Yields : {C A : Type 0} → (A → Type 0) → Result A × C × Io → Type 0
Yields P (ok x, c, w) = P x
Yields P (raise e, c, w) = Unit

rest_Yields :
    {C A B : Type 0} (P : B → Type 0) (f : A → Action C B)
    → ((x : A) (c : C) (w : Io) → Yields P (f x c w))
    → (r : Result A) (c : C) (w : Io) → Yields P ((lift r >>= f) c w)
rest_Yields P f h (ok x) c w = h x c w
rest_Yields P f h (raise e) c w = tt

-- How many replies a phase leaves to wait for.
abbrev left : {Amount : Type 0} → Moved Amount → ℕ
left (answered d) = 0
left (sent (first_try a primary fallback)) = 2
left (sent (second_try a)) = 1

abbrev awaited : {Amount : Type 0} → Pending Amount → ℕ
awaited (first_try a primary fallback) = 2
awaited (second_try a) = 1

module _ {Amount : Type 0} (env : Env Amount) where
  reject-left :
      (g : GatewayClient) (w : Io)
      → Yields (λ (m : Moved Amount). left m < 2) (Phases.reject env g w)
  unfolding Phases.reject all_rejected audit_auth_failure
  reject-left g w = tt

  after_first-left :
      (found : Option Dict) (primary : Credential) (fallback : Option Credential)
      (p : Payment Amount) (g : GatewayClient) (w : Io)
      → Yields
          (λ (m : Moved Amount). left m < 2)
          (Phases.after_first env found primary fallback p g w)
  unfolding Phases.after_first Phases.launch
  after_first-left (some d) primary fallback p g w = omega arith
  after_first-left none primary none p g w = reject-left g w
  after_first-left none primary (some c) p g w =
      elim (Bool-cases (c.identity == primary.identity)) [
        | inl same ↦ rw same (reject-left g w)
        | inr other ↦ rw other (omega arith)
      ]

  answered-left :
      (found : Option Dict) (g : GatewayClient) (w : Io)
      → Yields
          (λ (m : Moved Amount). left m < 1)
          ((or_else env found (all_rejected env) >>= λ d. pure (answered d)) g w)
  unfolding all_rejected audit_auth_failure
  answered-left none g w = tt
  answered-left (some d) g w = omega arith

  resume-left :
      (t : Pending Amount) (r : HttpReply) (g : GatewayClient) (w : Io)
      → Yields (λ (m : Moved Amount). left m < awaited t) (Phases.resume env t r g w)
  unfolding Phases.resume
  resume-left (first_try a primary fallback) r g w =
      let (found, g', w') = settle env a.start_time r g w in
      rest_Yields (λ (m : Moved Amount). left m < 2) _
        (λ d. after_first-left d primary fallback a.payment) found g' w'
  resume-left (second_try a) r g w =
      let (found, g', w') = settle env a.start_time r g w in
      rest_Yields (λ (m : Moved Amount). left m < 1) _ answered-left found g' w'

module _ {Amount : Type 0} (env : Env Amount) (settings : Settings) where
  on_gateway-Yields :
      {A : Type 0} (P : A → Type 0) (r : Result A) (g : GatewayClient) (a : App Amount) (w : Io)
      → Yields P (r, g, w)
      → Yields P (on_gateway env settings g (lift r) a w)
  unfolding on_gateway
  on_gateway-Yields P (ok x) g a w h = h
  on_gateway-Yields P (raise e) g a w h = tt

  with_gateway-Yields :
      {A : Type 0} (P : A → Type 0) (act : Action GatewayClient A)
      → ((g : GatewayClient) (w : Io) → Yields P (act g w))
      → (a : App Amount) (w : Io) → Yields P (with_gateway env settings act a w)
  unfolding with_gateway
  with_gateway-Yields P act h a w = held_lem a.gateway_client
    where
      held_lem :
          (held : Option GatewayClient)
          → Yields P (with_gateway env settings act (record a { gateway_client = held }) w)
      held_lem none = tt
      held_lem (some g) = let (r, g', w') = act g w in on_gateway-Yields P r g' a w' (h g w)

  go_on-left :
      (p : Payment Amount) (m : Moved Amount) (n : ℕ) (a : App Amount) (w : Io)
      → left m < n
      → Yields (λ (x : Task Amount). replies_left x < n) (go_on env settings p m a w)
  go_on-left p (answered d) n a w h =
      let (r, a', w') = finish env settings p d a w in
      rest_Yields (λ (x : Task Amount). replies_left x < n) (λ y. pure (finished (ok y)))
        (λ y a2 w2. omega arith) r a' w'
  go_on-left p (sent (first_try x primary fallback)) n a w h = h
  go_on-left p (sent (second_try x)) n a w h = h

  resume_body-left :
      (p : Payment Amount) (t : Pending Amount) (r : HttpReply) (a : App Amount) (w : Io)
      → Yields
          (λ (x : Task Amount). replies_left x < awaited t)
          (resume_body env settings p t r a w)
  unfolding resume_body
  resume_body-left p t r a w =
      let act = Phases.resume env t r in
      let (moved, a', w') = with_gateway env settings act a w in
      bound moved a' w'
        (with_gateway-Yields (λ m. left m < awaited t) act (resume-left env t r) a w)
    where
      bound :
          (moved : Result (Moved Amount)) (a' : App Amount) (w' : Io)
          → Yields (λ (m : Moved Amount). left m < awaited t) (moved, a', w')
          → Yields
              (λ (x : Task Amount). replies_left x < awaited t)
              ((lift moved >>= go_on env settings p) a' w')
      bound (ok m) a' w' h = go_on-left p m (awaited t) a' w' h
      bound (raise e) a' w' h = tt

  conclude-left :
      (n : ℕ) (out : Result (Task Amount) × App Amount × Io)
      → 0 < n
      → Yields (λ (x : Task Amount). replies_left x < n) out
      → replies_left (conclude out).0 < n
  unfolding conclude
  conclude-left n (ok (waiting p t), a, w) small h = h
  conclude-left n (ok (finished r), a, w) small h = small
  conclude-left n (raise e, a, w) small h = small

  awaited-pos : (t : Pending Amount) → 0 < awaited t
  awaited-pos (first_try a primary fallback) = omega arith
  awaited-pos (second_try a) = omega arith

  replies_left-waiting :
      (p : Payment Amount) (t : Pending Amount) → replies_left (waiting p t) ≡ awaited t
  replies_left-waiting p (first_try a primary fallback) = refl
  replies_left-waiting p (second_try a) = refl

  -- The replies that the tasks of a system may still wait for.
  abbrev pub load : System Amount → ℕ
  load s = sum_of replies_left s.tasks

  replied-load :
      (i : ℕ) (p : Payment Amount) (t : Pending Amount) (r : HttpReply) (s : System Amount)
      → get_elem? s.tasks i ≡ some (waiting p t)
      → load (replied env settings i p t r s) < load s
  unfolding replied resume
  replied-load i p t r s e =
      let out = resume_body env settings p t r s.app s.io in
      let fewer =
        conclude-left (awaited t) out (awaited-pos t) (resume_body-left p t r s.app s.io) in
      omega (
        arith,
        replies_left-waiting p t,
        sum_of-set replies_left s.tasks i (waiting p t) (conclude out).0 e,
      )

  -- `n` replies, and nothing else.
  pub data Replies (s : System Amount) : ℕ → System Amount → Type 0 where
    done : Replies s zero s
    more :
        {n : ℕ} {u : System Amount} (i : ℕ) (p : Payment Amount) (t : Pending Amount)
        (r : HttpReply)
        → Replies s n u
        → get_elem? u.tasks i ≡ some (waiting p t)
        → Replies s (suc n) (replied env settings i p t r u)

  pub Replies-load : {s u : System Amount} {n : ℕ} → Replies s n u → n + load u ≤ load s
  Replies-load done = omega arith
  Replies-load (more {u = u} i p t r rs e) =
      omega (arith, Replies-load rs, replied-load i p t r u e)

  pub load-le : (xs : List (Task Amount)) → sum_of replies_left xs ≤ 2 * sum_of open_tasks xs
  load-le [] = omega arith
  load-le (waiting p (first_try a primary fallback) ∷ xs) = omega (arith, load-le xs)
  load-le (waiting p (second_try a) ∷ xs) = omega (arith, load-le xs)
  load-le (finished r ∷ xs) = omega (arith, load-le xs)

  pub Replies-Balanced : {s u : System Amount} {n : ℕ} → Replies s n u → Balanced s → Balanced u
  Replies-Balanced done b = b
  Replies-Balanced (more {u = u} i p t r rs e) b =
      replied-Balanced env settings i p t r u e (Replies-Balanced rs b)

-- A task that waits.
abbrev pub Waits : {Amount : Type 0} → List (Task Amount) → Type 0
Waits {Amount} xs =
    (i : ℕ) × (p : Payment Amount) × (t : Pending Amount) × (get_elem? xs i ≡ some (waiting p t))

pub find_waiting :
    {Amount : Type 0} (xs : List (Task Amount)) → (sum_of open_tasks xs ≡ 0) ⊎ Waits xs
find_waiting [] = inl refl
find_waiting (waiting p t ∷ xs) = inr (zero, p, t, refl)
find_waiting (finished r ∷ xs) = elim (find_waiting xs) [
  | inl e ↦ inl (omega (arith, e))
  | inr (i, p, t, e) ↦ inr (suc i, p, t, e)
]

-- From a state in which the counter of requests in flight is the number of tasks that wait: once no
-- requests arrive, the gateway's replies are at most two for each request in flight, and
-- until none is in flight there is a task that waits for one: after that many replies the counter
-- that the shutdown waits for is zero.
pub Replies-in_flight :
    {Amount : Type 0} (env : Env Amount) (settings : Settings) {s u : System Amount} {n : ℕ}
    → Balanced s
    → Replies env settings s n u
    → (n ≤ 2 * s.app.in_flight) × ((u.app.in_flight ≡ 0) ⊎ Waits u.tasks)
Replies-in_flight env settings {s} {u} b rs = (
  omega (arith, b, Replies-load env settings rs, load-le env settings s.tasks),
  elim (find_waiting u.tasks) [
    | inl e ↦ inl (Replies-Balanced env settings rs b ∙ e)
    | inr x ↦ inr x
  ],
)
