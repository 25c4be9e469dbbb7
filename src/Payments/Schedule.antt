-- ===== src/Payments/Schedule.antt =====
-- The event loop of the service: requests arrive, the gateway replies to the requests that wait,
-- waiting requests are cancelled, and the credentials are refreshed, in any order and with any replies.
pub mod Counting
pub mod Draining
pub mod Starting
pub mod Duplicates
pub mod Probing
pub mod Soundness
use test_cusa.Prelude.{
  ℕ, suc, zero, ◌+◌, ◌≡◌, Option, none, some, String, List, [], ◌∷◌, ◌++◌, get_elem?, set, sum_of,
}
use test_cusa.Runtime.{Env, Io, HttpReply}
use test_cusa.Config.{Settings}
use test_cusa.Credentials.Manager.{CredentialManager}
use test_cusa.Credentials.Load.{load_credentials}
use test_cusa.Gateway.{Payment}
use test_cusa.Gateway.Phases.{Pending, first_try, second_try}
use test_cusa.Payments.Handler.{App}
use test_cusa.Payments.Tasks.{cancel, Task, waiting, finished, begin, resume}

-- The globals, the outside world, and the tasks in the order of their arrival.
pub record System (Amount : Type 0) : Type 0 where
  pub app : App Amount
  pub io : Io
  pub tasks : List (Task Amount)

module _ {Amount : Type 0} (env : Env Amount) (settings : Settings) where
  -- A request runs until it first waits.
  unfoldable pub arrived :
      Payment Amount → (state_id x_api_key : Option String) → System Amount → System Amount
  unfolding begin
  arrived p state_id x_api_key s =
      let (task, app, io) = begin env settings p state_id x_api_key s.app s.io in
      record { app = app; io = io; tasks = s.tasks ++ task ∷ [] }

  -- The task goes on with the reply.
  unfoldable pub replied :
      ℕ → Payment Amount → Pending Amount → HttpReply → System Amount → System Amount
  unfolding resume
  replied i p t reply s =
      let (task, app, io) = resume env settings p t reply s.app s.io in
      record { app = app; io = io; tasks = set s.tasks i task }

  -- The task is cancelled while it waits.
  unfoldable pub cancelled : ℕ → System Amount → System Amount
  unfolding cancel
  cancelled i s =
      let (task, app, io) = cancel s.app s.io in
      record { app = app; io = io; tasks = set s.tasks i task }

  -- One round of the refresh loop, which loads without a wait.
  unfoldable pub refreshed : CredentialManager → System Amount → System Amount
  unfolding load_credentials
  refreshed m s =
      let (_, m', io) = load_credentials env settings m s.io in
      record s { app = record s.app { credential_manager = some m' }; io = io }

  pub data Step (s : System Amount) : System Amount → Type 0 where
    arrive :
        (p : Payment Amount) (state_id x_api_key : Option String)
        → Step s (arrived p state_id x_api_key s)
    reply :
        (i : ℕ) (p : Payment Amount) (t : Pending Amount) (r : HttpReply)
        → get_elem? s.tasks i ≡ some (waiting p t)
        → Step s (replied i p t r s)
    abort :
        (i : ℕ) (p : Payment Amount) (t : Pending Amount)
        → get_elem? s.tasks i ≡ some (waiting p t)
        → Step s (cancelled i s)
    refresh : (m : CredentialManager) → s.app.credential_manager ≡ some m → Step s (refreshed m s)

  pub data Reach (s : System Amount) : System Amount → Type 0 where
    here : Reach s s
    next : {t u : System Amount} → Reach s t → Step t u → Reach s u

-- Does the task wait?
abbrev pub open_tasks : {Amount : Type 0} → Task Amount → ℕ
open_tasks (waiting p t) = 1
open_tasks (finished r) = 0

-- How many replies a task may still wait for.
abbrev pub replies_left : {Amount : Type 0} → Task Amount → ℕ
replies_left (waiting p (first_try a primary fallback)) = 2
replies_left (waiting p (second_try a)) = 1
replies_left (finished r) = 0
