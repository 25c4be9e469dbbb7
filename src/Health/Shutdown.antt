-- ===== src/Health/Shutdown.antt =====
-- `lifespan` of app/main.py after its `yield`: the refresh loop is stopped, and the service sleeps
-- until no request is in flight or its time is over. While it sleeps, other tasks run: `others n` is
-- what they do during its wait number `n`.
pub mod Ending
pub mod Punctual
use test_cusa.Prelude.{ℕ, suc, zero, ◌*◌, Option, none, some, ltb, if◌then◌else◌}
use test_cusa.Prelude.Int.{ℤ, pos, scale, ◌+ℤ◌, ltb_ℤ}
use test_cusa.Runtime.{Env}
use test_cusa.Config.{Settings}
use test_cusa.Credentials.Manager.{CredentialManager}
use test_cusa.Credentials.Refresh.{stop_refresh_loop}
use test_cusa.Payments.Schedule.{System}

-- Microseconds: 0.1 seconds, and one second.
abbrev pub poll_interval : ℕ
poll_interval = 100_000

abbrev pub second : ℕ
second = 1_000_000

-- The start has made a manager.
abbrev pub stop : Option CredentialManager → Option CredentialManager
stop none = none
stop (some m) = some (stop_refresh_loop m)

-- The clock is read.
abbrev pub ticked : {Amount : Type 0} → System Amount → System Amount
ticked s = record s { io = record s.io { clock_reads = suc s.io.clock_reads } }

module _ {Amount : Type 0} (env : Env Amount) (others : ℕ → System Amount → System Amount) where
  -- `while _in_flight > 0 and time.time() < deadline`, for at most `fuel` tests of the condition.
  unfoldable pub drain : (fuel round : ℕ) → (deadline : ℤ) → System Amount → Option (System Amount)
  drain zero round deadline s = none
  drain (suc fuel) round deadline s =
      let later = drain fuel (suc round) deadline (others round (ticked s)) in
      if ltb 0 s.app.in_flight
      then (if ltb_ℤ (env.clock s.io.clock_reads) deadline then later else some (ticked s))
      else some s

  -- The refresh loop is stopped; the wait number 0 is the one for its task to end.
  abbrev pub stopped : System Amount → System Amount
  stopped s =
      others 0
        (record s { app = record s.app { credential_manager = stop s.app.credential_manager } })

  abbrev pub deadline_of : Settings → System Amount → ℤ
  deadline_of settings s =
      env.clock s.io.clock_reads +ℤ scale second settings.graceful_shutdown_timeout

  unfoldable pub shutdown : Settings → (fuel : ℕ) → System Amount → Option (System Amount)
  unfolding drain stop_refresh_loop
  shutdown settings fuel s =
      let s1 = stopped s in drain fuel 1 (deadline_of settings s1) (ticked s1)
