-- ===== src/Credentials/Refresh.antt =====
-- The refresh loop of app/credential_manager.py. Its waits are where the event loop may cancel it:
-- a list of wake-ups says how each wait ended, and whether `_running` was reset meanwhile.
use test_cusa.Prelude.{ℕ, ◌+◌, ◌^◌, Bool, true, false, List, [], ◌∷◌, ltb, if◌then◌else◌}
use test_cusa.Prelude.Int.{ℤ, pos, scale, min_ℤ}
use test_cusa.Runtime.{Env, Result, ok, raise, Io}
use test_cusa.Config.{Settings}
use test_cusa.Credentials.Manager.{CredentialManager}
use test_cusa.Credentials.Load.{load_credentials}

-- Seconds.
abbrev pub max_backoff : ℤ
max_backoff = pos 300

-- How long the loop waits, in seconds, by the number of consecutive errors.
unfoldable pub delay : (check_interval : ℤ) → (consecutive_errors : ℕ) → ℤ
unfolding scale
delay interval errors =
    if ltb 0 errors then min_ℤ (scale (2 ^ errors) interval) max_backoff else interval

-- How one wait ends: in time, in time but after `stop_refresh_loop` began, or by cancellation.
pub data WakeUp : Type 0 where
  elapsed stopped cancelled : WakeUp

-- `consecutive_errors` after an attempt; the `except Exception` clause counts one more error.
unfoldable pub after_load : ℕ → Result Bool × CredentialManager × Io → ℕ × CredentialManager × Io
after_load errors (ok true, m, w) = (0, m, w)
after_load errors (ok false, m, w) = (errors + 1, m, w)
after_load errors (raise e, m, w) = (
  errors + 1,
  record m { credential_fetch_errors_total = m.credential_fetch_errors_total + 1 },
  w,
)

-- One turn of the loop: it ends unless it is `running` and its wait is over in time; `later` is what
-- the further turns do.
abbrev pub turn :
    (running : Bool)
    → WakeUp
    → (wait : ℤ) → (later : List ℤ × CredentialManager × Io) → CredentialManager
    → Io
    → List ℤ × CredentialManager × Io
turn false wake wait later m w = ([], m, w)
turn true WakeUp.elapsed wait (delays, m', w') m w = (wait ∷ delays, m', w')
turn true WakeUp.stopped wait later m w = (wait ∷ [], record m { running = false }, w)
turn true WakeUp.cancelled wait later m w = (wait ∷ [], m, w)

module _ {Amount : Type 0} (env : Env Amount) (settings : Settings) where
  -- The loop over a list of wake-ups: the delays that it asked for, and the state it ends in.
  unfoldable pub refresh_loop :
      List WakeUp → ℕ → CredentialManager → Io → List ℤ × CredentialManager × Io
  unfolding delay after_load
  refresh_loop [] errors m w = ([], m, w)
  refresh_loop (wake ∷ wakes) errors m w =
      let (errors', m', w') = after_load errors (load_credentials env settings m w) in
      turn m.running wake (delay m.check_interval errors) (refresh_loop wakes errors' m' w') m w

unfoldable pub start_refresh_loop : CredentialManager → CredentialManager
start_refresh_loop m = record m { running = true; refresh_task = true }

unfoldable pub stop_refresh_loop : CredentialManager → CredentialManager
stop_refresh_loop m = record m { running = false; refresh_task = false }
