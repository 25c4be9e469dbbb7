-- ===== src/Tests/ShutdownTests.antt =====
-- The shutdown on concrete inputs.
use test_cusa.Prelude.{ℕ, ◌<◌, ◌≡◌, ◌⊎◌, refl, inl, inr, arith, sum_of, le_sum_of}
use test_cusa.Prelude.Int.{pos, +ℤ_parts}
use test_cusa.Payments.Schedule.{System, replied, open_tasks}
use test_cusa.Payments.Tasks.{waiting}
use test_cusa.Payments.Schedule.Draining.{Replies, done, more, Waits, find_waiting}
use test_cusa.Health.Shutdown.{shutdown, stopped, deadline_of}
use test_cusa.Health.Shutdown.Ending.{Ends, Serves, shutdown_served}
use test_cusa.Health.Shutdown.Punctual.{EndsBy, Timed, shutdown-EndsBy}
use test_cusa.Tests.World.{env, approval}
use test_cusa.Tests.PaymentTests.{settings}
use test_cusa.Tests.ScheduleTests.{busy}

-- Nothing else happens.
abbrev idle : ℕ → System ℕ → System ℕ
idle n s = s

-- The clock shows one second more at each reading.
timed : Timed env idle settings 1_000_000 busy
timed = record {
  steady = omega arith;
  prompt = omega (arith, +ℤ_parts (env.clock busy.io.clock_reads) (pos 1_000_000));
  waits = λ n t tested waiting early. omega (
    arith,
    +ℤ_parts (env.clock t.io.clock_reads) (pos 100_000),
    +ℤ_parts (env.clock t.io.clock_reads) (pos 1_000_000),
  );
}

shutdown-EndsBy_example :
    EndsBy env idle
      (deadline_of env idle settings (stopped env idle busy))
      1_000_000
      (shutdown env idle settings 301 busy)
shutdown-EndsBy_example = shutdown-EndsBy env idle settings 30 1_000_000 busy refl timed

-- The gateway approves the first request that waits.
abbrev approve_one : (s : System ℕ) → (sum_of open_tasks s.tasks ≡ 0) ⊎ Waits s.tasks → System ℕ
approve_one s (inl nobody) = s
approve_one s (inr (i, p, t, e)) = replied env settings i p t approval s

abbrev approve : ℕ → System ℕ → System ℕ
approve n s = approve_one s (find_waiting s.tasks)

approve_one_lem :
    (s : System ℕ) (found : (sum_of open_tasks s.tasks ≡ 0) ⊎ Waits s.tasks)
    → (k : ℕ) × Replies env settings s k (approve_one s found) × (Waits s.tasks → 0 < k)
approve_one_lem s (inl nobody) = (
  0,
  done,
  λ x.
      let (i, p, t, e) = x in
      absurd (omega (arith, nobody, le_sum_of open_tasks s.tasks i (waiting p t) e)),
)
approve_one_lem s (inr (i, p, t, e)) = (1, more i p t approval done e, λ x. omega arith)

serves : Serves env approve settings
serves = record { at = λ n s. approve_one_lem s (find_waiting s.tasks) }

shutdown_served_example :
    Ends env
      (deadline_of env approve settings (stopped env approve busy))
      (shutdown env approve settings 3 busy)
shutdown_served_example = shutdown_served env approve settings busy serves refl
