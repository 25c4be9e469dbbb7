-- ===== src/Tests/BreakerTests.antt =====
-- The circuit breaker on concrete inputs.
use test_cusa.Prelude.{◌≡◌, refl, ◌↔◌, true, false, none, some, List, [], ◌∷◌, map, arith}
use test_cusa.Prelude.Int.{ℤ, ◌+ℤ◌, ◌-ℤ◌, ◌<ℤ◌, +ℤ_parts}
use test_cusa.Breaker.{CircuitState, CircuitBreaker, allows_request, record_failure}
use test_cusa.Breaker.Machine.{
  Event, Mode, IsValid, IsTimely, run, view, mode_of, step, steps, view-run, run_late,
}
use test_cusa.Breaker.Opening.{run-failures, record_failure-blocks}
use test_cusa.Tests.World.{at_second}

abbrev breaker : CircuitBreaker
breaker = record {
  failure_threshold = 5;
  timeout = at_second 30;
  state = CircuitState.closed;
  failure_count = 0;
  last_failure_time = none;
}

abbrev times : List ℤ
times = at_second 1 ∷ at_second 2 ∷ at_second 3 ∷ at_second 4 ∷ at_second 5 ∷ []

breaker-IsValid : IsValid breaker
breaker-IsValid = ground arith

-- Two failures and a success, five failures, a poll while the breaker is open, and one after it.
abbrev history : List Event
history =
    Event.failed (at_second 0)
    ∷ Event.failed (at_second 0)
    ∷ Event.succeeded
    ∷ Event.failed (at_second 1)
    ∷ Event.failed (at_second 2)
    ∷ Event.failed (at_second 3)
    ∷ Event.failed (at_second 4)
    ∷ Event.failed (at_second 5)
    ∷ Event.polled (at_second 20)
    ∷ Event.polled (at_second 40)
    ∷ Event.failed (at_second 41)
    ∷ Event.polled (at_second 80)
    ∷ Event.succeeded
    ∷ []

view-run_example :
    IsValid (run history breaker)
    × (view (run history breaker) ≡ steps 5 (at_second 30) history (view breaker))
unfolding IsTimely step view mode_of ◌-ℤ◌
view-run_example = view-run history breaker (omega arith) breaker-IsValid (omega arith)

-- Open since the fifth second, with a timeout of thirty: a success before the tenth second, or a
-- failure in the thirtieth.
abbrev late_breaker : CircuitBreaker
late_breaker = record breaker {
  state = CircuitState.opened;
  failure_count = 5;
  last_failure_time = some (at_second 5);
}

run_late_example :
    (view (run (Event.succeeded ∷ Event.polled (at_second 10) ∷ []) late_breaker) ≡ Mode.closed 0)
    × (steps 5
          (at_second 30)
          (Event.succeeded ∷ Event.polled (at_second 10) ∷ [])
          (view late_breaker)
        ≡ Mode.open_since (at_second 5))
    × (view (run (Event.failed (at_second 30) ∷ Event.polled (at_second 40) ∷ []) late_breaker)
        ≡ Mode.open_since (at_second 30))
    × (steps 5
          (at_second 30)
          (Event.failed (at_second 30) ∷ Event.polled (at_second 40) ∷ [])
          (view late_breaker)
        ≡ Mode.half_open)
unfolding view mode_of
run_late_example =
    run_late late_breaker (at_second 5) (at_second 30) (at_second 10) (at_second 40) refl
      (omega (arith, +ℤ_parts (at_second 5) (at_second 30)))
      (omega (arith, +ℤ_parts (at_second 5) (at_second 30)))
      (omega (arith, +ℤ_parts (at_second 30) (at_second 30)))

run-failures_example : (run (map Event.failed times) breaker).state ≡ CircuitState.opened
run-failures_example = run-failures times breaker refl (omega arith)

abbrev tripped : CircuitBreaker
tripped = record breaker { failure_count = 4 }

record_failure-blocks_example :
    (((allows_request (at_second 20) (record_failure (at_second 5) tripped)).1 ≡ false)
      ↔ (at_second 20 <ℤ at_second 5 +ℤ at_second 30))
    × ((allows_request (at_second 20) (record_failure (at_second 5) tripped)).1 ≡ true
        → (allows_request (at_second 20) (record_failure (at_second 5) tripped)).0.state
          ≡ CircuitState.half_open)
unfolding record_failure
record_failure-blocks_example = record_failure-blocks (at_second 5) (at_second 20) tripped refl
