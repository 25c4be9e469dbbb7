-- ===== src/Breaker/Opening.antt =====
-- When the circuit breaker of app/gateway_client.py opens, and whom it lets through.
use test_cusa.Prelude.{
  ◌+◌, ◌<◌, ◌≡◌, ◌↔◌, true, false, List, [], ◌∷◌, map, arith, leb, length, if◌then◌else◌,
}
use test_cusa.Prelude.Int.{ℤ, ◌+ℤ◌, ◌-ℤ◌, ◌<ℤ◌}
use test_cusa.Breaker.{CircuitState, CircuitBreaker, allows_request, record_failure}
use test_cusa.Breaker.Machine.{Event, react, run}

-- Further failures leave an open breaker open.
run-failures_open :
    (ts : List ℤ) (b : CircuitBreaker)
    → b.state ≡ CircuitState.opened
    → (run (map Event.failed ts) b).state ≡ CircuitState.opened
unfolding run react
run-failures_open [] b o = o
run-failures_open (t ∷ ts) b o = run-failures_open ts (record_failure t b) (ground arith)

-- A closed breaker that is below its threshold is open after a run of failures exactly when the
-- failures that it had counted and those of the run make up the threshold; else it is still closed.
pub run-failures :
    (ts : List ℤ) (b : CircuitBreaker)
    → b.state ≡ CircuitState.closed
    → b.failure_count < b.failure_threshold
    → (run (map Event.failed ts) b).state ≡ (
        if leb b.failure_threshold (b.failure_count + length ts)
        then CircuitState.opened
        else CircuitState.closed)
unfolding run react
run-failures [] b c h = ground arith
run-failures (t ∷ ts) b c h =
    ground (arith, run-failures ts (record_failure t b), run-failures_open ts (record_failure t b))

-- Where a failure at time `t` leaves the breaker open, requests are refused exactly before the
-- timeout has passed since `t`; the first one after it finds the breaker half-open.
pub record_failure-blocks :
    (t now : ℤ) (b : CircuitBreaker)
    → (record_failure t b).state ≡ CircuitState.opened
    → (((allows_request now (record_failure t b)).1 ≡ false) ↔ (now <ℤ t +ℤ b.timeout))
      × ((allows_request now (record_failure t b)).1 ≡ true
          → (allows_request now (record_failure t b)).0.state ≡ CircuitState.half_open)
unfolding allows_request record_failure ◌+ℤ◌ ◌-ℤ◌
record_failure-blocks t now b o = ground arith
