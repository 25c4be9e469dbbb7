-- ===== src/Breaker.antt =====
-- `CircuitBreaker` of app/gateway_client.py. Each method that reads the clock takes the reading as
-- `now`; a timeout and all times are in microseconds.
pub mod Machine
pub mod Opening
use test_cusa.Prelude.{ℕ, ◌+◌, Bool, true, false, Option, none, some, leb, if◌then◌else◌}
use test_cusa.Prelude.Int.{ℤ, pos, ◌-ℤ◌, leb_ℤ}

abbrev pub circuit_breaker_failure_threshold : ℕ
circuit_breaker_failure_threshold = 5

abbrev pub circuit_breaker_timeout : ℤ
circuit_breaker_timeout = pos 30_000_000

-- CLOSED, OPEN, HALF_OPEN
pub data CircuitState : Type 0 where
  closed opened half_open : CircuitState

pub record CircuitBreaker : Type 0 where
  pub failure_threshold : ℕ
  pub timeout : ℤ
  pub state : CircuitState
  pub failure_count : ℕ
  pub last_failure_time : Option ℤ

unfoldable pub init : ℕ → ℤ → CircuitBreaker
init failure_threshold timeout = record {
  failure_threshold = failure_threshold;
  timeout = timeout;
  state = CircuitState.closed;
  failure_count = 0;
  last_failure_time = none;
}

-- `last_failure_time is not None and now - last_failure_time >= timeout`
unfoldable pub has_timed_out : (now : ℤ) → CircuitBreaker → Bool
has_timed_out now b = elim b.last_failure_time [
  | none ↦ false
  | some t ↦ leb_ℤ b.timeout (now -ℤ t)
]

-- Reading the property `state` may move an open breaker to half-open.
unfoldable pub poll : (now : ℤ) → CircuitBreaker → CircuitBreaker
unfolding has_timed_out
poll now b = elim b.state [
  | CircuitState.opened ↦
      if has_timed_out now b then record b { state = CircuitState.half_open } else b
  | _ ↦ b
]

abbrev pub is_allowing : CircuitState → Bool
is_allowing CircuitState.opened = false
is_allowing CircuitState.closed = true
is_allowing CircuitState.half_open = true

-- The breaker after the property `allows_request` was read, and its value.
unfoldable pub allows_request : (now : ℤ) → CircuitBreaker → CircuitBreaker × Bool
unfolding poll
allows_request now b = let b' = poll now b in (b', is_allowing b'.state)

unfoldable pub record_success : CircuitBreaker → CircuitBreaker
record_success b = record b { failure_count = 0; state = CircuitState.closed }

-- The state after a failure was counted.
abbrev pub state_after_failure : CircuitState → ℕ → ℕ → CircuitState
state_after_failure CircuitState.half_open count threshold = CircuitState.opened
state_after_failure CircuitState.closed count threshold =
    if leb threshold count then CircuitState.opened else CircuitState.closed
state_after_failure CircuitState.opened count threshold = CircuitState.opened

unfoldable pub record_failure : (now : ℤ) → CircuitBreaker → CircuitBreaker
record_failure now b = record b {
  failure_count = b.failure_count + 1;
  last_failure_time = some now;
  state = state_after_failure b.state (b.failure_count + 1) b.failure_threshold;
}
