-- ===== src/Breaker/Machine.antt =====
-- The circuit breaker of app/gateway_client.py against the machine that its docstring describes:
-- closed with a number of consecutive failures, open since a time, or half-open.
use test_cusa.Prelude.{
  ℕ, ◌+◌, ◌<◌, ◌≡◌, refl, ap, ◌∙◌, ◌≢◌, true, Option, none, some, List, [], ◌∷◌, arith, leb,
  is_some, if◌then◌else◌,
}
use test_cusa.Prelude.Int.{ℤ, ◌-ℤ◌, ◌+ℤ◌, ◌≤ℤ◌, ◌<ℤ◌, leb_ℤ}
use test_cusa.Breaker.{CircuitState, CircuitBreaker, poll, record_success, record_failure}

-- What happens to a breaker: its state is read, or a request succeeds or fails.
pub data Event : Type 0 where
  polled : (now : ℤ) → Event
  succeeded : Event
  failed : (now : ℤ) → Event

unfoldable pub react : Event → CircuitBreaker → CircuitBreaker
unfolding poll record_success record_failure
react (Event.polled now) b = poll now b
react Event.succeeded b = record_success b
react (Event.failed now) b = record_failure now b

unfoldable pub run : List Event → CircuitBreaker → CircuitBreaker
run [] b = b
run (e ∷ es) b = run es (react e b)

pub data Mode : Type 0 where
  closed : (failures : ℕ) → Mode
  open_since : (time : ℤ) → Mode
  half_open : Mode

-- The documented machine has a transition for the event.
abbrev pub IsHeeded : Event → Mode → Type 0
IsHeeded (Event.polled now) m = Unit
IsHeeded Event.succeeded (Mode.open_since t) = ⊥
IsHeeded Event.succeeded (Mode.closed n) = Unit
IsHeeded Event.succeeded Mode.half_open = Unit
IsHeeded (Event.failed now) (Mode.open_since t) = ⊥
IsHeeded (Event.failed now) (Mode.closed n) = Unit
IsHeeded (Event.failed now) Mode.half_open = Unit

-- The documented machine, for a threshold and a timeout: closed until as many consecutive failures
-- as the threshold says, open until the timeout has passed, half-open until a request succeeds or
-- fails. The docstring lets nothing but the timeout end the open state.
module _ (threshold : ℕ) (timeout : ℤ) where
  unfoldable pub step : Event → Mode → Mode
  step (Event.polled now) (Mode.open_since t) =
      if leb_ℤ timeout (now -ℤ t) then Mode.half_open else Mode.open_since t
  step (Event.polled now) m = m
  step Event.succeeded (Mode.open_since t) = Mode.open_since t
  step Event.succeeded m = Mode.closed 0
  step (Event.failed now) (Mode.closed n) =
      if leb threshold (n + 1) then Mode.open_since now else Mode.closed (n + 1)
  step (Event.failed now) (Mode.open_since t) = Mode.open_since t
  step (Event.failed now) Mode.half_open = Mode.open_since now

  unfoldable pub steps : List Event → Mode → Mode
  unfolding step
  steps [] m = m
  steps (e ∷ es) m = steps es (step e m)

  -- No request ends while the documented machine is open: none that was under way when it opened
  -- comes back late.
  unfoldable pub IsTimely : List Event → Mode → Type 0
  unfolding step
  IsTimely [] m = Unit
  IsTimely (e ∷ es) m = IsHeeded e m × IsTimely es (step e m)

-- A breaker that has counted up to its threshold is not closed, and knows when it last failed.
pub record IsValid (b : CircuitBreaker) : Type 0 where
  pub counting : b.state ≡ CircuitState.closed → b.failure_count < b.failure_threshold
  pub dated : b.state ≢ CircuitState.closed → is_some b.last_failure_time ≡ true

unfoldable pub mode_of : CircuitState → ℕ → Option ℤ → Mode
mode_of CircuitState.closed n t = Mode.closed n
mode_of CircuitState.half_open n t = Mode.half_open
mode_of CircuitState.opened n none = Mode.half_open
mode_of CircuitState.opened n (some t) = Mode.open_since t

unfoldable pub view : CircuitBreaker → Mode
unfolding mode_of
view b = mode_of b.state b.failure_count b.last_failure_time

pub react-IsValid :
    (e : Event) (b : CircuitBreaker) → 0 < b.failure_threshold → IsValid b → IsValid (react e b)
unfolding react
react-IsValid (Event.polled now) b p v = ground arith
react-IsValid Event.succeeded b p v = ground arith
react-IsValid (Event.failed now) b p v = ground arith

pub react_parameters :
    (e : Event) (b : CircuitBreaker)
    → ((react e b).failure_threshold ≡ b.failure_threshold) × ((react e b).timeout ≡ b.timeout)
unfolding react
react_parameters (Event.polled now) b = ground arith
react_parameters Event.succeeded b = ground arith
react_parameters (Event.failed now) b = ground arith

view-react :
    (e : Event) (b : CircuitBreaker)
    → IsValid b
    → IsHeeded e (view b)
    → view (react e b) ≡ step b.failure_threshold b.timeout e (view b)
unfolding view react step
view-react (Event.polled now) b v h = ground arith
view-react Event.succeeded b v h = ground arith
view-react (Event.failed now) b v h = ground arith

-- From a valid breaker with a positive threshold, any sequence of polls, successes and failures, in
-- which no request succeeds or fails while the documented machine is open, leads to a valid breaker
-- whose mode is the one that the documented machine reaches by the same sequence.
pub view-run :
    (es : List Event) (b : CircuitBreaker)
    → 0 < b.failure_threshold
    → IsValid b
    → IsTimely b.failure_threshold b.timeout es (view b)
    → IsValid (run es b) × (view (run es b) ≡ steps b.failure_threshold b.timeout es (view b))
unfolding run steps IsTimely view
view-run [] b p v h = (v, refl)
view-run (e ∷ es) b p v h =
    let (same_threshold, same_timeout) = react_parameters e b in
    let positive : 0 < (react e b).failure_threshold = rw same_threshold p in
    let agrees = view-react e b v h.0 in
    let timely : IsTimely (react e b).failure_threshold (react e b).timeout es (view (react e b)) =
      rw (same_threshold, same_timeout, agrees) h.1 in
    let (valid, follows) = view-run es (react e b) positive (react-IsValid e b p v) timely in
    (
      valid,
      follows
          ∙ ap (λ n. steps n (react e b).timeout es (view (react e b))) same_threshold
          ∙ ap (λ t. steps b.failure_threshold t es (view (react e b))) same_timeout
          ∙ ap (steps b.failure_threshold b.timeout es) agrees,
    )

-- A request that ends late, while the breaker is open since a time `t`, takes the code off the
-- documented machine. After a success a poll before the timeout has passed finds the breaker closed,
-- where the machine is open. After a failure at a time `late`, a poll when the timeout has passed
-- since `t` but not since `late` finds it open, where the machine is half-open.
pub run_late :
    (b : CircuitBreaker) (t late early now : ℤ)
    → view b ≡ Mode.open_since t
    → early <ℤ t +ℤ b.timeout
    → t +ℤ b.timeout ≤ℤ now
    → now <ℤ late +ℤ b.timeout
    → (view (run (Event.succeeded ∷ Event.polled early ∷ []) b) ≡ Mode.closed 0)
      × (steps b.failure_threshold b.timeout (Event.succeeded ∷ Event.polled early ∷ []) (view b)
          ≡ Mode.open_since t)
      × (view (run (Event.failed late ∷ Event.polled now ∷ []) b) ≡ Mode.open_since late)
      × (steps b.failure_threshold b.timeout (Event.failed late ∷ Event.polled now ∷ []) (view b)
          ≡ Mode.half_open)
unfolding view run react steps step ◌+ℤ◌ ◌-ℤ◌
run_late b t late early now h before since not_since = ground arith
