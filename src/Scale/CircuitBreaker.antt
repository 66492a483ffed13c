-- ===== src/Scale/CircuitBreaker.antt =====
-- agent_sdk/scale/circuit_breaker.py. Times are numbers of one fixed unit, and each read of
-- `time.monotonic()` is an argument. `call` awaits its function, so other calls may run between
-- its two halves: `admit` is the part before the await and `settle` the part after it.
pub mod Invariant
pub mod Recovery
pub mod Tests
use agent_sdk.Prelude.{ℕ, suc, ◌+◌, ◌-◌, Bool, true, false, ◌&&◌, leb, if◌then◌else◌, List, [], ◌∷◌}
use agent_sdk.Types.{CircuitState, closed, opened, half_open, Error, Result, ok, err, circuit_open}

pub record CircuitBreaker : Type 0 where
  pub failure_threshold : ℕ
  pub recovery_timeout : ℕ
  pub half_open_max : ℕ
  pub state_ : CircuitState
  pub failure_count : ℕ
  pub success_count : ℕ
  pub half_open_calls : ℕ
  pub last_failure_time : ℕ

pub new : ℕ → ℕ → ℕ → CircuitBreaker
new threshold timeout probes = record {
  failure_threshold = threshold;
  recovery_timeout = timeout;
  half_open_max = probes;
  state_ = closed;
  failure_count = 0;
  success_count = 0;
  half_open_calls = 0;
  last_failure_time = 0;
}

-- `state == k`
abbrev pub is_closed : CircuitState → Bool
is_closed closed = true
is_closed _ = false

abbrev pub is_open : CircuitState → Bool
is_open opened = true
is_open _ = false

abbrev pub is_half_open : CircuitState → Bool
is_half_open half_open = true
is_half_open _ = false

-- The property `state`: reading it moves OPEN to HALF_OPEN once the timeout has passed. The test
-- `now - last >= timeout` is written with a sum, since `-` on ℕ stops at 0.
pub state : CircuitBreaker → ℕ → CircuitBreaker
state b now =
    if is_open b.state_ && leb (b.last_failure_time + b.recovery_timeout) now
    then record b { state_ = half_open; half_open_calls = 0 }
    else b

-- The part of `call` after the property has been read.
gate : CircuitBreaker → Result (Unit {0}) × CircuitBreaker
gate b =
    if is_open b.state_
    then (err circuit_open, b)
    else if is_half_open b.state_ && leb b.half_open_max b.half_open_calls
    then (err circuit_open, b)
    else let b' =
        if is_half_open b.state_ then record b { half_open_calls = b.half_open_calls + 1 } else b in
      (ok tt, b')

-- `call` up to `await fn(...)`: rejected, or admitted, with the breaker after it.
pub admit : CircuitBreaker → ℕ → Result (Unit {0}) × CircuitBreaker
unfolding gate state
admit b now = gate (state b now)

pub record_success : CircuitBreaker → CircuitBreaker
record_success b =
    if is_half_open b.state_
    then record b { state_ = closed; failure_count = 0; success_count = 0 }
    else record b { failure_count = 0 }

pub record_failure : CircuitBreaker → ℕ → CircuitBreaker
record_failure b now =
    let failed = record b { failure_count = b.failure_count + 1; last_failure_time = now } in
    if is_half_open b.state_
    then record failed { state_ = opened }
    else if leb b.failure_threshold (b.failure_count + 1)
    then record failed { state_ = opened }
    else failed

pub reset : CircuitBreaker → CircuitBreaker
reset b = record b { state_ = closed; failure_count = 0; success_count = 0; half_open_calls = 0 }

-- How the awaited function ends. `CancelledError` is no `Exception`, so `call` does not catch it.
pub data Outcome : Type 0 where
  returned raised cancelled : Outcome

-- `call` after the await.
pub settle : CircuitBreaker → Outcome → ℕ → CircuitBreaker
unfolding record_success record_failure
settle b returned now = record_success b
settle b raised now = record_failure b now
settle b cancelled now = b

-- What can happen to a breaker: a call arrives, an admitted call ends, `state` is read, `reset`.
pub data Event : Type 0 where
  arrives : ℕ → Event
  ends : Outcome → ℕ → Event
  reads : ℕ → Event
  resets : Event

pub step : CircuitBreaker → Event → CircuitBreaker
unfolding admit settle reset
step b (arrives now) = (admit b now).1
step b (ends o now) = settle b o now
step b (reads now) = state b now
step b resets = reset b

pub run : CircuitBreaker → List Event → CircuitBreaker
run b [] = b
run b (e ∷ es) = run (step b e) es
