-- ===== src/Scale/CircuitBreaker/Invariant.antt =====
-- What every history of events keeps of a circuit breaker.
use agent_sdk.Prelude.{
  ℕ, ◌≤◌, ◌<◌, ◌≡◌, refl, ◌∙◌, ◌+◌, Bool, true, false, not, ◌&&◌, if◌then◌else◌, List, [], ◌∷◌,
  arith,
}
use agent_sdk.Types.{closed, half_open, Result, ok, err}
use agent_sdk.Scale.CircuitBreaker.{
  CircuitBreaker, new, is_half_open, state, gate, admit, settle, record_success, record_failure,
  reset, Event, arrives, ends, reads, resets, step, run,
}

-- A closed breaker is below its threshold, and an open probe window holds at most its maximum.
pub record IsValid (b : CircuitBreaker) : Type 0 where
  pub below : b.state_ ≡ closed → (b.failure_count < b.failure_threshold)
  pub probes : b.half_open_calls ≤ b.half_open_max
  pub threshold : 0 < b.failure_threshold

step-IsValid : (b : CircuitBreaker) (e : Event) → IsValid b → IsValid (step b e)
unfolding step
step-IsValid b (arrives now) v = ground (arith, v.below)
step-IsValid b (ends o now) v = ground (arith, v.below)
step-IsValid b (reads now) v = ground (arith, v.below)
step-IsValid b resets v = ground arith

pub new-IsValid :
    (threshold timeout probes : ℕ) → 0 < threshold → IsValid (new threshold timeout probes)
unfolding new
new-IsValid threshold timeout probes h = ground arith

IsValid-run : (b : CircuitBreaker) (es : List Event) → IsValid b → IsValid (run b es)
unfolding run
IsValid-run b [] v = v
IsValid-run b (e ∷ es) v = IsValid-run (step b e) es (step-IsValid b e v)

-- The state before an event is not half open, and reading it makes it so: a new window.
abbrev opens_window : CircuitBreaker → ℕ → Bool
opens_window b now = not (is_half_open b.state_) && is_half_open (state b now).state_

-- The calls that were let through to the function since the breaker last became half open, counted
-- beside it: `n` so far.
abbrev since : CircuitBreaker → ℕ → ℕ → ℕ
since b now n = if opens_window b now then 0 else n

abbrev is_ok : Result (Unit {0}) → Bool
is_ok (ok u) = true
is_ok (err e) = false

-- The call is let through, in a half open state.
abbrev is_probe : CircuitBreaker → ℕ → Bool
is_probe b now = is_ok (admit b now).0 && is_half_open (admit b now).1.state_

abbrev probes_step : CircuitBreaker → Event → ℕ → ℕ
probes_step b (arrives now) n = if is_probe b now then since b now n + 1 else since b now n
probes_step b (reads now) n = since b now n
probes_step b (ends o now) n = n
probes_step b resets n = n

abbrev pub probes_in : CircuitBreaker → List Event → ℕ → ℕ
probes_in b [] n = n
probes_in b (e ∷ es) n = probes_in (step b e) es (probes_step b e n)

-- In a half open state the breaker's own counter is not behind.
record Counts (b : CircuitBreaker) (n : ℕ) : Type 0 where
  pub tracked : b.state_ ≡ half_open → n ≤ b.half_open_calls
  pub bounded : n ≤ b.half_open_max

step-Counts :
    (b : CircuitBreaker) (e : Event) (n : ℕ)
    → IsValid b
    → Counts b n
    → Counts (step b e) (probes_step b e n)
unfolding step admit gate state settle record_success record_failure reset
step-Counts b (arrives now) n v c = ground (arith, v.probes, c.tracked, c.bounded)
step-Counts b (ends o now) n v c = ground (arith, v.probes, c.tracked, c.bounded)
step-Counts b (reads now) n v c = ground (arith, v.probes, c.tracked, c.bounded)
step-Counts b resets n v c = ground (arith, v.probes, c.tracked, c.bounded)

run-Counts :
    (b : CircuitBreaker) (es : List Event) (n : ℕ)
    → IsValid b
    → Counts b n
    → Counts (run b es) (probes_in b es n)
unfolding run
run-Counts b [] n v c = c
run-Counts b (e ∷ es) n v c =
    run-Counts (step b e) es _ (step-IsValid b e v) (step-Counts b e n v c)

step-limits :
    (b : CircuitBreaker) (e : Event)
    → ((step b e).half_open_max ≡ b.half_open_max)
      × ((step b e).failure_threshold ≡ b.failure_threshold)
unfolding step
step-limits b (arrives now) = (ground arith, ground arith)
step-limits b (ends o now) = (ground arith, ground arith)
step-limits b (reads now) = (ground arith, ground arith)
step-limits b resets = (ground arith, ground arith)

run-limits :
    (b : CircuitBreaker) (es : List Event)
    → ((run b es).half_open_max ≡ b.half_open_max)
      × ((run b es).failure_threshold ≡ b.failure_threshold)
unfolding run
run-limits b [] = (refl, refl)
run-limits b (e ∷ es) = (
  (run-limits (step b e) es).0 ∙ (step-limits b e).0,
  (run-limits (step b e) es).1 ∙ (step-limits b e).1,
)

-- A new breaker with a positive threshold, whatever events it sees: if it is closed, then it has
-- fewer failures than its threshold; and at most `half_open_max` calls were let through in a half
-- open state since it last became half open, as counted beside it from the events alone.
pub run-IsValid :
    (threshold timeout max : ℕ) (es : List Event)
    → 0 < threshold
    → ((run (new threshold timeout max) es).state_ ≡ closed
        → (run (new threshold timeout max) es).failure_count < threshold)
      × (probes_in (new threshold timeout max) es 0 ≤ max)
unfolding new
run-IsValid threshold timeout max es h =
    let b = new threshold timeout max in
    let v = new-IsValid threshold timeout max h in
    let (most, limit) = run-limits b es in
    let c = run-Counts b es 0 v (record { tracked = λ e. omega arith; bounded = omega arith }) in
    (λ e. omega (arith, (IsValid-run b es v).below e, limit), omega (arith, c.bounded, most))
