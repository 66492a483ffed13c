-- ===== src/Scale/CircuitBreaker/Recovery.antt =====
-- How a circuit breaker opens, recovers, and gets stuck.
use agent_sdk.Prelude.{
  ℕ, ◌+◌, ◌≤◌, ◌<◌, ◌≡◌, refl, List, [], ◌∷◌, map, arith, leb, length, All, if◌then◌else◌,
}
use agent_sdk.Types.{closed, opened, half_open, ok, err, circuit_open}
use agent_sdk.Scale.CircuitBreaker.{
  CircuitBreaker, Event, arrives, ends, reads, resets, returned, raised, cancelled, step, run,
  admit, settle,
}

abbrev pub fail_at : ℕ → Event
fail_at now = ends raised now

fail-opened :
    (b : CircuitBreaker) (times : List ℕ)
    → b.state_ ≡ opened
    → (run b (map fail_at times)).state_ ≡ opened
unfolding run
fail-opened b [] h = h
fail-opened b (t ∷ ts) h = fail-opened (step b (fail_at t)) ts (unfold step in ground arith)

-- A closed breaker opens exactly when a run of failures brings its count to the threshold.
pub state-run-failures :
    (b : CircuitBreaker) (times : List ℕ)
    → b.state_ ≡ closed
    → b.failure_count < b.failure_threshold
    → (run b (map fail_at times)).state_
      ≡ (if leb b.failure_threshold (b.failure_count + length times) then opened else closed)
unfolding run step
state-run-failures b [] h lt = ground arith
state-run-failures b (t ∷ ts) h lt =
    ground (arith, fail-opened (step b (fail_at t)) ts, state-run-failures (step b (fail_at t)) ts)

-- An open breaker rejects every call before its timeout has passed, and is not changed by it.
pub admit-open :
    (b : CircuitBreaker) (now : ℕ)
    → b.state_ ≡ opened
    → now < b.last_failure_time + b.recovery_timeout
    → admit b now ≡ (err circuit_open, b)
unfolding admit
admit-open b now h lt = ground arith

-- Once the timeout has passed, an open breaker with a positive probe limit admits the next call.
-- If that call returns, the breaker is closed with no failures; if it raises, the breaker is open
-- again from that time.
pub recovery :
    (b : CircuitBreaker) (now later : ℕ)
    → b.state_ ≡ opened
    → b.last_failure_time + b.recovery_timeout ≤ now
    → 0 < b.half_open_max
    → ((admit b now).0 ≡ ok tt)
      × ((settle (admit b now).1 returned later).state_ ≡ closed)
      × ((settle (admit b now).1 returned later).failure_count ≡ 0)
      × ((settle (admit b now).1 raised later).state_ ≡ opened)
      × ((settle (admit b now).1 raised later).last_failure_time ≡ later)
unfolding admit settle
recovery b now later h due probe = ground arith

-- Events other than a reset and than the normal or failing end of a call.
abbrev pub IsQuiet : Event → Type 0
IsQuiet (arrives now) = Unit
IsQuiet (ends cancelled now) = Unit
IsQuiet (reads now) = Unit
IsQuiet _ = ⊥

IsStuck : CircuitBreaker → Type 0
IsStuck b = (b.state_ ≡ half_open) × (b.half_open_max ≤ b.half_open_calls)

step-IsStuck : (b : CircuitBreaker) (e : Event) → IsStuck b → IsQuiet e → step b e ≡ b
unfolding step IsStuck
step-IsStuck b (arrives now) s q = ground arith
step-IsStuck b (ends cancelled now) s q = refl
step-IsStuck b (reads now) s q = ground arith
step-IsStuck b (ends returned now) s q = absurd q
step-IsStuck b (ends raised now) s q = absurd q
step-IsStuck b resets s q = absurd q

run-IsStuck : (b : CircuitBreaker) (es : List Event) → IsStuck b → All IsQuiet es → run b es ≡ b
unfolding run
run-IsStuck b [] s q = refl
run-IsStuck b (e ∷ es) s q = rw (step-IsStuck b e s q.0) (run-IsStuck b es s q.1)

-- A half open breaker whose probes were all cancelled stays as it is, whatever time passes, and
-- rejects every call, as long as nothing but arriving calls, cancelled calls and reads of the
-- state happens.
pub cancelled_probes_wedge :
    (b : CircuitBreaker) (es : List Event) (now : ℕ)
    → b.state_ ≡ half_open
    → b.half_open_max ≤ b.half_open_calls
    → All IsQuiet es
    → (run b es ≡ b) × ((admit (run b es) now).0 ≡ err circuit_open)
unfolding IsStuck admit
cancelled_probes_wedge b es now h full q =
    (run-IsStuck b es (h, full) q, rw (run-IsStuck b es (h, full) q) (ground arith))
