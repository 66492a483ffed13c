-- ===== src/Scale/CircuitBreaker/Tests.antt =====
-- The theorems on circuit breakers at concrete inputs, and runs of the breaker.
use agent_sdk.Prelude.{◌<◌, ◌≤◌, ◌≡◌, refl, [], ◌∷◌, arith, map}
use agent_sdk.Types.{closed, opened, half_open, ok, err, circuit_open}
use agent_sdk.Scale.CircuitBreaker.{
  CircuitBreaker, arrives, ends, reads, returned, cancelled, step, run, admit, new,
}
use agent_sdk.Scale.CircuitBreaker.Invariant.{probes_in, run-IsValid}
use agent_sdk.Scale.CircuitBreaker.Recovery.{
  fail_at, state-run-failures, admit-open, recovery, cancelled_probes_wedge,
}

-- The breaker of tests/unit/test_circuit_breaker.py, in milliseconds.
abbrev fresh : CircuitBreaker
unfolding new
fresh = new 2 100 1

abbrev tripped : CircuitBreaker
tripped = record fresh { state_ = opened; failure_count = 2; last_failure_time = 7 }

abbrev probing : CircuitBreaker
probing = record fresh { state_ = half_open; failure_count = 2; half_open_calls = 1 }

opens : run fresh (fail_at 5 ∷ fail_at 7 ∷ []) ≡ tripped
unfolding run step new
opens = refl

recovers : (run tripped (arrives 200 ∷ ends returned 201 ∷ [])).state_ ≡ closed
unfolding run step new
recovers = refl

run-IsValid_example :
    ((run (new 2 100 1) (fail_at 5 ∷ fail_at 7 ∷ arrives 200 ∷ arrives 201 ∷ [])).state_ ≡ closed
      → (run (new 2 100 1) (fail_at 5 ∷ fail_at 7 ∷ arrives 200 ∷ arrives 201 ∷ [])).failure_count
        < 2)
    × (probes_in (new 2 100 1) (fail_at 5 ∷ fail_at 7 ∷ arrives 200 ∷ arrives 201 ∷ []) 0 ≤ 1)
run-IsValid_example =
    run-IsValid 2 100 1 (fail_at 5 ∷ fail_at 7 ∷ arrives 200 ∷ arrives 201 ∷ []) (omega arith)

state-run-failures_example : (run fresh (map fail_at (5 ∷ 7 ∷ []))).state_ ≡ opened
unfolding new
state-run-failures_example = state-run-failures fresh (5 ∷ 7 ∷ []) refl (omega arith)

admit-open_example : admit tripped 50 ≡ (err circuit_open, tripped)
unfolding new
admit-open_example = admit-open tripped 50 refl (omega arith)

recovery_example : (admit tripped 107).0 ≡ ok tt
unfolding new
recovery_example = (recovery tripped 107 108 refl (omega arith) (omega arith)).0

cancelled_probes_wedge_example :
    run probing (ends cancelled 3 ∷ arrives 100000 ∷ reads 200000 ∷ []) ≡ probing
unfolding new
cancelled_probes_wedge_example =
    (cancelled_probes_wedge probing (ends cancelled 3 ∷ arrives 100000 ∷ reads 200000 ∷ []) 300000
      refl (omega arith) (tt, (tt, (tt, tt)))).0
