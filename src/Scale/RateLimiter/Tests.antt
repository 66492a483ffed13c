-- ===== src/Scale/RateLimiter/Tests.antt =====
-- The theorems on the token bucket at concrete inputs.
use agent_sdk.Prelude.{true, ◌+◌, ◌*◌, ◌≤◌, ◌≡◌, refl, [], ◌∷◌, none, some, arith, ℕ, ◌<◌, ◌⊎◌}
use agent_sdk.Types.{other, ok, err}
use agent_sdk.Scale.RateLimiter.{
  configure_rate_limits, RateLimiter, Wait, wait_time, sleep_then, refill, try_acquire, acquire,
  serve, granted,
}
use agent_sdk.Scale.RateLimiter.Window.{granted-le}
use agent_sdk.Scale.RateLimiter.Waiting.{IsOver, acquire_waits_enough, acquire_starves}

-- Two tokens for each second, five at most, last refilled at 10 with one token left.
abbrev low : RateLimiter
low = record { rate = 2; burst = 5; tokens = 1; last_refill = 10 }

burst_served : granted low ((3, 10) ∷ (3, 11) ∷ (1, 12) ∷ []) ≡ 4
unfolding granted try_acquire refill
burst_served = refl

granted-le_example :
    granted low ((3, 10) ∷ (3, 11) ∷ []) + (serve low ((3, 10) ∷ (3, 11) ∷ [])).tokens + 20
    ≤ 1 + (serve low ((3, 10) ∷ (3, 11) ∷ [])).last_refill * 2
granted-le_example = granted-le low ((3, 10) ∷ (3, 11) ∷ []) (omega arith)

acquire_waits_enough_example :
    ((r : RateLimiter) × (acquire low 5 (11 ∷ []) ≡ (some (ok r), [])))
    ⊎ ((wait : Wait) × (acquire low 5 (11 ∷ []) ≡ (none, wait ∷ []))
        × (IsOver wait 1
            → (r : RateLimiter) × (acquire low 5 (11 ∷ 12 ∷ []) ≡ (some (ok r), wait ∷ []))))
acquire_waits_enough_example =
    acquire_waits_enough low 5 11 12 (omega arith) (omega arith) (omega arith) (omega arith)

-- Two tokens are missing, at two for each second.
slept : acquire low 5 (11 ∷ 12 ∷ []) ≡ (
  some (ok (record low { tokens = 0; last_refill = 12 })),
  record { missing = 2; rate = 2 } ∷ [],
)
unfolding acquire try_acquire refill wait_time sleep_then
slept = refl

acquire_starves_example :
    (0 < low.rate → (acquire low 6 (20 ∷ 30 ∷ 1000 ∷ [])).0 ≡ none)
    × (low.rate ≡ 0
        → (now : ℕ)
        → (acquire low 6 (now ∷ 20 ∷ 30 ∷ 1000 ∷ [])).0 ≡ some (err (other "ZeroDivisionError")))
acquire_starves_example = acquire_starves low 6 (20 ∷ 30 ∷ 1000 ∷ []) (omega arith) (omega arith)

-- The requests per minute of one model take the place of those of another.
one_for_all :
    configure_rate_limits true "small" (some 5) none (
      configure_rate_limits true "large"
        (some 100)
        (some 7)
        (record { rpm_limit = none; tpm_limit = none }))
    ≡ record { rpm_limit = some 5; tpm_limit = some 7 }
unfolding configure_rate_limits
one_for_all = refl
