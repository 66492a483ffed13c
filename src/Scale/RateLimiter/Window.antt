-- ===== src/Scale/RateLimiter/Window.antt =====
-- What a token bucket grants over a window of time.
use agent_sdk.Prelude.{ℕ, ◌+◌, ◌*◌, ◌≤◌, ◌≡◌, List, [], ◌∷◌, arith, if◌then◌else◌}
use agent_sdk.Scale.RateLimiter.{RateLimiter, refill, try_acquire, serve, granted}

-- The requests come in the order of time, from `start` on.
abbrev pub InOrder : ℕ → List (ℕ × ℕ) → Type 0
InOrder start [] = Unit
InOrder start ((tokens, now) ∷ rest) = (start ≤ now) × InOrder now rest

refill_gain :
    (r : RateLimiter) (now : ℕ)
    → r.last_refill ≤ now
    → ((refill r now).tokens + r.last_refill * r.rate ≤ r.tokens + now * r.rate)
      × ((refill r now).last_refill ≡ now)
      × ((refill r now).rate ≡ r.rate)
      × ((refill r now).burst ≡ r.burst)
unfolding refill
refill_gain r now h = (grind arith, ground arith, ground arith, ground arith)

try_acquire_gain :
    (r : RateLimiter) (tokens now : ℕ)
    → r.last_refill ≤ now
    → ((if (try_acquire r tokens now).0 then tokens else 0)
          + (try_acquire r tokens now).1.tokens
          + r.last_refill * r.rate
        ≤ r.tokens + now * r.rate)
      × ((try_acquire r tokens now).1.last_refill ≡ now)
      × ((try_acquire r tokens now).1.rate ≡ r.rate)
unfolding try_acquire
try_acquire_gain r tokens now h = ground (arith, refill_gain r now h)

-- Over requests in the order of time, the tokens granted and those left exceed those at the start
-- by at most `rate` for each unit of time that has passed.
pub granted-le :
    (r : RateLimiter) (requests : List (ℕ × ℕ))
    → InOrder r.last_refill requests
    → granted r requests + (serve r requests).tokens + r.last_refill * r.rate
      ≤ r.tokens + (serve r requests).last_refill * r.rate
unfolding granted serve
granted-le r [] h = omega arith
granted-le r ((tokens, now) ∷ rest) h =
    let gain = try_acquire_gain r tokens now h.0 in
    let ih = granted-le (try_acquire r tokens now).1 rest (rw gain.1 h.1) in
    omega (arith, gain.0, rw (gain.1, gain.2) at ih)
