-- ===== src/Scale/RateLimiter/Waiting.antt =====
-- When a waiting `acquire` returns.
use agent_sdk.Prelude.{
  ℕ, ◌-◌, ◌*◌, ◌≤◌, ◌<◌, ◌≡◌, List, [], ◌∷◌, arith, none, some, refl, inl, inr, true, false,
  Bool-cases, ap, ◌∙◌, ◌⊎◌,
}
use agent_sdk.Types.{other, ok, err}
use agent_sdk.Scale.RateLimiter.{
  RateLimiter, Wait, refill, try_acquire, wait_time, sleep_then, acquire,
}

-- The bucket never holds more than `burst`.
abbrev pub IsWithin : RateLimiter → Type 0
IsWithin r = r.tokens ≤ r.burst

try_acquire-IsWithin :
    (r : RateLimiter) (tokens now : ℕ) → IsWithin r → IsWithin (try_acquire r tokens now).1
unfolding try_acquire refill
try_acquire-IsWithin r tokens now h = ground arith

burst-try_acquire :
    (r : RateLimiter) (tokens now : ℕ) → (try_acquire r tokens now).1.burst ≡ r.burst
unfolding try_acquire refill
burst-try_acquire r tokens now = ground arith

-- The sleep is over when `elapsed` has passed.
abbrev pub IsOver : Wait → ℕ → Type 0
IsOver wait elapsed = wait.missing ≤ elapsed * wait.rate

wait_time-positive :
    (r : RateLimiter) (tokens : ℕ)
    → 0 < r.rate
    → wait_time r tokens ≡ ok (record { missing = tokens - r.tokens; rate = r.rate })
unfolding wait_time
wait_time-positive r tokens h = ground arith

wait_time-zero :
    (r : RateLimiter) (tokens : ℕ)
    → r.rate ≡ 0
    → wait_time r tokens ≡ err (other "ZeroDivisionError")
unfolding wait_time
wait_time-zero r tokens h = rw h refl

rate-try_acquire : (r : RateLimiter) (tokens now : ℕ) → (try_acquire r tokens now).1.rate ≡ r.rate
unfolding try_acquire refill
rate-try_acquire r tokens now = ground arith

second_try :
    (r : RateLimiter) (tokens now later : ℕ)
    → tokens ≤ r.burst
    → 0 < now
    → now ≤ later
    → (try_acquire r tokens now).0 ≡ false
    → tokens - (try_acquire r tokens now).1.tokens ≤ (later - now) * r.rate
    → (try_acquire (try_acquire r tokens now).1 tokens later).0 ≡ true
unfolding try_acquire refill
second_try r tokens now later fits pos le miss enough = ground arith

-- With a positive rate, a miss is followed by a sleep and another round.
acquire-miss :
    (r : RateLimiter) (tokens now : ℕ) (later : List ℕ)
    → 0 < r.rate
    → (try_acquire r tokens now).0 ≡ false
    → let r' = (try_acquire r tokens now).1 in
      acquire r tokens (now ∷ later) ≡ (
        (acquire r' tokens later).0,
        record { missing = tokens - r'.tokens; rate = r.rate } ∷ (acquire r' tokens later).1,
      )
unfolding acquire sleep_then
acquire-miss r tokens now later pos miss =
    let r' = (try_acquire r tokens now).1 in
    rw
      (
        miss,
        wait_time-positive r' tokens (rw (rate-try_acquire r tokens now) pos),
        rate-try_acquire r tokens now,
      )
      refl

-- With a positive rate and at most as many tokens asked for as the bucket can hold, on a clock that
-- reads more than 0, `acquire` either returns at once or sleeps, and it returns at its next reading
-- of the clock, if that comes when the sleep that it has computed is over, and the clock does not
-- go back.
pub acquire_waits_enough :
    (r : RateLimiter) (tokens now later : ℕ)
    → tokens ≤ r.burst
    → 0 < r.rate
    → 0 < now
    → now ≤ later
    → ((r' : RateLimiter) × (acquire r tokens (now ∷ []) ≡ (some (ok r'), [])))
      ⊎ ((wait : Wait) × (acquire r tokens (now ∷ []) ≡ (none, wait ∷ []))
          × (IsOver wait (later - now)
              → (r' : RateLimiter) × (acquire r tokens (now ∷ later ∷ [])
                  ≡ (some (ok r'), wait ∷ []))))
unfolding acquire
acquire_waits_enough r tokens now later fits some_rate pos le =
    elim (Bool-cases (try_acquire r tokens now).0) [
      | inl hit ↦ inl ((try_acquire r tokens now).1, rw hit refl)
      | inr miss ↦ inr (
        record { missing = tokens - (try_acquire r tokens now).1.tokens; rate = r.rate },
        acquire-miss r tokens now [] some_rate miss,
        λ over. (
          (try_acquire (try_acquire r tokens now).1 tokens later).1,
          acquire-miss r tokens now (later ∷ []) some_rate miss
              ∙ rw (second_try r tokens now later fits pos le miss over) refl,
        ),
      )
    ]

too_many :
    (r : RateLimiter) (tokens now : ℕ)
    → IsWithin r
    → r.burst < tokens
    → (try_acquire r tokens now).0 ≡ false
unfolding try_acquire refill
too_many r tokens now w h = ground arith

-- On a bucket that holds no more than `burst`, an `acquire` of more tokens than `burst` never
-- returns, however often the loop goes round: it still waits, or, at rate 0, raises
-- ZeroDivisionError in its first round.
pub acquire_starves :
    (r : RateLimiter) (tokens : ℕ) (clock : List ℕ)
    → IsWithin r
    → r.burst < tokens
    → (0 < r.rate → (acquire r tokens clock).0 ≡ none)
      × (r.rate ≡ 0
          → (now : ℕ) → (acquire r tokens (now ∷ clock)).0 ≡ some (err (other "ZeroDivisionError")))
unfolding acquire
acquire_starves r tokens clock w h = (
  λ pos. starves r clock w h pos,
  λ zero now.
      rw
        (
          too_many r tokens now w h,
          wait_time-zero (try_acquire r tokens now).1 tokens (rate-try_acquire r tokens now ∙ zero),
        )
        refl,
)
  where
    starves :
        (r : RateLimiter) (clock : List ℕ)
        → IsWithin r
        → r.burst < tokens
        → 0 < r.rate
        → (acquire r tokens clock).0 ≡ none
    starves r [] w h pos = refl
    starves r (now ∷ later) w h pos =
        ap (λ x. x.0) (acquire-miss r tokens now later pos (too_many r tokens now w h))
        ∙ starves (try_acquire r tokens now).1 later (try_acquire-IsWithin r tokens now w)
            (rw (burst-try_acquire r tokens now) h) (rw (rate-try_acquire r tokens now) pos)
