-- ===== src/Scale/RateLimiter.antt =====
-- agent_sdk/scale/rate_limiter.py: `configure_rate_limits`, and `RateLimiter`, the token bucket. Tokens and times are
-- numbers of fixed units (no rounding of floats), `rate` is tokens for each unit of time, and each
-- read of `time.monotonic()` is an argument.
pub mod Window
pub mod Waiting
pub mod Tests
use agent_sdk.Prelude.{
  ℕ, ◌+◌, ◌-◌, ◌*◌, min, Bool, true, false, leb, ◌==◌, if◌then◌else◌, List, [], ◌∷◌, Option, none,
  some, String,
}
use agent_sdk.Types.{other, Result, ok, err}

-- The limits of litellm that the SDK sets, which are those of the module and not of a model.
pub record Limits : Type 0 where
  pub rpm_limit : Option ℕ
  pub tpm_limit : Option ℕ

-- A limit that is not given stays as it is. `installed` tells whether litellm can be imported.
pub configure_rate_limits :
    (installed : Bool) (model : String) (rpm tpm : Option ℕ) → Limits → Limits
configure_rate_limits false model rpm tpm l = l
configure_rate_limits true model rpm tpm l = record {
  rpm_limit = given rpm l.rpm_limit;
  tpm_limit = given tpm l.tpm_limit;
}
  where
    given : Option ℕ → Option ℕ → Option ℕ
    given none before = before
    given (some n) before = some n

pub record RateLimiter : Type 0 where
  pub rate : ℕ
  pub burst : ℕ
  pub tokens : ℕ
  pub last_refill : ℕ

pub new : ℕ → ℕ → RateLimiter
new rate burst = record { rate = rate; burst = burst; tokens = burst; last_refill = 0 }

-- A `last_refill` of 0 says that the bucket was never refilled.
pub refill : RateLimiter → ℕ → RateLimiter
refill r now = if r.last_refill == 0 then record r { last_refill = now } else record r {
  tokens = min r.burst (r.tokens + (now - r.last_refill) * r.rate);
  last_refill = now;
}

pub try_acquire : RateLimiter → ℕ → ℕ → Bool × RateLimiter
try_acquire r tokens now =
    let r' = refill r now in
    if leb tokens r'.tokens then (true, record r' { tokens = r'.tokens - tokens }) else (false, r')

-- A sleep of `missing / rate`.
pub record Wait : Type 0 where
  pub missing : ℕ
  pub rate : ℕ

-- `(tokens - self._tokens) / self.rate`
pub wait_time : RateLimiter → ℕ → Result Wait
wait_time r tokens =
    if r.rate == 0
    then err (other "ZeroDivisionError")
    else ok (record { missing = tokens - r.tokens; rate = r.rate })

-- The end of `acquire`, if it comes with the clock readings there are, and its sleeps before.
abbrev pub Acquired : Type 0
Acquired = Option (Result RateLimiter) × List Wait

sleep_then : Result Wait → Acquired → Acquired
sleep_then (err e) rest = (some (err e), [])
sleep_then (ok w) (end, waits) = (end, w ∷ waits)

-- `acquire`, with the clock at each round of its loop.
pub acquire : RateLimiter → ℕ → List ℕ → Acquired
unfolding try_acquire wait_time sleep_then
acquire r tokens [] = (none, [])
acquire r tokens (now ∷ later) =
    let r' = (try_acquire r tokens now).1 in
    let rest = acquire r' tokens later in
    if (try_acquire r tokens now).0
    then (some (ok r'), [])
    else sleep_then (wait_time r' tokens) rest

pub available_tokens : RateLimiter → ℕ → ℕ × RateLimiter
available_tokens r now = ((refill r now).tokens, refill r now)

-- A client's requests: how many tokens, and when.
pub serve : RateLimiter → List (ℕ × ℕ) → RateLimiter
serve r [] = r
serve r ((tokens, now) ∷ rest) = serve (try_acquire r tokens now).1 rest

-- The tokens that the requests were granted.
pub granted : RateLimiter → List (ℕ × ℕ) → ℕ
granted r [] = 0
granted r ((tokens, now) ∷ rest) =
    (if (try_acquire r tokens now).0 then tokens else 0) + granted (try_acquire r tokens now).1 rest
