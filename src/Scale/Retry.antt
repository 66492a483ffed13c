-- ===== src/Scale/Retry.antt =====
-- agent_sdk/scale/retry.py. The awaited function is a parameter: its result at each attempt.
-- Delays are numbers of one fixed unit, and `jitter` stands for the random factor.
pub mod Attempts
pub mod Tests
use agent_sdk.Prelude.{
  ℕ, zero, suc, ◌+◌, ◌-◌, ◌*◌, ◌^◌, min, Bool, true, false, ◌==◌, if◌then◌else◌, Option, none, some,
  List, [], ◌∷◌,
}
use agent_sdk.Types.{Error, other, Result, ok, err}

pub record RetryPolicy : Type 0 where
  pub max_retries : ℕ
  pub base_delay : ℕ
  pub max_delay : ℕ
  pub exponential_base : ℕ
  pub retryable : Error → Bool

-- `RetryPolicy()`, in milliseconds.
abbrev pub default_policy : RetryPolicy
default_policy = record {
  max_retries = 3;
  base_delay = 1000;
  max_delay = 60000;
  exponential_base = 2;
  retryable = λ e. true;
}

-- `policy or RetryPolicy()`
abbrev pub or_default : Option RetryPolicy → RetryPolicy
or_default none = default_policy
or_default (some p) = p

-- What a caller sees: the result, how often the function was called, and the sleeps in between.
pub record Trace {ℓ} (A : Type ℓ) : Type ℓ where
  pub result : Result A
  pub calls : ℕ
  pub sleeps : List ℕ

-- `raise last_exc`; with no exception at hand Python raises a `TypeError`.
raise_last {ℓ} : {A : Type ℓ} → Option Error → Result A
raise_last none = err (other "exceptions must derive from BaseException")
raise_last (some e) = err e

pub delay : RetryPolicy → (ℕ → ℕ → ℕ) → ℕ → ℕ
delay p jitter attempt =
    jitter attempt (min (p.base_delay * p.exponential_base ^ attempt) p.max_delay)

module _ {ℓ} {A : Type ℓ} (p : RetryPolicy) (jitter : ℕ → ℕ → ℕ) (fn : ℕ → Result A) where
  stop : Result A → Trace A
  stop r = record { result = r; calls = 1; sleeps = [] }

  again : ℕ → Trace A → Trace A
  again attempt rest = record rest {
    calls = rest.calls + 1;
    sleeps = delay p jitter attempt ∷ rest.sleeps;
  }

  -- One round of the loop; `rest` is the loop from the next attempt on.
  round : ℕ → Result A → (Error → Trace A) → Trace A
  unfolding stop again
  round attempt (ok a) rest = stop (ok a)
  round attempt (err e) rest =
      if p.retryable e
      then if attempt == p.max_retries then stop (err e) else again attempt (rest e)
      else stop (err e)

  -- The loop with `left` attempts to go. A `break` leaves with the exception at hand.
  loop : ℕ → ℕ → Option Error → Trace A
  loop zero attempt last = record { result = raise_last last; calls = 0; sleeps = [] }
  loop (suc left) attempt last =
      let rest = loop left (suc attempt) in round attempt (fn attempt) (λ e. rest (some e))

  pub with_retry : Trace A
  unfolding loop round raise_last
  with_retry = loop (suc p.max_retries) 0 none

-- The decorator: its result is the wrapper.
unfoldable pub retry {ℓ κ} :
    {Args : Type κ} {A : Type ℓ}
    → Option RetryPolicy
    → (ℕ → ℕ → ℕ)
    → (Args → ℕ → Result A)
    → Args
    → Trace A
retry policy jitter fn args = with_retry (or_default policy) jitter (fn args)
