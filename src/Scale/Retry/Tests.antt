-- ===== src/Scale/Retry/Tests.antt =====
-- The theorems on retries at concrete inputs.
use agent_sdk.Prelude.{
  none, ℕ, ◌+◌, ◌≤◌, ◌<◌, ◌≡◌, refl, true, ltb, if◌then◌else◌, [], ◌∷◌, arith, length,
}
use agent_sdk.Types.{llm_error, Result, ok, err}
use agent_sdk.Scale.Retry.{RetryPolicy, with_retry, delay, retry}
use agent_sdk.Scale.Retry.Attempts.{calls-with_retry, result-with_retry}

-- The defaults, in milliseconds, with every exception retried.
abbrev policy : RetryPolicy
policy = record {
  max_retries = 3;
  base_delay = 1000;
  max_delay = 3000;
  exponential_base = 2;
  retryable = λ e. true;
}

abbrev no_jitter : ℕ → ℕ → ℕ
no_jitter attempt d = d

-- Two failures, and then a value.
abbrev flaky : ℕ → Result ℕ
flaky i = if ltb i 2 then err llm_error else ok 7

abbrev broken : ℕ → Result ℕ
broken i = err llm_error

flaky_sleeps : (with_retry policy no_jitter flaky).sleeps ≡ 1000 ∷ 2000 ∷ []
unfolding with_retry delay
flaky_sleeps = refl

broken_sleeps : (with_retry policy no_jitter broken).sleeps ≡ 1000 ∷ 2000 ∷ 3000 ∷ []
unfolding with_retry delay
broken_sleeps = refl

-- The decorator with the default policy.
decorated_sleeps : (retry none no_jitter (λ (n : ℕ). broken) 0).sleeps ≡ 1000 ∷ 2000 ∷ 4000 ∷ []
unfolding retry with_retry delay
decorated_sleeps = refl

calls-with_retry_example :
    (0 < (with_retry policy no_jitter broken).calls)
    × ((with_retry policy no_jitter broken).calls ≤ 3 + 1)
    × (length (with_retry policy no_jitter broken).sleeps + 1
        ≡ (with_retry policy no_jitter broken).calls)
calls-with_retry_example = calls-with_retry policy no_jitter broken

result-with_retry_example :
    ((with_retry policy no_jitter flaky).result ≡ ok 7)
    × ((with_retry policy no_jitter flaky).calls ≡ 3)
result-with_retry_example =
    result-with_retry policy no_jitter flaky 2 (omega arith) (λ i h. ground arith) tt
