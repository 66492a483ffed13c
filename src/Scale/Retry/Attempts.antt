-- ===== src/Scale/Retry/Attempts.antt =====
-- Which attempts `with_retry` makes.
use agent_sdk.Prelude.{
  ℕ, zero, suc, ◌+◌, ◌-◌, ◌≤◌, ◌<◌, ◌≡◌, ◌⊎◌, true, false, refl, arith, length, none, some, Option,
}
use agent_sdk.Types.{Error, Result, ok, err}
use agent_sdk.Scale.Retry.{RetryPolicy, Trace, with_retry, loop, round}

module _ {ℓ} {A : Type ℓ} (p : RetryPolicy) (jitter : ℕ → ℕ → ℕ) (fn : ℕ → Result A) where
  -- The attempt failed with an exception that the policy retries.
  abbrev pub Retried : Result A → Type 0
  Retried (ok a) = ⊥
  Retried (err e) = p.retryable e ≡ true

  -- The loop ends at this attempt.
  abbrev pub Ends : ℕ → Result A → Type 0
  Ends attempt (ok a) = Unit
  Ends attempt (err e) = (p.retryable e ≡ false) ⊎ (attempt ≡ p.max_retries)

  round-calls :
      (attempt : ℕ) (r : Result A) (rest : Error → Trace A) (bound : ℕ)
      → ((e : Error)
          → ((rest e).calls ≤ bound)
            × (length (rest e).sleeps ≡ (rest e).calls - 1)
            × (attempt < p.max_retries → 0 < (rest e).calls))
      → attempt ≤ p.max_retries
      → ((round p jitter fn attempt r rest).calls ≤ suc bound)
        × (length (round p jitter fn attempt r rest).sleeps
            ≡ (round p jitter fn attempt r rest).calls - 1)
        × (0 < (round p jitter fn attempt r rest).calls)
  unfolding round
  round-calls attempt (ok a) rest bound ih le = ground arith
  round-calls attempt (err e) rest bound ih le = ground (arith, ih e)

  loop-calls :
      (left attempt : ℕ) (last : Option Error)
      → attempt + left ≡ suc p.max_retries
      → ((loop p jitter fn left attempt last).calls ≤ left)
        × (length (loop p jitter fn left attempt last).sleeps
            ≡ (loop p jitter fn left attempt last).calls - 1)
        × (attempt ≤ p.max_retries → 0 < (loop p jitter fn left attempt last).calls)
  unfolding loop
  loop-calls zero attempt last sum = (omega arith, omega arith, λ h. absurd (omega arith))
  loop-calls (suc left) attempt last sum =
      let (few, slept, pos) =
        round-calls attempt (fn attempt) (λ e. loop p jitter fn left (suc attempt) (some e)) left
          (λ e.
            let (f, s, q) = loop-calls left (suc attempt) (some e) (omega arith) in
            (f, s, λ h. q (omega arith)))
          (omega arith) in
      (few, slept, λ _. pos)

  -- The function is called at least once and at most `max_retries + 1` times, and between two
  -- calls there is exactly one sleep.
  pub calls-with_retry :
      (0 < (with_retry p jitter fn).calls)
      × ((with_retry p jitter fn).calls ≤ p.max_retries + 1)
      × (length (with_retry p jitter fn).sleeps + 1 ≡ (with_retry p jitter fn).calls)
  unfolding with_retry
  calls-with_retry =
      let (few, slept, pos) = loop-calls (suc p.max_retries) 0 none (omega arith) in
      let some_call = pos (omega arith) in (some_call, omega arith, omega arith)

  round-Ends :
      (attempt : ℕ) (r : Result A) (rest : Error → Trace A)
      → Ends attempt r
      → ((round p jitter fn attempt r rest).result ≡ r)
        × ((round p jitter fn attempt r rest).calls ≡ 1)
  unfolding round
  round-Ends attempt (ok a) rest h = (refl, refl)
  round-Ends attempt (err e) rest h = (ground arith, ground arith)

  round-Retried :
      (attempt : ℕ) (r : Result A) (rest : Error → Trace A) (final : Result A) (n : ℕ)
      → Retried r
      → attempt < p.max_retries
      → ((e : Error) → ((rest e).result ≡ final) × ((rest e).calls ≡ n))
      → ((round p jitter fn attempt r rest).result ≡ final)
        × ((round p jitter fn attempt r rest).calls ≡ suc n)
  unfolding round
  round-Retried attempt (ok a) rest final n h lt ih = absurd h
  round-Retried attempt (err e) rest final n h lt ih = (ground (arith, ih e), ground (arith, ih e))

  loop-result :
      (skip left attempt k : ℕ) (last : Option Error)
      → k ≡ attempt + skip
      → ((i : ℕ) → i < k → Retried (fn i))
      → k ≤ p.max_retries
      → attempt + left ≡ suc p.max_retries
      → Ends k (fn k)
      → ((loop p jitter fn left attempt last).result ≡ fn k)
        × ((loop p jitter fn left attempt last).calls ≡ suc skip)
  unfolding loop
  loop-result skip zero attempt k last at fails le sum ends = absurd (omega arith)
  loop-result zero (suc left) attempt k last at fails le sum ends =
      let here : k ≡ attempt = omega arith in
      rw here (
        round-Ends attempt (fn attempt) (λ e. loop p jitter fn left (suc attempt) (some e))
          (rw here at ends))
  loop-result (suc skip) (suc left) attempt k last at fails le sum ends =
      round-Retried attempt (fn attempt) (λ e. loop p jitter fn left (suc attempt) (some e)) (fn k)
        (suc skip) (fails attempt (omega arith)) (omega arith)
        (λ e.
          loop-result skip left (suc attempt) k (some e) (omega arith) fails le (omega arith) ends)

  -- If every attempt before the `k`-th failed with an exception that the policy retries, and the
  -- `k`-th returned, raised an exception that the policy does not retry, or was the last one, then
  -- the result is that of the `k`-th attempt, after `k + 1` calls.
  pub result-with_retry :
      (k : ℕ)
      → k ≤ p.max_retries
      → ((i : ℕ) → i < k → Retried (fn i))
      → Ends k (fn k)
      → ((with_retry p jitter fn).result ≡ fn k) × ((with_retry p jitter fn).calls ≡ suc k)
  unfolding with_retry
  result-with_retry k le fails ends =
      loop-result k (suc p.max_retries) 0 k none (omega arith) fails le (omega arith) ends
