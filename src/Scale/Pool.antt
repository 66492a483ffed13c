-- ===== src/Scale/Pool.antt =====
-- agent_sdk/scale/pool.py. The semaphore of asyncio is its counter; tasks that wait for a slot
-- change nothing. A step is one task that enters or leaves the `async with` of `acquire`.
pub mod Slots
pub mod Tests
use agent_sdk.Prelude.{ℕ, ◌+◌, ◌-◌, ◌<◌}

pub record ConcurrencyPool : Type 0 where
  pub max_concurrent : ℕ
  pub semaphore : ℕ
  pub active_ : ℕ

pub new : ℕ → ConcurrencyPool
new n = record { max_concurrent = n; semaphore = n; active_ = 0 }

-- `await self._semaphore.acquire()` has returned.
pub enter : ConcurrencyPool → ConcurrencyPool
enter p = record p { semaphore = p.semaphore - 1; active_ = p.active_ + 1 }

-- The `finally` block.
pub leave : ConcurrencyPool → ConcurrencyPool
leave p = record p { active_ = p.active_ - 1; semaphore = p.semaphore + 1 }

pub active : ConcurrencyPool → ℕ
active p = p.active_

pub available : ConcurrencyPool → ℕ
available p = p.max_concurrent - p.active_

-- `inside` is the number of tasks that are inside the context manager.
pub data Reach (n : ℕ) : ℕ → ConcurrencyPool → Type 0 where
  start : Reach n 0 (new n)
  enters :
      {inside : ℕ} {p : ConcurrencyPool}
      → Reach n inside p
      → 0 < p.semaphore
      → Reach n (inside + 1) (enter p)
  leaves : {inside : ℕ} {p : ConcurrencyPool} → Reach n (inside + 1) p → Reach n inside (leave p)
