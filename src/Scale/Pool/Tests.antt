-- ===== src/Scale/Pool/Tests.antt =====
-- The theorem on the pool at a concrete interleaving.
use agent_sdk.Prelude.{◌≤◌, ◌≡◌, arith}
use agent_sdk.Scale.Pool.{
  ConcurrencyPool, Reach, start, enters, leaves, new, enter, leave, active, available,
}
use agent_sdk.Scale.Pool.Slots.{Reach-bounded}

abbrev after : ConcurrencyPool
after = leave (enter (enter (new 2)))

two_enter : Reach 2 2 (enter (enter (new 2)))
unfolding new enter
two_enter = enters {inside = 1} (enters {inside = 0} start (omega arith)) (omega arith)

Reach-bounded_example : (active after ≡ 1) × (1 ≤ 2) × (available after ≡ after.semaphore)
Reach-bounded_example = Reach-bounded (leaves {inside = 1} two_enter)
