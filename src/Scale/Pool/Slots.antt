-- ===== src/Scale/Pool/Slots.antt =====
-- The slots of the pool, after any interleaving of tasks.
use agent_sdk.Prelude.{ℕ, ◌+◌, ◌≤◌, ◌≡◌, arith}
use agent_sdk.Scale.Pool.{
  ConcurrencyPool, Reach, start, enters, leaves, new, enter, leave, active, available,
}

record Inv (n inside : ℕ) (p : ConcurrencyPool) : Type 0 where
  max : p.max_concurrent ≡ n
  counted : p.active_ ≡ inside
  slots : p.semaphore + inside ≡ n

Reach-Inv : {n inside : ℕ} {p : ConcurrencyPool} → Reach n inside p → Inv n inside p
unfolding new enter leave
Reach-Inv start = omega arith
Reach-Inv (enters {inside} {p} r free) =
    let v = Reach-Inv r in
    record { max = v.max; counted = omega (arith, v.counted); slots = omega (arith, v.slots) }
Reach-Inv (leaves {inside} {p} r) =
    let v = Reach-Inv r in
    record { max = v.max; counted = omega (arith, v.counted); slots = omega (arith, v.slots) }

-- However tasks enter and leave, `active` is the number of tasks inside, which is at most
-- `max_concurrent`, and `available` is the number of free slots of the semaphore.
pub Reach-bounded :
    {n inside : ℕ} {p : ConcurrencyPool}
    → Reach n inside p
    → (active p ≡ inside) × (inside ≤ n) × (available p ≡ p.semaphore)
unfolding active available
Reach-bounded r =
    let v = Reach-Inv r in
    (v.counted, omega (arith, v.slots), omega (arith, v.max, v.counted, v.slots))
