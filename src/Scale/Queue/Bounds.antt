-- ===== src/Scale/Queue/Bounds.antt =====
-- How many requests wait, and how many are processed at a time.
use agent_sdk.Prelude.{◌+◌, ◌≤◌, ◌≡◌, length, if◌then◌else◌}
use agent_sdk.Scale.Queue.{RequestQueue, works, stops, dies, Steps, done, after}

module _ {R V : Type 0} where
  -- The queue is within its size, and the counter counts the busy workers.
  pub record IsValid (q : RequestQueue R V) : Type 0 where
    pub bounded : length q.queue ≤ q.max_size
    pub counted : q.active_count_ ≡ length q.busy

  -- At most `max_workers` workers, and none before the start.
  pub IsStaffed : RequestQueue R V → Type 0
  IsStaffed q = q.idle + length q.busy ≤ (if q.running then q.max_workers else 0)

  -- None of the steps is a `stop`.
  pub Unstopped : {q p : RequestQueue R V} → Steps q p → Type 0
  Unstopped done = Unit
  Unstopped (after s (works t)) = Unstopped s
  Unstopped (after s (dies e rest p)) = Unstopped s
  Unstopped (after s (stops n le)) = ⊥
