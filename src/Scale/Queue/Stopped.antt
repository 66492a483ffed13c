-- ===== src/Scale/Queue/Stopped.antt =====
-- Requests whose handler ends with CancelledError, as when `stop` cancels its worker.
use mathlib.Core.List.Perm
use mathlib.Core.List.{Perm, Mem}
use mathlib.Core.Logic.Or
use agent_sdk.Prelude.{◌+◌, ◌-◌, String, ◌≡◌, ◌⊎◌, Bool, true, Option, some, List, if◌then◌else◌}
use agent_sdk.Prelude.Dict
use agent_sdk.Prelude.Dict.{Dict, get}
use agent_sdk.Scale.Queue.{Future, pending, cancelled, RequestQueue}
use agent_sdk.Scale.Queue.Kept.{waiting, processed}

module _ {V : Type 0} (id : String) where
  -- No worker has settled the request: at most a client has cancelled it.
  abbrev pub Unanswered : Dict (Future V) → Type 0
  Unanswered futures = (get id futures ≡ some pending) ⊎ (get id futures ≡ some cancelled)

module _ {R V : Type 0} (id : String) where
  -- No worker knows the request any more.
  pub record IsAbandoned (q : RequestQueue R V) : Type 0 where
    pub unanswered : Unanswered id q.futures
    pub not_waiting : ¬ Mem id (waiting q)
    pub not_processed : ¬ Mem id (processed q)

  Started : RequestQueue R V → Bool → Type 0
  Started q on =
      IsAbandoned (if on then q else record q { running = true; idle = q.idle + q.max_workers })

  Retired : RequestQueue R V → Bool → Type 0
  Retired q on = IsAbandoned (if on then q else record q { idle = q.idle - 1 })
