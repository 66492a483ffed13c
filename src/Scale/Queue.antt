-- ===== src/Scale/Queue.antt =====
-- agent_sdk/scale/queue.py: `RequestQueue`. The futures are a store of their own, by request id,
-- since an entry of the queue and `_results` hold the same future. asyncio.PriorityQueue gives one
-- of the entries with the least priority; which one is left open. A priority is a natural number.
-- Between two awaits a method runs alone, so that a step is one method, or one stretch of a worker.
pub mod Bounds
pub mod Futures
pub mod Kept
pub mod Stopped
pub mod Tests
use agent_sdk.Prelude.{
  ℕ, ◌+◌, ◌-◌, ◌≤◌, ◌<◌, String, ◌≡◌, Bool, true, false, Option, none, some, List, [], ◌∷◌, length,
  leb, str_eq, if◌then◌else◌, All,
}
use mathlib.Core.List.{Perm}
use agent_sdk.Prelude.Dict
use agent_sdk.Prelude.Dict.{Dict, get}
use agent_sdk.Types.{Error, backpressure, other, Result, ok, err}

-- asyncio.Future. The result None is `none`.
pub data Future (V : Type 0) : Type 0 where
  pending cancelled : Future V
  value : Option V → Future V
  failed : Error → Future V

pub record Entry (R : Type 0) : Type 0 where
  pub priority : ℕ
  pub request_id : String
  pub request : R

-- `idle` counts the workers that wait for an entry; `busy` holds the entries that the others are
-- processing; `results` holds the keys of `_results`.
pub record RequestQueue (R V : Type 0) : Type 0 where
  pub max_size : ℕ
  pub max_workers : ℕ
  pub queue : List (Entry R)
  pub results : List String
  pub futures : Dict (Future V)
  pub idle : ℕ
  pub busy : List (Entry R)
  pub running : Bool
  pub has_handler : Bool
  pub active_count_ : ℕ

-- How a handler ends, but by CancelledError, for which see `die`.
pub data Outcome (V : Type 0) : Type 0 where
  returned : Option V → Outcome V
  raised : Error → Outcome V

abbrev pub contains : String → List String → Bool
contains k [] = false
contains k (j ∷ l) = if str_eq j k then true else contains k l

abbrev pub without : String → List String → List String
without k [] = []
without k (j ∷ l) = if str_eq j k then without k l else j ∷ without k l

module _ {V : Type 0} where
  abbrev pub is_done : Future V → Bool
  is_done pending = false
  is_done _ = true

  -- `if not future.done():` set it.
  pub complete : String → Future V → Dict (Future V) → Dict (Future V)
  complete id f futures = elim (get id futures) [
    | some pending ↦ Dict.put id f futures
    | _ ↦ futures
  ]

  abbrev pub future_of : Outcome V → Future V
  future_of (returned v) = value v
  future_of (raised e) = failed e

module _ {R V : Type 0} where
  pub new : ℕ → ℕ → RequestQueue R V
  new max_size max_workers = record {
    max_size = max_size;
    max_workers = max_workers;
    queue = [];
    results = [];
    futures = [];
    idle = 0;
    busy = [];
    running = false;
    has_handler = false;
    active_count_ = 0;
  }

  pub set_handler : RequestQueue R V → RequestQueue R V
  set_handler q = record q { has_handler = true }

  -- The id is that of `uuid4().hex`.
  pub submit : String → R → ℕ → RequestQueue R V → Result String × RequestQueue R V
  submit id request priority q =
      if leb q.max_size (length q.queue) then (err backpressure, q) else (
        ok id,
        record q {
          queue = record { priority = priority; request_id = id; request = request } ∷ q.queue;
          results = id ∷ q.results;
          futures = Dict.put id pending q.futures;
        },
      )

  -- The future that `get_result` waits for.
  pub get_result : String → RequestQueue R V → Result (Option (Future V))
  get_result id q = if contains id q.results then ok (get id q.futures) else err (other "KeyError")

  -- `asyncio.wait_for` cancels the future when its time is over.
  pub give_up : String → RequestQueue R V → RequestQueue R V
  unfolding complete
  give_up id q =
      if contains id q.results then record q { futures = complete id cancelled q.futures } else q

  pub cancel : String → RequestQueue R V → RequestQueue R V
  unfolding complete
  cancel id q =
      if contains id q.results
      then record q { results = without id q.results; futures = complete id cancelled q.futures }
      else q

  pub start : RequestQueue R V → RequestQueue R V
  start q = if q.running then q else record q { running = true; idle = q.idle + q.max_workers }

  -- `stop` up to its await: the tasks of `_workers` are cancelled. Those that wait for an entry leave
  -- their loop; `untracked` are those of them that an earlier `stop`, whose await a `start` came into,
  -- has cleared from `_workers`. A handler that is running gets CancelledError: how it ends is a later
  -- step, and so may be a `start`.
  pub stop : (untracked : ℕ) → RequestQueue R V → RequestQueue R V
  stop untracked q = record q { running = false; idle = untracked }

  -- A waiting worker finds the queue stopped when its second is over.
  pub retire : RequestQueue R V → RequestQueue R V
  retire q = if q.running then q else record q { idle = q.idle - 1 }

  -- A worker gets an entry, with `rest` left in the queue.
  pub take : Entry R → List (Entry R) → RequestQueue R V → RequestQueue R V
  take e rest q = record q {
    queue = rest;
    idle = q.idle - 1;
    busy = e ∷ q.busy;
    active_count_ = q.active_count_ + 1;
  }

  -- The worker of an entry goes on behind the handler, with `rest` left to the others. It leaves its
  -- loop if the queue is stopped.
  pub finish : Entry R → List (Entry R) → Outcome V → RequestQueue R V → RequestQueue R V
  unfolding complete
  finish e rest o q = record q {
    futures = complete e.request_id (if q.has_handler then future_of o else value none) q.futures;
    idle = if q.running then q.idle + 1 else q.idle;
    busy = rest;
    active_count_ = q.active_count_ - 1;
  }

  -- The handler of an entry ends with CancelledError, which `except Exception` does not catch: the
  -- worker ends too, through its `finally`.
  pub die : List (Entry R) → RequestQueue R V → RequestQueue R V
  die rest q = record q { busy = rest; active_count_ = q.active_count_ - 1 }

  abbrev pub pending_count : RequestQueue R V → ℕ
  pending_count q = length q.queue

  abbrev pub active_count : RequestQueue R V → ℕ
  active_count q = q.active_count_

  -- What can happen, but for `stop` and for a handler that ends with CancelledError. A new request
  -- has a new id.
  pub data Work (q : RequestQueue R V) : RequestQueue R V → Type 0 where
    handles : Work q (set_handler q)
    submits :
        (id : String) (request : R) (priority : ℕ)
        → get id q.futures ≡ none
        → Work q (submit id request priority q).1
    gives_up : (id : String) → Work q (give_up id q)
    cancels : (id : String) → Work q (cancel id q)
    starts : Work q (start q)
    retires : Work q (retire q)
    takes :
        (e : Entry R) (rest : List (Entry R))
        → Perm (e ∷ rest) q.queue
        → All (λ (f : Entry R). e.priority ≤ f.priority) rest
        → 0 < q.idle
        → Work q (take e rest q)
    finishes :
        (e : Entry R) (rest : List (Entry R)) (o : Outcome V)
        → Perm (e ∷ rest) q.busy
        → Work q (finish e rest o q)

  pub data Step (q : RequestQueue R V) : RequestQueue R V → Type 0 where
    works : {p : RequestQueue R V} → Work q p → Step q p
    stops : (untracked : ℕ) → untracked ≤ q.idle → Step q (stop untracked q)
    dies : (e : Entry R) (rest : List (Entry R)) → Perm (e ∷ rest) q.busy → Step q (die rest q)

  -- Any number of steps.
  pub data Steps (q : RequestQueue R V) : RequestQueue R V → Type 0 where
    done : Steps q q
    after : {p r : RequestQueue R V} → Steps q p → Step p r → Steps q r
