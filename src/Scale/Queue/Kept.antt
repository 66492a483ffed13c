-- ===== src/Scale/Queue/Kept.antt =====
-- Which requests a queue still holds.
use agent_sdk.Prelude.{
  ℕ, String, ◌≡◌, ◌⊎◌, refl, Option, List, ◌∷◌, map, leb, length, Bool-cases, inl, inr,
}
use mathlib.Core.List.Perm
use mathlib.Core.List.{Mem}
use mathlib.Core.Logic.{◌∨₁◌}
use mathlib.Core.Logic.Or
use agent_sdk.Prelude.Dict
use agent_sdk.Prelude.Dict.{Dict}
use agent_sdk.Scale.Queue.{pending, RequestQueue, submit, Work}

module _ {R V : Type 0} where
  -- The ids of the requests that wait, and of those that are processed.
  abbrev pub waiting : RequestQueue R V → List String
  waiting q = map (λ e. e.request_id) q.queue

  abbrev pub processed : RequestQueue R V → List String
  processed q = map (λ e. e.request_id) q.busy

  pub Held : String → RequestQueue R V → Type 0
  Held id q = Mem id (waiting q) ∨₁ Mem id (processed q)

  -- A number of steps without `stop`, and without a handler that ends with CancelledError.
  pub data Works (q : RequestQueue R V) : RequestQueue R V → Type 0 where
    still : Works q q
    more : {p r : RequestQueue R V} → Works q p → Work p r → Works q r

  -- With room, `submit` puts an entry for the request and a pending future.
  unfoldable pub queued : String → R → ℕ → RequestQueue R V → RequestQueue R V
  queued id request priority q = record q {
    queue = record { priority = priority; request_id = id; request = request } ∷ q.queue;
    results = id ∷ q.results;
    futures = Dict.put id pending q.futures;
  }

  pub submit-cases :
      (id : String) (request : R) (priority : ℕ) (q : RequestQueue R V)
      → ((submit id request priority q).1 ≡ q)
        ⊎ ((submit id request priority q).1 ≡ queued id request priority q)
  unfolding submit queued
  submit-cases id request priority q = elim (Bool-cases (leb q.max_size (length q.queue))) [
    | inl full ↦ inl (rw full refl)
    | inr room ↦ inr (rw room refl)
  ]
