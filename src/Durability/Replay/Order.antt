-- ===== src/Durability/Replay/Order.antt =====
-- In what order steps are replayed.
use agent_sdk.Prelude.{
  ℕ, zero, suc, ◌+◌, ◌≤◌, ◌<◌, arith, String, ◌≡◌, ◌∙◌, ap, refl, Option, none, some, List, [], ◌∷◌,
}
use agent_sdk.Types.{Result, ok}
use agent_sdk.Db.Backend.{Backend}
use agent_sdk.Db.Exec.{World, pure, ◌>>=◌, fetch_all, fetch_all_built}
use agent_sdk.Db.Repositories.StepRepo
use agent_sdk.Isolation.Filter
use agent_sdk.Isolation.Scope.{get_user_scope}
use agent_sdk.Core.Session.{lift}
use agent_sdk.Core.Message.{Step}
use agent_sdk.Durability.Checkpoint.{Codec, rewrap, load}
use agent_sdk.Durability.Replay.{kept, replay, replay_to}

-- `n` numbers from `sn` on.
abbrev pub numbers : (n sn : ℕ) → List ℕ
numbers zero sn = []
numbers (suc n) sn = sn ∷ numbers n (suc sn)

-- The values of those numbers that have one, in the order of the numbers.
abbrev pub present : (ℕ → Option Step) → List ℕ → List Step
present f [] = []
present f (n ∷ ns) = elim (f n) [ none ↦ present f ns | some s ↦ s ∷ present f ns ]

module _ {Db : Type 0} (C : Codec) (E : Backend Db) (show : Option String → String) where
  load-world : (session_id : String) (k : ℕ) (w : World Db) → (load C E session_id k w).1 ≡ w
  unfolding load rewrap StepRepo.get_by_session fetch_all_built Filter.select get_user_scope
      fetch_all lift pure ◌>>=◌
  load-world session_id k w = ground arith

  load-pair :
      (session_id : String) (k : ℕ) (w : World Db) (r : Result (Option Step))
      → (load C E session_id k w).0 ≡ r
      → load C E session_id k w ≡ (r, w)
  load-pair session_id k w r h =
      ap (λ x. (x, (load C E session_id k w).1)) h ∙ ap (λ v. (r, v)) (load-world session_id k w)

  kept-present :
      (f : ℕ → Option Step) (left sn : ℕ)
      → kept (f sn) (present f (numbers left (suc sn))) ≡ present f (numbers (suc left) sn)
  kept-present f left sn = by_value (f sn)
    where
      by_value :
          (o : Option Step)
          → kept o (present f (numbers left (suc sn))) ≡ (elim o [
            | none ↦ present f (numbers left (suc sn))
            | some s ↦ s ∷ present f (numbers left (suc sn))
          ])
      by_value none = refl
      by_value (some s) = refl

  replay-present :
      (session_id : String) (w : World Db) (f : ℕ → Option Step) (left sn : ℕ)
      → ((k : ℕ) → sn ≤ k → k < sn + left → (load C E session_id k w).0 ≡ ok (f k))
      → replay C E show session_id left sn w ≡ (ok (present f (numbers left sn)), w)
  unfolding replay ◌>>=◌ pure
  replay-present session_id w f zero sn h = refl
  replay-present session_id w f (suc left) sn h =
      rw
        (
          load-pair session_id sn w (ok (f sn)) (h sn (omega arith) (omega arith)),
          replay-present session_id w f left (suc sn)
              (λ k a b. h k (omega (arith, a)) (omega (arith, b))),
        )
        (ap (λ (ss : List Step). (ok ss, w)) (kept-present f left sn))

  -- If the checkpoints 1 to `n` of a session can be loaded, some of them present and some not, then
  -- `replay_to` step `n` returns those that are present, in the order of their numbers, and leaves
  -- the database and the scope as they are.
  pub replay_to-present :
      (session_id : String) (w : World Db) (f : ℕ → Option Step) (n : ℕ)
      → ((k : ℕ) → 1 ≤ k → k < 1 + n → (load C E session_id k w).0 ≡ ok (f k))
      → replay_to C E show session_id n w ≡ (ok (present f (numbers n 1)), w)
  unfolding replay_to rewrap
  replay_to-present session_id w f n h = rw (replay-present session_id w f n 1 h) refl
