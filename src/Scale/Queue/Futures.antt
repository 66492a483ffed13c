-- ===== src/Scale/Queue/Futures.antt =====
-- A request is settled at most once.
use agent_sdk.Prelude.{
  String, ◌≡◌, ◌≢◌, refl, sym, ap, ◌∙◌, true, Option, none, some, arith, str_eq, str_eq→eq,
  Bool-cases, inl, inr,
}
use agent_sdk.Prelude.Dict
use agent_sdk.Prelude.Dict.{Dict, get, get-put}
use agent_sdk.Scale.Queue.{
  Future, pending, cancelled, value, failed, is_done, complete, RequestQueue, set_handler, submit,
  give_up, cancel, start, stop, retire, take, finish, die, Work, handles, submits, gives_up,
  cancels, starts, retires, takes, finishes, works, stops, dies, Steps, done, after,
}

module _ {V : Type 0} (id : String) (f : Future V) where
  kept-put :
      (k : String) (g : Future V) (futures : Dict (Future V))
      → get k futures ≢ some f
      → get id futures ≡ some f
      → get id (Dict.put k g futures) ≡ some f
  kept-put k g futures other h = elim (Bool-cases (str_eq k id)) [
    | inl e ↦ absurd (other (ap (λ j. get j futures) (str_eq→eq k id e) ∙ h))
    | inr e ↦ get-put k id g futures ∙ rw e h
  ]

  kept-complete :
      (k : String) (g : Future V) (futures : Dict (Future V))
      → is_done f ≡ true
      → get id futures ≡ some f
      → get id (complete k g futures) ≡ some f
  unfolding complete
  kept-complete k g futures is h = by_state (get k futures) refl
    where
      by_state :
          (o : Option (Future V))
          → get k futures ≡ o
          → get id (elim o [ some pending ↦ Dict.put k g futures | _ ↦ futures ]) ≡ some f
      by_state none e = h
      by_state (some cancelled) e = h
      by_state (some (value v)) e = h
      by_state (some (failed x)) e = h
      by_state (some pending) e = kept-put k g futures (λ same. grind (arith, sym e ∙ same, is)) h

  module _ {R : Type 0} (is : is_done f ≡ true) where
    kept-Work :
        {q p : RequestQueue R V} → Work q p → get id q.futures ≡ some f → get id p.futures ≡ some f
    unfolding set_handler submit give_up cancel start retire take finish
    kept-Work handles h = h
    kept-Work {q} (submits k request priority fresh) h =
        ground (arith, h, kept-put k pending q.futures (λ same. grind (arith, sym fresh ∙ same)) h)
    kept-Work {q} (gives_up k) h = ground (arith, h, kept-complete k cancelled q.futures is h)
    kept-Work {q} (cancels k) h = ground (arith, h, kept-complete k cancelled q.futures is h)
    kept-Work starts h = ground (arith, h)
    kept-Work retires h = ground (arith, h)
    kept-Work (takes e rest p least free) h = h
    kept-Work (finishes e rest o p) h = kept-complete e.request_id _ _ is h

    kept-Steps :
        {q p : RequestQueue R V} → Steps q p → get id q.futures ≡ some f → get id p.futures ≡ some f
    unfolding stop die
    kept-Steps done h = h
    kept-Steps (after s (works t)) h = kept-Work t (kept-Steps s h)
    kept-Steps (after s (stops n le)) h = kept-Steps s h
    kept-Steps (after s (dies e rest p)) h = kept-Steps s h

    -- A settled future stays as it is: whatever happens to the queue afterwards, `stop` included,
    -- a request that is cancelled, answered or failed keeps that outcome.
    pub steps-settled :
        (q p : RequestQueue R V) → Steps q p → get id q.futures ≡ some f → get id p.futures ≡ some f
    steps-settled q p = kept-Steps
