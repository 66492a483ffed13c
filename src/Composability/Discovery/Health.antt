-- ===== src/Composability/Discovery/Health.antt =====
-- The health check reports on every agent, whatever the requests do.
use agent_sdk.Prelude.{
  ℕ, String, ◌≡◌, refl, ap, ◌∙◌, Bool, true, false, ◌||◌, none, some, List, [], ◌∷◌, str_eq,
  Bool-cases, inl, inr,
}
use agent_sdk.Prelude.Dict
use agent_sdk.Prelude.Dict.{Dict, get, get-put}
use agent_sdk.Types.{ok}
use agent_sdk.Db.Sql.{any}
use agent_sdk.Db.Backend.{Backend}
use agent_sdk.Db.Exec.{World, Exec, pure, ◌>>=◌, bind-ok}
use agent_sdk.Composability.Discovery.{
  AgentDescriptor, LoadedTools, or_false, guarded, answered, check, check_each, list_agents,
  health_check_all,
}

pub has : String → Dict Bool → Bool
has k d = elim (get k d) [ none ↦ false | some b ↦ true ]

pub named : String → AgentDescriptor → Bool
named k a = str_eq a.name k

has-put :
    (k name : String) (b : Bool) (d : Dict Bool)
    → has k (Dict.put name b d) ≡ str_eq name k || has k d
unfolding has
has-put k name b d = elim (Bool-cases (str_eq name k)) [
  | inl e ↦ rw (has, get-put name k b d, e) refl
  | inr e ↦ rw (has, get-put name k b d, e) refl
]

module _ {Db : Type 0} (E : Backend Db) (rstrip : (text chars : String) → String)
    (dumps : List String → String) (loads : String → LoadedTools)
    (http_get : String → Exec Db ℕ) where
  -- The results name the agents, and nobody else.
  pub Reports : List AgentDescriptor → Dict Bool → Dict Bool → Type 0
  Reports agents before results =
      (k : String) → has k results ≡ any (named k) agents || has k before

  abbrev asks : AgentDescriptor → Exec Db Bool
  asks a = do status ← http_get a.health_url; answered E rstrip dumps loads http_get a.name status

  -- The answer of a check, which is never an exception.
  abbrev is_up : AgentDescriptor → World Db → Bool
  is_up a w = or_false (asks a w).0

  check-answer :
      (a : AgentDescriptor) (w : World Db)
      → (check E rstrip dumps loads http_get a w).0 ≡ ok (is_up a w)
  unfolding check guarded
  check-answer a w = refl

  or-swap : (a b c : Bool) → a || (b || c) ≡ (b || a) || c
  or-swap true true c = refl
  or-swap true false c = refl
  or-swap false true c = refl
  or-swap false false c = refl

  check_each-Reports :
      (agents : List AgentDescriptor) (before : Dict Bool) (w : World Db)
      → (results : Dict Bool) × ((check_each E rstrip dumps loads http_get agents before w).0
          ≡ ok results)
        × Reports agents before results
  unfolding Reports any check_each pure named
  check_each-Reports [] before w = (before, refl, λ k. refl)
  check_each-Reports (a ∷ rest) before w =
      let (results, returned, reports) =
        check_each-Reports rest (Dict.put a.name (is_up a w) before)
          (check E rstrip dumps loads http_get a w).1 in
      (
        results,
        ap (λ x. x.0) (bind-ok _ (check E rstrip dumps loads http_get a) w (check-answer a w))
            ∙ returned,
        λ k.
            reports k
            ∙ ap (λ b. any (named k) rest || b) (has-put k a.name (is_up a w) before)
            ∙ or-swap (any (named k) rest) (str_eq a.name k) (has k before),
      )

  or-false : (b : Bool) → b || false ≡ b
  or-false true = refl
  or-false false = refl

  -- Where the agents can be listed, the health check returns, whatever the requests and the writes
  -- in between do, and its results name exactly the agents of the list.
  pub health_check_all-Reports :
      (agents : List AgentDescriptor) (w : World Db)
      → (list_agents E rstrip dumps loads http_get w).0 ≡ ok agents
      → (results : Dict Bool) × ((health_check_all E rstrip dumps loads http_get w).0 ≡ ok results)
        × ((k : String) → has k results ≡ any (named k) agents)
  unfolding health_check_all Reports has get
  health_check_all-Reports agents w listed =
      let (results, returned, reports) =
        check_each-Reports agents [] (list_agents E rstrip dumps loads http_get w).1 in
      (
        results,
        ap (λ x. x.0) (bind-ok _ (list_agents E rstrip dumps loads http_get) w listed) ∙ returned,
        λ k. reports k ∙ or-false (any (named k) agents),
      )
