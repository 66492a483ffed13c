-- ===== src/Governance/Rules/Strictest.antt =====
-- The engine's answer is the strictest of the candidates.
use mathlib.Core.Bool.{false≢true}
use agent_sdk.Prelude.{
  ◌≤◌, ◌≡◌, refl, ◌∙◌, List, [], ◌∷◌, arith, ltb, ◌⊎◌, Option, none, some, true, String, ap, sym,
  str_eq, str_eq→eq, str_eq_refl, inl, inr, Bool-cases, All,
}
use agent_sdk.Types.{ExecutionPolicy}
use agent_sdk.Governance.Rules.{
  PolicyRule, priority, matches, matching, stricter, strictest, evaluate,
}

-- The policy is one of the list.
abbrev pub Among : ExecutionPolicy → List ExecutionPolicy → Type 0
Among p [] = ⊥
Among p (q ∷ qs) = (p ≡ q) ⊎ Among p qs

-- `auto` below `human_approval` below `admin_signoff`.
abbrev pub AtMost : ExecutionPolicy → ExecutionPolicy → Type 0
AtMost ExecutionPolicy.auto q = Unit
AtMost ExecutionPolicy.human_approval ExecutionPolicy.auto = ⊥
AtMost ExecutionPolicy.human_approval q = Unit
AtMost ExecutionPolicy.admin_signoff ExecutionPolicy.admin_signoff = Unit
AtMost ExecutionPolicy.admin_signoff q = ⊥

-- The rule is for all tools, or for the tool of this name.
abbrev pub Applies : String → PolicyRule → Type 0
Applies name rule = (rule.tool_name ≡ none) ⊎ (rule.tool_name ≡ some name)

-- The policy is that of a rule that applies.
abbrev pub Ruled : String → ExecutionPolicy → List PolicyRule → Type 0
Ruled name p [] = ⊥
Ruled name p (r ∷ rs) = (Applies name r × (p ≡ r.policy)) ⊎ Ruled name p rs

below-AtMost : (p q : ExecutionPolicy) → priority p ≤ priority q → AtMost p q
below-AtMost ExecutionPolicy.auto q h = tt
below-AtMost ExecutionPolicy.human_approval ExecutionPolicy.auto h = absurd (omega (arith, h))
below-AtMost ExecutionPolicy.human_approval ExecutionPolicy.human_approval h = tt
below-AtMost ExecutionPolicy.human_approval ExecutionPolicy.admin_signoff h = tt
below-AtMost ExecutionPolicy.admin_signoff ExecutionPolicy.auto h = absurd (omega (arith, h))
below-AtMost ExecutionPolicy.admin_signoff ExecutionPolicy.human_approval h =
    absurd (omega (arith, h))
below-AtMost ExecutionPolicy.admin_signoff ExecutionPolicy.admin_signoff h = tt

stricter-bound :
    (best p : ExecutionPolicy)
    → (priority best ≤ priority (stricter best p)) × (priority p ≤ priority (stricter best p))
unfolding stricter
stricter-bound best p = ground arith

stricter-either : (best p : ExecutionPolicy) → (stricter best p ≡ best) ⊎ (stricter best p ≡ p)
unfolding stricter
stricter-either best p = elim (Bool-cases (ltb (priority best) (priority p))) [
  | inl e ↦ inr (rw e)
  | inr e ↦ inl (rw e)
]

strictest-bound :
    (best : ExecutionPolicy) (ps : List ExecutionPolicy)
    → (priority best ≤ priority (strictest best ps))
      × All (λ p. priority p ≤ priority (strictest best ps)) ps
unfolding strictest
strictest-bound best [] = (omega arith, tt)
strictest-bound best (p ∷ ps) =
    let (old, new) = stricter-bound best p in
    let (more, all) = strictest-bound (stricter best p) ps in
    (omega (arith, old, more), (omega (arith, new, more), all))

strictest-Among :
    (best : ExecutionPolicy) (ps : List ExecutionPolicy)
    → (strictest best ps ≡ best) ⊎ Among (strictest best ps) ps
unfolding strictest
strictest-Among best [] = inl refl
strictest-Among best (p ∷ ps) = elim (strictest-Among (stricter best p) ps) [
  | inr later ↦ inr (inr later)
  | inl q ↦ elim (stricter-either best p) [
    | inl old ↦ inl (q ∙ old)
    | inr new ↦ inr (inl (q ∙ new))
  ]
]

matches-Applies : (name : String) (r : PolicyRule) → matches name r ≡ true → Applies name r
matches-Applies name r h = by_name r.tool_name h
  where
    by_name :
        (o : Option String)
        → (elim o [ none ↦ true | some n ↦ str_eq n name ]) ≡ true
        → (o ≡ none) ⊎ (o ≡ some name)
    by_name none k = inl refl
    by_name (some n) k = inr (ap some (str_eq→eq n name k))

Applies-matches : (name : String) (r : PolicyRule) → Applies name r → matches name r ≡ true
Applies-matches name r (inl h) = rw h refl
Applies-matches name r (inr h) = rw h (str_eq_refl name)

Among-Ruled :
    (name : String) (p : ExecutionPolicy) (rs : List PolicyRule)
    → Among p (matching name rs)
    → Ruled name p rs
unfolding matching
Among-Ruled name p [] h = absurd h
Among-Ruled name p (r ∷ rs) h = elim (Bool-cases (matches name r)) [
  | inl e ↦ by_place e (rw e at h) (Among-Ruled name p rs)
  | inr e ↦ inr (Among-Ruled name p rs (rw e at h))
]
  where
    by_place :
        matches name r ≡ true
        → (p ≡ r.policy) ⊎ Among p (matching name rs)
        → (Among p (matching name rs) → Ruled name p rs)
        → (Applies name r × (p ≡ r.policy)) ⊎ Ruled name p rs
    by_place e (inl here) k = inl (matches-Applies name r e, here)
    by_place e (inr later) k = inr (k later)

All-Applies :
    (name : String) (q : ExecutionPolicy) (rs : List PolicyRule)
    → All (λ p. priority p ≤ priority q) (matching name rs)
    → All (λ (r : PolicyRule). Applies name r → AtMost r.policy q) rs
unfolding matching
All-Applies name q [] h = tt
All-Applies name q (r ∷ rs) h = elim (Bool-cases (matches name r)) [
  | inl e ↦
      let (here, later) = rw e at h in
      (λ a. below-AtMost r.policy q here, All-Applies name q rs later)
  | inr e ↦ (
    λ a. absurd (false≢true (sym e ∙ Applies-matches name r a)),
    All-Applies name q rs (rw e at h),
  )
]

-- The engine returns the policy of the tool or of a rule that applies to it, by having its name or
-- none, and one that is at least as strict as the tool's own and as that of every rule that applies.
-- `auto` is the least strict, `admin_signoff` the strictest.
pub evaluate-strictest :
    (rules : List PolicyRule) (name : String) (policy : ExecutionPolicy)
    → ((evaluate rules name policy ≡ policy) ⊎ Ruled name (evaluate rules name policy) rules)
      × AtMost policy (evaluate rules name policy)
      × All
          (λ (r : PolicyRule). Applies name r → AtMost r.policy (evaluate rules name policy))
          rules
unfolding evaluate
evaluate-strictest rules name policy =
    let (own, all) = strictest-bound policy (matching name rules) in
    (
      by_source (strictest-Among policy (matching name rules)),
      below-AtMost policy _ own,
      All-Applies name _ rules all,
    )
  where
    by_source :
        {q : ExecutionPolicy}
        → (q ≡ policy) ⊎ Among q (matching name rules)
        → (q ≡ policy) ⊎ Ruled name q rules
    by_source (inl e) = inl e
    by_source (inr m) = inr (Among-Ruled name _ rules m)
