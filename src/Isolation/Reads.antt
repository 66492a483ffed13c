-- ===== src/Isolation/Reads.antt =====
-- What a scoped SELECT returns.
use agent_sdk.Prelude.{
  ℕ, zero, suc, String, ◌≡◌, refl, sym, ap, Option, none, some, List, [], ◌∷◌, map, arith, Bool,
  true, take, Bool-cases, inl, inr, str_eq, ◌∙◌,
}
use mathlib.Core.Logic.Or
use mathlib.Core.Bool.{Bool-set}
use mathlib.Core.HLevel.{×_prop}
use mathlib.Core.List.Perm
use mathlib.Core.List.{Mem, Mem-prop, mem-cons, mem-cons_of_mem, not-mem-nil}
use agent_sdk.Prelude.Dict.{Dict}
use agent_sdk.Types.{ok}
use agent_sdk.Db.Sql.{Value, Row, Statement, Order, keep, limit, project, satisfies}
use agent_sdk.Db.Backend.{Backend}
use mathlib.Core.Option.{some-injective}
use agent_sdk.Db.Exec.{
  World, fetch_all_built, fetch_all, fetch_one_built, fetch_one, first, ◌>>=◌, pure,
}
use agent_sdk.Isolation.Scope.{get_user_scope}
use agent_sdk.Isolation.Filter
use agent_sdk.Isolation.Filter.Build
use agent_sdk.Isolation.Filter.Bound.{equalities, bind-select, limit_value}
use agent_sdk.Isolation.Filter.Owned.{owned, Unnamed, satisfies-owned}

module _ {A : Type 0} where
  pub mem-keep : (p : A → Bool) (x : A) (xs : List A) → Mem x (keep p xs) → (p x ≡ true) × Mem x xs
  unfolding keep
  mem-keep p x [] m = absurd (not-mem-nil m)
  mem-keep p x (y ∷ xs) m = elim (Bool-cases (p y)) [
    | inl e ↦
        Or.elim (×_prop (Bool-set _ _) Mem-prop) (mem-cons.0 (rw (e, keep) at m))
          (λ q. (rw q e, mem-cons.1 (Or.inl q)))
          (λ later. let (s, i) = mem-keep p x xs later in (s, mem-cons_of_mem y i))
    | inr e ↦ let (s, i) = mem-keep p x xs (rw (e, keep) at m) in (s, mem-cons_of_mem y i)
  ]

  pub mem_of_mem-take : (n : ℕ) (x : A) (xs : List A) → Mem x (take n xs) → Mem x xs
  mem_of_mem-take zero x xs m = absurd (not-mem-nil m)
  mem_of_mem-take (suc n) x [] m = m
  mem_of_mem-take (suc n) x (y ∷ xs) m =
      Or.elim Mem-prop (mem-cons.0 m) (λ q. mem-cons.1 (Or.inl q))
        (λ later. mem-cons_of_mem y (mem_of_mem-take n x xs later))

pub mem_of_mem-limit :
    (n : Option ℕ) (r : Row) (rs : List Row) → Mem r (limit (limit_value n) rs) → Mem r rs
unfolding limit
mem_of_mem-limit none r rs m = m
mem_of_mem-limit (some n) r rs m = mem_of_mem-take n r rs m

pub project_all : (rs : List Row) → map (project ("*" ∷ [])) rs ≡ rs
unfolding project str_eq
project_all [] = refl
project_all (r ∷ rs) = ap (◌∷◌ r) (project_all rs)

fetched_for :
    {Db : Type 0} (E : Backend Db) (u : String) (f : String → Statement × List Value) (w : World Db)
    → w.scope ≡ some u
    → fetch_all_built E (get_user_scope >>= λ v. pure (f v)) w
      ≡ (ok (E.fetch_all (f u).0 (f u).1 w.db), w)
unfolding fetch_all_built get_user_scope fetch_all ◌>>=◌
fetched_for E u f w h = ground arith

first_for :
    {Db : Type 0} (E : Backend Db) (u : String) (f : String → Statement × List Value) (w : World Db)
    → w.scope ≡ some u
    → fetch_one_built E (get_user_scope >>= λ v. pure (f v)) w
      ≡ (ok (first (E.fetch_all (f u).0 (f u).1 w.db)), w)
unfolding fetch_one_built get_user_scope fetch_one ◌>>=◌
first_for E u f w h = ground arith

pub mem-first : (rs : List Row) (r : Row) → first rs ≡ some r → Mem r rs
mem-first [] r h = cc
mem-first (q ∷ rs) r h = mem-cons.1 (Or.inl (sym (some-injective q r h)))

module _ {Db : Type 0} (E : Backend Db) (u table : String) (extra : Option (Dict Value)) where
  abbrev pub selected : Option Order → Option ℕ → Db → List Row
  selected o n d =
      limit (limit_value n)
        (E.sort o (keep (satisfies (equalities (Build.conditions u extra))) (E.rows d table)))

  -- A SELECT * that the query builder builds in the scope of a user returns the rows of the table
  -- that meet the caller's conditions with the user's added, sorted and cut as asked, and changes
  -- nothing.
  pub fetch_all-selected :
      (o : Option Order) (n : Option ℕ) (w : World Db)
      → w.scope ≡ some u
      → fetch_all_built E (Filter.select table ("*" ∷ []) extra o n) w ≡ (ok (selected o n w.db), w)
  unfolding Filter.select
  fetch_all-selected o n w h =
      fetched_for E u (λ v. Build.select v table ("*" ∷ []) extra o n) w h
      ∙ ap (λ (rs : List Row). (ok rs, w))
          (E.fetch_all-select _ _ w.db table ("*" ∷ []) _ o (limit_value n)
              (bind-select u table ("*" ∷ []) extra o n)
            ∙ project_all (selected o n w.db))

  -- And so does one that fetches one row.
  pub fetch_one-selected :
      (o : Option Order) (n : Option ℕ) (w : World Db)
      → w.scope ≡ some u
      → fetch_one_built E (Filter.select table ("*" ∷ []) extra o n) w
        ≡ (ok (first (selected o n w.db)), w)
  unfolding Filter.select
  fetch_one-selected o n w h =
      first_for E u (λ v. Build.select v table ("*" ∷ []) extra o n) w h
      ∙ ap (λ (rs : List Row). (ok (first rs), w))
          (E.fetch_all-select _ _ w.db table ("*" ∷ []) _ o (limit_value n)
              (bind-select u table ("*" ∷ []) extra o n)
            ∙ project_all (selected o n w.db))

  -- Where the caller's conditions do not name a user, a row that a scoped SELECT returns belongs
  -- to the user of the scope, meets the conditions and is a row of the table.
  pub mem-selected :
      (o : Option Order) (n : Option ℕ) (d : Db) (r : Row)
      → Unnamed extra
      → Mem r (selected o n d)
      → (owned u r ≡ true)
        × (satisfies (equalities (Build.conditions u extra)) r ≡ true)
        × Mem r (E.rows d table)
  mem-selected o n d r named m =
      let (s, i) =
        mem-keep (satisfies (equalities (Build.conditions u extra))) r (E.rows d table)
          ((Perm.mem_iff (E.sort-perm o _)).0 (mem_of_mem-limit n r _ m)) in
      (satisfies-owned u extra r named s, s, i)
