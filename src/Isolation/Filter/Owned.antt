-- ===== src/Isolation/Filter/Owned.antt =====
-- Whose rows the WHERE clause of a built statement can meet.
use agent_sdk.Prelude.{
  String, ◌≡◌, refl, sym, ◌∙◌, Option, none, some, List, [], ◌∷◌, ◌++◌, map, arith, Bool, true,
  false, not, str_eq, str_eq→eq, Bool-cases, inl, inr, ◌≢◌, All,
}
use agent_sdk.Prelude.Dict.{Dict, get, get-update-none}
use agent_sdk.Db.Sql.{Value, Row, null, int, str, eq, satisfies, holds, keep, sql_eq, any}
use agent_sdk.Isolation.Filter.Build.{conditions}
use agent_sdk.Isolation.Filter.Bound.{equalities}
use agent_sdk.Isolation.Validator.{is_owner}

-- The row belongs to the user.
abbrev pub owned : String → Row → Bool
owned u r = is_owner u (get "user_id" r)

-- The rows of a table that belong to anyone else, or to nobody.
abbrev pub others : String → List Row → List Row
others u = keep (λ r. not (owned u r))

pub satisfies-get :
    (d : Dict Value) (k : String) (v : Value) (r : Row)
    → get k d ≡ some v
    → satisfies (equalities d) r ≡ true
    → holds r (eq k) v ≡ true
unfolding get satisfies
satisfies-get [] k v r g s = cc
satisfies-get ((j, w) ∷ d) k v r g s = ground (arith, satisfies-get d k v r, str_eq→eq j k)

pub holds-owned :
    (u : String) (o : Option Value)
    → (elim o [ none ↦ false | some w ↦ sql_eq w (str u) ]) ≡ true
    → is_owner u o ≡ true
unfolding is_owner sql_eq
holds-owned u none h = cc
holds-owned u (some null) h = cc
holds-owned u (some (int n)) h = cc
holds-owned u (some (str s)) h = h

-- The caller's conditions do not name the user themselves.
abbrev pub Unnamed : Option (Dict Value) → Type 0
Unnamed none = Unit
Unnamed (some d) = get "user_id" d ≡ none

get-conditions :
    (u : String) (extra : Option (Dict Value))
    → Unnamed extra
    → get "user_id" (conditions u extra) ≡ some (str u)
unfolding conditions get str_eq
get-conditions u none h = refl
get-conditions u (some d) h = get-update-none "user_id" (("user_id", str u) ∷ []) d h

-- A row that meets the conditions of a scoped statement belongs to the user of the scope.
pub satisfies-owned :
    (u : String) (extra : Option (Dict Value)) (r : Row)
    → Unnamed extra
    → satisfies (equalities (conditions u extra)) r ≡ true
    → owned u r ≡ true
unfolding holds
satisfies-owned u extra r h s =
    holds-owned u (get "user_id" r)
      (satisfies-get (conditions u extra) "user_id" (str u) r (get-conditions u extra h) s)

module _ {ℓ} {A : Type ℓ} where
  pub keep-append : (p : A → Bool) (xs ys : List A) → keep p (xs ++ ys) ≡ keep p xs ++ keep p ys
  unfolding keep
  keep-append p [] ys = refl
  keep-append p (x ∷ xs) ys = ground (arith, keep-append p xs ys)

  -- Dropping what `p` does not keep changes nothing that it keeps.
  pub keep-keep :
      (p q : A → Bool) (xs : List A)
      → ((x : A) → p x ≡ true → q x ≡ true)
      → keep p (keep q xs) ≡ keep p xs
  unfolding keep
  keep-keep p q [] h = refl
  keep-keep p q (x ∷ xs) h = ground (arith, keep-keep p q xs h, h x)

  -- The same, where it holds of the elements only.
  pub keep-keep-All :
      (p q : A → Bool) (xs : List A)
      → All (λ x. p x ≡ true → q x ≡ true) xs
      → keep p (keep q xs) ≡ keep p xs
  unfolding keep
  keep-keep-All p q [] h = refl
  keep-keep-All p q (x ∷ xs) (h, hs) = ground (arith, keep-keep-All p q xs hs, h)

  -- What holds of one element that `q` keeps holds of one that `p` keeps.
  pub any-keep :
      (f p q : A → Bool) (xs : List A)
      → ((x : A) → q x ≡ true → p x ≡ true)
      → any f (keep p xs) ≡ false
      → any f (keep q xs) ≡ false
  unfolding keep any
  any-keep f p q [] h n = refl
  any-keep f p q (x ∷ xs) h n = ground (arith, any-keep f p q xs h, h x)

  -- A change that `p` does not see.
  pub keep-map :
      (p : A → Bool) (f : A → A) (xs : List A)
      → ((x : A) → p x ≡ true → f x ≡ x)
      → ((x : A) → p x ≡ false → p (f x) ≡ false)
      → keep p (map f xs) ≡ keep p xs
  unfolding keep
  keep-map p f [] h k = refl
  keep-map p f (x ∷ xs) h k = ground (arith, keep-map p f xs h k, h x, k x)

-- The rows of a table that belong to the user.
abbrev pub own : String → List Row → List Row
own u = keep (owned u)

is_owner-ne :
    (u v : String) (o : Option Value) → u ≢ v → is_owner v o ≡ true → not (is_owner u o) ≡ true
unfolding is_owner
is_owner-ne u v none n h = cc
is_owner-ne u v (some null) n h = cc
is_owner-ne u v (some (int k)) n h = cc
is_owner-ne u v (some (str s)) n h = elim (Bool-cases (str_eq s u)) [
  | inl e ↦ absurd (n (sym (str_eq→eq s u e) ∙ str_eq→eq s v h))
  | inr e ↦ rw e
]

-- What one user owns is among the others of another user.
pub own-others : (u v : String) (rs : List Row) → u ≢ v → own v (others u rs) ≡ own v rs
own-others u v rs n =
    keep-keep (owned v) (λ r. not (owned u r)) rs (λ r h. is_owner-ne u v (get "user_id" r) n h)
