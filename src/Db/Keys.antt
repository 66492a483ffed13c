-- ===== src/Db/Keys.antt =====
-- Rows that a statement finds by their key.
pub mod Upserts
use mathlib.Core.Bool.{Bool-set, and-true}
use mathlib.Core.List.{Perm, Mem, Mem-prop, mem-cons, mem-cons_self, not-mem-nil}
use mathlib.Core.List.Perm
use mathlib.Core.Logic.Or
use mathlib.Core.HLevel.{hedberg}
use agent_sdk.Prelude.{
  ℕ, zero, suc, String, ◌≡◌, refl, sym, ap, ◌∙◌, Bool, true, false, ◌&&◌, ◌||◌, Option, none, some,
  List, [], ◌∷◌, ◌++◌, map, arith, length, length-perm, str_eq, str_eq_refl, str_eq→eq, eq→str_eq,
  ◌==◌, Bool-cases, inl, inr, if◌then◌else◌,
}
use agent_sdk.Prelude.Dict.{get}
use agent_sdk.Db.Sql.{Value, null, int, str, Row, eq, holds, same_value, sql_eq, keep, any}

String-discrete : Discrete String
String-discrete s t = elim (Bool-cases (str_eq s t)) [
  | inl e ↦ yes (str_eq→eq s t e)
  | inr e ↦ no (λ same. cc (eq→str_eq s t same, e))
]

pub Value-set : IsSet Value
Value-set = hlevel (hedberg String-discrete)

Rows-set : IsSet (List Row)
Rows-set = hlevel (Value-set, hedberg String-discrete)

-- Any order of one row is that row.
pub perm-one : (xs : List Row) (x : Row) → Perm xs (x ∷ []) → xs ≡ x ∷ []
perm-one [] x p = absurd (omega (arith, length-perm p))
perm-one (y ∷ []) x p =
    Or.elim (Rows-set _ _) (mem-cons.0 ((Perm.mem_iff p).0 mem-cons_self)) (λ e. ap (λ z. z ∷ []) e)
      (λ m. absurd (not-mem-nil m))
perm-one (y ∷ z ∷ zs) x p = absurd (omega (arith, length-perm p))

str_eq-sym : (s t : String) → str_eq s t ≡ str_eq t s
str_eq-sym s t = ground (arith, str_eq→eq s t, str_eq→eq t s, eq→str_eq s t, eq→str_eq t s)

pub sql_eq-sym : (v w : Value) → sql_eq v w ≡ sql_eq w v
unfolding sql_eq
sql_eq-sym null null = refl
sql_eq-sym null (int n) = refl
sql_eq-sym null (str s) = refl
sql_eq-sym (int m) null = refl
sql_eq-sym (int m) (int n) = ground arith
sql_eq-sym (int m) (str s) = refl
sql_eq-sym (str s) null = refl
sql_eq-sym (str s) (int n) = refl
sql_eq-sym (str s) (str t) = str_eq-sym s t

module _ {A : Type 0} where
  -- Where no element meets `p`, nothing is kept that meets it.
  pub keep-none :
      (p q : A → Bool) (xs : List A)
      → ((x : A) → q x ≡ false → p x ≡ false)
      → any q xs ≡ false
      → keep p xs ≡ []
  unfolding keep any
  keep-none p q [] h n = refl
  keep-none p q (x ∷ xs) h n = ground (arith, keep-none p q xs h, h x)

  pub any-ext : (p q : A → Bool) (xs : List A) → ((x : A) → p x ≡ q x) → any p xs ≡ any q xs
  unfolding any
  any-ext p q [] h = refl
  any-ext p q (x ∷ xs) h = rw (h x, any-ext p q xs h) refl

pub sql_eq-str : (s : String) (v : Value) → sql_eq (str s) v ≡ true → v ≡ str s
unfolding sql_eq
sql_eq-str s null h = cc
sql_eq-str s (int n) h = cc
sql_eq-str s (str t) h = ap str (sym (str_eq→eq s t h))

module _ (c : String) (row r : Row) (s : String) (has : get c row ≡ some (str s)) where
  -- A condition on a column of the key.
  pub holds-same_value : holds r (eq c) (str s) ≡ same_value c c row r
  unfolding holds same_value
  holds-same_value = rw (same_value, has) (by_value (get c r))
    where
      by_value :
          (o : Option Value)
          → (elim o [ none ↦ false | some w ↦ sql_eq w (str s) ])
            ≡ (elim o [ none ↦ false | some w ↦ sql_eq (str s) w ])
      by_value none = refl
      by_value (some w) = sql_eq-sym w (str s)

  pub get_of_same_value : same_value c c row r ≡ true → get c r ≡ some (str s)
  unfolding same_value
  get_of_same_value h = by_value (get c r) (rw (same_value, has) at h)
    where
      by_value :
          (o : Option Value)
          → (elim o [ none ↦ false | some w ↦ sql_eq (str s) w ]) ≡ true
          → o ≡ some (str s)
      by_value none k = cc
      by_value (some w) k = ap some (sql_eq-str s w k)

  pub same_value_of_get : get c r ≡ some (str s) → same_value c c row r ≡ true
  unfolding same_value sql_eq
  same_value_of_get h = rw (same_value, has, h) (str_eq_refl s)

pub and-left : (a b : Bool) → a && b ≡ true → a ≡ true
and-left true b h = refl
and-left false b h = h

pub and-right : (a b : Bool) → a && b ≡ true → b ≡ true
and-right true b h = h
and-right false b h = cc
