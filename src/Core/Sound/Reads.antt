-- ===== src/Core/Sound/Reads.antt =====
-- Queries of a database whose rows can be read back.
use mathlib.Core.Logic.Or
use mathlib.Core.Bool.{Bool-set}
use mathlib.Core.List.Perm
use mathlib.Core.List.{Mem, Mem-prop, mem-cons, mem-cons_of_mem, not-mem-nil}
use agent_sdk.Prelude.{
  ℕ, zero, suc, String, ◌≡◌, refl, sym, ap, Bool, true, Option, none, some, List, [], ◌∷◌, All,
  Bool-cases, inl, inr,
}
use mathlib.Core.Path.{subst}
use agent_sdk.Prelude.Dict.{Dict}
use agent_sdk.Db.Sql.{Value, Row, Order, satisfies, keep, limit}
use agent_sdk.Db.Backend.{Backend}
use agent_sdk.Db.Exec.{World, uuid4, now, first, fetch_one_built}
use agent_sdk.Db.Exec.Returns.{Returns}
use agent_sdk.Isolation.Filter
use agent_sdk.Isolation.Filter.Build
use agent_sdk.Isolation.Filter.Bound.{equalities, limit_value}
use agent_sdk.Isolation.Filter.Owned.{Unnamed}
use agent_sdk.Isolation.Reads.{selected, fetch_one-selected, mem-selected, mem-first}
use agent_sdk.Core.Sound.{is_sound, AllSound}
use agent_sdk.Core.Sound.Writes.{Sound}

pub sound-Mem :
    (t : String) (rs : List Row) (r : Row)
    → All (λ q. is_sound t q ≡ true) rs
    → Mem r rs
    → is_sound t r ≡ true
sound-Mem t [] r h m = absurd (not-mem-nil m)
sound-Mem t (q ∷ rs) r (s, h) m =
    Or.elim (Bool-set _ _) (mem-cons.0 m) (λ e. subst (λ x. is_sound t x ≡ true) (sym e) s)
      (λ later. sound-Mem t rs r h later)

mem-keep_of_mem :
    (p : Row → Bool) (x : Row) (xs : List Row) → Mem x xs → p x ≡ true → Mem x (keep p xs)
unfolding keep
mem-keep_of_mem p x [] m h = absurd (not-mem-nil m)
mem-keep_of_mem p x (y ∷ xs) m h = elim (Bool-cases (p y)) [
  | inl e ↦
      rw (keep, e)
        (Or.elim Mem-prop (mem-cons.0 m) (λ q. mem-cons.1 (Or.inl q))
          (λ later. mem-cons_of_mem y (mem-keep_of_mem p x xs later h)))
  | inr e ↦
      rw (keep, e)
        (Or.elim Mem-prop (mem-cons.0 m)
          (λ q. let no : p y ≡ true = subst (λ z. p z ≡ true) q h in cc)
          (λ later. mem-keep_of_mem p x xs later h))
]

-- A limit that lets a row through.
abbrev pub Positive : Option ℕ → Type 0
Positive none = Unit
Positive (some zero) = ⊥
Positive (some (suc n)) = Unit

first-limit :
    (n : Option ℕ) (x : Row) (xs : List Row)
    → Positive n
    → Mem x xs
    → (r : Row) × (first (limit (limit_value n) xs) ≡ some r)
unfolding limit
first-limit n x [] h m = absurd (not-mem-nil m)
first-limit none x (y ∷ xs) h m = (y, refl)
first-limit (some zero) x (y ∷ xs) h m = absurd h
first-limit (some (suc n)) x (y ∷ xs) h m = (y, refl)

module _ {Db : Type 0} (E : Backend Db) (u : String) where
  abbrev pub hits : Option (Dict Value) → Row → Bool
  hits extra = satisfies (equalities (Build.conditions u extra))

  -- What is known of a row that was found.
  pub record Found (table : String) (extra : Option (Dict Value)) (o : Option Row) : Type 0 where
    pub row : Row
    pub is_row : o ≡ some row
    pub sound : is_sound table row ≡ true
    pub hit : hits extra row ≡ true

  module _ (table : String) (extra : Option (Dict Value)) (named : Unnamed extra) where
    selected_sound :
        (o : Option Order) (n : Option ℕ) (d : Db) (r : Row)
        → AllSound (E.rows d)
        → first (selected E u table extra o n d) ≡ some r
        → (is_sound table r ≡ true) × (hits extra r ≡ true)
    selected_sound o n d r sound e =
        let (own, hit, there) = mem-selected E u table extra o n d r named (mem-first _ r e) in
        (sound-Mem table _ r (sound table) there, hit)

    -- A SELECT of one row that is there.
    pub returns-Found :
        {Pre : World Db → Type 0} (o : Option Order) (n : Option ℕ)
        → Positive n
        → ((w : World Db)
            → Pre w
            → Sound E u w × ((r : Row) × Mem r (E.rows w.db table) × (hits extra r ≡ true)))
        → Returns Pre
            (fetch_one_built E (Filter.select table ("*" ∷ []) extra o n))
            (λ row w. Pre w × Found table extra row)
    returns-Found {Pre} o n positive there = record {
      at = λ w pre.
          let (v, (r, m, hit)) = there w pre in
          let (q, e) =
            first-limit n r _ positive
              ((Perm.mem_iff (E.sort-perm o _)).1 (mem-keep_of_mem (hits extra) r _ m hit)) in
          let run = fetch_one-selected E u table extra o n w v.scoped in
          (
            _,
            ap (λ x. x.0) run,
            rw run (
              pre,
              record {
                row = q;
                is_row = e;
                sound = (selected_sound o n w.db q v.tables e).0;
                hit = (selected_sound o n w.db q v.tables e).1;
              },
            ),
          );
    }

    -- A SELECT of one row that may be there.
    pub returns-perhaps :
        (o : Option Order) (n : Option ℕ)
        → Returns
            (Sound E u)
            (fetch_one_built E (Filter.select table ("*" ∷ []) extra o n))
            (λ row w. Sound E u w × ((r : Row) → row ≡ some r → is_sound table r ≡ true))
    returns-perhaps o n = record {
      at = λ w v.
          let run = fetch_one-selected E u table extra o n w v.scoped in
          (_, ap (λ x. x.0) run, rw run (v, λ r e. (selected_sound o n w.db r v.tables e).0));
    }

  pub returns-uuid4 : Returns (Sound E u) (uuid4 E) (λ _. Sound E u)
  unfolding uuid4
  returns-uuid4 = record { at = λ w v. (_, refl, record { tables = v.tables; scoped = v.scoped }) }

  pub returns-now : Returns (Sound E u) (now E) (λ _. Sound E u)
  unfolding now
  returns-now = record { at = λ w v. (_, refl, record { tables = v.tables; scoped = v.scoped }) }
