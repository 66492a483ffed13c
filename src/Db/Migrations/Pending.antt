-- ===== src/Db/Migrations/Pending.antt =====
-- The migrations that are newer than a version.
use agent_sdk.Prelude.{
  ◌<◌, ◌≤◌, ℕ, ◌≡◌, refl, sym, ap, ◌∙◌, true, false, leb, List, [], ◌∷◌, ◌++◌, map, arith,
  if◌then◌else◌, Bool-cases, inl, inr, str_eq,
}
use agent_sdk.Prelude.Dict.{get}
use agent_sdk.Db.Schema.{Migration}
use agent_sdk.Db.Sql.{Row}
use agent_sdk.Db.Migrations.{version_of, max_version, version_row, larger}

-- The migrations that a run applies.
unfoldable pub pending : ℕ → List Migration → List Migration
pending c [] = []
pending c (m ∷ ms) = if leb m.version c then pending c ms else m ∷ pending c ms

abbrev pub Ascending : ℕ → List Migration → Type 0
Ascending k [] = Unit
Ascending k (m ∷ ms) = (k < m.version) × Ascending m.version ms

abbrev pub top : List Migration → ℕ
top ms = max_version (map version_row ms)

larger_assoc : (a b c : ℕ) → larger (larger a b) c ≡ larger a (larger b c)
larger_assoc a b c = ground arith

pub max_version-append :
    (rs ss : List Row) → max_version (rs ++ ss) ≡ larger (max_version rs) (max_version ss)
unfolding max_version
max_version-append [] ss = ground arith
max_version-append (r ∷ rs) ss =
    rw (max_version-append rs ss)
      (sym (larger_assoc (version_of r) (max_version rs) (max_version ss)))

pending-all : (c k : ℕ) (ms : List Migration) → c ≤ k → Ascending k ms → pending c ms ≡ ms
unfolding pending
pending-all c k [] h a = refl
pending-all c k (m ∷ ms) h (g, a) =
    ground (arith, h, g, pending-all c m.version ms (omega (arith, h, g)) a)

pending-skip :
    (c : ℕ) (m : Migration) (ms : List Migration)
    → m.version ≤ c
    → pending c (m ∷ ms) ≡ pending c ms
unfolding pending
pending-skip c m ms h = ground (arith, h)

pending-take :
    (c : ℕ) (m : Migration) (ms : List Migration)
    → c < m.version
    → pending c (m ∷ ms) ≡ m ∷ pending c ms
unfolding pending
pending-take c m ms h = ground (arith, h)

larger-left : (a b : ℕ) → a ≤ larger a b
larger-left a b = ground arith

larger-right : (a b : ℕ) → b ≤ larger a b
larger-right a b = ground arith

larger-absorb : (c v t : ℕ) → c < v → larger c (larger v t) ≡ larger v t
larger-absorb c v t h = ground (arith, h)

top-cons : (m : Migration) (ms : List Migration) → top (m ∷ ms) ≡ larger m.version (top ms)
unfolding max_version get str_eq
top-cons m ms = refl

cons-head : {m n : Migration} {ms ns : List Migration} → m ∷ ms ≡ n ∷ ns → m ≡ n
cons-head e = cc

cons-tail : {m n : Migration} {ms ns : List Migration} → m ∷ ms ≡ n ∷ ns → ms ≡ ns
cons-tail e = cc

larger-zero : (c : ℕ) → larger c (top []) ≡ c
unfolding max_version
larger-zero c = ground arith

leb-true : (a b : ℕ) → leb a b ≡ true → a ≤ b
leb-true a b h = ground (arith, h)

leb-false : (a b : ℕ) → leb a b ≡ false → b < a
leb-false a b h = ground (arith, h)

grown :
    (c : ℕ) (m n : Migration) (rest : List Migration)
    → c < m.version
    → m ≡ n
    → larger c (top (n ∷ rest)) ≡ larger m.version (top rest)
grown c m n rest take e =
    ap (larger c) (top-cons n rest ∙ ap (λ x. larger x.version (top rest)) (sym e))
    ∙ larger-absorb c m.version (top rest) take

-- Behind the first of the pending migrations, the rest is pending.
pub pending-rest :
    (c k : ℕ) (ms done left : List Migration)
    → Ascending k ms
    → pending c ms ≡ done ++ left
    → pending (larger c (top done)) ms ≡ left
unfolding pending
pending-rest c k [] [] left a split = split
pending-rest c k [] (n ∷ done) left a split = cc
pending-rest c k (m ∷ ms) done left (g, a) split = elim (Bool-cases (leb m.version c)) [
  | inl e ↦
      let skip = leb-true m.version c e in
      pending-skip (larger c (top done)) m ms (omega (arith, skip, larger-left c (top done)))
      ∙ pending-rest c m.version ms done left a (sym (pending-skip c m ms skip) ∙ split)
  | inr e ↦
      let take = leb-false m.version c e in
      by_done take (λ rest. pending-rest m.version m.version ms rest left a) done
        (sym (pending-take c m ms take) ∙ split)
]
  where
    by_done :
        c < m.version
        → ((rest : List Migration)
            → pending m.version ms ≡ rest ++ left
            → pending (larger m.version (top rest)) ms ≡ left)
        → (done : List Migration) → m ∷ pending c ms ≡ done ++ left
        → pending (larger c (top done)) (m ∷ ms) ≡ left
    by_done take later [] e =
        ap (λ v. pending v (m ∷ ms)) (larger-zero c) ∙ pending-take c m ms take ∙ e
    by_done take later (n ∷ rest) e =
        ap (λ v. pending v (m ∷ ms)) (grown c m n rest take (cons-head e))
        ∙ pending-skip (larger m.version (top rest)) m ms (larger-left m.version (top rest))
        ∙ later rest (
            pending-all m.version m.version ms (omega arith) a
            ∙ sym (pending-all c m.version ms (omega (arith, take)) a)
            ∙ cons-tail e)
