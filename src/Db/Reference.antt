-- ===== src/Db/Reference.antt =====
-- A database in memory that meets the laws of `Backend`: the tests run on it, and it shows that
-- the laws can hold. It accepts every statement whose parameters fit.
use agent_sdk.Prelude.{
  ℕ, zero, suc, String, ◌≡◌, sym, ap, Bool, leb, if◌then◌else◌, Option, none, some, List, [], ◌∷◌,
  map, length, Bool-cases, inl, inr,
}
use mathlib.Core.List.{Perm}
use mathlib.Core.List.Perm
use agent_sdk.Prelude.Dict.{get}
use agent_sdk.Db.Sql.{
  Value, int, Row, asc, desc, Cond, Order, Statement, Bound, bind, satisfies, keep, limit, project,
  written,
}
use agent_sdk.Db.Backend.{Backend}

abbrev pub Tables : Type 0
Tables = String → List Row

key : String → Row → ℕ
key c r = elim (get c r) [ some (int n) ↦ n | _ ↦ 0 ]

before : Order → Row → Row → Bool
unfolding key
before o a b = elim o.direction [
  | asc ↦ leb (key o.column a) (key o.column b)
  | desc ↦ leb (key o.column b) (key o.column a)
]

insert_row : Order → Row → List Row → List Row
insert_row o r [] = r ∷ []
insert_row o r (x ∷ xs) = if before o r x then r ∷ x ∷ xs else x ∷ insert_row o r xs

sort_by : Order → List Row → List Row
sort_by o [] = []
sort_by o (r ∷ rs) = insert_row o r (sort_by o rs)

unfoldable pub sort : Option Order → List Row → List Row
unfolding sort_by insert_row before
sort none rs = rs
sort (some o) rs = sort_by o rs

insert_row-perm : (o : Order) (r : Row) (rs : List Row) → Perm (insert_row o r rs) (r ∷ rs)
unfolding insert_row
insert_row-perm o r [] = Perm.refl (r ∷ [])
insert_row-perm o r (x ∷ xs) = elim (Bool-cases (before o r x)) [
  | inl e ↦ rw e (Perm.refl (r ∷ x ∷ xs))
  | inr e ↦ rw e (Perm.trans (Perm.cons x (insert_row-perm o r xs)) (Perm.swap r x xs))
]

sort_by-perm : (o : Order) (rs : List Row) → Perm (sort_by o rs) rs
unfolding sort_by
sort_by-perm o [] = Perm.refl []
sort_by-perm o (r ∷ rs) =
    Perm.trans (insert_row-perm o r (sort_by o rs)) (Perm.cons r (sort_by-perm o rs))

sort-perm_lem : (o : Option Order) (rs : List Row) → Perm (sort o rs) rs
unfolding sort
sort-perm_lem none rs = Perm.refl rs
sort-perm_lem (some o) rs = sort_by-perm o rs

query : Bound → Tables → List Row
unfolding sort keep limit project satisfies
query (Bound.select t cs ws o n) d = map (project cs) (limit n (sort o (keep (satisfies ws) (d t))))
query (Bound.count t ws) d = (("cnt", int (length (keep (satisfies ws) (d t)))) ∷ []) ∷ []
query _ d = []

unfoldable pub run_execute : Statement → List Value → Tables → Option Tables
unfolding written bind
run_execute s ps d = elim (bind s ps) [ none ↦ none | some b ↦ some (written b d) ]

unfoldable pub run_fetch : Statement → List Value → Tables → List Row
unfolding query bind
run_fetch s ps d = elim (bind s ps) [ none ↦ [] | some b ↦ query b d ]

execute_law :
    (s : Statement) (ps : List Value) (d e : Tables) (b : Bound) (t : String)
    → bind s ps ≡ some b
    → run_execute s ps d ≡ some e
    → e t ≡ written b d t
unfolding run_execute
execute_law s ps d e b t h k = ap (λ (f : Tables). f t) (sym same)
  where
    found : some (written b d) ≡ some e
    found = rw (run_execute, h) at k

    same : written b d ≡ e
    same = cc

select_law :
    (s : Statement) (ps : List Value) (d : Tables) (t : String) (cs : List String)
    (ws : List (Cond × Value)) (o : Option Order) (n : Option Value)
    → bind s ps ≡ some (Bound.select t cs ws o n)
    → run_fetch s ps d ≡ map (project cs) (limit n (sort o (keep (satisfies ws) (d t))))
unfolding run_fetch
select_law s ps d t cs ws o n h = rw (h, run_fetch)

count_law :
    (s : Statement) (ps : List Value) (d : Tables) (t : String) (ws : List (Cond × Value))
    → bind s ps ≡ some (Bound.count t ws)
    → run_fetch s ps d ≡ (("cnt", int (length (keep (satisfies ws) (d t)))) ∷ []) ∷ []
unfolding run_fetch
count_law s ps d t ws h = rw (h, run_fetch)

-- uuid4 gives the texts "u", "*u", "**u", …; the clock does not move.
stars : ℕ → String
stars zero = "u"
stars (suc n) = String.◌∷◌ "*" (stars n)

unfoldable pub reference : Backend Tables
unfolding run_execute run_fetch sort stars execute_law select_law count_law sort-perm_lem
    sort_by-perm insert_row-perm
reference = record {
  rows = λ d t. d t;
  execute = run_execute;
  fetch_all = run_fetch;
  sort = sort;
  uuid4 = stars;
  now = λ n. "2026-01-01T00:00:00+00:00";
  rows-execute = execute_law;
  fetch_all-select = select_law;
  fetch_all-count = count_law;
  sort-perm = sort-perm_lem;
}

abbrev pub no_rows : Tables
no_rows t = []
