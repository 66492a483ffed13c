-- ===== src/Db/Keys/Upserts.antt =====
-- What a SELECT by the key finds behind an upsert.
use mathlib.Core.List.{Perm, Mem, mem-cons, not-mem-nil}
use mathlib.Core.List.Perm
use mathlib.Core.Logic.Or
use mathlib.Core.Path.{subst}
use agent_sdk.Prelude.{
  ◌<◌, String, ◌≡◌, refl, sym, ◌∙◌, Bool, true, false, some, List, [], ◌∷◌, ◌++◌, map, arith,
  length, length-perm, All, Bool-cases, inl, inr, if◌then◌else◌,
}
use agent_sdk.Prelude.Dict
use agent_sdk.Db.Sql.{Row, keep, any, project, same_key, upserted}
use agent_sdk.Db.Exec.{first}
use agent_sdk.Db.Keys.{keep-none}
use agent_sdk.Isolation.Filter.Owned.{keep-append}

module _ (P : Row → Type 0) (prop : (r : Row) → IsProp (P r)) where
  All-Mem : (rs : List Row) (r : Row) → All P rs → Mem r rs → P r
  All-Mem [] r h m = absurd (not-mem-nil m)
  All-Mem (q ∷ rs) r (h, hs) m =
      Or.elim (prop r) (mem-cons.0 m) (λ e. subst P (sym e) h) (λ later. All-Mem rs r hs later)

  -- The first of some rows in any order, where all meet `P` and there is one.
  first-perm :
      (xs ys : List Row)
      → Perm ys xs
      → All P xs
      → 0 < length xs
      → (r : Row) × (first ys ≡ some r) × P r
  first-perm xs [] p h some_row = absurd (omega (arith, length-perm p, some_row))
  first-perm xs (y ∷ ys) p h some_row =
      (y, refl, All-Mem xs y h ((Perm.mem_iff p).0 (mem-cons.1 (Or.inl refl))))

  module _ (row : Row) (keys updates : List String) (wanted : Row → Bool)
      (by_key : (r : Row) → wanted r ≡ same_key keys row r) (self : same_key keys row row ≡ true)
      (kept : (r : Row)
        → same_key keys row r ≡ true
        → same_key keys row (Dict.update r (project updates row)) ≡ true)
      (fresh : P row)
      (updated : (r : Row)
        → same_key keys row r ≡ true
        → P (Dict.update r (project updates row))) where
    abbrev change : Row → Row
    change r = if same_key keys row r then Dict.update r (project updates row) else r

    changed-All : (rs : List Row) → All P (keep wanted (map change rs))
    unfolding keep
    changed-All [] = tt
    changed-All (r ∷ rs) = elim (Bool-cases (same_key keys row r)) [
      | inl e ↦
          let w : wanted (change r) ≡ true = rw e (by_key _ ∙ kept r e) in
          rw w (rw e (updated r e), changed-All rs)
      | inr e ↦ let w : wanted (change r) ≡ false = rw e (by_key r ∙ e) in rw w (changed-All rs)
    ]

    changed-some :
        (rs : List Row)
        → any (same_key keys row) rs ≡ true
        → 0 < length (keep wanted (map change rs))
    unfolding keep any
    changed-some [] h = cc
    changed-some (r ∷ rs) h = elim (Bool-cases (same_key keys row r)) [
      | inl e ↦ let w : wanted (change r) ≡ true = rw e (by_key _ ∙ kept r e) in rw w (omega arith)
      | inr e ↦
          let w : wanted (change r) ≡ false = rw e (by_key r ∙ e) in
          rw w (changed-some rs (rw e at h))
    ]

    -- The first row with the key meets `P`.
    pub first-upserted :
        (rs ys : List Row)
        → Perm ys (keep wanted (upserted row keys updates rs))
        → (r : Row) × (first ys ≡ some r) × P r
    unfolding upserted keep
    first-upserted rs ys p = elim (Bool-cases (any (same_key keys row) rs)) [
      | inl taken ↦
          first-perm (keep wanted (map change rs)) ys (rw taken at p) (changed-All rs)
            (changed-some rs taken)
      | inr free ↦
          first-perm (row ∷ []) ys (subst (λ l. Perm ys l) (only free) (rw free at p)) (fresh, tt)
            (omega arith)
    ]
      where
        only : any (same_key keys row) rs ≡ false → keep wanted (rs ++ row ∷ []) ≡ row ∷ []
        only free =
            keep-append wanted rs (row ∷ [])
            ∙ rw
                (
                  keep-none wanted (same_key keys row) rs (λ x e. by_key x ∙ e) free,
                  by_key row,
                  self,
                )
                refl
