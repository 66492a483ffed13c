-- ===== src/Persistence/Memory/Confinement.antt =====
-- The memory of one user is out of reach of the others.
use agent_sdk.Prelude.{String, ◌≡◌, ℕ, Option, some, List, [], ◌∷◌, str_eq}
use agent_sdk.Prelude.Dict.{get}
use agent_sdk.Types.{Result, ok, err}
use agent_sdk.Db.Sql.{Row}
use agent_sdk.Db.Backend.{Backend}
use agent_sdk.Db.Exec.{World, pure, raise}
use agent_sdk.Db.Repositories.MemoryRepo
use agent_sdk.Core.Session.{lift, text_at}
use agent_sdk.Isolation.Confined.{
  Confined, SameOthers, confined_rules, Confined-bind, Confined-pure, Confined-raise,
}
use agent_sdk.Persistence.Memory.{
  MemoryEntry, LoadedTags, row_to_entry, to_entries, add_short_term, get_short_term, add_long_term,
  delete_entries, promote, summarize_and_promote, delete_rows, clear, Operation, adds_short_term,
  gets_short_term, adds_long_term, promotes, clears, manage,
}

module _ {Db : Type 0} (E : Backend Db) (loads : String → LoadedTags) (u : String) where
  Confined-lift : {A : Type 0} (r : Result A) → Confined E u (lift r)
  unfolding lift pure raise
  Confined-lift (ok a) = Confined-pure E u a
  Confined-lift (err e) = Confined-raise E u e

  Confined-get_by_session :
      (s : String) (t : Option String) (n : ℕ) → Confined E u (MemoryRepo.get_by_session E s t n)
  unfolding MemoryRepo.get_by_session get str_eq
  Confined-get_by_session s t n = search confined_rules

  Confined-create :
      (k v t : String) (s g : Option String) → Confined E u (MemoryRepo.create E k v t s g)
  unfolding MemoryRepo.create get str_eq
  Confined-create k v t s g = search confined_rules depth 8

  Confined-delete_memory : (m : String) → Confined E u (MemoryRepo.delete E m)
  unfolding MemoryRepo.delete get str_eq
  Confined-delete_memory m = search confined_rules

  Confined-row_to_entry : (r : Row) → Confined E u (row_to_entry E loads r)
  unfolding row_to_entry
  Confined-row_to_entry r = search (confined_rules, Confined-lift) depth 14

  Confined-to_entries : (rs : List Row) → Confined E u (to_entries E loads rs)
  unfolding to_entries
  Confined-to_entries [] = Confined-pure E u []
  Confined-to_entries (r ∷ rs) =
      Confined-bind E u _ _ (Confined-row_to_entry r)
        λ e. Confined-bind E u _ _ (Confined-to_entries rs) λ es. Confined-pure E u (e ∷ es)

  Confined-get_short_term : (s : String) (n : ℕ) → Confined E u (get_short_term E loads s n)
  unfolding get_short_term
  Confined-get_short_term s n =
      search (confined_rules, Confined-get_by_session, Confined-to_entries)

  Confined-delete_entries : (es : List MemoryEntry) → Confined E u (delete_entries E loads es)
  unfolding delete_entries
  Confined-delete_entries [] = Confined-pure E u tt
  Confined-delete_entries (e ∷ es) =
      Confined-bind E u _ _ (Confined-delete_memory e.id) λ _. Confined-delete_entries es

  Confined-promote : (s : String) (es : List MemoryEntry) → Confined E u (promote E loads s es)
  unfolding promote add_long_term
  Confined-promote s [] = Confined-pure E u tt
  Confined-promote s (e ∷ es) =
      search (confined_rules, Confined-create, Confined-delete_entries) depth 8

  Confined-delete_rows : (rs : List Row) → Confined E u (delete_rows E loads rs)
  unfolding delete_rows
  Confined-delete_rows [] = Confined-pure E u tt
  Confined-delete_rows (r ∷ rs) =
      Confined-bind E u _ _ (Confined-lift (text_at "id" r))
        λ id. Confined-bind E u _ _ (Confined-delete_memory id) λ _. Confined-delete_rows rs

  manage-Confined : (o : Operation) → Confined E u (manage E loads o)
  unfolding manage add_short_term add_long_term summarize_and_promote clear
  manage-Confined (adds_short_term s k v) = search (confined_rules, Confined-create)
  manage-Confined (gets_short_term s n) = search (confined_rules, Confined-get_short_term)
  manage-Confined (adds_long_term k v t) = search (confined_rules, Confined-create)
  manage-Confined (promotes s) = search (confined_rules, Confined-get_short_term, Confined-promote)
  manage-Confined (clears s) =
      search (confined_rules, Confined-get_by_session, Confined-delete_rows)

  -- Each call of the memory manager in the scope of a user, also one that is cut short by an
  -- exception in the middle of a promotion, leaves the rows of every other user as they were, in
  -- every table.
  pub manage-others :
      (o : Operation) (w : World Db)
      → w.scope ≡ some u
      → SameOthers E u w.db (manage E loads o w).1.db
  manage-others o w h = (manage-Confined o).keeps w h
