-- ===== src/Core/Agent/NotFound.antt =====
-- `Agent.run` on a session that the user does not have.
use mathlib.Core.Path.{subst, sym}
use mathlib.Core.List.{Perm, Mem, mem-cons_of_mem, mem-cons_self, not-mem-nil}
use mathlib.Core.List.Perm
use agent_sdk.Prelude.{
  ℕ, String, ◌≡◌, refl, ap, Bool, true, false, Option, none, some, List, [], ◌∷◌, str_eq,
}
use agent_sdk.Types.{session_not_found, Result, err}
use agent_sdk.Db.Sql.{Row, str, keep, limit}
use agent_sdk.Db.Exec.{World, raise, first, ◌>>=◌, bind-err}
use agent_sdk.Db.Repositories.SessionRepo
use agent_sdk.Isolation.Scope.{user_scope, set_user_scope, clear_user_scope}
use agent_sdk.Isolation.Reads.{selected, fetch_one-selected}
use agent_sdk.Core.Message.{Message}
use agent_sdk.Core.Sound.Reads.{hits}
use agent_sdk.Core.Agent.{found, load, open_session, run_in_scope, run}
use agent_sdk.Core.Agent.Loop.{Agent, AgentResult}

keep-none : (p : Row → Bool) (rs : List Row) → ((r : Row) → Mem r rs → p r ≡ false) → keep p rs ≡ []
unfolding keep
keep-none p [] h = refl
keep-none p (r ∷ rs) h = rw (h r mem-cons_self, keep-none p rs (λ q m. h q (mem-cons_of_mem r m)))

empty_of_perm : (rs : List Row) → Perm rs [] → rs ≡ []
empty_of_perm [] p = refl
empty_of_perm (r ∷ rs) p = absurd (not-mem-nil ((Perm.mem_iff p).0 mem-cons_self))

module _ {Db : Type 0} (A : Agent Db) (u session_id : String) where
  -- The user has no session with the id.
  abbrev pub Lacks : Db → Type 0
  Lacks d =
      (r : Row)
      → Mem r (A.backend.rows d "sessions")
      → hits A.backend u (some (("id", str session_id) ∷ [])) r ≡ false

  none-selected :
      (d : Db)
      → Lacks d
      → first (selected A.backend u "sessions" (some (("id", str session_id) ∷ [])) none none d)
        ≡ none
  unfolding limit
  none-selected d h = ap first (
      empty_of_perm _ (
        subst (λ rs. Perm (A.backend.sort none rs) [])
          (sym (keep-none (hits A.backend u (some (("id", str session_id) ∷ []))) _ h))
          (A.backend.sort-perm none [])))

  load-err :
      (w : World Db)
      → w.scope ≡ some u
      → Lacks w.db
      → load A session_id w ≡ (err session_not_found, w)
  unfolding load found SessionRepo.get_by_id raise ◌>>=◌
  load-err w scoped h = rw (
    fetch_one-selected A.backend u "sessions" (some (("id", str session_id) ∷ [])) none none w
        scoped,
    none-selected w.db h,
  )

  open-err :
      (resume : Bool) (w : World Db)
      → str_eq session_id "" ≡ false
      → w.scope ≡ some u
      → Lacks w.db
      → open_session A (some session_id) resume w ≡ (err session_not_found, w)
  unfolding open_session
  open-err true w ne scoped h = rw ne (bind-err _ _ w w _ (load-err w scoped h))
  open-err false w ne scoped h = rw ne (bind-err _ _ w w _ (load-err w scoped h))

  -- A run on a session that the user does not have raises SessionNotFoundError, whoever else has a
  -- session with that id, and changes nothing.
  pub run-not_found :
      (input : List Message) (max_steps : Option ℕ) (resume : Bool) (w : World Db)
      → str_eq session_id "" ≡ false
      → Lacks w.db
      → run A u input (some session_id) max_steps resume w ≡ (err session_not_found, w)
  unfolding run run_in_scope user_scope set_user_scope clear_user_scope
  run-not_found input max_steps resume w ne h =
      let inside : World Db = record w { scope = some u } in
      ap (λ (x : Result AgentResult × World Db). (x.0, record x.1 { scope = w.scope }))
        (bind-err _ _ inside inside session_not_found (open-err resume inside ne refl h))
