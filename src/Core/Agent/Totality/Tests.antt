-- ===== src/Core/Agent/Totality/Tests.antt =====
-- The demo agent returns in a new session, and finds no session of another user.
use mathlib.Core.Path.{subst, sym}
use mathlib.Core.List.{mem-cons, not-mem-nil}
use mathlib.Core.Logic.Or
use mathlib.Core.Bool.{Bool-set}
use agent_sdk.Prelude.{◌≡◌, refl, true, false, none, some, [], ◌∷◌, str_eq}
use agent_sdk.Prelude.Dict
use agent_sdk.Prelude.Dict.{get}
use agent_sdk.Types.{session_not_found, err}
use agent_sdk.Db.Sql
use agent_sdk.Db.Sql.{Row, Statement, Value, bind, str}
use agent_sdk.Db.Exec.{World}
use agent_sdk.Db.Reference.{Tables, reference}
use agent_sdk.Isolation.Filter.Build
use agent_sdk.Core.Tool
use agent_sdk.Core.Tool.{Tool}
use agent_sdk.Core.Sound.Writes.{Sound}
use agent_sdk.Core.Sound.Reads.{hits}
use agent_sdk.Core.Agent.{run}
use agent_sdk.Core.Agent.NotFound.{Lacks, run-not_found}
use agent_sdk.Core.Agent.Tests.{demo, question}

abbrev of_bob : Row
of_bob =
    ("id", str "s1")
    ∷ ("user_id", str "bob")
    ∷ ("agent_name", str "demo")
    ∷ ("status", str "active")
    ∷ []

abbrev bobs : World Tables
bobs = record { db = λ t. of_bob ∷ []; scope = none; reads = 0 }

not_hers : Lacks demo "alice" "s1" bobs.db
unfolding reference Build.conditions Dict.update Dict.put get str_eq Sql.satisfies Sql.holds
not_hers r m =
    Or.elim (Bool-set _ _) (mem-cons.0 m)
      (λ e.
        subst (λ q. hits reference "alice" (some (("id", str "s1") ∷ [])) q ≡ false) (sym e) refl)
      (λ later. absurd (not-mem-nil later))

run-not_found_example :
    run demo "alice" question (some "s1") none true bobs ≡ (err session_not_found, bobs)
unfolding str_eq
run-not_found_example = run-not_found demo "alice" "s1" question none true bobs refl not_hers
