-- ===== src/Core/Agent/Totality.antt =====
-- When `Agent.run` returns, and when it raises SessionNotFoundError.
pub mod Tests
use mathlib.Core.List.{Mem}
use mathlib.Core.List.Perm
use agent_sdk.Prelude.{
  String, ◌≡◌, sym, ap, ◌∙◌, true, Option, none, some, List, [], ◌∷◌, if◌then◌else◌, arith,
}
use agent_sdk.Types.{session_not_found, Result, err}
use agent_sdk.Db.Sql.{Row, Value, str, int}
use agent_sdk.Db.Exec.{World, Exec, raise, ◌>>=◌, bind-ok, continue}
use agent_sdk.Db.Exec.Returns.{Returns}
use agent_sdk.Db.Repositories.SessionRepo
use agent_sdk.Core.Message.{Message}
use agent_sdk.Core.Session
use agent_sdk.Core.Session.{Session}
use agent_sdk.Core.Sound.{SessionRead}
use agent_sdk.Core.Sound.Writes.{Accepts, Sound}
use agent_sdk.Core.Sound.Reads.{hits}
use agent_sdk.Core.Agent.Loop.{Agent, steps_loop}
use agent_sdk.Core.Agent.Loop.Returns.{Tame}

module _ {Db : Type 0} (A : Agent Db) (u : String) where
  -- The user has a session with the id.
  pub record HasSession (session_id : String) (d : Db) : Type 0 where
    pub row : Row
    pub there : Mem row (A.backend.rows d "sessions")
    pub hit : hits A.backend u (some (("id", str session_id) ∷ [])) row ≡ true

  -- The session to run in is a new one, or one that the user has.
  abbrev pub Known : Option String → Db → Type 0
  Known none d = Unit
  Known (some session_id) d = HasSession session_id d

  module _ (acc : Accepts A.backend) (tools : Tame A u) where
    abbrev Good : World Db → Type 0
    Good = Sound A.backend u
