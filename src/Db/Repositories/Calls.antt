-- ===== src/Db/Repositories/Calls.antt =====
-- Every call of the four scoped repositories, and what a user's calls do to the other users.
pub mod Confinement
pub mod Tests
use agent_sdk.Prelude.{ℕ, String, Bool, true, false, Option, List, [], ◌∷◌}
use agent_sdk.Db.Backend.{Backend}
use agent_sdk.Db.Exec.{World, Exec, pure, ◌>>=◌, ◌>>◌}
use agent_sdk.Isolation.Scope.{user_scope}
use agent_sdk.Db.Repositories.SessionRepo
use agent_sdk.Db.Repositories.StepRepo
use agent_sdk.Db.Repositories.StepRepo.{StepFields}
use agent_sdk.Db.Repositories.ApprovalRepo
use agent_sdk.Db.Repositories.MemoryRepo

pub data SessionCall : Type 0 where
  create : String → Option String → Option String → SessionCall
  get_by_id delete : String → SessionCall
  list_by_user : Option String → ℕ → SessionCall
  update_status : String → String → SessionCall

pub data StepCall : Type 0 where
  create : String → ℕ → Option String → Option String → StepCall
  get_by_id get_by_session get_latest_by_session list_checkpoints : String → StepCall
  update_status : String → String → StepFields → StepCall
  save_checkpoint : String → String → StepCall

pub data ApprovalCall : Type 0 where
  create : String → ℕ → String → String → String → ApprovalCall
  get_by_id get_by_session : String → ApprovalCall
  get_pending : ApprovalCall
  resolve : String → String → String → String → ApprovalCall

pub data MemoryCall : Type 0 where
  create : String → String → String → Option String → Option String → MemoryCall
  get_by_user : Option String → ℕ → MemoryCall
  get_by_session : String → Option String → ℕ → MemoryCall
  delete : String → MemoryCall

pub data Call : Type 0 where
  session : SessionCall → Call
  step : StepCall → Call
  approval : ApprovalCall → Call
  memory : MemoryCall → Call

abbrev pub deletes_session : Call → Bool
deletes_session (session (SessionCall.delete s)) = true
deletes_session _ = false

module _ {Db : Type 0} (E : Backend Db) where
  abbrev done : {A : Type 0} → Exec Db A → Exec Db (Unit {0})
  done m = m >> pure tt

  session_call : SessionCall → Exec Db (Unit {0})
  session_call (SessionCall.create a m s) = done (SessionRepo.create E a m s)
  session_call (SessionCall.get_by_id s) = done (SessionRepo.get_by_id E s)
  session_call (SessionCall.delete s) = SessionRepo.delete E s
  session_call (SessionCall.list_by_user s n) = done (SessionRepo.list_by_user E s n)
  session_call (SessionCall.update_status s v) = SessionRepo.update_status E s v

  step_call : StepCall → Exec Db (Unit {0})
  step_call (StepCall.create s n i m) = done (StepRepo.create E s n i m)
  step_call (StepCall.get_by_id s) = done (StepRepo.get_by_id E s)
  step_call (StepCall.get_by_session s) = done (StepRepo.get_by_session E s)
  step_call (StepCall.get_latest_by_session s) = done (StepRepo.get_latest_by_session E s)
  step_call (StepCall.list_checkpoints s) = done (StepRepo.list_checkpoints E s)
  step_call (StepCall.update_status s v f) = StepRepo.update_status E s v f
  step_call (StepCall.save_checkpoint s c) = StepRepo.save_checkpoint E s c

  approval_call : ApprovalCall → Exec Db (Unit {0})
  approval_call (ApprovalCall.create s n t a p) = done (ApprovalRepo.create E s n t a p)
  approval_call (ApprovalCall.get_by_id s) = done (ApprovalRepo.get_by_id E s)
  approval_call (ApprovalCall.get_by_session s) = done (ApprovalRepo.get_by_session E s)
  approval_call ApprovalCall.get_pending = done (ApprovalRepo.get_pending E)
  approval_call (ApprovalCall.resolve a s b r) = ApprovalRepo.resolve E a s b r

  memory_call : MemoryCall → Exec Db (Unit {0})
  memory_call (MemoryCall.create k v t s g) = done (MemoryRepo.create E k v t s g)
  memory_call (MemoryCall.get_by_user t n) = done (MemoryRepo.get_by_user E t n)
  memory_call (MemoryCall.get_by_session s t n) = done (MemoryRepo.get_by_session E s t n)
  memory_call (MemoryCall.delete m) = MemoryRepo.delete E m

  pub perform : Call → Exec Db (Unit {0})
  unfolding session_call step_call approval_call memory_call
  perform (session c) = session_call c
  perform (step c) = step_call c
  perform (approval c) = approval_call c
  perform (memory c) = memory_call c

  -- Users take turns: each call runs in the scope of its user, and a call that raises leaves what
  -- it had written.
  pub interleave : List (String × Call) → World Db → World Db
  interleave [] w = w
  interleave ((u, c) ∷ rest) w = interleave rest (user_scope u (perform c) w).1
