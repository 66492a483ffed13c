-- ===== src/Db/Repositories/Calls/Confinement.antt =====
-- What a call of a repository does to another user's rows.
use agent_sdk.Prelude.{
  String, ◌≡◌, ◌≢◌, refl, sym, ap, ◌∙◌, Option, none, some, List, [], ◌∷◌, All, false, str_eq,
  Bool-cases, inl, inr,
}
use agent_sdk.Prelude.Dict.{get}
use agent_sdk.Db.Sql.{str}
use agent_sdk.Db.Backend.{Backend}
use agent_sdk.Db.Exec.{World}
use agent_sdk.Isolation.Scope.{user_scope, clear_user_scope}
use agent_sdk.Isolation.Filter.Owned.{own, own-others}
use agent_sdk.Isolation.Others.{Apart}
use agent_sdk.Isolation.Confined.{
  SameOthers, Confined, confined_rules, delete_sessions-others, Confined-uuid4, Confined-pure,
}
use agent_sdk.Db.Repositories.SessionRepo
use agent_sdk.Db.Repositories.StepRepo
use agent_sdk.Db.Repositories.StepRepo.Fields.{get-status_fields}
use agent_sdk.Db.Repositories.StepRepo.{StepFields, status_fields, put_some}
use agent_sdk.Db.Repositories.ApprovalRepo
use agent_sdk.Db.Repositories.MemoryRepo
use agent_sdk.Db.Repositories.Calls.{
  Call, SessionCall, StepCall, ApprovalCall, MemoryCall, session_call, step_call, approval_call,
  memory_call, deletes_session, perform, interleave,
}

-- `update_status` of a step never sets the owner.
status_fields-unnamed :
    (status time : String) (f : StepFields) → get "user_id" (status_fields status time f) ≡ none
unfolding str_eq
status_fields-unnamed status time f =
    get-status_fields "user_id" status time f
      (refl, (refl, (refl, (refl, (refl, (refl, (refl, tt)))))))

module _ {Db : Type 0} (E : Backend Db) (u : String) where
  Confined-new_id : (s : Option String) → Confined E u (SessionRepo.new_id E s)
  unfolding SessionRepo.new_id
  Confined-new_id none = Confined-uuid4 E u
  Confined-new_id (some s) = elim (Bool-cases (str_eq s "")) [
    | inl e ↦ rw e (Confined-uuid4 E u)
    | inr e ↦ rw e (Confined-pure E u s)
  ]

  session-Confined :
      (c : SessionCall) → deletes_session (Call.session c) ≡ false → Confined E u (session_call E c)
  unfolding session_call SessionRepo.create SessionRepo.get_by_id SessionRepo.delete
      SessionRepo.list_by_user SessionRepo.update_status get str_eq
  session-Confined (SessionCall.create a m s) kept =
      search (confined_rules, Confined-new_id) depth 8
  session-Confined (SessionCall.get_by_id s) kept = search confined_rules
  session-Confined (SessionCall.delete s) kept = cc
  session-Confined (SessionCall.list_by_user s n) kept = search confined_rules
  session-Confined (SessionCall.update_status s v) kept = search confined_rules

  step-Confined : (c : StepCall) → Confined E u (step_call E c)
  unfolding step_call StepRepo.create StepRepo.get_by_id StepRepo.get_by_session
      StepRepo.get_latest_by_session StepRepo.list_checkpoints StepRepo.update_status
      StepRepo.save_checkpoint get str_eq
  step-Confined (StepCall.create s n i m) = search (confined_rules, Confined-new_id) depth 10
  step-Confined (StepCall.get_by_id s) = search confined_rules
  step-Confined (StepCall.get_by_session s) = search confined_rules
  step-Confined (StepCall.get_latest_by_session s) = search confined_rules
  step-Confined (StepCall.list_checkpoints s) = search confined_rules
  step-Confined (StepCall.update_status s v f) = search (confined_rules, status_fields-unnamed)
  step-Confined (StepCall.save_checkpoint s c) = search confined_rules

  approval-Confined : (c : ApprovalCall) → Confined E u (approval_call E c)
  unfolding approval_call ApprovalRepo.create ApprovalRepo.get_by_id ApprovalRepo.get_by_session
      ApprovalRepo.get_pending ApprovalRepo.resolve get str_eq
  approval-Confined (ApprovalCall.create s n t a p) = search confined_rules depth 8
  approval-Confined (ApprovalCall.get_by_id s) = search confined_rules
  approval-Confined (ApprovalCall.get_by_session s) = search confined_rules
  approval-Confined ApprovalCall.get_pending = search confined_rules
  approval-Confined (ApprovalCall.resolve a s b r) = search confined_rules

  memory-Confined : (c : MemoryCall) → Confined E u (memory_call E c)
  unfolding memory_call MemoryRepo.create MemoryRepo.get_by_user MemoryRepo.get_by_session
      MemoryRepo.delete get str_eq
  memory-Confined (MemoryCall.create k v t s g) = search confined_rules depth 8
  memory-Confined (MemoryCall.get_by_user t n) = search confined_rules
  memory-Confined (MemoryCall.get_by_session s t n) = search confined_rules
  memory-Confined (MemoryCall.delete m) = search confined_rules

  perform-Confined : (c : Call) → deletes_session c ≡ false → Confined E u (perform E c)
  unfolding perform
  perform-Confined (Call.session c) kept = session-Confined c kept
  perform-Confined (Call.step c) kept = step-Confined c
  perform-Confined (Call.approval c) kept = approval-Confined c
  perform-Confined (Call.memory c) kept = memory-Confined c

  confined :
      (c : Call)
      → deletes_session c ≡ false
      → (w : World Db) → w.scope ≡ some u
      → SameOthers E u w.db (perform E c w).1.db × ((perform E c w).1.scope ≡ some u)
  confined c kept w h = ((perform-Confined c kept).keeps w h, (perform-Confined c kept).scoped w h)

  perform-delete :
      (s : String) (w : World Db)
      → Apart u (E.rows w.db)
      → w.scope ≡ some u
      → SameOthers E u w.db (perform E (Call.session (SessionCall.delete s)) w).1.db
        × ((perform E (Call.session (SessionCall.delete s)) w).1.scope ≡ some u)
  unfolding perform session_call SessionRepo.delete get str_eq
  perform-delete s w apart h = delete_sessions-others E u (some (("id", str s) ∷ [])) w refl h apart

  -- Each call of a repository that is made in the scope of a user, whether it returns or raises,
  -- leaves the rows of every other user as they were, in every table, and keeps the scope, if no
  -- other user's message, step or idempotency key refers to a session of the user: these rows go
  -- when the session is deleted.
  pub perform-others :
      (c : Call) (w : World Db)
      → Apart u (E.rows w.db)
      → w.scope ≡ some u
      → SameOthers E u w.db (perform E c w).1.db × ((perform E c w).1.scope ≡ some u)
  perform-others (Call.session (SessionCall.delete s)) w apart h = perform-delete s w apart h
  perform-others (Call.session (SessionCall.create a m s)) w apart h = confined _ refl w h
  perform-others (Call.session (SessionCall.get_by_id s)) w apart h = confined _ refl w h
  perform-others (Call.session (SessionCall.list_by_user s n)) w apart h = confined _ refl w h
  perform-others (Call.session (SessionCall.update_status s v)) w apart h = confined _ refl w h
  perform-others (Call.step c) w apart h = confined (Call.step c) refl w h
  perform-others (Call.approval c) w apart h = confined (Call.approval c) refl w h
  perform-others (Call.memory c) w apart h = confined (Call.memory c) refl w h

module _ {Db : Type 0} (E : Backend Db) where
  -- If other users than `v` make repository calls that delete no session, in any order and each in
  -- the scope of its user, then the rows that `v` owns stay as they are, in every table.
  pub interleave-rows :
      (v : String) (calls : List (String × Call)) (w : World Db) (t : String)
      → All (λ c. (c.0 ≢ v) × (deletes_session c.1 ≡ false)) calls
      → own v (E.rows (interleave E calls w).db t) ≡ own v (E.rows w.db t)
  unfolding interleave user_scope clear_user_scope
  interleave-rows v [] w t h = refl
  interleave-rows v ((u, c) ∷ rest) w t ((h, kept), hs) =
      let inside : World Db = record w { scope = some u } in
      let after : World Db = (user_scope u (perform E c) w).1 in
      interleave-rows v rest after t hs
      ∙ sym (own-others u v (E.rows after.db t) h)
      ∙ ap (own v) (((perform-Confined E u c kept).keeps inside refl).at t)
      ∙ own-others u v (E.rows w.db t) h
