-- ===== src/Durability/Checkpoint.antt =====
-- agent_sdk/durability/checkpoint.py: `CheckpointManager`. The encoding of a step as bytes, by
-- msgpack or JSON, is a parameter.
pub mod Found
pub mod Tests
use agent_sdk.Prelude.{
  ℕ, String, ◌≡◌, Bool, true, false, Option, none, some, List, [], ◌∷◌, str_eq, ◌==◌, if◌then◌else◌,
}
use agent_sdk.Prelude.Dict.{get}
use agent_sdk.Types.{Error, checkpoint_error, Result, ok, err}
use agent_sdk.Db.Sql.{Value, int, str, Row, eq, Statement}
use agent_sdk.Db.Backend.{Backend}
use agent_sdk.Db.Exec.{World, Exec, pure, fetch_one, ◌>>=◌, ◌>>◌}
use agent_sdk.Db.Repositories.StepRepo
use agent_sdk.Isolation.Scope.{get_user_scope}
use agent_sdk.Core.Message.{Step}
use agent_sdk.Core.Session.{text_at, number_at, lift}

-- `_serialize` of the dumped step without its checkpoint, and `_deserialize` with its validation.
pub record Codec : Type 0 where
  pub serialize : Step → String
  pub deserialize : String → Result Step

pub record StepSummary : Type 0 where
  pub id : String
  pub session_id : String
  pub step_number : ℕ
  pub status : String

-- `except Exception as exc: raise E(...) from exc`
unfoldable pub rewrap : {Db A : Type 0} → Error → Exec Db A → Exec Db A
rewrap e m w = let (r, w') = m w in (elim r [ ok a ↦ ok a | err _ ↦ err e ], w')

-- `row.get("checkpoint")`, where an empty one counts as none.
abbrev pub blob_of : Row → Option String
blob_of r = elim (get "checkpoint" r) [
  | some (str s) ↦ if str_eq s "" then none else some s
  | _ ↦ none
]

module _ (C : Codec) where
  abbrev pub restored : Option String → Result (Option Step)
  restored none = ok none
  restored (some blob) = elim (C.deserialize blob) [ ok s ↦ ok (some s) | err e ↦ err e ]

  -- The loop of `load`: the first row with the number and a checkpoint.
  pub pick : ℕ → List Row → Result (Option Step)
  pick n [] = ok none
  pick n (r ∷ rs) =
      let rest = pick n rs in
      elim (number_at "step_number" r) [
        | err e ↦ err e
        | ok k ↦
            if k == n
            then elim (blob_of r) [ none ↦ rest | some blob ↦ restored (some blob) ]
            else rest
      ]

  module _ {Db : Type 0} (E : Backend Db) where
    save_found : Step → Option Row → Exec Db (Unit {0})
    save_found step none = pure tt
    save_found step (some r) = do
      id ← lift (text_at "id" r)
      StepRepo.save_checkpoint E id (C.serialize step)

    pub save : Step → Exec Db (Unit {0})
    unfolding save_found
    save step = rewrap checkpoint_error (do
      user_id ← get_user_scope
      row ←
          fetch_one E
            (Statement.select "steps" ("id" ∷ [])
              (eq "session_id" ∷ eq "step_number" ∷ eq "user_id" ∷ []) none false)
            (str step.session_id ∷ int step.step_number ∷ str user_id ∷ [])
      save_found step row)

    unfoldable pub load : String → ℕ → Exec Db (Option Step)
    unfolding pick
    load session_id step_number =
        rewrap checkpoint_error
          (do rows ← StepRepo.get_by_session E session_id; lift (pick step_number rows))

    latest_of : Option Row → Result (Option Step)
    latest_of none = ok none
    latest_of (some r) = restored (blob_of r)

    unfoldable pub load_latest : String → Exec Db (Option Step)
    unfolding latest_of
    load_latest session_id =
        rewrap checkpoint_error
          (do row ← StepRepo.get_latest_by_session E session_id; lift (latest_of row))

  -- `r.get("session_id", session_id)`
  abbrev session_of : String → Row → String
  session_of session_id r = elim (get "session_id" r) [ some (str s) ↦ s | _ ↦ session_id ]

  module _ {Db : Type 0} (E : Backend Db) where
    summaries : String → List Row → Exec Db (List StepSummary)
    summaries session_id [] = pure []
    summaries session_id (r ∷ rs) = do
      id ← lift (text_at "id" r)
      step_number ← lift (number_at "step_number" r)
      status ← lift (text_at "status" r)
      rest ← summaries session_id rs
      pure (
          record {
            id = id;
            session_id = session_of session_id r;
            step_number = step_number;
            status = status;
          }
          ∷ rest)

    pub list_checkpoints : String → Exec Db (List StepSummary)
    unfolding summaries
    list_checkpoints session_id = do
      rows ← StepRepo.list_checkpoints E session_id
      summaries session_id rows
