-- ===== src/Core/Agent/Runs.antt =====
-- What `Agent.run` promises: the results that it returns, and the user scope afterwards.
use agent_sdk.Prelude.{ℕ, ◌+◌, ◌≤◌, String, ◌≡◌, refl, Bool, Option, some, List, [], length}
use agent_sdk.Types.{RunStatus, ok}
use agent_sdk.Db.Exec.{World}
use agent_sdk.Db.Exec.Ensures.{Ensures, Ensures-then, Ensures-weaken}
use agent_sdk.Isolation.Scope.{user_scope, set_user_scope, clear_user_scope}
use agent_sdk.Core.Message.{Message}
use agent_sdk.Core.Agent.{limit_of, run, run_in_scope}
use agent_sdk.Core.Agent.Loop.{Agent, AgentResult, or_zero}
use agent_sdk.Core.Agent.Loop.Traces.{Trace, Extends, steps_loop-Extends}
use agent_sdk.Core.Agent.Loop.Bounds.{
  count_from, numbers, FinalAnswer, Trace-length, Trace-numbers, Trace-completed,
}

module _ {Db : Type 0} (A : Agent Db) where
  -- The trace of a result.
  abbrev pub IsTraced : Option ℕ → AgentResult → Type 0
  IsTraced max_steps res =
      Trace A res.resumed_from_step 1 (limit_of A max_steps) res.messages res.steps res.status
        res.final_output

  traced :
      (resumed : Option ℕ) (max_steps : Option ℕ) (res : AgentResult)
      → Extends A resumed 1 (limit_of A max_steps) [] [] res
      → IsTraced max_steps res
  traced resumed max_steps res x = rw (x.messages_eq, x.steps_eq, x.resumed_eq) x.trace

  module _ (user_id : String) (input : List Message) (session_id : Option String)
      (max_steps : Option ℕ) (resume : Bool) where
    -- Every result comes from a trace of rounds.
    run-IsTraced_lem :
        Ensures (IsTraced max_steps) (run A user_id input session_id max_steps resume)
    unfolding run run_in_scope user_scope
    run-IsTraced_lem = record { at = λ w res e. body.at (record w { scope = some user_id }) res e }
      where
        body :
            Ensures (IsTraced max_steps) (run_in_scope A user_id input session_id max_steps resume)
        body = Ensures-then _ _ _ λ opened. Ensures-then _ _ _ λ _.
            Ensures-weaken _
              (steps_loop-Extends A opened.1 user_id opened.0 (A.instructions opened.0)
                (limit_of A max_steps) 1 [] [])
              (traced opened.1 max_steps)

    module _ (w : World Db) (res : AgentResult)
        (returned : (run A user_id input session_id max_steps resume w).0 ≡ ok res) where
      -- A result that a run returns comes from a trace of at most `max_steps` rounds, starting behind
      -- the step that the run resumes from: in each round the model's answer is a message; an
      -- answer without tool calls completes the run; an answer with tool calls is followed by one
      -- tool message for each call, in order and under the call's id, and by the next round; a
      -- failure of the model, or the end of the rounds, fails the run.
      pub run-IsTraced : IsTraced max_steps res
      run-IsTraced = run-IsTraced_lem.at w res returned

      -- A run that returns has at most `max_steps` steps, numbered one after the other from the
      -- step that it resumes from.
      pub run-bounds :
          (length res.steps ≤ limit_of A max_steps)
          × (numbers res.steps ≡ count_from (or_zero res.resumed_from_step + 1) (length res.steps))
      run-bounds = (Trace-length A _ run-IsTraced, Trace-numbers A _ run-IsTraced)

      -- A run that returns the status completed returns the text of an answer without tool calls.
      pub run-completed :
          res.status ≡ RunStatus.completed → FinalAnswer A res.resumed_from_step res.final_output
      run-completed = Trace-completed A _ run-IsTraced

    -- After a run, returning or raising, and whatever its tools did, the user scope is what it was.
    pub scope-run :
        (w : World Db) → (run A user_id input session_id max_steps resume w).1.scope ≡ w.scope
    unfolding run user_scope set_user_scope clear_user_scope
    scope-run w = refl
