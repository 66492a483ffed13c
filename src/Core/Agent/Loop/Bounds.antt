-- ===== src/Core/Agent/Loop/Bounds.antt =====
-- What follows from a trace: how many steps there are, their numbers, and when a run is completed.
use agent_sdk.Prelude.{
  ℕ, zero, suc, ◌+◌, ◌≤◌, String, ◌≡◌, refl, ap, Option, List, [], ◌∷◌, map, arith, length,
}
use agent_sdk.Types.{RunStatus, ok}
use agent_sdk.Core.Message.{Message, LlmResponse, Step}
use agent_sdk.Core.Agent.Loop.{Agent, or_zero, or_empty}
use agent_sdk.Core.Agent.Loop.Traces.{Trace, exhausted, model_failed, answered, used_tools}

-- `count_from n k` is n, n + 1, …, of length k.
abbrev pub count_from : ℕ → ℕ → List ℕ
count_from n zero = []
count_from n (suc k) = n ∷ count_from (n + 1) k

abbrev pub numbers : List Step → List ℕ
numbers = map λ s. s.step_number

module _ {Db : Type 0} (A : Agent Db) (resumed : Option ℕ) where
  pub Trace-length :
      {n left : ℕ} {ms : List Message} {ss : List Step} {status : RunStatus} {output : String}
      → Trace A resumed n left ms ss status output
      → length ss ≤ left
  Trace-length (exhausted n) = omega arith
  Trace-length (model_failed n left sent e st chat num) = omega arith
  Trace-length (answered n left sent r st chat called num) = omega arith
  Trace-length (used_tools n left sent r st tools ms ss status output chat called ans num t) =
      omega (arith, Trace-length t)

  pub Trace-numbers :
      {n left : ℕ} {ms : List Message} {ss : List Step} {status : RunStatus} {output : String}
      → Trace A resumed n left ms ss status output
      → numbers ss ≡ count_from (or_zero resumed + n) (length ss)
  Trace-numbers (exhausted n) = refl
  Trace-numbers (model_failed n left sent e st chat num) = ap (λ k. k ∷ []) num
  Trace-numbers (answered n left sent r st chat called num) = ap (λ k. k ∷ []) num
  Trace-numbers (used_tools n left sent r st tools ms ss status output chat called ans num t) =
      let here : or_zero resumed + suc n ≡ or_zero resumed + n + 1 = omega arith in
      cc (num, Trace-numbers t, here)

  -- The answer that ended the run: the model's, in some round, without tool calls.
  abbrev pub FinalAnswer : String → Type 0
  FinalAnswer output =
      (k : ℕ) × (sent : List Message) × (r : LlmResponse) × (A.chat k sent ≡ ok r)
      × (r.tool_calls ≡ [])
      × (output ≡ or_empty r.message.content)

  pub Trace-completed :
      {n left : ℕ} {ms : List Message} {ss : List Step} {status : RunStatus} {output : String}
      → Trace A resumed n left ms ss status output
      → status ≡ RunStatus.completed
      → FinalAnswer output
  Trace-completed (exhausted n) h = cc
  Trace-completed (model_failed n left sent e st chat num) h = cc
  Trace-completed (answered n left sent r st chat called num) h = (n, sent, r, chat, called, refl)
  Trace-completed (used_tools n left sent r st tools ms ss status output chat called ans num t) h =
      Trace-completed t h
