-- ===== src/Core/Llm/Tests.antt =====
-- A provider that answers a question, whole and in chunks, with one tool call.
use agent_sdk.Core.Llm
use agent_sdk.Prelude
use agent_sdk.Prelude.{ℕ, String, ◌≡◌, refl, Option, none, some, List, [], ◌∷◌}
use agent_sdk.Prelude.Dict.{Dict}
use agent_sdk.Types.{MessageRole, Error, llm_error, other, Result, ok, err}
use agent_sdk.Core.Message.{Message}
use agent_sdk.Core.Agent.Stream.{dict}
use agent_sdk.Core.Agent.Stream.Yield.{Delta}
use agent_sdk.Core.Agent.Stream.Script.{Heard}
use agent_sdk.Core.Agent.Tests.{message, question, calls}
use agent_sdk.Core.Llm.{
  Argument, RawMessage, LiteLlmAdapter, chat, chat_stream, message_to_dict, parse_tool_calls,
}
use agent_sdk.Core.Llm.Streaming.{whole, chunks, chat_stream-chat}

abbrev adapter : LiteLlmAdapter
adapter = record { model = "gpt-4o"; api_key = none; extra_kwargs = [] }

abbrev texts : List String
texts = "Let me " ∷ "see." ∷ []

abbrev deltas : List Delta
deltas = record { id = some "c1"; name = some "weather"; arguments = some "{}" } ∷ []

abbrev complete : ℕ → Dict Argument → Result (List RawMessage)
complete n kwargs = ok (whole texts deltas ∷ [])

abbrev complete_stream : ℕ → Dict Argument → Result (List (Option RawMessage) × Option Error)
complete_stream n kwargs = ok (chunks texts deltas, none)

abbrev called : Message
called = message MessageRole.assistant "" (some calls)

-- Whatever acompletion raises, the step loop sees an LLMError.
failed :
    chat (λ t. dict t) adapter [] "0.7" "4096" (λ n k. err (other "Timeout")) "now" 1 question
    ≡ err llm_error
unfolding chat
failed = refl

chat_stream-chat_example :
    Heard
      (chat_stream (λ t. dict t) adapter [] "0.7" "4096" complete_stream)
      (λ t. dict t)
      1
      question
      (record {
        content = "Let me see.";
        calls = record { id = "c1"; tool_name = "weather"; arguments = "{}" } ∷ [];
      })
unfolding chat Prelude.str_eq parse_tool_calls Llm.parse_calls Llm.parse_call
chat_stream-chat_example =
    chat_stream-chat (λ t. dict t) adapter [] "0.7" "4096" "now" 1 question complete complete_stream
      texts deltas _ (refl, (refl, tt)) (("weather", refl, refl), tt) refl refl refl
