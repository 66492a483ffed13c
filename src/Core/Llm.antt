-- ===== src/Core/Llm.antt =====
-- agent_sdk/core/llm.py: the messages for litellm, its tool calls, and `LiteLLMAdapter`. litellm's
-- acompletion is a parameter. The text of an exception and the usage of tokens are left out.
pub mod ToolCalls
pub mod Streaming
pub mod Tests
use agent_sdk.Prelude.{
  ℕ, String, Bool, true, false, Option, none, some, List, [], ◌∷◌, ◌++◌, map, str_eq, if◌then◌else◌,
}
use agent_sdk.Prelude.Dict
use agent_sdk.Prelude.Dict.{Dict}
use agent_sdk.Types.{MessageRole, Error, llm_error, other, Result, ok, err}
use agent_sdk.Persistence.History.{role_value}
use agent_sdk.Core.Message.{ToolCall, Message, LlmResponse}
use agent_sdk.Core.Agent.Stream.{Loaded, validated, joined, load_arguments, assistant_message}
use agent_sdk.Core.Agent.Stream.Yield.{Delta, StreamEvent, token, tool_call, done}

-- One dict of `d["tool_calls"]`, with its "function".
pub record CallDict : Type 0 where
  pub id : String
  pub type : String
  pub name : String
  pub arguments : String

-- A dict of `_messages_to_dicts`; a key that is not set is `none`, and a content of None too.
pub record MessageDict : Type 0 where
  pub role : String
  pub content : Option String
  pub tool_calls : Option (List CallDict)
  pub tool_call_id : Option String
  pub name : Option String

abbrev pub call_dict : ToolCall → CallDict
call_dict tc = record {
  id = tc.id;
  type = "function";
  name = tc.tool_name;
  arguments = tc.arguments;
}

-- `if msg.tool_calls:`
abbrev pub call_dicts : Option (List ToolCall) → Option (List CallDict)
call_dicts none = none
call_dicts (some []) = none
call_dicts (some (c ∷ cs)) = some (map call_dict (c ∷ cs))

-- A text that is set only if it is neither None nor empty.
abbrev pub truthy : Option String → Option String
truthy none = none
truthy (some s) = if str_eq s "" then none else some s

unfoldable pub message_to_dict : Message → MessageDict
message_to_dict msg = record {
  role = role_value msg.role;
  content = msg.content;
  tool_calls = call_dicts msg.tool_calls;
  tool_call_id = truthy msg.tool_call_id;
  name = truthy msg.name;
}

abbrev pub messages_to_dicts : List Message → List MessageDict
messages_to_dicts = map message_to_dict

module _ (loads : String → Loaded) where
  unfoldable pub parse_call : Delta → Result (List ToolCall)
  parse_call d = elim d.name [
    | none ↦ err (other "ValidationError")
    | some name ↦ validated d.id name (load_arguments loads d.arguments)
  ]

  unfoldable pub parse_calls : List Delta → Result (List ToolCall)
  parse_calls [] = ok []
  parse_calls (d ∷ ds) = joined (parse_call d) (parse_calls ds)

  unfoldable pub parse_tool_calls : Option (List Delta) → Result (List ToolCall)
  parse_tool_calls none = ok []
  parse_tool_calls (some ds) = parse_calls ds

-- An argument of acompletion: a JSON text, the messages, or the schemas of the tools.
pub data Argument : Type 0 where
  json : String → Argument
  dicts : List MessageDict → Argument
  schemas : List String → Argument

-- A message of litellm, or the delta of a chunk.
pub record RawMessage : Type 0 where
  pub content : Option String
  pub tool_calls : Option (List Delta)

pub record LiteLlmAdapter : Type 0 where
  pub model : String
  pub api_key : Option String
  pub extra_kwargs : Dict Argument

abbrev pub put_key : Option String → Dict Argument → Dict Argument
put_key none kwargs = kwargs
put_key (some k) kwargs = if str_eq k "" then kwargs else Dict.put "api_key" (json k) kwargs

abbrev pub put_tools : List String → Dict Argument → Dict Argument
put_tools [] kwargs = kwargs
put_tools (t ∷ ts) kwargs = Dict.put "tools" (schemas (t ∷ ts)) kwargs

-- The keyword arguments, `own` being those that only the streaming call adds.
unfoldable pub kwargs :
    LiteLlmAdapter
    → Dict Argument
    → List String
    → (temperature max_tokens : String) → List Message
    → Dict Argument
kwargs L own tools temperature max_tokens messages = put_tools tools (
    put_key L.api_key (
      Dict.update
        (("model", json L.model)
          ∷ ("messages", dicts (messages_to_dicts messages))
          ∷ ("temperature", json temperature)
          ∷ ("max_tokens", json max_tokens)
          ∷ own)
        L.extra_kwargs))

-- `except Exception`: every exception leaves as an LLMError.
abbrev pub as_llm_error : {A : Type 0} → Result A → Result A
as_llm_error (ok a) = ok a
as_llm_error (err e) = err llm_error

-- `tool_calls or None`
abbrev pub calls_or_none : List ToolCall → Option (List ToolCall)
calls_or_none [] = none
calls_or_none (c ∷ cs) = some (c ∷ cs)

abbrev pub response_of : Option String → String → Result (List ToolCall) → Result LlmResponse
response_of content time (err e) = err e
response_of content time (ok calls) =
    ok (record {
      message = assistant_message content (calls_or_none calls) time;
      tool_calls = calls;
    })

-- What one chunk yields. A chunk without a delta is `none`.
abbrev content_events : Option String → List StreamEvent
content_events none = []
content_events (some t) = if str_eq t "" then [] else token t ∷ []

abbrev call_events : Option (List Delta) → List StreamEvent
call_events none = []
call_events (some []) = []
call_events (some (d ∷ ds)) = tool_call (d ∷ ds) ∷ []

unfoldable pub chunk_events : Option RawMessage → List StreamEvent
chunk_events none = []
chunk_events (some delta) = content_events delta.content ++ call_events delta.tool_calls

unfoldable pub chunks_events : List (Option RawMessage) → List StreamEvent
chunks_events [] = []
chunks_events (c ∷ cs) = chunk_events c ++ chunks_events cs

module _ (loads : String → Loaded) (L : LiteLlmAdapter) (tools : List String)
    (temperature max_tokens : String) where
  -- `response.choices[0].message`
  abbrev answer_of : String → List RawMessage → Result LlmResponse
  answer_of time [] = err (other "IndexError")
  answer_of time (m ∷ ms) = response_of m.content time (parse_tool_calls loads m.tool_calls)

  abbrev answered : String → Result (List RawMessage) → Result LlmResponse
  answered time (err e) = err e
  answered time (ok choices) = answer_of time choices

  -- `acompletion` returns its choices; `time` is that of the message.
  unfoldable pub chat :
      (ℕ → Dict Argument → Result (List RawMessage))
      → String
      → ℕ
      → List Message
      → Result LlmResponse
  chat acompletion time n messages =
      as_llm_error
        (answered time (acompletion n (kwargs L [] tools temperature max_tokens messages)))

  abbrev streamed :
      Result (List (Option RawMessage) × Option Error) → List StreamEvent × Option Error
  streamed (err e) = ([], some llm_error)
  streamed (ok (chunks, none)) = (chunks_events chunks ++ done none none ∷ [], none)
  streamed (ok (chunks, some e)) = (chunks_events chunks, some llm_error)

  -- `acompletion` returns its chunks, and the exception in which they end, if any.
  unfoldable pub chat_stream :
      (ℕ → Dict Argument → Result (List (Option RawMessage) × Option Error))
      → ℕ
      → List Message
      → List StreamEvent × Option Error
  chat_stream acompletion n messages = streamed (
      acompletion n (kwargs L (("stream", json "true") ∷ []) tools temperature max_tokens messages))
