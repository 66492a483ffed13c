-- ===== src/Core/Llm/ToolCalls.antt =====
-- Tool calls on their way to the provider and back.
use agent_sdk.Prelude.{String, ◌≡◌, refl, Option, none, some, List, [], ◌∷◌, map, All}
use agent_sdk.Types.{ok}
use agent_sdk.Core.Message.{ToolCall, Message}
use agent_sdk.Core.Agent.Stream.{Loaded, dict}
use agent_sdk.Core.Agent.Stream.Yield.{Delta}
use agent_sdk.Core.Llm.{
  CallDict, call_dict, message_to_dict, parse_call, parse_calls, parse_tool_calls,
}

-- A dict of a tool call, as an answer of the provider has it.
abbrev pub raw : CallDict → Delta
raw c = record { id = some c.id; name = some c.name; arguments = some c.arguments }

abbrev pub raw_calls : Option (List CallDict) → Option (List Delta)
raw_calls none = none
raw_calls (some cs) = some (map raw cs)

module _ (loads : String → Loaded) where
  -- `json.loads` reads the arguments back that `json.dumps` wrote.
  abbrev pub Readable : List ToolCall → Type 0
  Readable = All (λ c. loads c.arguments ≡ dict c.arguments)

  parse_calls-raw :
      (calls : List ToolCall)
      → Readable calls
      → parse_calls loads (map raw (map call_dict calls)) ≡ ok calls
  unfolding parse_calls parse_call
  parse_calls-raw [] h = refl
  parse_calls-raw (c ∷ calls) (h, hs) = rw (h, parse_calls-raw calls hs) refl

  -- Where json.loads reads back what json.dumps wrote, the tool calls of a message, as they are sent
  -- to the provider, are parsed as the same calls: same ids, same tools, same arguments.
  pub parse_tool_calls-message_to_dict :
      (msg : Message) (calls : List ToolCall)
      → msg.tool_calls ≡ some calls
      → Readable calls
      → parse_tool_calls loads (raw_calls (message_to_dict msg).tool_calls) ≡ ok calls
  unfolding parse_tool_calls message_to_dict
  parse_tool_calls-message_to_dict msg [] e h = rw e refl
  parse_tool_calls-message_to_dict msg (c ∷ calls) e h = rw e (parse_calls-raw (c ∷ calls) h)
