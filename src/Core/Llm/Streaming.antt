-- ===== src/Core/Llm/Streaming.antt =====
-- The adapter's two calls give the same answer.
use Prim.Native.String
use agent_sdk.Prelude.{
  ℕ, String, ◌≡◌, refl, sym, ap, ◌∙◌, false, Option, none, some, List, [], ◌∷◌, ◌++◌, map, All,
  str_eq,
}
use agent_sdk.Prelude.Dict.{Dict}
use agent_sdk.Types.{Error, Result, ok, err}
use agent_sdk.Core.Message.{ToolCall, Message, LlmResponse}
use agent_sdk.Core.Agent.Loop.{or_empty}
use agent_sdk.Core.Agent.Stream.{Loaded, call_of, calls_of, collect, extended}
use agent_sdk.Core.Agent.Stream.Yield.{Delta, done}
use agent_sdk.Core.Agent.Stream.Script.{transcript, Heard}
use agent_sdk.Core.Llm.{
  Argument, json, RawMessage, LiteLlmAdapter, kwargs, parse_call, parse_calls, parse_tool_calls,
  as_llm_error, response_of, answered, chat, chat_stream, chunk_events, chunks_events,
}

-- The texts of the chunks, one after the other.
abbrev pub text_of : String → List String → String
text_of start [] = start
text_of start (t ∷ ts) = text_of (String.◌++◌ start t) ts

-- An answer, whole and in chunks: some with texts, and one with the tool calls.
abbrev pub whole : List String → List Delta → RawMessage
whole texts ds = record { content = some (text_of "" texts); tool_calls = some ds }

abbrev pub chunks : List String → List Delta → List (Option RawMessage)
chunks texts ds =
    map (λ t. some (record { content = some t; tool_calls = none })) texts
    ++ some (record { content = none; tool_calls = some ds }) ∷ []

-- The delta has a name.
abbrev pub Named : Delta → Type 0
Named d = (name : String) × (d.name ≡ some name) × (str_eq name "" ≡ false)

module _ (loads : String → Loaded) where
  calls_of-parse_calls : (ds : List Delta) → All Named ds → calls_of loads ds ≡ parse_calls loads ds
  unfolding calls_of parse_calls call_of parse_call
  calls_of-parse_calls [] h = refl
  calls_of-parse_calls (d ∷ ds) ((name, e, ne), h) = rw (e, ne, calls_of-parse_calls ds h) refl

  transcript-chunks :
      (texts : List String) (ds : List Delta) (calls : List ToolCall) (start : String)
      → All (λ t. str_eq t "" ≡ false) texts
      → All Named ds
      → parse_tool_calls loads (some ds) ≡ ok calls
      → transcript loads
          (chunks_events (chunks texts ds) ++ done none none ∷ [])
          (record { content = start; calls = [] })
        ≡ ok (record { content = text_of start texts; calls = calls })
  unfolding chunks_events chunk_events collect parse_tool_calls parse_calls
  transcript-chunks [] [] calls start full h p =
      ap (extended (record { content = start; calls = [] })) p
  transcript-chunks [] (d ∷ ds) calls start full h p = rw (calls_of-parse_calls (d ∷ ds) h, p) refl
  transcript-chunks (t ∷ texts) ds calls start (text, full) h p =
      rw text (transcript-chunks texts ds calls (String.◌++◌ start t) full h p)

-- An answer that `chat` returns has the calls that were parsed.
returned-parsed :
    (content : Option String) (time : String) (parsed : Result (List ToolCall)) (r : LlmResponse)
    → as_llm_error (response_of content time parsed) ≡ ok r
    → (calls : List ToolCall) × (parsed ≡ ok calls)
      × (r.message.content ≡ content)
      × (r.tool_calls ≡ calls)
returned-parsed content time (ok calls) r h = (
  calls,
  refl,
  ap (λ (x : Result LlmResponse). elim x [ ok a ↦ a.message.content | err e ↦ none ]) (sym h),
  ap (λ (x : Result LlmResponse). elim x [ ok a ↦ a.tool_calls | err e ↦ [] ]) (sym h),
)
returned-parsed content time (err e) r h = cc

module _ (loads : String → Loaded) (L : LiteLlmAdapter) (tools : List String)
    (temperature max_tokens time : String) (n : ℕ) (messages : List Message)
    (acompletion : ℕ → Dict Argument → Result (List RawMessage))
    (acompletion_stream : ℕ
      → Dict Argument
      → Result (List (Option RawMessage) × Option Error)) where
  -- If the provider streams the same answer that it gives whole, its text in chunks and its tool
  -- calls complete and named in one more, then what the step loop makes of `chat_stream` is what
  -- `chat` returns: the same text and the same calls.
  pub chat_stream-chat :
      (texts : List String) (ds : List Delta) (r : LlmResponse)
      → All (λ t. str_eq t "" ≡ false) texts
      → All Named ds
      → acompletion n (kwargs L [] tools temperature max_tokens messages) ≡ ok (whole texts ds ∷ [])
      → acompletion_stream n
          (kwargs L (("stream", json "true") ∷ []) tools temperature max_tokens messages)
        ≡ ok (chunks texts ds, none)
      → chat loads L tools temperature max_tokens acompletion time n messages ≡ ok r
      → Heard
          (chat_stream loads L tools temperature max_tokens acompletion_stream)
          loads
          n
          messages
          (record { content = or_empty r.message.content; calls = r.tool_calls })
  unfolding chat chat_stream
  chat_stream-chat texts ds r full named e es returned =
      let (calls, parsed, content, same) =
        returned-parsed (some (text_of "" texts)) time (parse_tool_calls loads (some ds)) r (
          sym (ap (λ x. as_llm_error (answered loads L tools temperature max_tokens time x)) e)
          ∙ returned) in
      record {
        ends = rw es refl;
        comes_to =
            rw (es, content, same) (transcript-chunks loads texts ds calls "" full named parsed);
      }
