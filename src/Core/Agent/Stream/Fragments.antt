-- ===== src/Core/Agent/Stream/Fragments.antt =====
-- Tool calls that the model streams in fragments: the first has the id and the name, the others only
-- go on with the text of the arguments.
use agent_sdk.Prelude.{String, ◌≡◌, refl, false, none, some, List, [], ◌∷◌, ◌++◌, str_eq, map}
use mathlib.Core.List.{append-nil}
use agent_sdk.Types.{ok}
use agent_sdk.Core.Agent.Stream.{Loaded, invalid, Collected, call_of, calls_of, collect}
use agent_sdk.Core.Agent.Stream.Yield.{Delta, tool_call}
use agent_sdk.Core.Agent.Stream.Script.{transcript}

-- A fragment that goes on with the arguments.
abbrev pub later : String → Delta
later text = record { id = none; name = none; arguments = some text }

module _ (loads : String → Loaded) where
  later-nothing :
      (texts : List String) (c : Collected)
      → transcript loads (map (λ t. tool_call (later t ∷ [])) texts) c ≡ ok c
  unfolding collect calls_of call_of
  later-nothing [] c = refl
  later-nothing (t ∷ texts) c = rw (append-nil c.calls) (later-nothing texts c)

  -- A tool call whose first fragment has no complete JSON text yet, as is usual, is collected with
  -- the arguments {}, whatever text the fragments behind it have.
  pub fragments-lost :
      (id name text : String) (texts : List String) (c : Collected)
      → str_eq name "" ≡ false
      → loads text ≡ invalid
      → transcript loads
          (tool_call (record { id = some id; name = some name; arguments = some text } ∷ [])
            ∷ map (λ t. tool_call (later t ∷ [])) texts)
          c
        ≡ ok (record c {
          calls = c.calls ++ record { id = id; tool_name = name; arguments = "{}" } ∷ [];
        })
  unfolding collect calls_of call_of
  fragments-lost id name text texts c named h = rw (named, h) (later-nothing texts _)
