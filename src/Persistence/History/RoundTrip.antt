-- ===== src/Persistence/History/RoundTrip.antt =====
-- The role and the tool calls of a message, written to a row and read back.
use agent_sdk.Prelude.{◌≡◌, refl, Option, none, some, List, [], ◌∷◌, str_eq}
use agent_sdk.Types.{MessageRole, ok}
use agent_sdk.Db.Sql.{str}
use agent_sdk.Core.Message.{ToolCall}
use agent_sdk.Persistence.History.{Json, role_value, parse_role, encode_calls, decode_calls}

-- A list of no tool calls is stored as NULL, and read as None.
abbrev or_none : Option (List ToolCall) → Option (List ToolCall)
or_none (some []) = none
or_none o = o

pub parse_role-value : (r : MessageRole) → parse_role (some (str (role_value r))) ≡ ok r
unfolding parse_role role_value str_eq
parse_role-value MessageRole.user = refl
parse_role-value MessageRole.assistant = refl
parse_role-value MessageRole.system = refl
parse_role-value MessageRole.tool = refl

decode-encode :
    (J : Json) (calls : Option (List ToolCall))
    → decode_calls J (some (encode_calls J calls)) ≡ or_none calls
unfolding decode_calls encode_calls
decode-encode J none = refl
decode-encode J (some []) = refl
decode-encode J (some (c ∷ calls)) =
    rw (J.dumps-nonempty (c ∷ calls), J.loads-dumps (c ∷ calls), decode_calls)
