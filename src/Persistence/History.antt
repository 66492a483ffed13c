-- ===== src/Persistence/History.antt =====
-- agent_sdk/persistence/history.py: `HistoryManager`, without `truncate`. The JSON encoding of tool
-- calls is a parameter. The metadata of a message is its JSON text: that json.dumps raises on
-- metadata that is no JSON, and json.loads on the way back, are left out.
pub mod RoundTrip
use agent_sdk.Prelude.{
  ℕ, suc, ◌+◌, String, ◌≡◌, Option, none, some, List, [], ◌∷◌, map, str_eq, Bool, true, false,
  if◌then◌else◌,
}
use agent_sdk.Prelude.Dict.{get}
use agent_sdk.Types.{MessageRole, Error, other, Result, ok, err}
use agent_sdk.Db.Sql.{Value, null, int, str, Row, eq, lt, asc, Statement}
use agent_sdk.Db.Backend.{Backend}
use agent_sdk.Db.Exec.{Exec, pure, raise, ◌>>=◌, ◌>>◌, uuid4, now, execute, fetch_all, fetch_one}
use agent_sdk.Db.Repositories.SessionRepo.{by}
use agent_sdk.Db.Repositories.MemoryRepo.{nullable}
use agent_sdk.Isolation.Scope.{get_user_scope}
use agent_sdk.Core.Message.{ToolCall, Message}

-- json.dumps of a list of tool calls, and json.loads with their validation.
pub record Json : Type 0 where
  pub dumps : List ToolCall → String
  pub loads : String → Option (List ToolCall)
  pub loads-dumps : (calls : List ToolCall) → loads (dumps calls) ≡ some calls
  pub dumps-nonempty : (calls : List ToolCall) → str_eq (dumps calls) "" ≡ false

-- `role.value`, and `MessageRole(value)`
unfoldable pub role_value : MessageRole → String
role_value MessageRole.user = "user"
role_value MessageRole.assistant = "assistant"
role_value MessageRole.system = "system"
role_value MessageRole.tool = "tool"

unfoldable pub parse_role : Option Value → Result MessageRole
parse_role (some (str s)) =
    if str_eq s "user"
    then ok MessageRole.user
    else if str_eq s "assistant"
    then ok MessageRole.assistant
    else if str_eq s "system"
    then ok MessageRole.system
    else if str_eq s "tool"
    then ok MessageRole.tool
    else err (other "ValidationError")
parse_role _ = err (other "ValidationError")

-- A text column as an optional text.
unfoldable pub optional : Option Value → Option String
optional (some (str s)) = some s
optional _ = none

module _ (J : Json) where
  unfoldable pub encode_calls : Option (List ToolCall) → Value
  encode_calls none = null
  encode_calls (some []) = null
  encode_calls (some (c ∷ calls)) = str (J.dumps (c ∷ calls))

  some_calls : Option (List ToolCall) → Option (List ToolCall)
  some_calls (some (c ∷ calls)) = some (c ∷ calls)
  some_calls _ = none

  unfoldable pub decode_calls : Option Value → Option (List ToolCall)
  unfolding some_calls
  decode_calls (some (str s)) = if str_eq s "" then none else some_calls (J.loads s)
  decode_calls _ = none

  -- The row that `append` writes.
  unfoldable pub message_row : String → String → String → ℕ → Message → Row
  message_row msg_id session_id user_id ordinal m =
      ("id", str msg_id)
      ∷ ("session_id", str session_id)
      ∷ ("user_id", str user_id)
      ∷ ("role", str (role_value m.role))
      ∷ ("content", nullable m.content)
      ∷ ("tool_calls", encode_calls m.tool_calls)
      ∷ ("tool_call_id", nullable m.tool_call_id)
      ∷ ("name", nullable m.name)
      ∷ ("metadata", str (if str_eq m.metadata "" then "{}" else m.metadata))
      ∷ ("timestamp", str m.timestamp)
      ∷ ("ordinal", int ordinal)
      ∷ []

  -- The message gets the time of the call as its timestamp.
  unfoldable pub row_to_message : Row → String → Result Message
  row_to_message r time = elim (parse_role (get "role" r)) [
    | err e ↦ err e
    | ok role ↦ ok (record {
      role = role;
      content = optional (get "content" r);
      tool_calls = decode_calls (get "tool_calls" r);
      tool_call_id = optional (get "tool_call_id" r);
      name = optional (get "name" r);
      timestamp = time;
      metadata = elim (get "metadata" r) [ some (str s) ↦ s | _ ↦ "{}" ];
    })
  ]

  module _ {Db : Type 0} (E : Backend Db) where
    -- `row["cnt"] if row else 0`
    abbrev cnt : Option Row → ℕ
    cnt none = 0
    cnt (some r) = elim (get "cnt" r) [ some (int n) ↦ n | _ ↦ 0 ]

    unfoldable pub count : String → Exec Db ℕ
    count session_id = do
      row ← fetch_one E (Statement.count "messages" (eq "session_id" ∷ [])) (str session_id ∷ [])
      pure (cnt row)

    unfoldable pub append : String → Message → Exec Db (Unit {0})
    append session_id m = do
      user_id ← get_user_scope
      n ← count session_id
      msg_id ← uuid4 E
      let row = message_row msg_id session_id user_id (n + 1) m
      execute E (Statement.insert "messages" (map (λ p. p.0) row)) (map (λ p. p.1) row)

    -- `[_row_to_message(r) for r in rows]`
    unfoldable pub to_messages : List Row → Exec Db (List Message)
    to_messages [] = pure []
    to_messages (r ∷ rs) = do
      time ← now E
      m ← λ w. (row_to_message r time, w)
      ms ← to_messages rs
      pure (m ∷ ms)

    unfoldable pub get_messages : String → ℕ → Option String → Exec Db (List Message)
    get_messages session_id limit none = do
      rows ←
          fetch_all E
            (Statement.select "messages" ("*" ∷ []) (eq "session_id" ∷ []) (by "ordinal" asc) true)
            (str session_id ∷ int limit ∷ [])
      to_messages rows
    get_messages session_id limit (some before) = do
      rows ←
          fetch_all E
            (Statement.select "messages" ("*" ∷ []) (eq "session_id" ∷ lt "timestamp" ∷ [])
              (by "ordinal" asc) true)
            (str session_id ∷ str before ∷ int limit ∷ [])
      to_messages rows

    unfoldable pub get_full : String → Exec Db (List Message)
    get_full session_id = do
      rows ←
          fetch_all E
            (Statement.select "messages" ("*" ∷ []) (eq "session_id" ∷ []) (by "ordinal" asc) false)
            (str session_id ∷ [])
      to_messages rows
