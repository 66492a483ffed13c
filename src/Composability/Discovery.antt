-- ===== src/Composability/Discovery.antt =====
-- agent_sdk/composability/discovery.py. json.dumps and json.loads of a list of tool names, the HTTP
-- request (by its status code, or an exception) and str.rstrip are parameters. `registered_at` is
-- left out.
pub mod Health
pub mod Registered
pub mod Tests
use agent_sdk.Prelude.{
  ℕ, String, Bool, true, false, ◌==◌, Option, none, some, List, [], ◌∷◌, if◌then◌else◌,
}
use agent_sdk.Prelude.Dict
use agent_sdk.Prelude.Dict.{Dict}
use agent_sdk.Types.{other, Result, ok, err}
use agent_sdk.Db.Sql.{Row}
use agent_sdk.Db.Backend.{Backend}
use agent_sdk.Db.Exec.{World, Exec, pure, ◌>>=◌, ◌>>◌}
use agent_sdk.Db.Repositories.AgentRegistryRepo
use agent_sdk.Core.Session.{lift, text_at}
use agent_sdk.Persistence.Memory.{text_or}

pub record AgentDescriptor : Type 0 where
  pub name : String
  pub description : String
  pub base_url : String
  pub tools : List String
  pub version : String
  pub health_url : String

-- What `json.loads` makes of a text: nothing, a list of texts, or a value of another type.
pub data LoadedTools : Type 0 where
  invalid another : LoadedTools
  names : List String → LoadedTools

abbrev pub tools_of : LoadedTools → Result (List String)
tools_of invalid = ok []
tools_of another = err (other "ValidationError")
tools_of (names ts) = ok ts

-- `try: … except Exception: results[agent.name] = False`
abbrev pub or_false : Result Bool → Bool
or_false (ok b) = b
or_false (err e) = false

module _ {Db : Type 0} where
  unfoldable pub guarded : Exec Db Bool → Exec Db Bool
  guarded m w = let (r, w') = m w in (ok (or_false r), w')

module _ {Db : Type 0} (E : Backend Db) (rstrip : (text chars : String) → String)
    (dumps : List String → String) (loads : String → LoadedTools)
    (http_get : String → Exec Db ℕ) where
  unfoldable pub row_to_descriptor : Row → Exec Db AgentDescriptor
  row_to_descriptor r = do
    raw ← lift (text_or "[]" "tools" r)
    tools ← lift (tools_of (loads raw))
    name ← lift (text_at "name" r)
    description ← lift (text_or "" "description" r)
    base_url ← lift (text_or "" "base_url" r)
    version ← lift (text_or "0.1.0" "version" r)
    health_url ← lift (text_or "" "health_url" r)
    pure (record {
      name = name;
      description = description;
      base_url = base_url;
      tools = tools;
      version = version;
      health_url = health_url;
    })

  unfoldable pub register : AgentDescriptor → Exec Db (Unit {0})
  register d = do
    AgentRegistryRepo.register E rstrip d.name d.description d.base_url (some (dumps d.tools))
        d.version (some d.health_url)
    pure tt

  unfoldable pub deregister : String → Exec Db (Unit {0})
  deregister name = AgentRegistryRepo.deregister E rstrip name

  abbrev pub descriptor_of : Option Row → Exec Db (Option AgentDescriptor)
  descriptor_of none = pure none
  descriptor_of (some r) = do d ← row_to_descriptor r; pure (some d)

  unfoldable pub discover : String → Exec Db (Option AgentDescriptor)
  discover name = do row ← AgentRegistryRepo.get_by_name E rstrip name; descriptor_of row

  unfoldable pub to_descriptors : List Row → Exec Db (List AgentDescriptor)
  to_descriptors [] = pure []
  to_descriptors (r ∷ rs) = do d ← row_to_descriptor r; ds ← to_descriptors rs; pure (d ∷ ds)

  unfoldable pub list_agents : Exec Db (List AgentDescriptor)
  list_agents = do rows ← AgentRegistryRepo.list_all E rstrip; to_descriptors rows

  -- `if resp.status_code == 200: await self._repo.update_last_seen(agent.name)`
  unfoldable pub answered : String → ℕ → Exec Db Bool
  answered name status =
      if status == 200
      then AgentRegistryRepo.update_last_seen E rstrip name >> pure true
      else pure false

  -- The body of the loop, with its `try`.
  unfoldable pub check : AgentDescriptor → Exec Db Bool
  check agent = guarded (do status ← http_get agent.health_url; answered agent.name status)

  unfoldable pub check_each : List AgentDescriptor → Dict Bool → Exec Db (Dict Bool)
  check_each [] results = pure results
  check_each (a ∷ rest) results = do up ← check a; check_each rest (Dict.put a.name up results)

  unfoldable pub health_check_all : Exec Db (Dict Bool)
  health_check_all = do agents ← list_agents; check_each agents []
