-- ===== src/Composability/Discovery/Tests.antt =====
-- An agent is registered a second time, and the registry is checked while one agent is down.
use agent_sdk.Prelude.{
  ℕ, String, ◌≡◌, refl, Bool, true, false, Option, none, some, List, [], ◌∷◌, str_eq, if◌then◌else◌,
}
use agent_sdk.Types.{other, ok}
use agent_sdk.Db.Sql.{any}
use agent_sdk.Prelude.Dict.{Dict}
use agent_sdk.Db.Exec.{World, Exec, raise, pure}
use agent_sdk.Db.Reference.{Tables, reference}
use agent_sdk.Db.Repositories.AgentRegistryRepo
use agent_sdk.Db.Repositories.AgentRegistryRepo.{agent_row}
use agent_sdk.Composability.Discovery.{
  AgentDescriptor, LoadedTools, names, invalid, register, discover, list_agents, health_check_all,
}
use agent_sdk.Composability.Discovery.Registered.{discover-register}
use agent_sdk.Composability.Discovery.Health.{has, named, health_check_all-Reports}

abbrev rstrip : String → String → String
rstrip text chars = text

abbrev dumps : List String → String
dumps ts = "[\"lookup\"]"

abbrev loads : String → LoadedTools
loads t = if str_eq t "[\"lookup\"]" then names ("lookup" ∷ []) else invalid

abbrev http_get : String → Exec Tables ℕ
http_get url = if str_eq url "http://a/health" then pure 200 else raise (other "ConnectError")

abbrev agent : String → String → AgentDescriptor
agent name url = record {
  name = name;
  description = "";
  base_url = url;
  tools = "lookup" ∷ [];
  version = "0.1.0";
  health_url = "";
}

abbrev two_agents : World Tables
two_agents = record {
  db = λ t.
      agent_row "billing" "" "http://a" "[\"lookup\"]" "0.1.0" "http://a/health" "then"
      ∷ agent_row "search" "" "http://b" "[\"lookup\"]" "0.1.0" "http://b/health" "then"
      ∷ [];
  scope = none;
  reads = 0;
}

registered :
    (register reference rstrip dumps loads http_get (agent "billing" "http://c") two_agents).0
    ≡ ok tt
unfolding register agent_sdk.Db.Exec.◌>>=◌ AgentRegistryRepo.register agent_sdk.Db.Exec.now
    agent_sdk.Db.Exec.execute reference AgentRegistryRepo.get_by_name agent_sdk.Db.Exec.fetch_one
registered = refl

discover-register_example :
    (discover reference rstrip dumps loads http_get "billing"
      (register reference rstrip dumps loads http_get (agent "billing" "http://c") two_agents).1).0
    ≡ ok (some (record (agent "billing" "http://c") { health_url = "http://c/health" }))
unfolding str_eq
discover-register_example =
    discover-register reference rstrip dumps loads http_get (agent "billing" "http://c") two_agents
      registered refl refl

abbrev listed_agents : List AgentDescriptor
listed_agents =
    record (agent "billing" "http://a") { health_url = "http://a/health" }
    ∷ record (agent "search" "http://b") { health_url = "http://b/health" }
    ∷ []

listed : (list_agents reference rstrip dumps loads http_get two_agents).0 ≡ ok listed_agents
unfolding list_agents agent_sdk.Db.Exec.◌>>=◌ AgentRegistryRepo.list_all agent_sdk.Db.Exec.fetch_all
    agent_sdk.Composability.Discovery.to_descriptors reference agent_sdk.Prelude.Dict.get str_eq
    agent_sdk.Composability.Discovery.row_to_descriptor agent_sdk.Core.Session.lift
    agent_sdk.Persistence.Memory.text_or agent_sdk.Core.Session.text_at
listed = refl

one_down :
    (health_check_all reference rstrip dumps loads http_get two_agents).0
    ≡ ok (("billing", true) ∷ ("search", false) ∷ [])
unfolding health_check_all agent_sdk.Db.Exec.◌>>=◌ list_agents AgentRegistryRepo.list_all
    agent_sdk.Db.Exec.fetch_all agent_sdk.Composability.Discovery.to_descriptors reference
    agent_sdk.Prelude.Dict.get str_eq agent_sdk.Composability.Discovery.row_to_descriptor
    agent_sdk.Core.Session.lift agent_sdk.Persistence.Memory.text_or agent_sdk.Core.Session.text_at
    agent_sdk.Composability.Discovery.check_each agent_sdk.Composability.Discovery.check
    agent_sdk.Composability.Discovery.guarded agent_sdk.Prelude.Dict.put
    agent_sdk.Composability.Discovery.answered agent_sdk.Db.Exec.execute agent_sdk.Db.Exec.now pure
    raise AgentRegistryRepo.update_last_seen
one_down = refl

health_check_all-Reports_example :
    (results : Dict Bool) × ((health_check_all reference rstrip dumps loads http_get two_agents).0
      ≡ ok results)
    × ((k : String) → has k results ≡ any (named k) listed_agents)
health_check_all-Reports_example =
    health_check_all-Reports reference rstrip dumps loads http_get listed_agents two_agents listed
