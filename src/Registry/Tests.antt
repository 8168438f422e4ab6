-- ===== src/Registry/Tests.antt =====
-- A static agent and two dynamic ones, with the store in a file.
use multi_agent_agent_hub.Prelude.{
  ◌≡◌, refl, String, Bool, true, false, none, some, List, [], ◌∷◌, any, str_eq, if◌then◌else◌,
}
use multi_agent_agent_hub.Prelude.Dict.{lookup, insert}
use multi_agent_agent_hub.Prelude.Text.{trim_space}
use multi_agent_agent_hub.Registry.{AgentEndpoint}
use multi_agent_agent_hub.Registry.Static.{
  StaticAgentRegistry, built, new_static, new_health_checker, probe_all, checked_healthy, refused,
  duplicate_name, get, list, is_healthy,
}
use multi_agent_agent_hub.Registry.Store.{AgentCard, AgentSource, RegisteredAgent, find_agent}
use multi_agent_agent_hub.Registry.Store.Json.{Disk, agents, json_store, load_file, upsert}
use multi_agent_agent_hub.Registry.Store.Json.Lawful.{json_store-IsLawful}
use multi_agent_agent_hub.Registry.Agents.{
  check_agent, new_agent, ok, err, conflict, static_agent, check_agent, new_agent, Upstream,
  fetched, fetch_failed,
}
use multi_agent_agent_hub.Registry.Dynamic
use multi_agent_agent_hub.Registry.Dynamic.{DynamicAgentRegistry, existing, save, list_all}
use multi_agent_agent_hub.Registry.Dynamic.Effects.{Effect}
use multi_agent_agent_hub.Registry.Dynamic.Calls.{Call, run, run-Effect, target}
use multi_agent_agent_hub.Registry.Resolver.{names, resolve_url, has_url}
use multi_agent_agent_hub.Registry.Resolver.Members.{Keyed, DistinctNames}
use multi_agent_agent_hub.Registry.Resolver.Urls.{wired, agents_of, url_at}
use multi_agent_agent_hub.Registry.Resolver.Agreement.{names-resolve}

abbrev endpoint : String → String → AgentEndpoint
endpoint name url = record {
  name = name;
  url = url;
  description = "";
  output_modes = [];
  capability_ids = [];
  output_types = [];
}

abbrev code_agent : AgentEndpoint
code_agent = endpoint "code-agent" "http://code:9001"

abbrev fixed : StaticAgentRegistry
fixed = record { agents = ("code-agent", code_agent) ∷ []; health_checker = none }

fixed_built : new_static (endpoint " code-agent " "http://code:9001" ∷ []) ≡ built fixed.agents
unfolding new_static insert trim_space lookup
fixed_built = refl

given_twice : new_static (endpoint "a" "u" ∷ endpoint " a" "w" ∷ []) ≡ refused (duplicate_name "a")
unfolding new_static insert trim_space lookup
given_twice = refl

-- An agent whose probe fails is not healthy, and one that is not known is not healthy either.
probed :
    let h =
      probe_all
        (λ url. str_eq url "u")
        (new_health_checker (endpoint "a" "u" ∷ endpoint "b" "w" ∷ [])) in
    (checked_healthy h "a" ≡ true)
    × (checked_healthy h "b" ≡ false)
    × (checked_healthy h "c" ≡ false)
unfolding probe_all new_health_checker insert checked_healthy lookup
probed = (refl, refl, refl)

abbrev card : String → AgentCard
card name = record { name = name; description = ""; skills = "review" ∷ []; output_modes = [] }

abbrev agent : String → Bool → RegisteredAgent
agent name healthy = record {
  name = name;
  display_name = name;
  base_url = "http://dyn:1";
  card = card name;
  capabilities = [];
  source = AgentSource.dynamic;
  enabled = true;
  metadata = none;
  healthy = healthy;
  last_check = 0;
  last_error = "";
  created_at = 3;
  updated_at = 3;
}

abbrev disk : Disk
disk = record { file = agents (agent "diff" true ∷ agent "web" false ∷ []); writable = true }

abbrev registry : DynamicAgentRegistry json_store
registry = record { static = some fixed; store = some disk }

abbrev net : Upstream
net = record {
  normalize_agent_url = λ url. some url;
  fetch_agent_card =
      λ url. if str_eq url "http://down" then fetch_failed "refused" else fetched (card "web");
}

abbrev web_on : RegisteredAgent
web_on = record (agent "web" true) { last_check = 7; updated_at = 7 }

abbrev disk_on : Disk
disk_on = record {
  file = agents (agent "diff" true ∷ record web_on { updated_at = 8 } ∷ []);
  writable = true;
}

checked :
    run net 7 8 (Call.check "web") registry
    ≡ ok (some web_on, record registry { store = some disk_on })
unfolding run Dynamic.check check_agent existing save trim_space get lookup load_file find_agent
    upsert
checked = refl

shadowed : run net 7 8 (Call.enable "code-agent" false) registry ≡ err static_agent
unfolding run Dynamic.enable existing trim_space get lookup
shadowed = refl

taken :
    run net 7 8 (Call.register (record { url = "http://web"; replace = false })) registry
    ≡ err conflict
unfolding run Dynamic.register new_agent trim_space get lookup load_file find_agent
taken = refl

run-Effect_example :
    Effect 8
      (target (Call.check "web") (some web_on))
      (some web_on)
      registry
      (record registry { store = some disk_on })
run-Effect_example =
    run-Effect json_store-IsLawful net 7 8 registry (record registry { store = some disk_on })
      (Call.check "web") (some web_on) checked

fixed-Keyed : Keyed (agents_of (some fixed))
unfolding lookup
fixed-Keyed = (refl, refl, tt)

two_names : DistinctNames (agent "diff" true ∷ agent "web" false ∷ [])
unfolding find_agent
two_names = (refl, (refl, tt))

disk_read : load_file disk.file ≡ some (agent "diff" true ∷ agent "web" false ∷ [])
unfolding load_file
disk_read = refl

diff_trimmed : trim_space "diff" ≡ "diff"
unfolding trim_space
diff_trimmed = refl

listed : names (wired {S = json_store} (some fixed) (some disk)) ≡ ok ("code-agent" ∷ "diff" ∷ [])
unfolding names list is_healthy load_file lookup
listed = refl

names-resolve_example :
    (ns : List String) × (names (wired {S = json_store} (some fixed) (some disk)) ≡ ok ns)
    × (any (λ m. str_eq m "diff") ns
        ≡ has_url (resolve_url (wired {S = json_store} (some fixed) (some disk)) "diff"))
    × (resolve_url (wired {S = json_store} (some fixed) (some disk)) "diff"
        ≡ ok (
            url_at
              (some fixed)
              (agent "diff" true ∷ agent "web" false ∷ [])
              "diff"
              (lookup "diff" (agents_of (some fixed)))))
names-resolve_example =
    names-resolve (some fixed) fixed-Keyed "diff" (agent "diff" true ∷ agent "web" false ∷ [])
      two_names json_store (some disk) disk_read diff_trimmed refl
