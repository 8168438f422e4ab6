-- ===== src/Registry/Resolver.antt =====
-- DispatchResolver of services/orchestrator/registry/dispatch_resolver.go: where a task of an agent goes. The
-- view of it that the validator of plans gets is validatorRegistryAdapter of
-- services/orchestrator/httpapi/server.go.
pub mod Members
pub mod Urls
pub mod Agreement
use multi_agent_agent_hub.Prelude.{
  String, Bool, true, false, not, ◌&&◌, Option, none, some, List, [], ◌∷◌, ◌++◌, map, filter, any,
  str_eq, if◌then◌else◌,
}
use multi_agent_agent_hub.Prelude.Text.{trim_space}
use multi_agent_agent_hub.Registry.{AgentEndpoint, Registry}
use multi_agent_agent_hub.Registry.Static.{StaticAgentRegistry, get, list, is_healthy, sort_by}
use multi_agent_agent_hub.Registry.Store.{RegisteredAgent, AgentStore}
use multi_agent_agent_hub.Registry.Agents.{Result, ok, err, ◌>>=◌}
use multi_agent_agent_hub.Registry.Dynamic.{DynamicAgentRegistry, in_static, get_any, list_all}

pub record DispatchResolver (S : AgentStore) : Type 0 where
  pub static : Option StaticAgentRegistry
  pub dynamic : Option (DynamicAgentRegistry S)

abbrev pub healthy_static : Option StaticAgentRegistry → String → Bool
healthy_static none name = false
healthy_static (some s) name = is_healthy s name

abbrev pub entries : Option StaticAgentRegistry → List AgentEndpoint
entries none = []
entries (some s) = list s

abbrev pub url_of : Option RegisteredAgent → Option String
url_of none = none
url_of (some a) = if a.enabled && a.healthy then some a.base_url else none

abbrev pub is_available : RegisteredAgent → Bool
is_available a = a.enabled && a.healthy

abbrev pub static_names : Option StaticAgentRegistry → List String
static_names s = map (λ ep. ep.name) (filter (λ ep. healthy_static s ep.name) (entries s))

abbrev pub dynamic_names : List String → List RegisteredAgent → List String
dynamic_names fixed agents =
    map (λ a. a.name)
      (filter (λ a. not (any (λ n. str_eq n a.name) fixed) && is_available a) agents)

abbrev pub url_endpoint : String → Result (Option String) → Option AgentEndpoint
url_endpoint name (ok (some url)) = some (record {
  name = name;
  url = url;
  description = "";
  output_modes = [];
  capability_ids = [];
  output_types = [];
})
url_endpoint name (ok none) = none
url_endpoint name (err e) = none

abbrev pub has_url : Result (Option String) → Bool
has_url (ok (some url)) = true
has_url (ok none) = false
has_url (err e) = false

module _ {S : AgentStore} where
  abbrev pub dynamic_url : Option (DynamicAgentRegistry S) → String → Result (Option String)
  dynamic_url none name = ok none
  dynamic_url (some r) name = do agent ← get_any r name; ok (url_of agent)

  -- A static agent that is not healthy is not looked for among the dynamic ones.
  abbrev pub static_url :
      DispatchResolver S → String → Option AgentEndpoint → Result (Option String)
  static_url r name (some ep) = ok (if healthy_static r.static name then some ep.url else none)
  static_url r name none = dynamic_url r.dynamic name

  unfoldable pub resolve_url : DispatchResolver S → String → Result (Option String)
  unfolding get_any
  resolve_url r name =
      let key = trim_space name in
      if str_eq key "" then ok none else static_url r key (in_static r.static key)

  abbrev pub dynamic_list : Option (DynamicAgentRegistry S) → Result (List RegisteredAgent)
  dynamic_list none = ok []
  dynamic_list (some r) = list_all r

  unfoldable pub names : DispatchResolver S → Result (List String)
  unfolding list_all sort_by
  names r = do
    agents ← dynamic_list r.dynamic
    let fixed = static_names r.static
    ok (sort_by (λ n. n) (fixed ++ dynamic_names fixed agents))

  -- The endpoint that the validator sees has no capabilities and no types of output.
  unfoldable pub adapter : DispatchResolver S → Registry
  adapter r = record {
    get = λ name. url_endpoint name (resolve_url r name);
    is_healthy = λ name. has_url (resolve_url r name);
  }
