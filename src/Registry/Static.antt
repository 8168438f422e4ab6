-- ===== src/Registry/Static.antt =====
-- StaticAgentRegistry of services/orchestrator/registry/static_registry.go with the health checker of
-- health_checker.go. A probe's answers for the agents' URLs are an argument; the rounds of probes are
-- calls. The maps are read by key or sorted, so their order does not matter.
use multi_agent_agent_hub.Prelude.{
  String, Bool, true, false, Option, none, some, List, [], ◌∷◌, map, str_eq, if◌then◌else◌,
}
use multi_agent_agent_hub.Prelude.Dict.{Dict, empty, lookup, insert}
use multi_agent_agent_hub.Prelude.Text.{trim_space}
use text.Mathlib.Text.{is_lt}
use Prim.Native.String.{compare}
use multi_agent_agent_hub.Registry.{AgentEndpoint}

pub record HealthChecker : Type 0 where
  pub healthy : Dict Bool
  pub endpoints : Dict String

abbrev no_checker : HealthChecker
no_checker = record { healthy = empty; endpoints = empty }

-- Each agent starts as healthy.
unfoldable pub new_health_checker : List AgentEndpoint → HealthChecker
new_health_checker [] = no_checker
new_health_checker (ep ∷ eps) =
    let h = new_health_checker eps in
    record {
      healthy = insert ep.name true h.healthy;
      endpoints = insert ep.name ep.url h.endpoints;
    }

abbrev or_false : Option Bool → Bool
or_false none = false
or_false (some b) = b

-- A name that is not in the map is not healthy.
unfoldable pub checked_healthy : HealthChecker → String → Bool
checked_healthy h name = or_false (lookup name h.healthy)

unfoldable pub probe_each : (String → Bool) → Dict String → Dict Bool → Dict Bool
probe_each probe [] healthy = healthy
probe_each probe ((name, url) ∷ rest) healthy =
    probe_each probe rest (insert name (probe url) healthy)

unfoldable pub probe_all : (String → Bool) → HealthChecker → HealthChecker
unfolding probe_each
probe_all probe h = record h { healthy = probe_each probe h.endpoints h.healthy }

pub record StaticAgentRegistry : Type 0 where
  pub agents : Dict AgentEndpoint
  pub health_checker : Option HealthChecker

pub data StaticError : Type 0 where
  name_required : StaticError
  url_required duplicate_name : String → StaticError

pub data Built : Type 0 where
  built : Dict AgentEndpoint → Built
  refused : StaticError → Built

-- An endpoint with its texts trimmed.
abbrev pub clean : AgentEndpoint → AgentEndpoint
clean ep = record ep {
  name = trim_space ep.name;
  url = trim_space ep.url;
  description = trim_space ep.description;
}

abbrev pub add_new : AgentEndpoint → Dict AgentEndpoint → Option AgentEndpoint → Built
add_new ep agents (some old) = refused (duplicate_name ep.name)
add_new ep agents none = built (insert ep.name ep agents)

unfoldable pub add_endpoint : AgentEndpoint → Dict AgentEndpoint → Built
add_endpoint ep agents =
    if str_eq ep.name ""
    then refused name_required
    else if str_eq ep.url ""
    then refused (url_required ep.name)
    else add_new ep agents (lookup ep.name agents)

unfoldable pub add_endpoints : List AgentEndpoint → Dict AgentEndpoint → Built
unfolding add_endpoint
add_endpoints [] agents = built agents
add_endpoints (ep ∷ eps) agents = elim (add_endpoint (clean ep) agents) [
  | built more ↦ add_endpoints eps more
  | refused e ↦ refused e
]

unfoldable pub new_static : List AgentEndpoint → Built
unfolding add_endpoints
new_static eps = add_endpoints eps empty

unfoldable pub get : StaticAgentRegistry → String → Option AgentEndpoint
get r name = let key = trim_space name in if str_eq key "" then none else lookup key r.agents

-- Sorted by name, as sort.Slice does where no two names are equal.
unfoldable pub insert_sorted {ℓ} : {A : Type ℓ} → (A → String) → A → List A → List A
insert_sorted name a [] = a ∷ []
insert_sorted name a (b ∷ rest) =
    let later = insert_sorted name a rest in
    if is_lt (compare (name b) (name a)) then b ∷ later else a ∷ b ∷ rest

unfoldable pub sort_by {ℓ} : {A : Type ℓ} → (A → String) → List A → List A
unfolding insert_sorted
sort_by name [] = []
sort_by name (a ∷ rest) = insert_sorted name a (sort_by name rest)

unfoldable pub list : StaticAgentRegistry → List AgentEndpoint
unfolding sort_by
list r = sort_by (λ ep. ep.name) (map (λ entry. entry.1) r.agents)

-- With no checker every name is healthy.
abbrev healthy_by : Option HealthChecker → String → Bool
healthy_by none name = true
healthy_by (some h) name = checked_healthy h name

unfoldable pub is_healthy : StaticAgentRegistry → String → Bool
unfolding checked_healthy
is_healthy r name = healthy_by r.health_checker name
