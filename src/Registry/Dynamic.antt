-- ===== src/Registry/Dynamic.antt =====
-- DynamicAgentRegistry of services/orchestrator/registry/dynamic_registry.go over any store. The times at which
-- the method and then the store read the clock are arguments. A nil registry or store is `none`.
pub mod Effects
mod Kept
pub mod Calls
use multi_agent_agent_hub.Prelude.{
  ℕ, ◌≡◌, String, Bool, true, false, not, Option, none, some, List, [], ◌∷◌, ◌++◌, map, filter, any,
  str_eq, if◌then◌else◌,
}
use multi_agent_agent_hub.Prelude.Text.{trim_space}
use multi_agent_agent_hub.Registry.{AgentEndpoint}
use multi_agent_agent_hub.Registry.Static.{StaticAgentRegistry, get, list, sort_by}
use multi_agent_agent_hub.Registry.Store.{
  AgentCard, AgentSource, static, dynamic, RegisteredAgent, AgentStore, find_agent,
}
use multi_agent_agent_hub.Registry.Agents.{
  Result, ok, err, RegistryError, invalid, not_found, conflict, static_agent, upstream,
  store_unavailable, store_failed, ◌>>=◌, required, check_that, Upstream, RegisterAgentRequest,
  UpdateAgentRequest, any_card, static_to_registered, new_agent, patch_agent, refresh_agent,
  check_agent,
}

abbrev pub in_static : Option StaticAgentRegistry → String → Option AgentEndpoint
in_static none name = none
in_static (some r) name = get r name

abbrev pub is_none {ℓ} : {A : Type ℓ} → Option A → Bool
is_none none = true
is_none (some a) = false

pub record DynamicAgentRegistry (S : AgentStore) : Type 0 where
  pub static : Option StaticAgentRegistry
  pub store : Option S.State

abbrev pub loaded : (S : AgentStore) → Option S.State → Option (List RegisteredAgent)
loaded S none = some []
loaded S (some s) = S.load s

abbrev pub static_list : Option StaticAgentRegistry → List RegisteredAgent
static_list none = []
static_list (some s) = map static_to_registered (list s)

abbrev pub has_name : String → List RegisteredAgent → Bool
has_name name agents = any (λ a. str_eq a.name name) agents

module _ {S : AgentStore} where
  abbrev pub dynamics : DynamicAgentRegistry S → Option (List RegisteredAgent)
  dynamics r = loaded S r.store

  unfoldable pub list_all : DynamicAgentRegistry S → Result (List RegisteredAgent)
  unfolding sort_by
  list_all r = do
    let fixed = static_list r.static
    agents ← required store_failed (dynamics r)
    ok (sort_by (λ a. a.name) (fixed ++ filter (λ a. not (has_name a.name fixed)) agents))

  abbrev pub from_store :
      String → Option AgentEndpoint → DynamicAgentRegistry S → Result (Option RegisteredAgent)
  from_store name (some ep) r = ok (some (static_to_registered ep))
  from_store name none r = do
    agents ← required store_failed (dynamics r)
    ok (find_agent name agents)

  unfoldable pub get_any : DynamicAgentRegistry S → String → Result (Option RegisteredAgent)
  get_any r name =
      let key = trim_space name in
      if str_eq key "" then ok none else from_store key (in_static r.static key) r

  -- What Update, Enable, Refresh and Check do first: the stored agent, which is not a static one.
  unfoldable pub existing : DynamicAgentRegistry S → String → Result (RegisteredAgent × S.State)
  existing r name = do
    _ ← check_that (not (str_eq name "")) invalid
    s ← required store_unavailable r.store
    _ ← check_that (is_none (in_static r.static name)) static_agent
    agents ← required store_failed (S.load s)
    agent ← required not_found (find_agent name agents)
    ok (agent, s)

  -- And last.
  unfoldable pub save :
      ℕ
      → RegisteredAgent
      → S.State
      → DynamicAgentRegistry S
      → Result (RegisteredAgent × DynamicAgentRegistry S)
  save later agent s r = do
    t ← required store_failed (S.upsert later agent s)
    ok (agent, record r { store = some t })

  module _ (up : Upstream) (now later : ℕ) where
    unfoldable pub register :
        RegisterAgentRequest
        → DynamicAgentRegistry S
        → Result (RegisteredAgent × DynamicAgentRegistry S)
    register req r = do
      s ← required store_unavailable r.store
      _ ← check_that (not (str_eq (trim_space req.url) "")) invalid
      url ← required invalid (up.normalize_agent_url req.url)
      card ← any_card (up.fetch_agent_card url)
      let name = trim_space card.name
      _ ← check_that (not (str_eq name "")) invalid
      _ ← check_that (is_none (in_static r.static name)) conflict
      agents ← required store_failed (S.load s)
      agent ← new_agent now name url card req.replace (find_agent name agents)
      save later agent s r

    unfoldable pub update :
        String
        → UpdateAgentRequest
        → DynamicAgentRegistry S
        → Result (RegisteredAgent × DynamicAgentRegistry S)
    update name patch r = do
      (old, s) ← existing r (trim_space name)
      agent ← patch_agent up now (trim_space name) patch old
      save later agent s r

    unfoldable pub enable :
        String → Bool → DynamicAgentRegistry S → Result (RegisteredAgent × DynamicAgentRegistry S)
    enable name enabled r = do
      (agent, s) ← existing r (trim_space name)
      save later (record agent { enabled = enabled; updated_at = now }) s r

    unfoldable pub refresh :
        String → DynamicAgentRegistry S → Result (RegisteredAgent × DynamicAgentRegistry S)
    refresh name r = do
      (old, s) ← existing r (trim_space name)
      agent ← refresh_agent up now (trim_space name) old
      save later agent s r

    unfoldable pub check :
        String → DynamicAgentRegistry S → Result (RegisteredAgent × DynamicAgentRegistry S)
    check name r = do
      (agent, s) ← existing r (trim_space name)
      save later (check_agent up now (trim_space name) agent) s r

  unfoldable pub unregister : String → DynamicAgentRegistry S → Result (DynamicAgentRegistry S)
  unregister name r = do
    (agent, s) ← existing r (trim_space name)
    t ← required store_failed (S.delete (trim_space name) s)
    ok (record r { store = some t })
