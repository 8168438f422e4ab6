-- ===== src/Registry/Agents.antt =====
-- What services/orchestrator/registry/dynamic_registry.go does with one agent: its results, its requests
-- (types.go), and the agent that each method makes of a request, a fetched card and the stored agent.
-- What an agent's URL is normalised to and the card that it answers are arguments.
use multi_agent_agent_hub.Prelude.{
  ℕ, String, Bool, true, false, not, Option, none, some, List, [], filter, str_eq, if◌then◌else◌,
}
use multi_agent_agent_hub.Prelude.Text.{trim_space}
use multi_agent_agent_hub.Registry.{AgentEndpoint}
use multi_agent_agent_hub.Registry.Store.{AgentCard, static, dynamic, RegisteredAgent}

pub data RegistryError : Type 0 where
  invalid not_found conflict static_agent upstream store_unavailable store_failed : RegistryError

pub data Result {ℓ} (A : Type ℓ) : Type ℓ where
  ok : A → Result A
  err : RegistryError → Result A

infixl 5 ◌>>=◌
abbrev pub ◌>>=◌ {ℓ κ} : {A : Type ℓ} {B : Type κ} → Result A → (A → Result B) → Result B
ok a >>= next = next a
err e >>= next = err e

abbrev pub required {ℓ} : {A : Type ℓ} → RegistryError → Option A → Result A
required e none = err e
required e (some a) = ok a

abbrev pub check_that : Bool → RegistryError → Result (Unit {0})
check_that true e = ok tt
check_that false e = err e

pub data Fetched : Type 0 where
  fetched : AgentCard → Fetched
  fetch_failed : String → Fetched

-- a2a.NormalizeAgentURL and a2a.FetchAgentCard.
pub record Upstream : Type 0 where
  pub normalize_agent_url : String → Option String
  pub fetch_agent_card : String → Fetched

pub record RegisterAgentRequest : Type 0 where
  pub url : String
  pub replace : Bool

pub record UpdateAgentRequest : Type 0 where
  pub url : Option String
  pub display_name : Option String
  pub enabled : Option Bool
  pub metadata : Option String

unfoldable pub extract_skill_ids : List String → List String
extract_skill_ids skills = filter (λ id. not (str_eq (trim_space id) "")) skills

-- The checker manages the health of static agents.
abbrev pub static_to_registered : AgentEndpoint → RegisteredAgent
static_to_registered ep = record {
  name = ep.name;
  display_name = ep.name;
  base_url = ep.url;
  card = record { name = ""; description = ""; skills = []; output_modes = [] };
  capabilities = ep.capability_ids;
  source = static;
  enabled = true;
  metadata = none;
  healthy = false;
  last_check = 0;
  last_error = "";
  created_at = 0;
  updated_at = 0;
}

abbrev pub or_keep {ℓ} : {A : Type ℓ} → Option A → A → A
or_keep none old = old
or_keep (some new) old = new

abbrev pub any_card : Fetched → Result AgentCard
any_card (fetch_failed e) = err upstream
any_card (fetched card) = ok card

-- The card of a fetch, if it names the agent.
abbrev pub card_of : String → Fetched → Result AgentCard
card_of name (fetch_failed e) = err upstream
card_of name (fetched card) = if str_eq (trim_space card.name) name then ok card else err invalid

-- An agent that replaces another keeps what is not set here, its health included.
unfoldable pub new_agent :
    ℕ → String → String → AgentCard → Bool → Option RegisteredAgent → Result RegisteredAgent
unfolding extract_skill_ids
new_agent now name url card replace none = ok (record {
  name = name;
  display_name = card.name;
  base_url = url;
  card = card;
  capabilities = extract_skill_ids card.skills;
  source = dynamic;
  enabled = true;
  metadata = none;
  healthy = false;
  last_check = 0;
  last_error = "";
  created_at = now;
  updated_at = now;
})
new_agent now name url card replace (some existing) =
    if replace
    then ok (record existing {
      base_url = url;
      card = card;
      capabilities = extract_skill_ids card.skills;
      display_name = card.name;
      source = dynamic;
      enabled = true;
      updated_at = now;
    })
    else err conflict

module _ (up : Upstream) where
  abbrev pub with_url : String → Option String → RegisteredAgent → Result RegisteredAgent
  with_url name none agent = ok agent
  with_url name (some url) agent = do
    normalized ← required invalid (up.normalize_agent_url url)
    card ← card_of name (up.fetch_agent_card normalized)
    ok (record agent {
      base_url = normalized;
      card = card;
      capabilities = extract_skill_ids card.skills;
    })

  unfoldable pub patch_agent :
      ℕ → String → UpdateAgentRequest → RegisteredAgent → Result RegisteredAgent
  unfolding extract_skill_ids
  patch_agent now name patch old = do
    agent ← with_url name patch.url old
    ok (record agent {
      display_name = or_keep patch.display_name agent.display_name;
      enabled = or_keep patch.enabled agent.enabled;
      metadata = elim patch.metadata [ none ↦ agent.metadata | some metadata ↦ some metadata ];
      updated_at = now;
    })

  unfoldable pub refresh_agent : ℕ → String → RegisteredAgent → Result RegisteredAgent
  unfolding extract_skill_ids
  refresh_agent now name agent = do
    card ← card_of name (up.fetch_agent_card agent.base_url)
    ok (record agent {
      card = card;
      capabilities = extract_skill_ids card.skills;
      updated_at = now;
    })

  abbrev pub checked : ℕ → String → Fetched → RegisteredAgent → RegisteredAgent
  checked now name (fetch_failed e) agent = record agent {
    healthy = false;
    last_check = now;
    last_error = e;
    updated_at = now;
  }
  checked now name (fetched card) agent =
      let same = str_eq (trim_space card.name) name in
      record agent {
        healthy = same;
        last_check = now;
        last_error = if same then "" else "agent card name mismatch";
        updated_at = now;
      }

  -- A failed fetch is noted in the agent and is no error.
  unfoldable pub check_agent : ℕ → String → RegisteredAgent → RegisteredAgent
  check_agent now name agent = checked now name (up.fetch_agent_card agent.base_url) agent
