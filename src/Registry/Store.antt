-- ===== src/Registry/Store.antt =====
-- The store of dynamic agents: the interface AgentStore of services/orchestrator/registry/store.go with the
-- records of types.go. Its three methods act on an unknown state and may fail; the laws say what a
-- later Load finds. A time is a number, and zero is Go's zero time.
pub mod Json
use multi_agent_agent_hub.Prelude.{
  ℕ, ◌≡◌, ◌≢◌, String, Bool, Option, none, some, List, [], ◌∷◌, str_eq, if◌then◌else◌,
}

pub record AgentCard : Type 0 where
  pub name : String
  pub description : String
  pub skills : List String
  pub output_modes : List String

pub data AgentSource : Type 0 where
  static dynamic unset : AgentSource

pub record RegisteredAgent : Type 0 where
  pub name : String
  pub display_name : String
  pub base_url : String
  pub card : AgentCard
  pub capabilities : List String
  pub source : AgentSource
  pub enabled : Bool
  pub metadata : Option String
  pub healthy : Bool
  pub last_check : ℕ
  pub last_error : String
  pub created_at : ℕ
  pub updated_at : ℕ

-- `none` is an error.
pub record AgentStore : Type 1 where
  pub State : Type 0
  pub load : State → Option (List RegisteredAgent)
  pub upsert : ℕ → RegisteredAgent → State → Option State
  pub delete : String → State → Option State

-- The first agent of a name, as the registry looks for it.
unfoldable pub find_agent : String → List RegisteredAgent → Option RegisteredAgent
find_agent name [] = none
find_agent name (a ∷ agents) = if str_eq a.name name then some a else find_agent name agents

-- What the registry relies on: all loaded agents are dynamic, an agent that is stored is found with
-- its fields, its times aside, and the agents of other names are found as before.
pub record IsLawful (S : AgentStore) : Type 0 where
  pub load-IsDynamic :
      (s : S.State) (agents : List RegisteredAgent) (name : String) (a : RegisteredAgent)
      → S.load s ≡ some agents
      → find_agent name agents ≡ some a
      → a.source ≡ AgentSource.dynamic
  pub load-upsert :
      (now : ℕ) (a : RegisteredAgent) (s t : S.State) (before : List RegisteredAgent)
      → a.source ≡ AgentSource.dynamic
      → S.load s ≡ some before
      → S.upsert now a s ≡ some t
      → (after : List RegisteredAgent) × (created : ℕ) × (S.load t ≡ some after)
        × ((name : String)
            → find_agent name after ≡ (
                if str_eq a.name name
                then some (record a { created_at = created; updated_at = now })
                else find_agent name before))
  pub load-delete :
      (gone : String) (s t : S.State) (before : List RegisteredAgent)
      → S.load s ≡ some before
      → S.delete gone s ≡ some t
      → (after : List RegisteredAgent) × (S.load t ≡ some after)
        × ((name : String)
            → find_agent name after ≡ (if str_eq gone name then none else find_agent name before))
