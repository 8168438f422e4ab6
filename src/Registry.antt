-- ===== src/Registry.antt =====
-- services/orchestrator/registry: the agents that tasks can go to. An entry of the static configuration,
-- and the view of a registry that its clients have.
pub mod Agents
pub mod Dynamic
pub mod Resolver
pub mod Static
pub mod Store
mod Tests
use multi_agent_agent_hub.Prelude.{String, Bool, Option, List}

pub record AgentEndpoint : Type 0 where
  pub name : String
  pub url : String
  pub description : String
  pub output_modes : List String
  pub capability_ids : List String
  pub output_types : List String

-- What the validator of plans asks a registry.
pub record Registry : Type 0 where
  pub get : String → Option AgentEndpoint
  pub is_healthy : String → Bool
