-- ===== src/Dag/Tests.antt =====
-- A diamond of four tasks and a cycle of two.
use multi_agent_agent_hub.Prelude.{ℕ, ◌<◌, ◌≡◌, ◌↔◌, refl, String, none, some, List, [], ◌∷◌, All}
use multi_agent_agent_hub.Prelude.Int.{pos}
use multi_agent_agent_hub.Prelude.Dict.{lookup, insert}
use multi_agent_agent_hub.Dag.{
  TaskPlan, check_dag_cycle, build_graph, task_index, add_tasks, add_deps, ready, kahn, pop, lower,
  start,
}
use multi_agent_agent_hub.Dag.Counting.{edges}
use multi_agent_agent_hub.Dag.Acyclic.{check_dag_cycle-acyclic}

abbrev task : String → List String → TaskPlan
task id deps = record {
  task_id = id;
  agent_name = "code-agent";
  capability_ids = [];
  task_content = "write the tests";
  expected_outputs = [];
  depends_on = deps;
  priority = pos 0;
  timeout_ms = pos 60000;
  risk_level = "low";
  reason = "";
}

abbrev diamond : List TaskPlan
diamond = task "d" ("b" ∷ "c" ∷ []) ∷ task "b" ("a" ∷ []) ∷ task "c" ("a" ∷ []) ∷ task "a" [] ∷ []

abbrev cycle : List TaskPlan
cycle = task "a" ("b" ∷ []) ∷ task "b" ("a" ∷ []) ∷ task "c" [] ∷ []

cycle_found : check_dag_cycle cycle ≡ some (1, 3)
unfolding check_dag_cycle build_graph task_index add_tasks add_deps ready kahn pop lower start
    lookup insert
cycle_found = refl

diamond_passes : check_dag_cycle diamond ≡ none
unfolding check_dag_cycle build_graph task_index add_tasks add_deps ready kahn pop lower start
    lookup insert
diamond_passes = refl

check_dag_cycle-acyclic_example :
    (check_dag_cycle diamond ≡ none) ↔ ((r : ℕ → ℕ) × All (λ e. r e.0 < r e.1) (edges diamond))
check_dag_cycle-acyclic_example = check_dag_cycle-acyclic diamond
