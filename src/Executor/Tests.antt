-- ===== src/Executor/Tests.antt =====
-- A chain of three tasks whose first agent fails, and a diamond.
use multi_agent_agent_hub.Prelude.{
  ◌≡◌, refl, Bool, String, none, some, List, [], ◌∷◌, str_eq, if◌then◌else◌,
}
use multi_agent_agent_hub.Prelude.Dict.{lookup, insert}
use multi_agent_agent_hub.Prelude.Int.{pos}
use multi_agent_agent_hub.Dag.{
  TaskPlan, has_deps, check_dag_cycle, build_graph, task_index, add_tasks, add_deps, ready, pop,
  lower, start,
}
use multi_agent_agent_hub.Executor.{
  topological_sort, collect_waves, pop_wave, tasks_at, sort_wave, insert_task,
}
use multi_agent_agent_hub.Executor.Run.{
  Agents, succeeded, failed, skipped, first, run_waves, run_wave, run_task, is_failed, mark_failed,
  set_text, execute, partial_failure, all_succeeded,
}
use multi_agent_agent_hub.Executor.Layers.{is_none, ResultInLayers, topological_sort-Layered}
use multi_agent_agent_hub.Executor.Dependencies.{is_some}
use multi_agent_agent_hub.Executor.Complete.{count, count_all, topological_sort-count}
use multi_agent_agent_hub.Executor.Skips.{Skips, tasks_of, run_waves-Skips, skip_is_not_passed_on}

abbrev task : String → List String → TaskPlan
task id deps = record {
  task_id = id;
  agent_name = "code-agent";
  capability_ids = [];
  task_content = "write the tests";
  expected_outputs = [];
  depends_on = deps;
  priority = pos 0;
  timeout_ms = pos 60000;
  risk_level = "low";
  reason = "";
}

abbrev a : TaskPlan
a = task "a" []

abbrev b : TaskPlan
b = task "b" ("a" ∷ [])

abbrev c : TaskPlan
c = task "c" ("b" ∷ [])

-- The agent of the task "a" fails.
abbrev agents : Agents
agents t texts = if str_eq t.task_id "a" then none else some "text"

abbrev chain : List TaskPlan
chain = c ∷ b ∷ a ∷ []

chain_runs : execute agents chain ≡ partial_failure (succeeded c "text" ∷ skipped b ∷ failed a ∷ [])
unfolding execute all_succeeded topological_sort collect_waves pop_wave tasks_at sort_wave
    insert_task build_graph task_index add_tasks add_deps ready pop lower start lookup insert
    run_waves run_wave run_task is_failed mark_failed set_text
chain_runs = refl

topological_sort-Layered_example :
    (is_some (topological_sort chain) ≡ is_none (check_dag_cycle chain))
    × ResultInLayers chain (topological_sort chain)
topological_sort-Layered_example = topological_sort-Layered chain

run_waves-Skips_example :
    Skips (run_waves agents ((a ∷ []) ∷ (b ∷ []) ∷ []) first).log
    × (tasks_of (run_waves agents ((a ∷ []) ∷ (b ∷ []) ∷ []) first).log ≡ b ∷ a ∷ [])
run_waves-Skips_example = run_waves-Skips agents ((a ∷ []) ∷ (b ∷ []) ∷ [])

skip_is_not_passed_on_example :
    (run_waves agents ((a ∷ []) ∷ (b ∷ []) ∷ (c ∷ []) ∷ []) first).log
    ≡ succeeded c "text" ∷ skipped b ∷ failed a ∷ []
skip_is_not_passed_on_example =
    skip_is_not_passed_on agents a b c "text" refl refl refl refl refl refl

-- The tasks with dependencies.
abbrev waits : TaskPlan → Bool
waits t = has_deps t.depends_on

chain_sorted : topological_sort chain ≡ some ((a ∷ []) ∷ (b ∷ []) ∷ (c ∷ []) ∷ [])
unfolding topological_sort collect_waves pop_wave tasks_at sort_wave insert_task build_graph
    task_index add_tasks add_deps ready pop lower start lookup insert
chain_sorted = refl

topological_sort-count_example :
    count_all waits ((a ∷ []) ∷ (b ∷ []) ∷ (c ∷ []) ∷ []) ≡ count waits chain
topological_sort-count_example =
    topological_sort-count waits chain ((a ∷ []) ∷ (b ∷ []) ∷ (c ∷ []) ∷ []) chain_sorted
