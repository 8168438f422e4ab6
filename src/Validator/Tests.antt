-- ===== src/Validator/Tests.antt =====
-- Plans of two tasks, and what validation says of them.
use multi_agent_agent_hub.Prelude.{
  ◌≡◌, refl, ◌↔◌, String, true, false, none, some, List, [], ◌∷◌, All,
}
use multi_agent_agent_hub.Prelude.Int.{pos}
use multi_agent_agent_hub.Prelude.Text.{trim_space, ascii_cases, map_text, atoi}
use multi_agent_agent_hub.Prelude.Dict.{lookup, insert}
use multi_agent_agent_hub.Dag.{
  TaskPlan, check_dag_cycle, build_graph, task_index, add_tasks, add_deps, ready, kahn, pop, lower,
  start, has_depends_on,
}
use multi_agent_agent_hub.Executor.{topological_sort}
use multi_agent_agent_hub.Executor.Dependencies.{is_some}
use multi_agent_agent_hub.Executor.Layers.{ResultInLayers}
use multi_agent_agent_hub.Registry.{AgentEndpoint}
use multi_agent_agent_hub.Registry.Static.{get, is_healthy}
use multi_agent_agent_hub.Registry.Store.Json.{json_store}
use multi_agent_agent_hub.Registry.Resolver.{DispatchResolver, resolve_url, adapter}
use multi_agent_agent_hub.Validator.{
  OrchestrationPlan, ValidationError, PlanValidator, max_tasks, validate, plan_errors,
  duplicate_errors, task_ids, tasks_errors, in_task, agent_not_found, unknown_dependency,
  timeout_out_of_range, secret, circular_dependency,
}
use multi_agent_agent_hub.Validator.Content.{
  contains_url, contains_secret, contains_dsn, contains_system_prompt,
}
use multi_agent_agent_hub.Validator.Rules.{IsAccepted}
use multi_agent_agent_hub.Validator.Rules.Accepts.{validate-IsAccepted}
use multi_agent_agent_hub.Validator.Paths.{
  PathAwareValidator, PathError, NameError, validate_path, out_of_boundary, single_chat_too_many,
}
use multi_agent_agent_hub.Validator.Paths
use multi_agent_agent_hub.Validator.Paths.Boundary.{KeepsBoundary, validate_path-KeepsBoundary}
use multi_agent_agent_hub.Validator.Runs.{IsReady, validate-IsReady}

abbrev code_agent : AgentEndpoint
code_agent = record {
  name = "code-agent";
  url = "http://code:9001";
  description = "";
  output_modes = [];
  capability_ids = [];
  output_types = [];
}

abbrev resolver : DispatchResolver json_store
resolver = record {
  static = some (record { agents = ("code-agent", code_agent) ∷ []; health_checker = none });
  dynamic = none;
}

abbrev validator : PlanValidator
validator = record {
  registry = some (adapter resolver);
  hitl_enabled = false;
  max_tasks_variable = " 3 ";
  cases = ascii_cases;
}

abbrev task : String → List String → TaskPlan
task id deps = record {
  task_id = id;
  agent_name = "code-agent";
  capability_ids = [];
  task_content = "write the tests";
  expected_outputs = [];
  depends_on = deps;
  priority = pos 0;
  timeout_ms = pos 60000;
  risk_level = "Low";
  reason = "";
}

abbrev plan : List TaskPlan → OrchestrationPlan
plan tasks = record {
  plan_id = "plan_1";
  run_id = "run_1";
  conversation_id = "c1";
  strategy = "sequential";
  tasks = tasks;
  participants =
      record { agent_name = "code-agent"; role = ""; required = true; selected = true; reason = "" }
      ∷ [];
}

abbrev two_steps : OrchestrationPlan
two_steps = plan (task "a" [] ∷ task "b" ("a" ∷ []) ∷ [])

unfoldable errors_of : OrchestrationPlan → List ValidationError
unfolding validate plan_errors duplicate_errors tasks_errors task_ids max_tasks atoi trim_space
    adapter resolve_url get lookup is_healthy map_text contains_url contains_secret contains_dsn
    contains_system_prompt has_depends_on check_dag_cycle build_graph task_index add_tasks add_deps
    ready kahn pop lower start insert
errors_of p = validate validator (some p)

two_steps_pass : validate validator (some two_steps) ≡ []
unfolding errors_of
two_steps_pass = refl

abbrev faulty : TaskPlan
faulty = record (task "b" ("c" ∷ [])) {
  agent_name = "web-agent";
  task_content = "use Token=abc";
  timeout_ms = pos 100;
}

second_refused :
    errors_of (plan (task "a" [] ∷ faulty ∷ []))
    ≡ in_task 1 (agent_not_found "web-agent")
      ∷ in_task 1 (unknown_dependency "c")
      ∷ in_task 1 (timeout_out_of_range (pos 100))
      ∷ in_task 1 secret
      ∷ []
unfolding errors_of
second_refused = refl

cycle_found :
    errors_of (plan (task "a" ("b" ∷ []) ∷ task "b" ("a" ∷ []) ∷ []))
    ≡ circular_dependency (0, 2) ∷ []
unfolding errors_of
cycle_found = refl

-- The ids are trimmed where they are looked up, and are not where the cycle is looked for.
padded_cycle_passes : errors_of (plan (task " a" ("b" ∷ []) ∷ task " b" ("a" ∷ []) ∷ [])) ≡ []
unfolding errors_of
padded_cycle_passes = refl

validate-IsAccepted_example :
    (validate validator (some two_steps) ≡ []) ↔ IsAccepted validator two_steps
validate-IsAccepted_example = validate-IsAccepted validator two_steps

validate-IsReady_example :
    All (IsReady resolver) two_steps.tasks
    × (is_some (topological_sort two_steps.tasks) ≡ true)
    × ResultInLayers two_steps.tasks (topological_sort two_steps.tasks)
validate-IsReady_example = validate-IsReady resolver validator refl two_steps two_steps_pass

abbrev path : PathAwareValidator
path = record {
  allowed_agents = "Code-Agent " ∷ [];
  execution_path = "single_chat";
  cases = ascii_cases;
}

inside : validate_path path (some two_steps) ≡ []
unfolding validate_path map_text trim_space Paths.name_errors Paths.validate_participants
inside = refl

outside :
    validate_path path (some (plan (task "a" [] ∷ faulty ∷ [])))
    ≡ Paths.in_task 1 (out_of_boundary "web-agent") ∷ []
unfolding validate_path map_text trim_space Paths.name_errors Paths.validate_participants
outside = refl

validate_path-KeepsBoundary_example :
    (validate_path path (some two_steps) ≡ []) ↔ KeepsBoundary path two_steps
validate_path-KeepsBoundary_example = validate_path-KeepsBoundary path two_steps
