-- ===== src/Executor/Run.antt =====
-- ExecuteStream of services/orchestrator/executor/dag_executor.go, for a plan that is validated and has
-- tasks, while its context is not cancelled. The tasks of a wave run at once, and none depends on
-- another of its wave, so what is done for one of them does not depend on the order.
use multi_agent_agent_hub.Prelude.{
  String, Bool, true, false, ◌&&◌, Option, none, some, List, [], ◌∷◌, str_eq, any, if◌then◌else◌,
}
use multi_agent_agent_hub.Prelude.Dict.{Dict, empty, insert}
use multi_agent_agent_hub.Dag.{TaskPlan}
use multi_agent_agent_hub.Executor.{topological_sort}

pub record UpstreamStore : Type 0 where
  pub m : Dict String
  pub failed : List String

unfoldable pub set_text : String → String → UpstreamStore → UpstreamStore
set_text id text s = record s { m = insert id text s.m }

unfoldable pub mark_failed : String → UpstreamStore → UpstreamStore
mark_failed id s = record s { failed = id ∷ s.failed }

unfoldable pub is_failed : String → UpstreamStore → Bool
is_failed id s = any (λ f. str_eq f id) s.failed

-- What became of a task: its agent was called, with the text or without, or it was skipped.
pub data Event : Type 0 where
  succeeded : TaskPlan → String → Event
  failed skipped : TaskPlan → Event

-- `log` holds what became of the tasks, the latest first.
pub record State : Type 0 where
  pub upstream : UpstreamStore
  pub log : List Event

abbrev pub first : State
first = record { upstream = record { m = empty; failed = [] }; log = [] }

-- The agent's answer to a task; the texts of the earlier tasks may go into its content.
abbrev pub Agents : Type 0
Agents = TaskPlan → Dict String → Option String

abbrev pub answered : Option String → TaskPlan → State → State
answered none t s = record s { upstream = mark_failed t.task_id s.upstream; log = failed t ∷ s.log }
answered (some text) t s = record s {
  upstream = set_text t.task_id text s.upstream;
  log = succeeded t text ∷ s.log;
}

unfoldable pub run_task : Agents → TaskPlan → State → State
unfolding set_text mark_failed is_failed
run_task agents t s =
    if any (λ dep. is_failed dep s.upstream) t.depends_on
    then record s { log = skipped t ∷ s.log }
    else answered (agents t s.upstream.m) t s

unfoldable pub run_wave : Agents → List TaskPlan → State → State
unfolding run_task
run_wave agents [] s = s
run_wave agents (t ∷ wave) s = run_wave agents wave (run_task agents t s)

unfoldable pub run_waves : Agents → List (List TaskPlan) → State → State
unfolding run_wave
run_waves agents [] s = s
run_waves agents (wave ∷ waves) s = run_waves agents waves (run_wave agents wave s)

abbrev pub is_success : Event → Bool
is_success (succeeded t text) = true
is_success (failed t) = false
is_success (skipped t) = false

unfoldable pub all_succeeded : List Event → Bool
all_succeeded [] = true
all_succeeded (e ∷ log) = is_success e && all_succeeded log

-- How a run ends: in an error of the plan, or with the status of the run and what became of the tasks.
pub data Finish : Type 0 where
  plan_invalid : Finish
  completed partial_failure : List Event → Finish

abbrev pub finished : List Event → Finish
finished log = if all_succeeded log then completed log else partial_failure log

abbrev pub after_sort : Agents → Option (List (List TaskPlan)) → Finish
after_sort agents none = plan_invalid
after_sort agents (some waves) = finished (run_waves agents waves first).log

unfoldable pub execute : Agents → List TaskPlan → Finish
unfolding topological_sort run_waves all_succeeded
execute agents tasks = after_sort agents (topological_sort tasks)
