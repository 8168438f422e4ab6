-- ===== src/Validator.antt =====
-- PlanValidator of services/orchestrator/validator/validator.go, on the plans of plan/types.go. An error
-- is a constructor for each message with what the message shows; the fields that name a task by its
-- place carry the place. The environment variables and the tables of Unicode are arguments.
pub mod Content
pub mod Rules
pub mod Paths
pub mod Runs
pub mod Scan
mod Tests
use multi_agent_agent_hub.Prelude.{
  ℕ, suc, String, Bool, true, false, not, ◌&&◌, ◌||◌, Option, none, some, List, [], ◌∷◌, ◌++◌,
  length, any, ltb, ◌==◌, str_eq, if◌then◌else◌,
}
use multi_agent_agent_hub.Prelude.Int.{ℤ, pos, ltb_ℤ}
use multi_agent_agent_hub.Prelude.Text.{trim_space, Cases, to_lower, equal_fold, atoi}
use multi_agent_agent_hub.Dag.{TaskPlan, has_depends_on, check_dag_cycle}
use multi_agent_agent_hub.Registry.{AgentEndpoint, Registry}
use multi_agent_agent_hub.Validator.Content.{
  contains_ci, contains_url, contains_secret, contains_dsn, contains_system_prompt,
}

pub record PlanParticipant : Type 0 where
  pub agent_name : String
  pub role : String
  pub required : Bool
  pub selected : Bool
  pub reason : String

-- The fields of a plan that the validators read.
pub record OrchestrationPlan : Type 0 where
  pub plan_id : String
  pub run_id : String
  pub conversation_id : String
  pub strategy : String
  pub tasks : List TaskPlan
  pub participants : List PlanParticipant

abbrev pub strategy_single : String
strategy_single = "single"

abbrev pub strategy_ordered_parallel : String
strategy_ordered_parallel = "ordered_parallel"

abbrev pub strategy_sequential : String
strategy_sequential = "sequential"

abbrev pub strategy_conversational : String
strategy_conversational = "conversational"

pub data TaskError : Type 0 where
  task_id_required agent_name_required : TaskError
  agent_not_found agent_unhealthy : String → TaskError
  capability_not_supported output_not_supported : String → String → TaskError
  unknown_dependency depends_on_itself : String → TaskError
  depends_on_in_parallel task_content_empty : TaskError
  timeout_out_of_range : ℤ → TaskError
  risk_level_unknown : String → TaskError
  high_risk internal_url secret connection_string system_prompt : TaskError

pub data ValidationError : Type 0 where
  plan_is_nil plan_id_required run_id_required conversation_id_required : ValidationError
  strategy_unknown : String → ValidationError
  tasks_empty : ValidationError
  too_many_tasks : ℤ → ℕ → ValidationError
  not_one_task not_two_tasks : ℕ → ValidationError
  duplicate_task_id : String → ValidationError
  in_task : ℕ → TaskError → ValidationError
  circular_dependency : ℕ × ℕ → ValidationError

-- `hitl_enabled` is set by New, and `max_tasks_variable` is the text of ORCHESTRATOR_MAX_TASKS.
pub record PlanValidator : Type 0 where
  pub registry : Option Registry
  pub hitl_enabled : Bool
  pub max_tasks_variable : String
  pub cases : Cases

unfoldable pub new : Option Registry → String → String → Cases → PlanValidator
new registry hitl_variable max_tasks_variable cases = record {
  registry = registry;
  hitl_enabled = str_eq (to_lower cases (trim_space hitl_variable)) "true";
  max_tasks_variable = max_tasks_variable;
  cases = cases;
}

abbrev pub is_blank : String → Bool
is_blank s = str_eq (trim_space s) ""

-- The error, if the condition holds.
abbrev pub report {ℓ} : {A : Type ℓ} → Bool → A → List A
report b e = if b then e ∷ [] else []

-- The errors whose conditions hold, in order.
unfoldable pub reports {ℓ} : {A : Type ℓ} → List (Bool × A) → List A
reports [] = []
reports ((b, e) ∷ checks) = report b e ++ reports checks

abbrev at_least_one : Option ℤ → ℤ
at_least_one none = pos 5
at_least_one (some n) = if ltb_ℤ n (pos 1) then pos 5 else n

unfoldable pub max_tasks : String → ℤ
max_tasks variable = at_least_one (atoi (trim_space variable))

abbrev pub is_known_strategy : String → Bool
is_known_strategy s =
    str_eq s strategy_single
    || str_eq s strategy_ordered_parallel
    || str_eq s strategy_sequential
    || str_eq s strategy_conversational

-- Rules 1 to 8, on the plan as a whole.
abbrev pub plan_checks : PlanValidator → OrchestrationPlan → List (Bool × ValidationError)
plan_checks v p =
    let n = length p.tasks in
    let talk = str_eq p.strategy strategy_conversational in
    let limit = max_tasks v.max_tasks_variable in
    (is_blank p.plan_id, plan_id_required)
    ∷ (is_blank p.run_id, run_id_required)
    ∷ (is_blank p.conversation_id, conversation_id_required)
    ∷ (not (is_known_strategy p.strategy), strategy_unknown p.strategy)
    ∷ (not talk && n == 0, tasks_empty)
    ∷ (not talk && ltb_ℤ limit (pos n), too_many_tasks limit n)
    ∷ (not talk && str_eq p.strategy strategy_single && not (n == 1), not_one_task n)
    ∷ (not talk && str_eq p.strategy strategy_ordered_parallel && ltb n 2, not_two_tasks n)
    ∷ []

unfoldable pub plan_errors : PlanValidator → OrchestrationPlan → List ValidationError
unfolding reports
plan_errors v p = reports (plan_checks v p)

abbrev pub contains_id : String → List String → Bool
contains_id id ids = any (str_eq id) ids

-- An id that is not blank joins the set.
abbrev pub add_id : TaskPlan → List String → List String
add_id t seen = if is_blank t.task_id then seen else trim_space t.task_id ∷ seen

unfoldable pub task_ids : List String → List TaskPlan → List String
task_ids seen [] = seen
task_ids seen (t ∷ tasks) = task_ids (add_id t seen) tasks

unfoldable pub duplicate_errors : List String → List TaskPlan → List ValidationError
duplicate_errors seen [] = []
duplicate_errors seen (t ∷ tasks) =
    let id = trim_space t.task_id in
    report (not (is_blank t.task_id) && contains_id id seen) (duplicate_task_id id)
    ++ duplicate_errors (add_id t seen) tasks

-- The errors of the elements that fail a test.
unfoldable pub each : (String → Bool) → (String → TaskError) → List String → List TaskError
each fails error [] = []
each fails error (s ∷ rest) = report (fails s) (error s) ++ each fails error rest

-- Rules 7a to 9, for an agent that the registry may know.
abbrev pub endpoint_errors :
    PlanValidator → Registry → String → TaskPlan → Option AgentEndpoint → List TaskError
endpoint_errors v reg name t none = agent_not_found name ∷ []
endpoint_errors v reg name t (some agent) =
    report (not (reg.is_healthy name)) (agent_unhealthy name)
    ++ (each (λ cid. not (contains_ci v.cases agent.capability_ids cid))
          (λ cid. capability_not_supported cid name) t.capability_ids
        ++ each (λ eo. not (contains_ci v.cases agent.output_types eo))
            (λ eo. output_not_supported eo name) t.expected_outputs)

abbrev pub registry_errors : PlanValidator → Option Registry → String → TaskPlan → List TaskError
registry_errors v none name t = []
registry_errors v (some reg) name t = endpoint_errors v reg name t (reg.get name)

unfoldable pub agent_errors : PlanValidator → TaskPlan → List TaskError
unfolding each
agent_errors v t =
    if is_blank t.agent_name
    then agent_name_required ∷ []
    else registry_errors v v.registry (trim_space t.agent_name) t

abbrev pub is_nil : List String → Bool
is_nil [] = true
is_nil (s ∷ rest) = false

-- Rules 10 to 10b.
unfoldable pub depends_on_errors :
    PlanValidator → OrchestrationPlan → List String → TaskPlan → List TaskError
unfolding each
depends_on_errors v p ids t =
    let id = trim_space t.task_id in
    each (λ dep. not (contains_id dep ids)) unknown_dependency t.depends_on
    ++ (each (λ dep. equal_fold v.cases (trim_space dep) id) (λ dep. depends_on_itself id)
          t.depends_on
        ++ report (str_eq p.strategy strategy_ordered_parallel && not (is_nil t.depends_on))
            depends_on_in_parallel)

-- Rules 10c to 13.
abbrev pub limit_checks : PlanValidator → TaskPlan → List (Bool × TaskError)
limit_checks v t =
    let level = to_lower v.cases (trim_space t.risk_level) in
    (is_blank t.task_content, task_content_empty)
    ∷ (
      ltb_ℤ t.timeout_ms (pos 5000) || ltb_ℤ (pos 180000) t.timeout_ms,
      timeout_out_of_range t.timeout_ms,
    )
    ∷ (
      not (str_eq level "low") && not (str_eq level "medium") && not (str_eq level "high"),
      risk_level_unknown t.risk_level,
    )
    ∷ (str_eq level "high" && not v.hitl_enabled, high_risk)
    ∷ []

unfoldable pub limit_errors : PlanValidator → TaskPlan → List TaskError
unfolding reports
limit_errors v t = reports (limit_checks v t)

-- Rules 14 to 17.
abbrev pub content_checks : PlanValidator → TaskPlan → List (Bool × TaskError)
content_checks v t =
    (contains_url v.cases t.task_content, internal_url)
    ∷ (contains_secret v.cases t.task_content, secret)
    ∷ (contains_dsn v.cases t.task_content, connection_string)
    ∷ (contains_system_prompt v.cases t.task_content, system_prompt)
    ∷ []

unfoldable pub content_errors : PlanValidator → TaskPlan → List TaskError
unfolding reports
content_errors v t = reports (content_checks v t)

unfoldable pub task_errors :
    PlanValidator → OrchestrationPlan → List String → TaskPlan → List TaskError
unfolding agent_errors depends_on_errors limit_errors content_errors
task_errors v p ids t =
    report (is_blank t.task_id) task_id_required
    ++ (agent_errors v t
        ++ (depends_on_errors v p ids t ++ (limit_errors v t ++ content_errors v t)))

abbrev pub in_place : ℕ → List TaskError → List ValidationError
in_place i [] = []
in_place i (e ∷ errors) = in_task i e ∷ in_place i errors

unfoldable pub tasks_errors :
    PlanValidator → OrchestrationPlan → List String → ℕ → List TaskPlan → List ValidationError
unfolding task_errors
tasks_errors v p ids i [] = []
tasks_errors v p ids i (t ∷ tasks) =
    in_place i (task_errors v p ids t) ++ tasks_errors v p ids (suc i) tasks

abbrev pub cycle_error : Option (ℕ × ℕ) → List ValidationError
cycle_error none = []
cycle_error (some found) = circular_dependency found ∷ []

-- Rule 18, after no error only.
abbrev pub then_cycle : List TaskPlan → List ValidationError → List ValidationError
then_cycle tasks [] = if has_depends_on tasks then cycle_error (check_dag_cycle tasks) else []
then_cycle tasks (e ∷ errors) = e ∷ errors

-- The errors of a plan; the result is valid where there are none.
unfoldable pub validate : PlanValidator → Option OrchestrationPlan → List ValidationError
validate v none = plan_is_nil ∷ []
validate v (some p) =
    let ids = task_ids [] p.tasks in
    then_cycle p.tasks
      (plan_errors v p ++ (duplicate_errors [] p.tasks ++ tasks_errors v p ids 0 p.tasks))
