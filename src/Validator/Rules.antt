-- ===== src/Validator/Rules.antt =====
-- The plans that PlanValidator of services/orchestrator/validator/validator.go accepts, by their rules.
pub mod Checks
mod Ids
mod Plan
mod Tasks
pub mod Accepts
use multi_agent_agent_hub.Prelude.{
  ℕ, suc, ◌≤◌, ◌<◌, ◌≡◌, ◌≢◌, ◌↔◌, ◌⊎◌, refl, sym, ap, ◌∙◌, subst, inl, inr, String, Bool, true,
  false, not, ◌&&◌, ◌||◌, Option, none, some, List, [], ◌∷◌, ◌++◌, length, any, ltb, ◌==◌, str_eq,
  eq_iff, if◌then◌else◌, Bool-cases, Option-cases, arith, All,
}
use multi_agent_agent_hub.Prelude.Int.{ℤ, pos, ltb_ℤ, ◌≤ℤ◌}
use multi_agent_agent_hub.Prelude.Text.{trim_space, to_lower, equal_fold}
use multi_agent_agent_hub.Dag.{TaskPlan, has_depends_on, check_dag_cycle}
use multi_agent_agent_hub.Dag.Counting.{edges}
use multi_agent_agent_hub.Dag.Acyclic.{check_dag_cycle-acyclic}
use multi_agent_agent_hub.Registry.{AgentEndpoint, Registry}
use multi_agent_agent_hub.Validator.Content.{
  contains_ci, contains_url, contains_secret, contains_dsn, contains_system_prompt,
}
use multi_agent_agent_hub.Validator.{
  OrchestrationPlan, TaskError, ValidationError, PlanValidator, is_blank, report, reports,
  max_tasks, is_known_strategy, strategy_single, strategy_ordered_parallel, strategy_conversational,
  contains_id, plan_checks, limit_checks, content_checks, plan_errors, task_ids, duplicate_errors,
  each, agent_errors, depends_on_errors, limit_errors, content_errors, task_errors, tasks_errors,
  then_cycle, validate, agent_name_required, agent_unhealthy, capability_not_supported,
  output_not_supported, in_place, endpoint_errors, registry_errors,
}

-- The level is one of three, and the highest waits for a human.
abbrev pub Risk : String → Bool → Type 0
Risk level hitl = (level ≡ "low") ⊎ (level ≡ "medium") ⊎ ((level ≡ "high") × (hitl ≡ true))

-- Rules 1 to 8: all but a conversational plan has tasks, as many as its strategy needs and no more than
-- the limit.
pub record IsNamed (v : PlanValidator) (p : OrchestrationPlan) : Type 0 where
  pub plan_id : is_blank p.plan_id ≡ false
  pub run_id : is_blank p.run_id ≡ false
  pub conversation_id : is_blank p.conversation_id ≡ false
  pub strategy : is_known_strategy p.strategy ≡ true
  pub some_tasks : str_eq p.strategy strategy_conversational ≡ false → 1 ≤ length p.tasks
  pub within_limit :
      str_eq p.strategy strategy_conversational ≡ false
      → pos (length p.tasks) ≤ℤ max_tasks v.max_tasks_variable
  pub single : str_eq p.strategy strategy_single ≡ true → length p.tasks ≡ 1
  pub parallel : str_eq p.strategy strategy_ordered_parallel ≡ true → 2 ≤ length p.tasks

-- A task's agent is registered and healthy, and offers what the task asks of it.
pub record IsServed (v : PlanValidator) (reg : Registry) (t : TaskPlan) : Type 0 where
  pub agent : AgentEndpoint
  pub found : reg.get (trim_space t.agent_name) ≡ some agent
  pub healthy : reg.is_healthy (trim_space t.agent_name) ≡ true
  pub capable : All (λ cid. contains_ci v.cases agent.capability_ids cid ≡ true) t.capability_ids
  pub outputs : All (λ eo. contains_ci v.cases agent.output_types eo ≡ true) t.expected_outputs

abbrev pub Served : PlanValidator → Option Registry → TaskPlan → Type 0
Served v none t = Unit {0}
Served v (some reg) t = IsServed v reg t

-- Some task has the id, which is not blank.
abbrev pub has_task : List TaskPlan → String → Bool
has_task tasks id = any (λ t. not (is_blank t.task_id) && str_eq id (trim_space t.task_id)) tasks

-- Rules 9 to 17 for one task.
pub record IsAllowed (v : PlanValidator) (p : OrchestrationPlan) (t : TaskPlan) : Type 0 where
  pub task_id : is_blank t.task_id ≡ false
  pub agent_name : is_blank t.agent_name ≡ false
  pub served : Served v v.registry t
  pub known : All (λ dep. has_task p.tasks dep ≡ true) t.depends_on
  pub not_itself :
      All (λ dep. equal_fold v.cases (trim_space dep) (trim_space t.task_id) ≡ false) t.depends_on
  pub independent : str_eq p.strategy strategy_ordered_parallel ≡ true → t.depends_on ≡ []
  pub task_content : is_blank t.task_content ≡ false
  pub timeout : (pos 5000 ≤ℤ t.timeout_ms) × (t.timeout_ms ≤ℤ pos 180000)
  pub risk : Risk (to_lower v.cases (trim_space t.risk_level)) v.hitl_enabled
  pub no_url : contains_url v.cases t.task_content ≡ false
  pub no_secret : contains_secret v.cases t.task_content ≡ false
  pub no_dsn : contains_dsn v.cases t.task_content ≡ false
  pub no_system_prompt : contains_system_prompt v.cases t.task_content ≡ false

-- No two tasks have one id.
abbrev pub Distinct : List TaskPlan → Type 0
Distinct [] = Unit {0}
Distinct (t ∷ tasks) =
    (any (λ u. str_eq (trim_space u.task_id) (trim_space t.task_id)) tasks ≡ false) × Distinct tasks

pub record IsAccepted (v : PlanValidator) (p : OrchestrationPlan) : Type 0 where
  pub named : IsNamed v p
  pub distinct : Distinct p.tasks
  pub allowed : All (IsAllowed v p) p.tasks
  pub rank : ℕ → ℕ
  pub in_order : All (λ e. rank e.0 < rank e.1) (edges p.tasks)
