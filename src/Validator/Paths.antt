-- ===== src/Validator/Paths.antt =====
-- PathAwareValidator of services/orchestrator/validator/path_validator.go. The codes of its errors are the
-- constructors; the fields that name a task or a participant by its place carry the place.
pub mod Boundary
use multi_agent_agent_hub.Prelude.{
  ℕ, suc, String, Bool, true, false, not, ◌&&◌, Option, none, some, List, [], ◌∷◌, ◌++◌, map,
  length, any, ltb, ◌==◌, str_eq, if◌then◌else◌,
}
use multi_agent_agent_hub.Prelude.Text.{trim_space, Cases, to_lower}
use multi_agent_agent_hub.Dag.{TaskPlan}
use multi_agent_agent_hub.Validator.{
  OrchestrationPlan, PlanParticipant, report, reports, is_blank, is_known_strategy,
  strategy_conversational,
}

pub data NameError : Type 0 where
  empty_agent : NameError
  out_of_boundary : String → NameError

pub data PathError : Type 0 where
  plan_is_nil missing_steps : PathError
  in_task in_participant : ℕ → NameError → PathError
  missing_participants : Bool → PathError
  single_chat_too_many : ℕ → PathError
  single_chat_wrong_agent : String → PathError
  group_chat_no_participants auto_no_participants : PathError

pub data PathWarning : Type 0 where
  strategy_missing : PathWarning
  strategy_unknown : String → PathWarning

pub record PathAwareValidator : Type 0 where
  pub allowed_agents : List String
  pub execution_path : String
  pub cases : Cases

-- The form in which names are compared.
abbrev pub key : PathAwareValidator → String → String
key v name = to_lower v.cases (trim_space name)

abbrev pub allowed_set : PathAwareValidator → List String
allowed_set v = map (key v) v.allowed_agents

abbrev pub in_set : PathAwareValidator → String → Bool
in_set v name = any (str_eq (key v name)) (allowed_set v)

abbrev pub is_empty : List String → Bool
is_empty [] = true
is_empty (s ∷ rest) = false

abbrev pub name_checks : PathAwareValidator → String → List (Bool × NameError)
name_checks v name =
    let blank = str_eq (key v name) "" in
    (blank, empty_agent)
    ∷ (not blank && not (is_empty (allowed_set v)) && not (in_set v name), out_of_boundary name)
    ∷ []

-- The errors of the names, the first of which stands at place `i`.
unfoldable pub name_errors :
    PathAwareValidator → (ℕ → NameError → PathError) → ℕ → List String → List PathError
unfolding reports
name_errors v place i [] = []
name_errors v place i (name ∷ names) =
    map (place i) (reports (name_checks v name)) ++ name_errors v place (suc i) names

abbrev pub task_names : OrchestrationPlan → List String
task_names p = map (λ t. t.agent_name) p.tasks

abbrev pub participant_names : OrchestrationPlan → List String
participant_names p = map (λ part. part.agent_name) p.participants

unfoldable pub wrong_agents : PathAwareValidator → List String → List PathError
wrong_agents v [] = []
wrong_agents v (name ∷ names) =
    report (not (in_set v name)) (single_chat_wrong_agent name) ++ wrong_agents v names

-- The rules 4b to 4e, where there are participants or the plan is conversational.
abbrev pub participant_errors : PathAwareValidator → OrchestrationPlan → List PathError
participant_errors v p =
    let n = length p.participants in
    let single = str_eq v.execution_path "single_chat" in
    let talk = str_eq p.strategy strategy_conversational in
    let auto = str_eq v.execution_path "main_agent_orchestration" in
    name_errors v in_participant 0 (participant_names p)
    ++ (report (single && ltb 1 n) (single_chat_too_many n)
        ++ ((if single && length v.allowed_agents == 1
              then wrong_agents v (participant_names p)
              else [])
            ++ (report (str_eq v.execution_path "group_chat" && not talk && n == 0)
                  group_chat_no_participants
                ++ report (auto && not talk && n == 0) auto_no_participants)))

unfoldable pub validate_participants : PathAwareValidator → OrchestrationPlan → List PathError
unfolding name_errors wrong_agents
validate_participants v p =
    if not (str_eq p.strategy strategy_conversational) && length p.participants == 0
    then missing_participants (any (λ name. not (is_blank name)) (task_names p)) ∷ []
    else participant_errors v p

unfoldable pub warnings : OrchestrationPlan → List PathWarning
warnings p =
    if is_blank p.strategy
    then strategy_missing ∷ []
    else report (not (is_known_strategy p.strategy)) (strategy_unknown p.strategy)

-- The errors of a plan; the result is valid where there are none, whatever the warnings.
unfoldable pub validate_path : PathAwareValidator → Option OrchestrationPlan → List PathError
validate_path v none = plan_is_nil ∷ []
validate_path v (some p) =
    report (not (str_eq p.strategy strategy_conversational) && length p.tasks == 0) missing_steps
    ++ (name_errors v in_task 0 (task_names p) ++ validate_participants v p)
