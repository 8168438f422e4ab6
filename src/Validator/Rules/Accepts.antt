-- ===== src/Validator/Rules/Accepts.antt =====
-- services/orchestrator/validator/validator.go: the validator accepts exactly the plans that keep its rules.
use multi_agent_agent_hub.Prelude.{
  ℕ, suc, ◌<◌, ◌≡◌, ◌↔◌, refl, sym, ◌∙◌, subst, inl, inr, String, Bool, true, false, not, ◌&&◌,
  Option, none, some, List, [], ◌∷◌, ◌++◌, str_eq, if◌then◌else◌, Bool-cases, All,
}
use multi_agent_agent_hub.Prelude.Text.{trim_space, equal_fold}
use multi_agent_agent_hub.Prelude.Dict.{Dict, empty}
use multi_agent_agent_hub.Dag.{TaskPlan, task_index, has_deps, has_depends_on, check_dag_cycle}
use multi_agent_agent_hub.Dag.Counting.{edges, edges_from, edges_to}
use multi_agent_agent_hub.Dag.Acyclic.{check_dag_cycle-acyclic}
use multi_agent_agent_hub.Validator.{
  OrchestrationPlan, TaskError, ValidationError, PlanValidator, is_blank, report,
  strategy_ordered_parallel, contains_id, content_checks, plan_errors, task_ids, duplicate_errors,
  each, agent_errors, depends_on_errors, limit_errors, content_errors, task_errors, tasks_errors,
  then_cycle, validate, agent_name_required, unknown_dependency, depends_on_itself,
  depends_on_in_parallel, is_nil, task_id_required, cycle_error, in_place,
}
use multi_agent_agent_hub.Validator.Rules.{Served, has_task, IsAllowed, Distinct, IsAccepted}
use multi_agent_agent_hub.Validator.Rules.Checks.{
  cons-ne-nil, append-eq-nil, report-eq-nil, each-eq-nil, All-map, reports-eq-nil, cons_if-nil,
  each-All,
}
use multi_agent_agent_hub.Validator.Rules.Ids.{contains_id-task_ids, duplicate_errors-Distinct}
use multi_agent_agent_hub.Validator.Rules.Plan.{plan_errors-IsNamed}
use multi_agent_agent_hub.Validator.Rules.Tasks.{limit_errors-Limits, registry_errors-Served}

none-Independent :
    (b : Bool) (deps : List String) → ((b && not (is_nil deps)) ≡ false) ↔ (b ≡ true → deps ≡ [])
none-Independent false deps = (λ h k. cc, λ h. refl)
none-Independent true [] = (λ h k. refl, λ h. refl)
none-Independent true (d ∷ deps) = (λ h. cc, λ h. absurd (cons-ne-nil (h refl)))

agent_errors-Served :
    (v : PlanValidator) (t : TaskPlan)
    → (agent_errors v t ≡ []) ↔ ((is_blank t.agent_name ≡ false) × Served v v.registry t)
unfolding agent_errors
agent_errors-Served v t =
    let branch = cons_if-nil (is_blank t.agent_name) agent_name_required _ in
    let reg = registry_errors-Served v t v.registry in
    (λ h. ((branch.0 h).0, reg.0 (branch.0 h).1), λ s. branch.1 (s.0, reg.1 s.1))

module _ (v : PlanValidator) (p : OrchestrationPlan) (t : TaskPlan) where
  abbrev Dependent : List String → Type 0
  Dependent ids =
      All (λ dep. contains_id dep ids ≡ true) t.depends_on
      × All (λ dep. equal_fold v.cases (trim_space dep) (trim_space t.task_id) ≡ false) t.depends_on
      × (str_eq p.strategy strategy_ordered_parallel ≡ true → t.depends_on ≡ [])

  depends_on_errors-Dependent :
      (ids : List String) → (depends_on_errors v p ids t ≡ []) ↔ Dependent ids
  unfolding depends_on_errors
  depends_on_errors-Dependent ids =
      let id = trim_space t.task_id in
      let known = each-All (λ dep. contains_id dep ids) unknown_dependency t.depends_on in
      let other =
        each-eq-nil (λ dep. equal_fold v.cases (trim_space dep) id) (λ dep. depends_on_itself id)
          t.depends_on in
      let apart = none-Independent (str_eq p.strategy strategy_ordered_parallel) t.depends_on in
      let last =
        report-eq-nil (str_eq p.strategy strategy_ordered_parallel && not (is_nil t.depends_on))
          depends_on_in_parallel in
      let split = append-eq-nil (each _ unknown_dependency t.depends_on) _ in
      let split' = append-eq-nil (each _ (λ dep. depends_on_itself id) t.depends_on) _ in
      (
        λ h.
            let (k, rest) = split.0 h in
            let (o, l) = split'.0 rest in (known.0 k, other.0 o, (apart.0 (last.0 l))),
        λ d. split.1 (known.1 d.0, split'.1 (other.1 d.1, last.1 (apart.1 d.2))),
      )

  task_errors-IsAllowed : (task_errors v p (task_ids [] p.tasks) t ≡ []) ↔ IsAllowed v p t
  unfolding task_errors content_errors
  task_errors-IsAllowed =
      let ids = task_ids [] p.tasks in
      let own = append-eq-nil (report (is_blank t.task_id) task_id_required) _ in
      let agent = append-eq-nil (agent_errors v t) _ in
      let depends = append-eq-nil (depends_on_errors v p ids t) _ in
      let limits = append-eq-nil (limit_errors v t) _ in
      let named = report-eq-nil (is_blank t.task_id) task_id_required in
      let served = agent_errors-Served v t in
      let dependent = depends_on_errors-Dependent ids in
      let limited = limit_errors-Limits v t in
      let clean = reports-eq-nil (content_checks v t) in
      (
        λ h.
            let (a, h1) = own.0 h in
            let (b, h2) = agent.0 h1 in
            let (c, h3) = depends.0 h2 in
            let (d, e) = limits.0 h3 in
            let s = served.0 b in
            let dep = dependent.0 c in
            let l = limited.0 d in
            let content = clean.0 e in
            record {
              task_id = named.0 a;
              agent_name = s.0;
              served = s.1;
              known =
                  All-map _ (λ i. has_task p.tasks i ≡ true)
                    (λ i k. sym (contains_id-task_ids i [] p.tasks) ∙ k) t.depends_on dep.0;
              not_itself = dep.1;
              independent = dep.2;
              task_content = l.0;
              timeout = l.1;
              risk = l.2;
              no_url = content.0;
              no_secret = content.1.0;
              no_dsn = content.1.1.0;
              no_system_prompt = content.1.1.1.0;
            },
        λ a.
            let known =
              All-map _ (λ i. contains_id i ids ≡ true)
                (λ i k. contains_id-task_ids i [] p.tasks ∙ k) t.depends_on a.known in
            own.1 (
              named.1 a.task_id,
              agent.1 (
                served.1 (a.agent_name, a.served),
                depends.1 (
                  dependent.1 (known, a.not_itself, a.independent),
                  limits.1 (
                    limited.1 (a.task_content, a.timeout, a.risk),
                    clean.1 (a.no_url, (a.no_secret, (a.no_dsn, (a.no_system_prompt, tt)))),
                  ),
                ),
              ),
            ),
      )

in_place-eq-nil : (i : ℕ) (errors : List TaskError) → (in_place i errors ≡ []) ↔ (errors ≡ [])
in_place-eq-nil i [] = (λ h. refl, λ h. refl)
in_place-eq-nil i (e ∷ errors) = (λ h. absurd (cons-ne-nil h), λ h. absurd (cons-ne-nil h))

tasks_errors-All :
    (v : PlanValidator) (p : OrchestrationPlan) (i : ℕ) (tasks : List TaskPlan)
    → (tasks_errors v p (task_ids [] p.tasks) i tasks ≡ []) ↔ All (IsAllowed v p) tasks
unfolding tasks_errors
tasks_errors-All v p i [] = (λ h. tt, λ h. refl)
tasks_errors-All v p i (t ∷ tasks) =
    let errors = task_errors v p (task_ids [] p.tasks) t in
    let split = append-eq-nil (in_place i errors) _ in
    let rest = tasks_errors-All v p (suc i) tasks in
    let own = task_errors-IsAllowed v p t in
    let placed = in_place-eq-nil i errors in
    (
      λ h. (own.0 (placed.0 (split.0 h).0), rest.0 (split.0 h).1),
      λ h. split.1 (placed.1 (own.1 h.0), rest.1 h.1),
    )

-- Tasks that depend on nothing have no edges.
no_deps-no_edges :
    (index : Dict ℕ) (i : ℕ) (tasks : List TaskPlan)
    → has_depends_on tasks ≡ false
    → edges_from index i tasks ≡ []
unfolding has_depends_on
no_deps-no_edges index i [] h = refl
no_deps-no_edges index i (t ∷ tasks) h =
    elim t.depends_on
        as (λ deps.
          (if has_deps deps then true else has_depends_on tasks) ≡ false
          → edges_to index i deps ++ edges_from index (suc i) tasks ≡ []) [
            | [] ↦ λ k. no_deps-no_edges index (suc i) tasks k
            | d ∷ deps ↦ λ k. absurd (cc)
          ]
      h

no_deps-no_cycle :
    (tasks : List TaskPlan) → has_depends_on tasks ≡ false → check_dag_cycle tasks ≡ none
unfolding edges
no_deps-no_cycle tasks h =
    let none_at_all = no_deps-no_edges (task_index 0 tasks empty) 0 tasks h in
    (check_dag_cycle-acyclic tasks).1
      (λ v. 0, subst (λ es. All (λ e. 0 < 0) es) (sym none_at_all) tt)

cycle_error-eq-nil : (o : Option (ℕ × ℕ)) → (cycle_error o ≡ []) ↔ (o ≡ none)
cycle_error-eq-nil none = (λ h. refl, λ h. refl)
cycle_error-eq-nil (some e) = (λ h. absurd (cons-ne-nil h), λ h. cc)

then_cycle-eq-nil :
    (tasks : List TaskPlan) (errors : List ValidationError)
    → (then_cycle tasks errors ≡ []) ↔ ((errors ≡ []) × (check_dag_cycle tasks ≡ none))
then_cycle-eq-nil tasks (e ∷ errors) = (λ h. absurd (cons-ne-nil h), λ h. absurd (cons-ne-nil h.0))
then_cycle-eq-nil tasks [] = elim (Bool-cases (has_depends_on tasks)) [
  | inl some_deps ↦
      rw some_deps (λ h. (refl, (cycle_error-eq-nil _).0 h), λ h. (cycle_error-eq-nil _).1 h.1)
  | inr no_deps ↦ rw no_deps (λ h. (refl, no_deps-no_cycle tasks no_deps), λ h. refl)
]

module _ (v : PlanValidator) (p : OrchestrationPlan) where
  ids_differ : All (IsAllowed v p) p.tasks → (duplicate_errors [] p.tasks ≡ []) ↔ Distinct p.tasks
  ids_differ allowed =
      let named = All-map (IsAllowed v p) _ (λ t a. a.task_id) p.tasks allowed in
      let ids = duplicate_errors-Distinct [] p.tasks named in
      (λ h. (ids.0 h).1, λ d. ids.1 (All-map (IsAllowed v p) _ (λ t a. refl) p.tasks allowed, d))

  -- For any validator and plan, validation finds no error exactly if the plan keeps every rule: its ids
  -- and its strategy, the number of its tasks, distinct task ids, for each task a healthy agent that
  -- offers what the task asks for, known dependencies, the bounds of the timeout, the level of risk
  -- and the content, and an order of the tasks in which each comes after those it depends on.
  pub validate-IsAccepted : (validate v (some p) ≡ []) ↔ IsAccepted v p
  unfolding validate
  validate-IsAccepted =
      let cycle = then_cycle-eq-nil p.tasks _ in
      let plan = append-eq-nil (plan_errors v p) _ in
      let ids = append-eq-nil (duplicate_errors [] p.tasks) _ in
      let named = plan_errors-IsNamed v p in
      let allowed = tasks_errors-All v p 0 p.tasks in
      let acyclic = check_dag_cycle-acyclic p.tasks in
      (
        λ h.
            let (fine, ordered) = cycle.0 h in
            let (a, rest) = plan.0 fine in
            let (b, c) = ids.0 rest in
            let tasks = allowed.0 c in
            let rank = acyclic.0 ordered in
            record {
              named = named.0 a;
              distinct = (ids_differ tasks).0 b;
              allowed = tasks;
              rank = rank.0;
              in_order = rank.1;
            },
        λ a. cycle.1 (
          plan.1
              (named.1 a.named, ids.1 ((ids_differ a.allowed).1 a.distinct, allowed.1 a.allowed)),
          acyclic.1 (a.rank, a.in_order),
        ),
      )
