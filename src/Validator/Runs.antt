-- ===== src/Validator/Runs.antt =====
-- What the executors may rely on after services/orchestrator/validator/validator.go, in the orchestrator's
-- wiring of services/orchestrator/httpapi: the registry that the validator asks is the resolver that the
-- executors ask.
use multi_agent_agent_hub.Prelude.{
  ◌≡◌, refl, sym, ap, ◌∙◌, subst, String, true, Option, none, some, List, [], ◌∷◌, All,
}
use multi_agent_agent_hub.Prelude.Text.{trim_space, trim_space-again, Cases}
use multi_agent_agent_hub.Dag.{TaskPlan}
use multi_agent_agent_hub.Dag.Acyclic.{check_dag_cycle-acyclic}
use multi_agent_agent_hub.Executor.{topological_sort}
use multi_agent_agent_hub.Executor.Layers.{is_none, ResultInLayers, topological_sort-Layered}
use multi_agent_agent_hub.Executor.Dependencies.{is_some}
use multi_agent_agent_hub.Registry.{AgentEndpoint}
use multi_agent_agent_hub.Registry.Store.{AgentStore}
use multi_agent_agent_hub.Registry.Agents.{Result, ok, err}
use multi_agent_agent_hub.Registry.Resolver.{
  DispatchResolver, resolve_url, adapter, url_endpoint, has_url,
}
use multi_agent_agent_hub.Validator.{OrchestrationPlan, PlanValidator, validate}
use multi_agent_agent_hub.Validator.Content.{contains_ci}
use multi_agent_agent_hub.Validator.Rules.{IsAllowed, IsServed, Served}
use multi_agent_agent_hub.Validator.Rules.Checks.{All-map}
use multi_agent_agent_hub.Validator.Rules.Accepts.{validate-IsAccepted}

-- Only the empty list is contained in no capabilities.
nothing_offered :
    (cases : Cases) (items : List String)
    → All (λ i. contains_ci cases [] i ≡ true) items
    → items ≡ []
unfolding contains_ci
nothing_offered cases [] h = refl
nothing_offered cases (i ∷ items) h = absurd (cc)

some_injective {ℓ} : {A : Type ℓ} {x y : A} → some x ≡ some y → x ≡ y
some_injective h = cc

module _ {S : AgentStore} (r : DispatchResolver S) where
  resolve_url-trim : (name : String) → resolve_url r (trim_space name) ≡ resolve_url r name
  unfolding resolve_url
  resolve_url-trim name = rw (trim_space-again name) refl

  -- What an accepted task may count on.
  pub record IsReady (t : TaskPlan) : Type 0 where
    pub resolves : has_url (resolve_url r t.agent_name) ≡ true
    pub no_capabilities : t.capability_ids ≡ []
    pub no_outputs : t.expected_outputs ≡ []

  module _ (v : PlanValidator) (wired : v.registry ≡ some (adapter r)) where
    endpoint_empty :
        (name : String) (m : Result (Option String)) (a : AgentEndpoint)
        → url_endpoint name m ≡ some a
        → (a.capability_ids ≡ []) × (a.output_types ≡ [])
    endpoint_empty name (ok (some url)) a h =
        let same = some_injective h in
        (sym (ap (λ x. x.capability_ids) same), sym (ap (λ x. x.output_types) same))
    endpoint_empty name (ok none) a h = absurd (cc)
    endpoint_empty name (err e) a h = absurd (cc)

    served-IsReady : (t : TaskPlan) → IsServed v (adapter r) t → IsReady t
    unfolding adapter
    served-IsReady t s =
        let blank = endpoint_empty (trim_space t.agent_name) _ s.agent s.found in
        record {
          resolves = sym (ap has_url (resolve_url-trim t.agent_name)) ∙ s.healthy;
          no_capabilities = nothing_offered v.cases t.capability_ids (
              subst (λ l. All (λ i. contains_ci v.cases l i ≡ true) t.capability_ids) blank.0
                s.capable);
          no_outputs = nothing_offered v.cases t.expected_outputs (
              subst (λ l. All (λ i. contains_ci v.cases l i ≡ true) t.expected_outputs) blank.1
                s.outputs);
        }

    -- For a validator that asks the resolver's adapter and a plan that passes validation: each task's
    -- agent resolves to a URL, no task asks for a capability or a type of output, and the
    -- executor's sort of the tasks succeeds, with waves in which each dependency of a task that is
    -- an id of the plan is the id of a task in an earlier wave.
    pub validate-IsReady :
        (p : OrchestrationPlan)
        → validate v (some p) ≡ []
        → All IsReady p.tasks
          × (is_some (topological_sort p.tasks) ≡ true)
          × ResultInLayers p.tasks (topological_sort p.tasks)
    validate-IsReady p h =
        let a = (validate-IsAccepted v p).0 h in
        let acyclic = (check_dag_cycle-acyclic p.tasks).1 (a.rank, a.in_order) in
        (
          All-map (IsAllowed v p) IsReady
              (λ t k. served-IsReady t (subst (λ reg. Served v reg t) wired k.served)) p.tasks
              a.allowed,
          (topological_sort-Layered p.tasks).0 ∙ ap is_none acyclic,
          (topological_sort-Layered p.tasks).1,
        )
