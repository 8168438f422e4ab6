-- ===== src/Validator/Rules/Tasks.antt =====
-- Rules 7a to 17 of services/orchestrator/validator/validator.go.
use multi_agent_agent_hub.Prelude.{
  ◌≡◌, ◌↔◌, refl, sym, subst, inl, inr, String, Bool, true, false, not, ◌&&◌, Option, none, some,
  [], str_eq, eq_iff, Bool-cases, Option-cases, arith, All,
}
use multi_agent_agent_hub.Prelude.Int.{pos, ◌≤ℤ◌}
use multi_agent_agent_hub.Prelude.Text.{trim_space, to_lower}
use multi_agent_agent_hub.Dag.{TaskPlan}
use multi_agent_agent_hub.Registry.{AgentEndpoint, Registry}
use multi_agent_agent_hub.Validator.Content.{contains_ci}
use multi_agent_agent_hub.Validator.{
  PlanValidator, is_blank, report, limit_checks, each, limit_errors, agent_unhealthy,
  capability_not_supported, output_not_supported, endpoint_errors, registry_errors,
}
use multi_agent_agent_hub.Validator.Rules.{Risk, Served}
use multi_agent_agent_hub.Validator.Rules.Checks.{
  cons-ne-nil, append-eq-nil, report-eq-nil, reports-eq-nil, not-eq-false, each-All,
}

checks-Risk :
    (level : String) (hitl : Bool)
    → (not (str_eq level "low") && not (str_eq level "medium") && not (str_eq level "high")) ≡ false
    → (str_eq level "high" && not hitl) ≡ false
    → Risk level hitl
checks-Risk level hitl h k = elim (Bool-cases (str_eq level "low")) [
  | inl low ↦ inl ((eq_iff level "low").0 low)
  | inr not_low ↦ elim (Bool-cases (str_eq level "medium")) [
    | inl medium ↦ inr (inl ((eq_iff level "medium").0 medium))
    | inr not_medium ↦ inr (
        inr (
          ground (arith, not_low, not_medium, eq_iff level "high"),
          ground (arith, not_low, not_medium),
        ))
  ]
]

abbrev RiskChecks : String → Bool → Type 0
RiskChecks level hitl =
    ((not (str_eq level "low") && not (str_eq level "medium") && not (str_eq level "high")) ≡ false)
    × ((str_eq level "high" && not hitl) ≡ false)

Risk-RiskChecks : (level : String) (hitl : Bool) → Risk level hitl → RiskChecks level hitl
Risk-RiskChecks level hitl (inl low) = subst (λ l. RiskChecks l hitl) (sym low) (refl, refl)
Risk-RiskChecks level hitl (inr (inl medium)) =
    subst (λ l. RiskChecks l hitl) (sym medium) (refl, refl)
Risk-RiskChecks level hitl (inr (inr (high, on))) =
    subst (λ l. RiskChecks l hitl) (sym high) (refl, rw on refl)

module _ (v : PlanValidator) (t : TaskPlan) where
  abbrev pub Limits : Type 0
  Limits =
      (is_blank t.task_content ≡ false)
      × ((pos 5000 ≤ℤ t.timeout_ms) × (t.timeout_ms ≤ℤ pos 180000))
      × Risk (to_lower v.cases (trim_space t.risk_level)) v.hitl_enabled

  pub limit_errors-Limits : (limit_errors v t ≡ []) ↔ Limits
  unfolding limit_errors
  limit_errors-Limits =
      let level = to_lower v.cases (trim_space t.risk_level) in
      let clear = reports-eq-nil (limit_checks v t) in
      (
        λ h.
            let all = clear.0 h in
            (
              all.0,
              ground (arith, all.1.0),
              checks-Risk level v.hitl_enabled all.1.1.0 all.1.1.1.0,
            ),
        λ n.
            let risk = Risk-RiskChecks level v.hitl_enabled n.2 in
            clear.1 (n.0, (ground (arith, n.1), (risk.0, (risk.1, tt)))),
      )

  abbrev pub Offered : Registry → AgentEndpoint → Type 0
  Offered reg agent =
      (reg.is_healthy (trim_space t.agent_name) ≡ true)
      × All (λ cid. contains_ci v.cases agent.capability_ids cid ≡ true) t.capability_ids
      × All (λ eo. contains_ci v.cases agent.output_types eo ≡ true) t.expected_outputs

  endpoint_errors-Offered :
      (reg : Registry) (agent : AgentEndpoint)
      → (endpoint_errors v reg (trim_space t.agent_name) t (some agent) ≡ []) ↔ Offered reg agent
  endpoint_errors-Offered reg agent =
      let name = trim_space t.agent_name in
      let health = report (not (reg.is_healthy name)) (agent_unhealthy name) in
      let caps =
        each-All (contains_ci v.cases agent.capability_ids)
          (λ cid. capability_not_supported cid name) t.capability_ids in
      let outs =
        each-All (contains_ci v.cases agent.output_types) (λ eo. output_not_supported eo name)
          t.expected_outputs in
      let well = report-eq-nil (not (reg.is_healthy name)) (agent_unhealthy name) in
      let split = append-eq-nil health _ in
      let split' = append-eq-nil (each _ _ t.capability_ids) _ in
      (
        λ h.
            let (here, rest) = split.0 h in
            let (c, o) = split'.0 rest in ((not-eq-false _).0 (well.0 here), caps.0 c, outs.0 o),
        λ s. split.1 (well.1 ((not-eq-false _).1 s.0), split'.1 (caps.1 s.1, outs.1 s.2)),
      )

  pub registry_errors-Served :
      (reg : Option Registry)
      → (registry_errors v reg (trim_space t.agent_name) t ≡ []) ↔ Served v reg t
  registry_errors-Served none = (λ h. tt, λ h. refl)
  registry_errors-Served (some reg) =
      let name = trim_space t.agent_name in
      let Errors = λ (o : Option AgentEndpoint). endpoint_errors v reg name t o ≡ [] in
      (
        λ h. elim (Option-cases (reg.get name)) [
          | inl missing ↦ absurd (cons-ne-nil (subst Errors missing h))
          | inr (a, e) ↦
              let offered = (endpoint_errors-Offered reg a).0 (subst Errors e h) in
              record {
                agent = a;
                found = e;
                healthy = offered.0;
                capable = offered.1;
                outputs = offered.2;
              }
        ],
        λ s.
            subst Errors (sym s.found)
              ((endpoint_errors-Offered reg s.agent).1 (s.healthy, s.capable, s.outputs)),
      )
