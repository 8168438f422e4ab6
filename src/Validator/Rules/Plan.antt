-- ===== src/Validator/Rules/Plan.antt =====
-- Rules 1 to 8 of services/orchestrator/validator/validator.go.
use multi_agent_agent_hub.Prelude.{
  ◌≡◌, ◌↔◌, refl, sym, subst, String, true, false, [], str_eq, eq_iff, arith, All,
}
use multi_agent_agent_hub.Validator.{
  OrchestrationPlan, PlanValidator, strategy_single, strategy_ordered_parallel,
  strategy_conversational, plan_checks, plan_errors,
}
use multi_agent_agent_hub.Validator.Rules.{IsNamed}
use multi_agent_agent_hub.Validator.Rules.Checks.{reports-eq-nil}

-- Equal to one text, it is not equal to another.
other_text : (s a b : String) → str_eq a b ≡ false → str_eq s a ≡ true → str_eq s b ≡ false
other_text s a b ne h = subst (λ u. str_eq u b ≡ false) (sym ((eq_iff s a).0 h)) ne

module _ (v : PlanValidator) (p : OrchestrationPlan) where
  single_has_tasks :
      str_eq p.strategy strategy_single ≡ true → str_eq p.strategy strategy_conversational ≡ false
  single_has_tasks = other_text p.strategy strategy_single strategy_conversational refl

  parallel_has_tasks :
      str_eq p.strategy strategy_ordered_parallel ≡ true
      → str_eq p.strategy strategy_conversational ≡ false
  parallel_has_tasks = other_text p.strategy strategy_ordered_parallel strategy_conversational refl

  checks-IsNamed : All (λ c. c.0 ≡ false) (plan_checks v p) → IsNamed v p
  checks-IsNamed h = ground (arith, single_has_tasks, parallel_has_tasks)

  named-checks : IsNamed v p → All (λ c. c.0 ≡ false) (plan_checks v p)
  named-checks n = ground (
    arith, n.some_tasks, n.within_limit, n.single, n.parallel, single_has_tasks, parallel_has_tasks,
  )

  pub plan_errors-IsNamed : (plan_errors v p ≡ []) ↔ IsNamed v p
  unfolding plan_errors
  plan_errors-IsNamed =
      let clear = reports-eq-nil (plan_checks v p) in
      (λ h. checks-IsNamed (clear.0 h), λ n. clear.1 (named-checks n))
