-- ===== src/Harness/Budget/Tests.antt =====
-- Runs of the budget at concrete limits.
use multi_agent_agent_hub.Prelude.{◌^◌, ◌-◌, ◌≡◌, refl, none, some, List, [], ◌∷◌, arith, ◌⊎◌}
use multi_agent_agent_hub.Prelude.Int.{pos, negsuc, ◌+ℤ◌, ◌-ℤ◌, ◌≤ℤ◌, ◌<ℤ◌}
use multi_agent_agent_hub.Harness.Budget.{
  Usage, Budget, Op, model, acquire, release, repair, default_limits, zero_usage, validate, ok,
  restore_budget, snapshot, reserve_model, acquire_parallel, release_parallel, budget_exhausted,
  new_budget, step,
}
use multi_agent_agent_hub.Harness.Budget.Accounting.{
  AreWide, IsWithin, AllFit, run, model_granted, run-accounts,
}
use multi_agent_agent_hub.Harness.Budget.Restore.{restore-snapshot, release-acquire_parallel}
use multi_agent_agent_hub.Harness.Budget.Overflow.{reserve_model_overflow, restore_negative_usage}

abbrev fresh : Budget
fresh = record { limits = default_limits; usage = zero_usage }

new_default : new_budget default_limits ≡ ok fresh
unfolding new_budget validate default_limits
new_default = refl

default_AreWide : AreWide default_limits
unfolding default_limits
default_AreWide = omega arith

-- The second model call is refused, and so is the second repair.
abbrev calls : List Op
calls = model (pos 10) ∷ model (pos 7) ∷ repair ∷ repair ∷ acquire (pos 2) ∷ release (pos 1) ∷ []

calls_fit : AllFit fresh calls
unfolding step default_limits ◌+ℤ◌
calls_fit = omega arith

run-accounts_example :
    IsWithin (run fresh calls)
    × ((run fresh calls).limits ≡ default_limits)
    × ((run fresh calls).usage.model_calls ≡ model_granted fresh calls)
run-accounts_example = run-accounts default_limits calls default_AreWide new_default calls_fit

calls_granted : model_granted fresh calls ≡ pos 10
unfolding model_granted step reserve_model default_limits ◌+ℤ◌
calls_granted = refl

-- With all three slots in use, the release of -1 slots leaves four in use.
released_negative :
    (release_parallel (acquire_parallel fresh (pos 3)).0 (negsuc 0)).usage.parallel_in_use ≡ pos 4
unfolding release_parallel acquire_parallel default_limits ◌+ℤ◌ ◌-ℤ◌
released_negative = refl

fresh-IsWithin : IsWithin fresh
unfolding default_limits validate
fresh-IsWithin = ground arith

restore-snapshot_example :
    (restore_budget (snapshot fresh).limits (snapshot fresh).usage ≡ ok fresh)
    × ((snapshot fresh).model +ℤ fresh.usage.model_calls ≡ fresh.limits.model_calls)
    × ((snapshot fresh).tools +ℤ fresh.usage.tool_calls ≡ fresh.limits.tool_calls)
    × ((snapshot fresh).repairs +ℤ fresh.usage.repairs ≡ fresh.limits.repairs)
    × ((snapshot fresh).replans +ℤ fresh.usage.replans ≡ fresh.limits.replans)
    × ((snapshot fresh).parallel +ℤ fresh.usage.parallel_in_use ≡ fresh.limits.parallel_tasks)
    × (pos 0 ≤ℤ (snapshot fresh).model)
    × (pos 0 ≤ℤ (snapshot fresh).parallel)
restore-snapshot_example = restore-snapshot fresh fresh-IsWithin

release-acquire_parallel_example :
    ((acquire_parallel fresh (pos 2) ≡ (fresh, some budget_exhausted))
      × (fresh.limits.parallel_tasks <ℤ fresh.usage.parallel_in_use +ℤ pos 2))
    ⊎ (((acquire_parallel fresh (pos 2)).1 ≡ none)
        × (fresh.usage.parallel_in_use +ℤ pos 2 ≤ℤ fresh.limits.parallel_tasks)
        × (release_parallel (acquire_parallel fresh (pos 2)).0 (pos 2) ≡ fresh))
unfolding default_limits ◌+ℤ◌
release-acquire_parallel_example =
    release-acquire_parallel fresh (pos 2) fresh-IsWithin (omega arith) (omega arith)

-- One model call of sixteen used.
abbrev used_one : Budget
used_one = record fresh { usage = record zero_usage { model_calls = pos 1 } }

reserve_model_overflow_example :
    ((reserve_model used_one (pos (2 ^ 63 - 1))).1 ≡ none)
    × ((reserve_model used_one (pos (2 ^ 63 - 1))).0.usage.model_calls <ℤ pos 0)
unfolding default_limits
reserve_model_overflow_example =
    reserve_model_overflow used_one 1 (2 ^ 63 - 1) 16 refl refl (omega arith) (omega arith)
      (omega arith) (omega arith)

abbrev negative_usage : Usage
negative_usage = record zero_usage { model_calls = negsuc 99 }

restore_negative_usage_example :
    let b : Budget = record { limits = default_limits; usage = negative_usage } in
    (restore_budget default_limits negative_usage ≡ ok b) × ((reserve_model b (pos 116)).1 ≡ none)
unfolding default_limits validate
restore_negative_usage_example =
    restore_negative_usage default_limits negative_usage 16 99 refl refl (omega arith) refl
      (omega arith) (omega arith) (omega arith) (omega arith)
