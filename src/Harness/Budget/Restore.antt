-- ===== src/Harness/Budget/Restore.antt =====
-- RestoreBudget and Snapshot of pkg/runtime/harness/budget.go: a checkpoint keeps the usage.
use multi_agent_agent_hub.Prelude.{◌≡◌, none, some, arith, ◌⊎◌}
use multi_agent_agent_hub.Prelude.Int.{ℤ, pos, ◌+ℤ◌, ◌≤ℤ◌, ◌<ℤ◌, max_int64}
use multi_agent_agent_hub.Harness.Budget.{
  Budget, restore_budget, snapshot, ok, budget_exhausted, acquire_parallel, release_parallel,
}
use multi_agent_agent_hub.Harness.Budget.Accounting.{IsWithin}

-- Of a budget within its limits, what Snapshot reports restores to the very same budget, and the
-- five remaining amounts that it reports are each the limit less the usage, so at least 0.
pub restore-snapshot :
    (b : Budget)
    → IsWithin b
    → (restore_budget (snapshot b).limits (snapshot b).usage ≡ ok b)
      × ((snapshot b).model +ℤ b.usage.model_calls ≡ b.limits.model_calls)
      × ((snapshot b).tools +ℤ b.usage.tool_calls ≡ b.limits.tool_calls)
      × ((snapshot b).repairs +ℤ b.usage.repairs ≡ b.limits.repairs)
      × ((snapshot b).replans +ℤ b.usage.replans ≡ b.limits.replans)
      × ((snapshot b).parallel +ℤ b.usage.parallel_in_use ≡ b.limits.parallel_tasks)
      × (pos 0 ≤ℤ (snapshot b).model)
      × (pos 0 ≤ℤ (snapshot b).parallel)
unfolding restore_budget snapshot ◌+ℤ◌
restore-snapshot b h = (
  ground arith,
  ground arith,
  ground arith,
  ground arith,
  ground arith,
  ground arith,
  ground arith,
  ground arith,
)

-- Within the limits, AcquireParallel(n) for a positive n that does not overflow either refuses, which
-- happens exactly when the slots in use and n exceed the limit and leaves the budget as it was, or
-- takes n slots that ReleaseParallel(n) gives back, down to the budget as it was.
pub release-acquire_parallel :
    (b : Budget) (n : ℤ)
    → IsWithin b
    → pos 0 <ℤ n
    → b.usage.parallel_in_use +ℤ n ≤ℤ max_int64
    → ((acquire_parallel b n ≡ (b, some budget_exhausted))
        × (b.limits.parallel_tasks <ℤ b.usage.parallel_in_use +ℤ n))
      ⊎ (((acquire_parallel b n).1 ≡ none)
          × (b.usage.parallel_in_use +ℤ n ≤ℤ b.limits.parallel_tasks)
          × (release_parallel (acquire_parallel b n).0 n ≡ b))
unfolding acquire_parallel release_parallel ◌+ℤ◌
release-acquire_parallel b n h p f = ground arith
