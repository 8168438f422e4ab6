-- ===== src/Harness/Budget/Overflow.antt =====
-- Where the checks of pkg/runtime/harness/budget.go let a counter leave its range.
use multi_agent_agent_hub.Prelude.{ℕ, suc, ◌+◌, ◌^◌, ◌≤◌, ◌<◌, ◌≡◌, none, arith}
use multi_agent_agent_hub.Prelude.Int.{pos, negsuc, ◌≤ℤ◌, ◌<ℤ◌}
use multi_agent_agent_hub.Harness.Budget.{
  Limits, Usage, Budget, validate, restore_budget, ok, reserve_model,
}

-- ReserveModel tests the sum after it has wrapped: with u calls used and a non-negative limit, every
-- 64-bit n for which u + n is 2 ^ 63 or more is granted, and the calls used become negative.
pub reserve_model_overflow :
    (b : Budget) (u n m : ℕ)
    → b.usage.model_calls ≡ pos u
    → b.limits.model_calls ≡ pos m
    → 0 < n
    → u < 2 ^ 63
    → n < 2 ^ 63
    → 2 ^ 63 ≤ u + n
    → ((reserve_model b (pos n)).1 ≡ none)
      × ((reserve_model b (pos n)).0.usage.model_calls <ℤ pos 0)
unfolding reserve_model
reserve_model_overflow b u n m hu hm p lu ln s = ground arith

-- RestoreBudget tests the usage from above alone: under valid limits with no more than half of
-- Go's range, a checkpoint with k + 1 model calls below zero restores, and one reservation of the
-- limit and k + 1 more is then granted.
pub restore_negative_usage :
    (l : Limits) (u : Usage) (m k : ℕ)
    → validate l ≡ none
    → l.model_calls ≡ pos m
    → m + suc k < 2 ^ 62
    → u.model_calls ≡ negsuc k
    → u.tool_calls ≤ℤ l.tool_calls
    → u.repairs ≤ℤ l.repairs
    → u.replans ≤ℤ l.replans
    → u.parallel_in_use ≤ℤ l.parallel_tasks
    → let b : Budget = record { limits = l; usage = u } in
      (restore_budget l u ≡ ok b) × ((reserve_model b (pos (m + suc k))).1 ≡ none)
unfolding restore_budget reserve_model
restore_negative_usage l u m k v lm w um t r q p = (ground arith, ground arith)
