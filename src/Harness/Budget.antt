-- ===== src/Harness/Budget.antt =====
-- pkg/runtime/harness/budget.go. The mutex makes each method one atomic step, so a method is a
-- function from the budget to the new budget and the error; Go's `int` keeps its 64-bit wrap-around.
pub mod Accounting
pub mod Restore
pub mod Overflow
mod Tests
use multi_agent_agent_hub.Prelude.{◌||◌, Option, none, some, if◌then◌else◌}
use multi_agent_agent_hub.Prelude.Int.{ℤ, pos, ltb_ℤ, leb_ℤ, add64, sub64}

pub data Error : Type 0 where
  budget_exhausted invalid_limit not_positive usage_exceeds_limits depth_exceeds_limit : Error

-- Durations are nanoseconds, an int64.
pub record Limits : Type 0 where
  pub model_calls : ℤ
  pub tool_calls : ℤ
  pub repairs : ℤ
  pub replans : ℤ
  pub parallel_tasks : ℤ
  pub delegate_depth : ℤ
  pub execution_time : ℤ
  pub tool_timeout : ℤ
  pub sandbox_timeout : ℤ
  pub approval_timeout : ℤ

pub record Usage : Type 0 where
  pub model_calls : ℤ
  pub tool_calls : ℤ
  pub repairs : ℤ
  pub replans : ℤ
  pub parallel_in_use : ℤ
  pub delegate_depth : ℤ

pub record Budget : Type 0 where
  pub limits : Limits
  pub usage : Usage

pub record Snapshot : Type 0 where
  pub limits : Limits
  pub usage : Usage
  pub model : ℤ
  pub tools : ℤ
  pub repairs : ℤ
  pub replans : ℤ
  pub parallel : ℤ

unfoldable pub default_limits : Limits
default_limits = record {
  model_calls = pos 16;
  tool_calls = pos 32;
  repairs = pos 1;
  replans = pos 2;
  parallel_tasks = pos 3;
  delegate_depth = pos 1;
  execution_time = pos 180000000000;
  tool_timeout = pos 15000000000;
  sandbox_timeout = pos 60000000000;
  approval_timeout = pos 900000000000;
}

abbrev pub zero_usage : Usage
zero_usage = record {
  model_calls = pos 0;
  tool_calls = pos 0;
  repairs = pos 0;
  replans = pos 0;
  parallel_in_use = pos 0;
  delegate_depth = pos 0;
}

unfoldable pub validate : Limits → Option Error
validate l =
    if leb_ℤ l.model_calls (pos 0)
      || leb_ℤ l.tool_calls (pos 0)
      || leb_ℤ l.parallel_tasks (pos 0)
      || ltb_ℤ l.delegate_depth (pos 0)
    then some invalid_limit
    else if ltb_ℤ l.repairs (pos 0) || ltb_ℤ l.replans (pos 0)
    then some invalid_limit
    else if leb_ℤ l.execution_time (pos 0)
        || leb_ℤ l.tool_timeout (pos 0)
        || leb_ℤ l.sandbox_timeout (pos 0)
        || leb_ℤ l.approval_timeout (pos 0)
    then some invalid_limit
    else none

pub data Result (A : Type 0) : Type 0 where
  ok : A → Result A
  err : Error → Result A

abbrev or_error : {A : Type 0} → Option Error → Result A → Result A
or_error none r = r
or_error (some e) r = err e

unfoldable pub new_budget : Limits → Result Budget
new_budget l = or_error (validate l) (ok (record { limits = l; usage = zero_usage }))

unfoldable pub restore_budget : Limits → Usage → Result Budget
restore_budget l u = or_error (validate l) (
    if ltb_ℤ l.model_calls u.model_calls
      || ltb_ℤ l.tool_calls u.tool_calls
      || ltb_ℤ l.repairs u.repairs
      || ltb_ℤ l.replans u.replans
      || ltb_ℤ l.parallel_tasks u.parallel_in_use
    then err usage_exceeds_limits
    else ok (record { limits = l; usage = u }))

unfoldable pub reserve_model : Budget → ℤ → Budget × Option Error
unfolding add64
reserve_model b n =
    if leb_ℤ n (pos 0)
    then (b, some not_positive)
    else if ltb_ℤ b.limits.model_calls (add64 b.usage.model_calls n)
    then (b, some budget_exhausted)
    else (record b { usage = record b.usage { model_calls = add64 b.usage.model_calls n } }, none)

unfoldable pub reserve_tool : Budget → ℤ → Budget × Option Error
unfolding add64
reserve_tool b n =
    if leb_ℤ n (pos 0)
    then (b, some not_positive)
    else if ltb_ℤ b.limits.tool_calls (add64 b.usage.tool_calls n)
    then (b, some budget_exhausted)
    else (record b { usage = record b.usage { tool_calls = add64 b.usage.tool_calls n } }, none)

unfoldable pub record_repair : Budget → Budget × Option Error
unfolding add64
record_repair b =
    if ltb_ℤ b.limits.repairs (add64 b.usage.repairs (pos 1))
    then (b, some budget_exhausted)
    else (record b { usage = record b.usage { repairs = add64 b.usage.repairs (pos 1) } }, none)

unfoldable pub record_replan : Budget → Budget × Option Error
unfolding add64
record_replan b =
    if ltb_ℤ b.limits.replans (add64 b.usage.replans (pos 1))
    then (b, some budget_exhausted)
    else (record b { usage = record b.usage { replans = add64 b.usage.replans (pos 1) } }, none)

unfoldable pub acquire_parallel : Budget → ℤ → Budget × Option Error
unfolding add64
acquire_parallel b n =
    if leb_ℤ n (pos 0)
    then (b, some not_positive)
    else if ltb_ℤ b.limits.parallel_tasks (add64 b.usage.parallel_in_use n)
    then (b, some budget_exhausted)
    else (
      record b { usage = record b.usage { parallel_in_use = add64 b.usage.parallel_in_use n } },
      none,
    )

-- The count goes down by n, and back to 0 where it fell below.
unfoldable pub release_parallel : Budget → ℤ → Budget
unfolding sub64
release_parallel b n =
    let left = sub64 b.usage.parallel_in_use n in
    record b {
      usage = record b.usage { parallel_in_use = if ltb_ℤ left (pos 0) then pos 0 else left };
    }

unfoldable pub set_delegate_depth : Budget → ℤ → Budget × Option Error
set_delegate_depth b depth =
    if ltb_ℤ depth (pos 0) || ltb_ℤ b.limits.delegate_depth depth
    then (b, some depth_exceeds_limit)
    else (record b { usage = record b.usage { delegate_depth = depth } }, none)

unfoldable pub snapshot : Budget → Snapshot
unfolding sub64
snapshot b = record {
  limits = b.limits;
  usage = b.usage;
  model = sub64 b.limits.model_calls b.usage.model_calls;
  tools = sub64 b.limits.tool_calls b.usage.tool_calls;
  repairs = sub64 b.limits.repairs b.usage.repairs;
  replans = sub64 b.limits.replans b.usage.replans;
  parallel = sub64 b.limits.parallel_tasks b.usage.parallel_in_use;
}

-- One call of a client; the methods that read alone are no step.
pub data Op : Type 0 where
  model tool acquire release delegate : ℤ → Op
  repair replan : Op

unfoldable pub step : Budget → Op → Budget
unfolding reserve_model reserve_tool record_repair record_replan acquire_parallel release_parallel
    set_delegate_depth
step b (model n) = (reserve_model b n).0
step b (tool n) = (reserve_tool b n).0
step b (acquire n) = (acquire_parallel b n).0
step b (release n) = release_parallel b n
step b (delegate n) = (set_delegate_depth b n).0
step b repair = (record_repair b).0
step b replan = (record_replan b).0
