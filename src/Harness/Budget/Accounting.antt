-- ===== src/Harness/Budget/Accounting.antt =====
-- What the counters of pkg/runtime/harness/budget.go account for, over any sequence of calls.
use multi_agent_agent_hub.Prelude.{ap, ◌∙◌, ◌≡◌, refl, Option, none, some, List, [], ◌∷◌, arith}
use multi_agent_agent_hub.Prelude.Int.{
  ℤ, pos, ◌+ℤ◌, ◌≤ℤ◌, ◌<ℤ◌, IsInt64, max_int64, +ℤ_assoc, zero-+ℤ,
}
use multi_agent_agent_hub.Harness.Budget.{
  Limits, Budget, Error, Op, model, tool, acquire, release, delegate, repair, replan, validate,
  reserve_model, step, new_budget, ok, zero_usage,
}

abbrev pub Between : ℤ → ℤ → ℤ → Type 0
Between lo hi z = (lo ≤ℤ z) × (z ≤ℤ hi)

-- Valid limits of the machine's width, and every counter between 0 and its limit.
pub record IsWithin (b : Budget) : Type 0 where
  pub valid : validate b.limits ≡ none
  pub model_width : IsInt64 b.limits.model_calls
  pub tool_width : IsInt64 b.limits.tool_calls
  pub repair_width : b.limits.repairs <ℤ max_int64
  pub replan_width : b.limits.replans <ℤ max_int64
  pub parallel_width : IsInt64 b.limits.parallel_tasks
  pub model : Between (pos 0) b.limits.model_calls b.usage.model_calls
  pub tool : Between (pos 0) b.limits.tool_calls b.usage.tool_calls
  pub repair : Between (pos 0) b.limits.repairs b.usage.repairs
  pub replan : Between (pos 0) b.limits.replans b.usage.replans
  pub parallel : Between (pos 0) b.limits.parallel_tasks b.usage.parallel_in_use
  pub depth : Between (pos 0) b.limits.delegate_depth b.usage.delegate_depth

-- The argument of a call: a reservation that does not overflow the counter, a release of at least 0.
abbrev pub Fits : Budget → Op → Type 0
Fits b (model n) = b.usage.model_calls +ℤ n ≤ℤ max_int64
Fits b (tool n) = b.usage.tool_calls +ℤ n ≤ℤ max_int64
Fits b (acquire n) = b.usage.parallel_in_use +ℤ n ≤ℤ max_int64
Fits b (release n) = (pos 0 ≤ℤ n) × (n ≤ℤ max_int64)
Fits b (delegate n) = Unit
Fits b repair = Unit
Fits b replan = Unit

-- One call keeps every counter between 0 and its limit, on its error paths too.
pub step-IsWithin : (b : Budget) (op : Op) → Fits b op → IsWithin b → IsWithin (step b op)
unfolding step ◌+ℤ◌
step-IsWithin b (model n) f h = ground arith
step-IsWithin b (tool n) f h = ground arith
step-IsWithin b (acquire n) f h = ground arith
step-IsWithin b (release n) f h = ground arith
step-IsWithin b (delegate n) f h = ground arith
step-IsWithin b repair f h = ground arith
step-IsWithin b replan f h = ground arith

-- A sequence of calls, in the order in which the mutex lets them in.
unfoldable pub run : Budget → List Op → Budget
run b [] = b
run b (op ∷ ops) = run (step b op) ops

-- Every call of the sequence fits, each in the budget that the calls before it left.
abbrev pub AllFit : Budget → List Op → Type 0
AllFit b [] = Unit
AllFit b (op ∷ ops) = Fits b op × AllFit (step b op) ops

-- What a call was granted of the model calls: its amount, if no error came back.
abbrev amount : ℤ → Option Error → ℤ
amount n none = n
amount n (some e) = pos 0

abbrev model_grant : Budget → Op → ℤ
model_grant b (model n) = amount n (reserve_model b n).1
model_grant b op = pos 0

unfoldable pub model_granted : Budget → List Op → ℤ
model_granted b [] = pos 0
model_granted b (op ∷ ops) = model_grant b op +ℤ model_granted (step b op) ops

pub run-IsWithin : (b : Budget) (ops : List Op) → AllFit b ops → IsWithin b → IsWithin (run b ops)
unfolding run
run-IsWithin b [] f h = h
run-IsWithin b (op ∷ ops) f h = run-IsWithin (step b op) ops f.1 (step-IsWithin b op f.0 h)

step_grant :
    (b : Budget) (op : Op)
    → Fits b op
    → IsWithin b
    → (step b op).usage.model_calls ≡ b.usage.model_calls +ℤ model_grant b op
unfolding step ◌+ℤ◌
step_grant b (model n) f h = ground arith
step_grant b _ f h = ground arith

granted_before :
    (b : Budget) (ops : List Op)
    → AllFit b ops
    → IsWithin b
    → (run b ops).usage.model_calls ≡ b.usage.model_calls +ℤ model_granted b ops
unfolding run model_granted
granted_before b [] f h = unfold ◌+ℤ◌ in ground arith
granted_before b (op ∷ ops) f h =
    granted_before (step b op) ops f.1 (step-IsWithin b op f.0 h)
    ∙ (ap (λ u. u +ℤ model_granted (step b op) ops) (step_grant b op f.0 h)
        ∙ +ℤ_assoc b.usage.model_calls (model_grant b op) (model_granted (step b op) ops))

new_budget-ok :
    (l : Limits) {b : Budget}
    → new_budget l ≡ ok b
    → (validate l ≡ none) × (b ≡ record { limits = l; usage = zero_usage })
unfolding new_budget
new_budget-ok l e = ground arith

-- What `Validate` guarantees of the limits that it accepts.
pub validate-pos :
    (l : Limits)
    → validate l ≡ none
    → (pos 0 <ℤ l.model_calls)
      × (pos 0 <ℤ l.tool_calls)
      × (pos 0 <ℤ l.parallel_tasks)
      × (pos 0 ≤ℤ l.delegate_depth)
      × (pos 0 ≤ℤ l.repairs)
      × (pos 0 ≤ℤ l.replans)
unfolding validate
validate-pos l e = ground arith

-- The limits fit Go's `int`, with room for one more where a counter goes up by one.
pub record AreWide (l : Limits) : Type 0 where
  pub model : IsInt64 l.model_calls
  pub tool : IsInt64 l.tool_calls
  pub parallel : IsInt64 l.parallel_tasks
  pub repair : l.repairs <ℤ max_int64
  pub replan : l.replans <ℤ max_int64

zero_usage-IsWithin :
    (l : Limits)
    → AreWide l
    → validate l ≡ none
    → IsWithin (record { limits = l; usage = zero_usage })
zero_usage-IsWithin l w v =
    let (m, t, p, d, r, q) = validate-pos l v in
    record {
      valid = v;
      model_width = w.model;
      tool_width = w.tool;
      repair_width = w.repair;
      replan_width = w.replan;
      parallel_width = w.parallel;
      model = omega arith;
      tool = omega arith;
      repair = omega arith;
      replan = omega arith;
      parallel = omega arith;
      depth = omega arith;
    }

new_budget-IsWithin : (l : Limits) {b : Budget} → AreWide l → new_budget l ≡ ok b → IsWithin b
new_budget-IsWithin l w e = let (v, p) = new_budget-ok l e in rw p (zero_usage-IsWithin l w v)

limits-step : (b : Budget) (op : Op) → (step b op).limits ≡ b.limits
unfolding step
limits-step b (model n) = ground arith
limits-step b _ = ground arith

limits-run : (b : Budget) (ops : List Op) → (run b ops).limits ≡ b.limits
unfolding run
limits-run b [] = refl
limits-run b (op ∷ ops) = limits-run (step b op) ops ∙ limits-step b op

-- From a new budget with limits of the machine's width, after any sequence of calls in which no
-- reservation overflows its counter and no release is of a negative number, every counter is between
-- 0 and its limit, the limits are those given, and the model calls used are the sum of the amounts of
-- exactly those model reservations that returned no error.
pub run-accounts :
    (l : Limits) {b : Budget} (ops : List Op)
    → AreWide l
    → new_budget l ≡ ok b
    → AllFit b ops
    → IsWithin (run b ops)
      × ((run b ops).limits ≡ l)
      × ((run b ops).usage.model_calls ≡ model_granted b ops)
run-accounts l {b} ops w e f =
    let (v, p) = new_budget-ok l e in
    let h = new_budget-IsWithin l w e in
    (
      run-IsWithin b ops f h,
      limits-run b ops ∙ ap (λ c. c.limits) p,
      granted_before b ops f h
          ∙ (ap (λ c. c.usage.model_calls +ℤ model_granted b ops) p
              ∙ zero-+ℤ (model_granted b ops)),
    )
