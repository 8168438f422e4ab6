-- ===== src/Dag.antt =====
-- The dependencies of a plan's tasks: checkDAGCycle of services/orchestrator/validator/validator.go.
-- The arrays `inDegree` and `adj` are functions of the index. A degree that is zero is not lowered
-- any further here; below zero, where the source would count on, nothing depends on it.
pub mod Counting
pub mod Sums
pub mod Invariant
pub mod Acyclic
mod Tests
use multi_agent_agent_hub.Prelude.{
  ℕ, zero, suc, ◌+◌, ◌-◌, String, Bool, true, false, Option, none, some, List, [], ◌∷◌, ◌++◌,
  length, ltb, ◌==◌, if◌then◌else◌,
}
use multi_agent_agent_hub.Prelude.Int.{ℤ}
use multi_agent_agent_hub.Prelude.Dict.{Dict, empty, lookup, insert}

pub record TaskPlan : Type 0 where
  pub task_id : String
  pub agent_name : String
  pub capability_ids : List String
  pub task_content : String
  pub expected_outputs : List String
  pub depends_on : List String
  pub priority : ℤ
  pub timeout_ms : ℤ
  pub risk_level : String
  pub reason : String

-- The index of each id; of two tasks with one id, the later counts.
unfoldable pub task_index : ℕ → List TaskPlan → Dict ℕ → Dict ℕ
task_index i [] index = index
task_index i (t ∷ tasks) index = task_index (suc i) tasks (insert t.task_id i index)

pub record Graph : Type 0 where
  pub in_degree : ℕ → ℕ
  pub adj : ℕ → List ℕ

abbrev pub no_edges : Graph
no_edges = record { in_degree = λ v. 0; adj = λ u. [] }

abbrev pub set_at {ℓ} : {A : Type ℓ} → (ℕ → A) → ℕ → A → ℕ → A
set_at f i a k = if k == i then a else f k

-- From `j`, which must finish first, to `i`.
abbrev pub add_edge : ℕ → ℕ → Graph → Graph
add_edge j i g = record {
  in_degree = set_at g.in_degree i (g.in_degree i + 1);
  adj = set_at g.adj j (g.adj j ++ i ∷ []);
}

-- A dependency on an id that no task has is passed over.
abbrev pub add_found : Option ℕ → ℕ → Graph → Graph
add_found none i g = g
add_found (some j) i g = add_edge j i g

unfoldable pub add_deps : Dict ℕ → ℕ → List String → Graph → Graph
add_deps index i [] g = g
add_deps index i (dep ∷ deps) g = add_deps index i deps (add_found (lookup dep index) i g)

unfoldable pub add_tasks : Dict ℕ → ℕ → List TaskPlan → Graph → Graph
unfolding add_deps
add_tasks index i [] g = g
add_tasks index i (t ∷ tasks) g = add_tasks index (suc i) tasks (add_deps index i t.depends_on g)

unfoldable pub build_graph : List TaskPlan → Graph
unfolding task_index add_tasks
build_graph tasks = add_tasks (task_index 0 tasks empty) 0 tasks no_edges

-- The nodes from `i` on, `left` of them, that wait for nothing.
unfoldable pub ready : (ℕ → ℕ) → ℕ → ℕ → List ℕ
ready in_degree i zero = []
ready in_degree i (suc left) =
    let rest = ready in_degree (suc i) left in if in_degree i == 0 then i ∷ rest else rest

-- `visited` holds the nodes that left the queue, the latest first; the source counts them.
pub record Progress : Type 0 where
  pub queue : List ℕ
  pub in_degree : ℕ → ℕ
  pub visited : List ℕ

-- A node whose last dependency is done joins the queue.
unfoldable pub lower : List ℕ → Progress → Progress
lower [] p = p
lower (v ∷ vs) p = lower vs (record p {
  in_degree = set_at p.in_degree v (p.in_degree v - 1);
  queue = if p.in_degree v == 1 then p.queue ++ v ∷ [] else p.queue;
})

abbrev pub pop_from : Graph → List ℕ → Progress → Progress
pop_from g [] p = p
pop_from g (u ∷ queue) p = lower (g.adj u) (record p { queue = queue; visited = u ∷ p.visited })

unfoldable pub pop : Graph → Progress → Progress
unfolding lower
pop g p = pop_from g p.queue p

-- The loop while the queue is not empty, at most `fuel` times; on an empty queue `pop` does nothing.
unfoldable pub kahn : Graph → ℕ → Progress → Progress
unfolding pop
kahn g zero p = p
kahn g (suc fuel) p = kahn g fuel (pop g p)

unfoldable pub start : List TaskPlan → Progress
unfolding build_graph ready
start tasks =
    let g = build_graph tasks in
    record { queue = ready g.in_degree 0 (length tasks); in_degree = g.in_degree; visited = [] }

-- The error tells how many of the tasks could be put in order.
unfoldable pub check_dag_cycle : List TaskPlan → Option (ℕ × ℕ)
unfolding build_graph kahn start
check_dag_cycle tasks =
    let n = length tasks in
    let p = kahn (build_graph tasks) n (start tasks) in
    if ltb (length p.visited) n then some (length p.visited, n) else none

abbrev pub has_deps : List String → Bool
has_deps [] = false
has_deps (d ∷ deps) = true

unfoldable pub has_depends_on : List TaskPlan → Bool
has_depends_on [] = false
has_depends_on (t ∷ tasks) = if has_deps t.depends_on then true else has_depends_on tasks
