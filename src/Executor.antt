-- ===== src/Executor.antt =====
-- services/orchestrator/executor/dag_executor.go: the plan's tasks in waves, each wave after those that
-- it depends on. The index, the graph and the queue are those of the validator's check, line by line.
pub mod Run
pub mod IndexWaves
pub mod Dependencies
pub mod Layers
pub mod Complete
pub mod Skips
mod Tests
use multi_agent_agent_hub.Prelude.{
  ℕ, zero, suc, Bool, true, false, Option, none, some, List, [], ◌∷◌, ◌++◌, map, length, get_elem?,
  ltb, if◌then◌else◌,
}
use multi_agent_agent_hub.Prelude.Int.{ltb_ℤ}
use multi_agent_agent_hub.Dag.{TaskPlan, Graph, build_graph, Progress, pop, start}

abbrev pub head_to : List ℕ → List ℕ → List ℕ
head_to [] wave = wave
head_to (u ∷ queue) wave = u ∷ wave

-- One wave: `size` nodes leave the queue.
unfoldable pub pop_wave : Graph → ℕ → Progress → List ℕ × Progress
unfolding pop
pop_wave g zero p = ([], p)
pop_wave g (suc size) p = let (wave, q) = pop_wave g size (pop g p) in (head_to p.queue wave, q)

abbrev pub is_empty : List ℕ → Bool
is_empty [] = true
is_empty (u ∷ queue) = false

-- The waves while the queue is not empty, at most `fuel` of them.
unfoldable pub collect_waves : Graph → ℕ → Progress → List (List ℕ) × Progress
unfolding pop_wave
collect_waves g zero p = ([], p)
collect_waves g (suc fuel) p =
    let (wave, q) = pop_wave g (length p.queue) p in
    let (waves, r) = collect_waves g fuel q in
    if is_empty p.queue then ([], p) else (wave ∷ waves, r)

-- A stable sort: a task goes before the first one of a higher priority number.
unfoldable pub insert_task : TaskPlan → List TaskPlan → List TaskPlan
insert_task t [] = t ∷ []
insert_task t (u ∷ tasks) =
    let rest = insert_task t tasks in
    if ltb_ℤ u.priority t.priority then u ∷ rest else t ∷ u ∷ tasks

unfoldable pub sort_wave : List TaskPlan → List TaskPlan
unfolding insert_task
sort_wave [] = []
sort_wave (t ∷ tasks) = insert_task t (sort_wave tasks)

abbrev pub cons_found : Option TaskPlan → List TaskPlan → List TaskPlan
cons_found none wave = wave
cons_found (some t) wave = t ∷ wave

-- The tasks at the indices; each index is that of a task.
unfoldable pub tasks_at : List TaskPlan → List ℕ → List TaskPlan
tasks_at tasks [] = []
tasks_at tasks (i ∷ wave) = cons_found (get_elem? tasks i) (tasks_at tasks wave)

abbrev pub index_waves : List TaskPlan → List (List ℕ) × Progress
index_waves tasks = collect_waves (build_graph tasks) (length tasks) (start tasks)

-- `none` is the error that a cycle was detected.
unfoldable pub topological_sort : List TaskPlan → Option (List (List TaskPlan))
unfolding collect_waves start build_graph tasks_at sort_wave
topological_sort tasks =
    let (waves, p) = index_waves tasks in
    if ltb (length p.visited) (length tasks)
    then none
    else some (map (λ wave. sort_wave (tasks_at tasks wave)) waves)
