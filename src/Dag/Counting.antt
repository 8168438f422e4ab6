-- ===== src/Dag/Counting.antt =====
-- Counts of nodes and of edges, for the order of services/orchestrator/validator/validator.go.
use multi_agent_agent_hub.Prelude.{
  ℕ, suc, ◌+◌, ◌≤◌, ◌<◌, ◌≡◌, refl, ap, ◌∙◌, sym, String, Bool, true, false, Option, none, some,
  List, [], ◌∷◌, ◌++◌, length, ◌==◌, ==_iff, Bool-cases, inl, inr, if◌then◌else◌, arith, All,
  All-append, append_assoc, append-nil, subst, str_eq, if-both,
}
use multi_agent_agent_hub.Prelude.Dict.{Dict, empty, lookup, insert, lookup-insert}
use multi_agent_agent_hub.Dag.{
  TaskPlan, task_index, Graph, no_edges, add_edge, add_found, add_deps, add_tasks, build_graph,
}

-- From the task that must finish first.
abbrev pub Edge : Type 0
Edge = ℕ × ℕ

abbrev pub found_edge : Option ℕ → ℕ → List Edge
found_edge none i = []
found_edge (some j) i = (j, i) ∷ []

abbrev pub edges_to : Dict ℕ → ℕ → List String → List Edge
edges_to index i [] = []
edges_to index i (dep ∷ deps) = found_edge (lookup dep index) i ++ edges_to index i deps

abbrev pub edges_from : Dict ℕ → ℕ → List TaskPlan → List Edge
edges_from index i [] = []
edges_from index i (t ∷ tasks) = edges_to index i t.depends_on ++ edges_from index (suc i) tasks

-- The dependencies of the tasks by their indices.
unfoldable pub edges : List TaskPlan → List Edge
edges tasks = edges_from (task_index 0 tasks empty) 0 tasks

abbrev pub one_if : Bool → ℕ
one_if true = 1
one_if false = 0

abbrev pub occ : ℕ → List ℕ → ℕ
occ v [] = 0
occ v (u ∷ us) = one_if (u == v) + occ v us

-- The edges from `u` to `v`.
abbrev pub between : ℕ → ℕ → List Edge → ℕ
between u v [] = 0
between u v ((j, i) ∷ es) = one_if (if j == u then i == v else false) + between u v es

-- The edges to `v` from nodes that are not in `done`.
abbrev pub open_to : ℕ → List ℕ → List Edge → ℕ
open_to v done [] = 0
open_to v done ((j, i) ∷ es) =
    one_if (if i == v then occ j done == 0 else false) + open_to v done es

pub occ-append : (v : ℕ) (us ws : List ℕ) → occ v (us ++ ws) ≡ occ v us + occ v ws
occ-append v [] ws = omega arith
occ-append v (u ∷ us) ws = omega (arith, occ-append v us ws)

pub open_to-append :
    (v : ℕ) (done : List ℕ) (es ds : List Edge)
    → open_to v done (es ++ ds) ≡ open_to v done es + open_to v done ds
open_to-append v done [] ds = omega arith
open_to-append v done ((j, i) ∷ es) ds = omega (arith, open_to-append v done es ds)

between-append :
    (u v : ℕ) (es ds : List Edge) → between u v (es ++ ds) ≡ between u v es + between u v ds
between-append u v [] ds = omega arith
between-append u v ((j, i) ∷ es) ds = omega (arith, between-append u v es ds)

-- A node that is done now closes its edges.
pub open_to-done :
    (u v : ℕ) (done : List ℕ) (es : List Edge)
    → occ u done ≡ 0
    → open_to v (u ∷ done) es + between u v es ≡ open_to v done es
open_to-done u v done [] h = omega arith
open_to-done u v done ((j, i) ∷ es) h = ground (arith, open_to-done u v done es h)

-- A graph has just these edges.
pub record Has (es : List Edge) (g : Graph) : Type 0 where
  pub degrees : (v : ℕ) → g.in_degree v ≡ open_to v [] es
  pub targets : (u v : ℕ) → occ v (g.adj u) ≡ between u v es

add_degree :
    (j i : ℕ) (es : List Edge) (g : Graph)
    → Has es g
    → (v : ℕ) → (add_edge j i g).in_degree v ≡ open_to v [] (es ++ (j, i) ∷ [])
add_degree j i es g h v = elim (Bool-cases (v == i)) [
  | inl eq ↦
      let at_i = ap g.in_degree ((==_iff v i).0 eq) in
      ground (arith, eq, at_i, h.degrees v, open_to-append v [] es ((j, i) ∷ []))
  | inr ne ↦ ground (arith, ne, h.degrees v, open_to-append v [] es ((j, i) ∷ []))
]

add_target :
    (j i : ℕ) (es : List Edge) (g : Graph)
    → Has es g
    → (u v : ℕ) → occ v ((add_edge j i g).adj u) ≡ between u v (es ++ (j, i) ∷ [])
add_target j i es g h u v = elim (Bool-cases (u == j)) [
  | inl eq ↦
      let at_j = ap g.adj ((==_iff u j).0 eq) in
      rw eq (
        occ-append v (g.adj j) (i ∷ [])
        ∙ ground (arith, eq, ap (occ v) at_j, h.targets u v, between-append u v es ((j, i) ∷ [])))
  | inr ne ↦ rw ne (h.targets u v ∙ ground (arith, ne, between-append u v es ((j, i) ∷ [])))
]

add_found-Has :
    (o : Option ℕ) (i : ℕ) (es : List Edge) (g : Graph)
    → Has es g
    → Has (es ++ found_edge o i) (add_found o i g)
add_found-Has none i es g h = record {
  degrees = λ v. omega (arith, h.degrees v, open_to-append v [] es []);
  targets = λ u v. omega (arith, h.targets u v, between-append u v es []);
}
add_found-Has (some j) i es g h = record {
  degrees = λ v. add_degree j i es g h v;
  targets = λ u v. add_target j i es g h u v;
}

add_deps-Has :
    (index : Dict ℕ) (i : ℕ) (deps : List String) (es : List Edge) (g : Graph)
    → Has es g
    → Has (es ++ edges_to index i deps) (add_deps index i deps g)
unfolding add_deps
add_deps-Has index i [] es g h = subst (λ l. Has l g) (sym (append-nil es)) h
add_deps-Has index i (dep ∷ deps) es g h =
    let here = found_edge (lookup dep index) i in
    subst (λ l. Has l (add_deps index i (dep ∷ deps) g))
      (append_assoc es here (edges_to index i deps))
      (add_deps-Has index i deps (es ++ here) (add_found (lookup dep index) i g)
        (add_found-Has (lookup dep index) i es g h))

add_tasks-Has :
    (index : Dict ℕ) (i : ℕ) (tasks : List TaskPlan) (es : List Edge) (g : Graph)
    → Has es g
    → Has (es ++ edges_from index i tasks) (add_tasks index i tasks g)
unfolding add_tasks
add_tasks-Has index i [] es g h = subst (λ l. Has l g) (sym (append-nil es)) h
add_tasks-Has index i (t ∷ tasks) es g h =
    let here = edges_to index i t.depends_on in
    subst (λ l. Has l (add_tasks index i (t ∷ tasks) g))
      (append_assoc es here (edges_from index (suc i) tasks))
      (add_tasks-Has index (suc i) tasks (es ++ here) (add_deps index i t.depends_on g)
        (add_deps-Has index i t.depends_on es g h))

-- What the two loops build counts the dependencies and lists them.
pub build_graph-Has : (tasks : List TaskPlan) → Has (edges tasks) (build_graph tasks)
unfolding build_graph edges
build_graph-Has tasks =
    add_tasks-Has (task_index 0 tasks empty) 0 tasks [] no_edges
      (record { degrees = λ v. refl; targets = λ u v. refl })

-- Both ends of an edge are below a bound.
abbrev pub Inside : ℕ → Edge → Type 0
Inside n e = (e.0 < n) × (e.1 < n)

abbrev Below : ℕ → Option ℕ → Type 0
Below n none = Unit
Below n (some j) = j < n

-- Every index of the map is below a bound.
abbrev Bounded : ℕ → Dict ℕ → Type 0
Bounded n index = (id : String) → Below n (lookup id index)

task_index-Bounded :
    (n i : ℕ) (tasks : List TaskPlan) (index : Dict ℕ)
    → i + length tasks ≤ n
    → Bounded n index
    → Bounded n (task_index i tasks index)
unfolding task_index
task_index-Bounded n i [] index le h = h
task_index-Bounded n i (t ∷ tasks) index le h =
    task_index-Bounded n (suc i) tasks (insert t.task_id i index) (omega (arith, le)) (λ id.
      rw (lookup-insert t.task_id id i index) (
        if-both (Below n) (str_eq t.task_id id) (some i) (lookup id index) (omega (arith, le))
          (h id)))

found_edge-Inside : (n i : ℕ) (o : Option ℕ) → i < n → Below n o → All (Inside n) (found_edge o i)
found_edge-Inside n i none lt h = tt
found_edge-Inside n i (some j) lt h = ((h, lt), tt)

edges_to-Inside :
    (n i : ℕ) (index : Dict ℕ) (deps : List String)
    → i < n
    → Bounded n index
    → All (Inside n) (edges_to index i deps)
edges_to-Inside n i index [] lt h = tt
edges_to-Inside n i index (dep ∷ deps) lt h =
    All-append (Inside n) (found_edge (lookup dep index) i) (edges_to index i deps)
      (found_edge-Inside n i (lookup dep index) lt (h dep)) (edges_to-Inside n i index deps lt h)

edges_from-Inside :
    (n i : ℕ) (index : Dict ℕ) (tasks : List TaskPlan)
    → i + length tasks ≤ n
    → Bounded n index
    → All (Inside n) (edges_from index i tasks)
edges_from-Inside n i index [] le h = tt
edges_from-Inside n i index (t ∷ tasks) le h =
    All-append (Inside n) (edges_to index i t.depends_on) (edges_from index (suc i) tasks)
      (edges_to-Inside n i index t.depends_on (omega (arith, le)) h)
      (edges_from-Inside n (suc i) index tasks (omega (arith, le)) h)

pub edges-Inside : (tasks : List TaskPlan) → All (Inside (length tasks)) (edges tasks)
unfolding edges lookup
edges-Inside tasks =
    let n = length tasks in
    edges_from-Inside n 0 (task_index 0 tasks empty) tasks (omega arith)
      (task_index-Bounded n 0 tasks empty (omega arith) (λ id. tt))
