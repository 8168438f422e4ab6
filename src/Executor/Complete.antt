-- ===== src/Executor/Complete.antt =====
-- The waves of services/orchestrator/executor/dag_executor.go hold each task once.
use multi_agent_agent_hub.Prelude.{
  ℕ, zero, suc, ◌+◌, ◌≤◌, ◌≡◌, refl, ap, ◌∙◌, sym, subst, Bool, Option, none, some, List, [], ◌∷◌,
  append-nil, map, length, get_elem?, ltb, Bool-cases, inl, inr, if◌then◌else◌, arith, if-both,
}
use multi_agent_agent_hub.Prelude.Int.{ltb_ℤ}
use multi_agent_agent_hub.Dag.{TaskPlan, Graph, build_graph, Progress, start}
use multi_agent_agent_hub.Dag.Counting.{edges, one_if, edges-Inside, build_graph-Has}
use multi_agent_agent_hub.Dag.Sums.{sum_below, sum_first, weight, weight_once}
use multi_agent_agent_hub.Dag.Invariant.{Inv, kahn-Inv, start-Inv}
use multi_agent_agent_hub.Dag.Acyclic.{visited_below, each_once}
use multi_agent_agent_hub.Executor.{
  pop_wave, is_empty, collect_waves, index_waves, insert_task, sort_wave, cons_found, tasks_at,
  topological_sort,
}
use multi_agent_agent_hub.Executor.IndexWaves.{rev_onto, pop_wave-front, same_end}

sort_result {ℓ} :
    {A : Type ℓ} (b n : ℕ) (x y : A)
    → (if ltb b n then none else some x) ≡ some y
    → (n ≤ b) × (x ≡ y)
sort_result b n x y h = elim (Bool-cases (ltb b n)) [
  | inl lt ↦ impossible (subst (λ c. (if c then none else some x) ≡ some y) lt h)
  | inr ge ↦ (ground (arith, ge), equal (subst (λ c. (if c then none else some x) ≡ some y) ge h))
]
  where
    impossible : none ≡ some y → (n ≤ b) × (x ≡ y)
    impossible e = ground (arith, e)

    equal : some x ≡ some y → x ≡ y
    equal e = ground (arith, e)

end_Inv : (tasks : List TaskPlan) → Inv (edges tasks) (length tasks) (index_waves tasks).1
end_Inv tasks =
    let n = length tasks in
    subst (Inv (edges tasks) n) (sym (same_end tasks)) (
      kahn-Inv (edges tasks) n (build_graph tasks) (build_graph-Has tasks) (edges-Inside tasks) n
        (start tasks) (start-Inv tasks))

module _ (q : TaskPlan → Bool) where
  -- The tasks that pass the test.
  abbrev pub count : List TaskPlan → ℕ
  count [] = 0
  count (t ∷ tasks) = one_if (q t) + count tasks

  abbrev pub count_all : List (List TaskPlan) → ℕ
  count_all [] = 0
  count_all (wave ∷ waves) = count wave + count_all waves

  abbrev value : Option TaskPlan → ℕ
  value none = 0
  value (some t) = one_if (q t)

  count-insert_task :
      (t : TaskPlan) (tasks : List TaskPlan)
      → count (insert_task t tasks) ≡ one_if (q t) + count tasks
  unfolding insert_task
  count-insert_task t [] = refl
  count-insert_task t (u ∷ tasks) =
      if-both (λ l. count l ≡ one_if (q t) + (one_if (q u) + count tasks))
        (ltb_ℤ u.priority t.priority) (u ∷ insert_task t tasks) (t ∷ u ∷ tasks)
        (omega (arith, count-insert_task t tasks)) refl

  count-sort_wave : (tasks : List TaskPlan) → count (sort_wave tasks) ≡ count tasks
  unfolding sort_wave
  count-sort_wave [] = refl
  count-sort_wave (t ∷ tasks) =
      omega (arith, count-insert_task t (sort_wave tasks), count-sort_wave tasks)

  count-cons_found :
      (o : Option TaskPlan) (tasks : List TaskPlan)
      → count (cons_found o tasks) ≡ value o + count tasks
  count-cons_found none tasks = omega arith
  count-cons_found (some t) tasks = refl

  module _ (tasks : List TaskPlan) where
    at_index : ℕ → ℕ
    at_index i = value (get_elem? tasks i)

    count-tasks_at : (wave : List ℕ) → count (tasks_at tasks wave) ≡ weight at_index wave
    unfolding tasks_at weight at_index
    count-tasks_at [] = refl
    count-tasks_at (i ∷ wave) =
        count-cons_found (get_elem? tasks i) (tasks_at tasks wave)
        ∙ omega (arith, count-tasks_at wave)

    weight-rev_onto :
        (us done : List ℕ)
        → weight at_index (rev_onto us done) ≡ weight at_index us + weight at_index done
    unfolding weight
    weight-rev_onto [] done = omega arith
    weight-rev_onto (u ∷ us) done = omega (arith, weight-rev_onto us (u ∷ done))

    collected : List (List ℕ) → ℕ
    collected waves = count_all (map (λ wave. sort_wave (tasks_at tasks wave)) waves)

    wave_weight : (wave : List ℕ) → count (sort_wave (tasks_at tasks wave)) ≡ weight at_index wave
    wave_weight wave = count-sort_wave (tasks_at tasks wave) ∙ count-tasks_at wave

    gathered_weight :
        (g : Graph) (fuel : ℕ) (p : Progress)
        → collected (collect_waves g fuel p).0 + weight at_index p.visited
          ≡ weight at_index (collect_waves g fuel p).1.visited
    unfolding collect_waves collected
    gathered_weight g zero p = omega arith
    gathered_weight g (suc fuel) p =
        let (same, visited) = pop_wave-front g p.queue [] p (sym (append-nil p.queue)) in
        let (wave, q') = pop_wave g (length p.queue) p in
        let ih = gathered_weight g fuel q' in
        let grown = ap (weight at_index) visited ∙ weight-rev_onto p.queue p.visited in
        let here = wave_weight wave ∙ ap (weight at_index) same in
        elim (Bool-cases (is_empty p.queue)) [
          | inl none_left ↦ rw none_left (omega arith)
          | inr some_left ↦ rw some_left (omega (arith, ih, grown, here))
        ]

  -- All tasks by their indices.
  count-index : (tasks : List TaskPlan) → sum_below (length tasks) (at_index tasks) ≡ count tasks
  unfolding at_index
  count-index [] = unfold sum_below in refl
  count-index (t ∷ tasks) =
      sum_first (length tasks) (at_index (t ∷ tasks))
      ∙ ap (λ m. one_if (q t) + m) (count-index tasks)

  -- Where the sort succeeds, its waves hold each task as often as the plan does: for any test on tasks,
  -- as many tasks of the waves pass it as tasks of the plan.
  pub topological_sort-count :
      (tasks : List TaskPlan) (waves : List (List TaskPlan))
      → topological_sort tasks ≡ some waves
      → count_all waves ≡ count tasks
  unfolding topological_sort
  topological_sort-count tasks waves ok =
      let n = length tasks in
      let es = edges tasks in
      let inside = edges-Inside tasks in
      let p = (index_waves tasks).1 in
      let inv = end_Inv tasks in
      let (full, e) =
        sort_result (length p.visited) n
          (map (λ wave. sort_wave (tasks_at tasks wave)) (index_waves tasks).0) waves ok in
      let weighed = gathered_weight tasks (build_graph tasks) n (start tasks) in
      let once =
        weight_once (at_index tasks) n p.visited (visited_below es n inside p inv)
          (each_once es n inside p inv full) in
      let none_yet : weight (at_index tasks) (start tasks).visited ≡ 0 =
        unfold start weight in refl in
      let gathered : collected tasks (index_waves tasks).0 ≡ count_all waves =
        unfold collected in ap count_all e in
      sym gathered ∙ omega (arith, weighed, none_yet, once, count-index tasks)
