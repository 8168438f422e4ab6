-- ===== src/Executor/Layers.antt =====
-- The waves that the sort of services/orchestrator/executor/dag_executor.go returns, against the
-- validator's check.
use multi_agent_agent_hub.Prelude.{
  ℕ, ◌+◌, ◌≤◌, ◌≡◌, refl, ap, ◌∙◌, subst, Bool, true, false, not, ◌||◌, Option, none, some, List,
  [], ◌∷◌, ◌++◌, map, length, ltb, ◌==◌, Bool-cases, Option-cases, get_elem?, inl, inr,
  if◌then◌else◌, if-both, ==_iff, arith, All, String,
}
use multi_agent_agent_hub.Prelude.Int.{ltb_ℤ}
use multi_agent_agent_hub.Prelude.Dict.{empty, lookup}
use multi_agent_agent_hub.Dag.{TaskPlan, task_index, build_graph, kahn, start, check_dag_cycle}
use multi_agent_agent_hub.Dag.Counting.{edges, edges_from, occ, open_to}
use multi_agent_agent_hub.Executor.{
  index_waves, insert_task, sort_wave, cons_found, tasks_at, topological_sort,
}
use multi_agent_agent_hub.Executor.IndexWaves.{rev_onto, Layered, index_waves-Layered, same_end}
use multi_agent_agent_hub.Executor.Dependencies.{
  is_some, given, given-append, has_id, Named, task_index-Named, task_index-found, Settled,
  edges_from-Settled,
}

abbrev pub is_none {ℓ} : {A : Type ℓ} → Option A → Bool
is_none none = true
is_none (some a) = false

opposite {ℓ κ} :
    {A : Type ℓ} {B : Type κ} (c : Bool) (a : A) (b : B)
    → is_some (if c then none else some a) ≡ is_none (if c then some b else none)
opposite true a b = refl
opposite false a b = refl

-- The task waits for no id of the plan but those of the tasks in `done`.
abbrev pub AllDone : List TaskPlan → List TaskPlan → TaskPlan → Type 0
AllDone plan done t = All (λ id. (not (given id plan) || given id done) ≡ true) t.depends_on

-- Each task of a wave waits only for tasks of earlier waves.
abbrev pub InLayers : List TaskPlan → List TaskPlan → List (List TaskPlan) → Type 0
InLayers plan done [] = Unit
InLayers plan done (wave ∷ waves) =
    All (AllDone plan done) wave × InLayers plan (done ++ wave) waves

abbrev pub ResultInLayers : List TaskPlan → Option (List (List TaskPlan)) → Type 0
ResultInLayers plan none = Unit
ResultInLayers plan (some waves) = InLayers plan [] waves

module _ {ℓ} (P : TaskPlan → Type ℓ) where
  All-insert_task : (t : TaskPlan) (ts : List TaskPlan) → P t → All P ts → All P (insert_task t ts)
  unfolding insert_task
  All-insert_task t [] h hs = (h, tt)
  All-insert_task t (u ∷ ts) h (hu, hs) =
      if-both (All P) (ltb_ℤ u.priority t.priority) (u ∷ insert_task t ts) (t ∷ u ∷ ts)
        (hu, All-insert_task t ts h hs) (h, (hu, hs))

  All-sort_wave : (ts : List TaskPlan) → All P ts → All P (sort_wave ts)
  unfolding sort_wave
  All-sort_wave [] hs = tt
  All-sort_wave (t ∷ ts) (h, hs) = All-insert_task t (sort_wave ts) h (All-sort_wave ts hs)

given-insert_task :
    (id : String) (t : TaskPlan) (ts : List TaskPlan)
    → given id (insert_task t ts) ≡ given id (t ∷ ts)
unfolding insert_task
given-insert_task id t [] = refl
given-insert_task id t (u ∷ ts) =
    if-both (λ l. given id l ≡ given id (t ∷ u ∷ ts)) (ltb_ℤ u.priority t.priority)
      (u ∷ insert_task t ts) (t ∷ u ∷ ts) (ground (arith, given-insert_task id t ts)) refl

given-sort_wave : (id : String) (ts : List TaskPlan) → given id (sort_wave ts) ≡ given id ts
unfolding sort_wave
given-sort_wave id [] = refl
given-sort_wave id (t ∷ ts) =
    given-insert_task id t (sort_wave ts) ∙ ground (arith, given-sort_wave id ts)

occ-rev_onto : (v : ℕ) (us done : List ℕ) → occ v (rev_onto us done) ≡ occ v us + occ v done
occ-rev_onto v [] done = omega arith
occ-rev_onto v (u ∷ us) done = omega (arith, occ-rev_onto v us (u ∷ done))

given-cons_found :
    (id : String) (o : Option TaskPlan) (ts : List TaskPlan)
    → given id (cons_found o ts) ≡ (has_id id o || given id ts)
given-cons_found id none ts = refl
given-cons_found id (some t) ts = ground arith

module _ (plan : List TaskPlan) where
  -- The tasks have the ids of the tasks at the done indices.
  Covers : List TaskPlan → List ℕ → Type 0
  Covers ts done =
      (id : String) (j : ℕ)
      → 1 ≤ occ j done
      → has_id id (get_elem? plan j) ≡ true
      → given id ts ≡ true

  tasks_at-Covers : (wave : List ℕ) → Covers (tasks_at plan wave) wave
  unfolding Covers tasks_at
  tasks_at-Covers [] id j le h = ground (arith, le)
  tasks_at-Covers (u ∷ us) id j le h =
      let found = given-cons_found id (get_elem? plan u) (tasks_at plan us) in
      elim (Bool-cases (u == j)) [
        | inl same ↦
            let at_u = ap (λ k. has_id id (get_elem? plan k)) ((==_iff u j).0 same) ∙ h in
            found ∙ ground (arith, at_u)
        | inr other ↦
            let rest = tasks_at-Covers us id j (ground (arith, le, other)) h in
            found ∙ ground (arith, rest)
      ]

  wave-Covers :
      (ts : List TaskPlan) (wave done : List ℕ)
      → Covers ts done
      → Covers (ts ++ sort_wave (tasks_at plan wave)) (rev_onto wave done)
  unfolding Covers
  wave-Covers ts wave done c id j le h =
      let both = given-append id ts (sort_wave (tasks_at plan wave)) in
      let sorted = given-sort_wave id (tasks_at plan wave) in
      let sum = occ-rev_onto j wave done in
      elim (Bool-cases (ltb 0 (occ j done))) [
        | inl old ↦ let here = c id j (ground (arith, old)) h in both ∙ ground (arith, here)
        | inr new ↦
            let here = tasks_at-Covers wave id j (ground (arith, sum, le, new)) h in
            both ∙ ground (arith, here, sorted)
      ]

  done_if_found :
      (ts : List TaskPlan) (done : List ℕ) (id : String) (o : Option ℕ)
      → Covers ts done
      → Named plan id o
      → is_some o ≡ given id plan
      → Settled done o
      → (not (given id plan) || given id ts) ≡ true
  unfolding Covers
  done_if_found ts done id none c named found h = ground (arith, found)
  done_if_found ts done id (some j) c named found h = ground (arith, c id j h named)

  module _ (ts : List TaskPlan) (done : List ℕ) (c : Covers ts done) where
    deps_done :
        (ids : List String)
        → All (λ id. Settled done (lookup id (task_index 0 plan empty))) ids
        → All (λ id. (not (given id plan) || given id ts) ≡ true) ids
    unfolding lookup
    deps_done [] h = tt
    deps_done (id ∷ ids) (h, hs) =
        let o = lookup id (task_index 0 plan empty) in
        let named =
          task_index-Named plan 0 plan empty
            (λ k. let e : 0 + k ≡ k = omega arith in ap (get_elem? plan) e) (λ x. tt) id in
        let found = task_index-found plan id 0 plan empty in
        (done_if_found ts done id o c named (found ∙ ground arith) h, deps_done ids hs)

    tasks_at-AllDone :
        (wave : List ℕ)
        → All (λ u. open_to u done (edges plan) ≡ 0) wave
        → All (AllDone plan ts) (tasks_at plan wave)
    unfolding tasks_at edges
    tasks_at-AllDone [] h = tt
    tasks_at-AllDone (u ∷ us) (h, hs) = elim (Option-cases (get_elem? plan u)) [
      | inl out ↦ rw out (tasks_at-AllDone us hs)
      | inr (t, at) ↦
          let e : u ≡ 0 + u = omega arith in
          let index = task_index 0 plan empty in
          rw at (
            deps_done t.depends_on (
                edges_from-Settled done 0 u index plan t at
                  (subst (λ v. open_to v done (edges_from index 0 plan) ≡ 0) e h)),
            tasks_at-AllDone us hs,
          )
    ]

  layers_of_tasks :
      (waves : List (List ℕ)) (ts : List TaskPlan) (done : List ℕ)
      → Covers ts done
      → Layered (edges plan) done waves
      → InLayers plan ts (map (λ wave. sort_wave (tasks_at plan wave)) waves)
  layers_of_tasks [] ts done c h = tt
  layers_of_tasks (wave ∷ waves) ts done c (h, hs) = (
    All-sort_wave (AllDone plan ts) (tasks_at plan wave) (tasks_at-AllDone ts done c wave h),
    layers_of_tasks waves (ts ++ sort_wave (tasks_at plan wave)) (rev_onto wave done)
        (wave-Covers ts wave done c) hs,
  )

  -- The executor's sort returns waves exactly if the validator's check finds no cycle, and in the
  -- waves that it returns, in their order, each dependency of a task that is an id of the plan is
  -- the id of a task in an earlier wave.
  pub topological_sort-Layered :
      (is_some (topological_sort plan) ≡ is_none (check_dag_cycle plan))
      × ResultInLayers plan (topological_sort plan)
  unfolding topological_sort check_dag_cycle
  topological_sort-Layered =
      let n = length plan in
      let waves = map (λ wave. sort_wave (tasks_at plan wave)) (index_waves plan).0 in
      let reached = length (kahn (build_graph plan) n (start plan)).visited in
      (
        ap (λ r. is_some (if ltb (length r.visited) n then none else some waves)) (same_end plan)
            ∙ opposite (ltb reached n) waves (reached, n),
        if-both (ResultInLayers plan) (ltb (length (index_waves plan).1.visited) n) none
            (some waves) tt
            (layers_of_tasks (index_waves plan).0 [] []
              (unfold Covers in λ id j le h. ground (arith, le)) (index_waves-Layered plan)),
      )
