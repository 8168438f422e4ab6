-- ===== src/Dag/Acyclic.antt =====
-- checkDAGCycle of services/orchestrator/validator/validator.go finds a cycle exactly if there is one.
use multi_agent_agent_hub.Prelude.{
  ℕ, zero, suc, ◌+◌, ◌≤◌, ◌<◌, ◌≡◌, refl, ap, ◌∙◌, sym, subst, ◌↔◌, false, none, some, List, [],
  ◌∷◌, ◌++◌, length, length-append, ltb, ◌==◌, ==_iff, Bool-cases, inl, inr, if◌then◌else◌, arith,
  All,
}
use multi_agent_agent_hub.Dag.{
  TaskPlan, Graph, build_graph, Progress, pop_from, pop, kahn, start, check_dag_cycle,
}
use multi_agent_agent_hub.Dag.Counting.{
  Edge, edges, occ, open_to, occ-append, Has, build_graph-Has, Inside, edges-Inside,
}
use multi_agent_agent_hub.Dag.Sums.{sum_occ, sum_at_most, sum_full, sum_ones}
use multi_agent_agent_hub.Dag.Invariant.{
  Inv, Ordered, All-occ, kahn-Inv, start-Inv, visited-pop_from,
}

-- A node's place in the order: the nodes visited before it, and itself.
place : ℕ → List ℕ → ℕ
place v [] = 0
place v (u ∷ us) = if u == v then suc (length us) else place v us

place_bound : (v : ℕ) (us : List ℕ) → place v us ≤ length us
unfolding place
place_bound v [] = omega arith
place_bound v (u ∷ us) = ground (arith, place_bound v us)

-- Where no node stands twice, an edge into a visited node comes from an earlier one.
edge_in_order :
    (j i : ℕ) (es : List Edge) (us : List ℕ)
    → Ordered ((j, i) ∷ es) us
    → ((v : ℕ) → occ v us ≤ 1)
    → 1 ≤ occ i us
    → (1 ≤ occ j us) × (place j us < place i us)
unfolding place
edge_in_order j i es [] h once some_i = absurd (omega (arith, some_i))
edge_in_order j i es (u ∷ us) h once some_i = elim (Bool-cases (u == i)) [
  | inl eq ↦
      let e = (==_iff u i).0 eq in
      let before : 1 ≤ occ j us = ground (arith, h.0, eq, (==_iff i u).1 (sym e)) in
      (omega (arith, before), ground (arith, eq, before, once j, place_bound j us))
  | inr ne ↦
      let ih =
        edge_in_order j i es us h.1 (λ v. omega (arith, once v)) (ground (arith, some_i, ne)) in
      (omega (arith, ih.0), ground (arith, ne, ih.0, ih.1, once j))
]

-- All edges are in order.
edges_in_order :
    (es : List Edge) (n : ℕ) (us : List ℕ)
    → Ordered es us
    → All (Inside n) es
    → ((v : ℕ) → occ v us ≤ 1)
    → ((v : ℕ) → v < n → occ v us ≡ 1)
    → All (λ e. place e.0 us < place e.1 us) es
edges_in_order [] n us h inside once full = tt
edges_in_order ((j, i) ∷ es) n us h inside once full = (
  (edge_in_order j i es us h once (omega (arith, full i inside.0.1))).1,
  edges_in_order es n us (weaken us h) inside.1 once full,
)
  where
    weaken : (vs : List ℕ) → Ordered ((j, i) ∷ es) vs → Ordered es vs
    weaken [] k = tt
    weaken (v ∷ vs) k = (omega (arith, k.0), weaken vs k.1)

-- A node whose sources are all done waits for nothing.
closed_by_rank :
    (r : ℕ → ℕ) (n k v : ℕ) (done : List ℕ) (es : List Edge)
    → All (Inside n) es
    → All (λ e. r e.0 < r e.1) es
    → ((u : ℕ) → u < n → r u < k → occ u done ≡ 1)
    → r v ≤ k
    → open_to v done es ≡ 0
closed_by_rank r n k v done [] inside up before le = refl
closed_by_rank r n k v done ((j, i) ∷ es) inside up before le =
    let rest = closed_by_rank r n k v done es inside.1 up.1 before le in
    elim (Bool-cases (i == v)) [
      | inl eq ↦
          let at_v = ap r ((==_iff i v).0 eq) in
          ground (arith, eq, rest, before j inside.0.0 (omega (arith, up.0, at_v, le)))
      | inr ne ↦ ground (arith, ne, rest)
    ]

module _ (es : List Edge) (n : ℕ) (inside : All (Inside n) es) where
  once : (p : Progress) → Inv es n p → (v : ℕ) → occ v p.visited + occ v p.queue ≤ 1
  once p inv v = ground (arith, inv.counted v)

  room : (p : Progress) → Inv es n p → length p.visited + length p.queue ≤ n
  room p inv =
      let both = p.visited ++ p.queue in
      let split : (v : ℕ) → occ v both ≡ occ v p.visited + occ v p.queue =
        λ v. occ-append v p.visited p.queue in
      let below = All-occ n both (λ v le. ground (arith, inv.counted v, split v, le)) in
      omega (
        arith,
        sum_occ n both below,
        sum_at_most n (λ v. occ v both) (λ v. omega (arith, once p inv v, split v)),
        length-append p.visited p.queue,
      )

  pub visited_below : (p : Progress) → Inv es n p → All (λ v. v < n) p.visited
  visited_below p inv = All-occ n p.visited (λ v some_v. ground (arith, inv.counted v, some_v))

  -- With as many visited nodes as there are, each is visited once.
  pub each_once :
      (p : Progress) → Inv es n p → n ≤ length p.visited → (v : ℕ) → v < n → occ v p.visited ≡ 1
  each_once p inv le =
      sum_full n (λ v. occ v p.visited) (λ v. omega (arith, once p inv v))
        (omega (arith, sum_occ n p.visited (visited_below p inv), le))

  -- With an empty queue, the order is complete exactly if the edges have a rank.
  ranked :
      (p : Progress)
      → Inv es n p
      → p.queue ≡ []
      → n ≤ length p.visited
      → (r : ℕ → ℕ) × All (λ e. r e.0 < r e.1) es
  ranked p inv e le =
      let single : (v : ℕ) → occ v p.visited ≤ 1 = λ v. omega (arith, once p inv v) in
      (
        λ v. place v p.visited,
        edges_in_order es n p.visited inv.ordered inside single (each_once p inv le),
      )

  visited_by_rank :
      (p : Progress)
      → Inv es n p
      → p.queue ≡ []
      → (r : ℕ → ℕ) → All (λ e. r e.0 < r e.1) es
      → (k v : ℕ) → v < n
      → r v < k
      → occ v p.visited ≡ 1
  visited_by_rank p inv e r up zero v lt rank = absurd (omega (arith, rank))
  visited_by_rank p inv e r up (suc k) v lt rank =
      let closed =
        closed_by_rank r n k v p.visited es inside up (visited_by_rank p inv e r up k)
          (omega (arith, rank)) in
      let no_queue : occ v p.queue ≡ 0 = ap (occ v) e in
      ground (arith, inv.counted v, inv.degrees v, closed, no_queue, lt)

  complete :
      (p : Progress)
      → Inv es n p
      → p.queue ≡ []
      → (r : ℕ → ℕ) → All (λ e. r e.0 < r e.1) es
      → n ≤ length p.visited
  complete p inv e r up =
      let full : (v : ℕ) → v < n → occ v p.visited ≡ 1 =
        λ v lt. visited_by_rank p inv e r up (suc (r v)) v lt (omega arith) in
      let below = All-occ n p.visited (λ v some_v. ground (arith, inv.counted v, some_v)) in
      omega (arith, sum_ones n (λ v. occ v p.visited) full, sum_occ n p.visited below)

nil_of_length {ℓ} : {A : Type ℓ} (xs : List A) → length xs ≡ 0 → xs ≡ []
nil_of_length [] h = refl
nil_of_length (x ∷ xs) h = absurd (omega (arith, h))

passed {ℓ} : {A : Type ℓ} (b n : ℕ) (x : A) → (if ltb b n then some x else none) ≡ none → n ≤ b
passed b n x h = elim (Bool-cases (ltb b n)) [
  | inl lt ↦ some_none (subst (λ c. (if c then some x else none) ≡ none) lt h)
  | inr ge ↦ ground (arith, ge)
]
  where
    some_none : some x ≡ none → n ≤ b
    some_none e = ground (arith, e)

-- As many rounds as there are tasks empty the queue.
module _ (es : List Edge) (n : ℕ) (g : Graph) (has : Has es g) (inside : All (Inside n) es) where
  pub kahn_idle : (fuel : ℕ) (p : Progress) → p.queue ≡ [] → kahn g fuel p ≡ p
  unfolding kahn pop
  kahn_idle zero p e = refl
  kahn_idle (suc fuel) p e = ap (λ q. kahn g fuel (pop_from g q p)) e ∙ kahn_idle fuel p e

  pub kahn_empties :
      (fuel : ℕ) (p : Progress)
      → Inv es n p
      → n ≤ fuel + length p.visited
      → (kahn g fuel p).queue ≡ []
  unfolding kahn pop
  kahn_empties zero p inv le = nil_of_length p.queue (omega (arith, room es n inside p inv, le))
  kahn_empties (suc fuel) p inv le =
      let ih = kahn_empties fuel (pop g p) (kahn-Inv es n g has inside 1 p inv) in
      elim (visited-pop_from es n g has inside p.queue p) [
        | inl e ↦ ap (λ q. q.queue) (kahn_idle (suc fuel) p e) ∙ e
        | inr grown ↦ ih (omega (arith, grown, le))
      ]

module _ (tasks : List TaskPlan) where
  last : Progress
  last = kahn (build_graph tasks) (length tasks) (start tasks)

  last-Inv : Inv (edges tasks) (length tasks) last
  unfolding last
  last-Inv =
      kahn-Inv (edges tasks) (length tasks) (build_graph tasks) (build_graph-Has tasks)
        (edges-Inside tasks) (length tasks) (start tasks) (start-Inv tasks)

  last_empty : last.queue ≡ []
  unfolding last
  last_empty =
      kahn_empties (edges tasks) (length tasks) (build_graph tasks) (build_graph-Has tasks)
        (edges-Inside tasks) (length tasks) (start tasks) (start-Inv tasks) (omega arith)

  -- For any tasks, the check reports no cycle exactly if the tasks can be numbered so that each
  -- task's number is above those of all tasks that it depends on.
  pub check_dag_cycle-acyclic :
      (check_dag_cycle tasks ≡ none) ↔ ((r : ℕ → ℕ) × All (λ e. r e.0 < r e.1) (edges tasks))
  unfolding check_dag_cycle last
  check_dag_cycle-acyclic = (
    λ ok.
        let n = length tasks in
        ranked (edges tasks) n (edges-Inside tasks) last last-Inv last_empty
          (passed (length last.visited) n (length last.visited, n) ok),
    λ h.
        let full =
          complete (edges tasks) (length tasks) (edges-Inside tasks) last last-Inv last_empty h.0
            h.1 in
        let not_below : ltb (length last.visited) (length tasks) ≡ false = ground (arith, full) in
        ap (λ c. if c then some (length last.visited, length tasks) else none) not_below,
  )
