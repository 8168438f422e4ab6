-- ===== src/Executor/Dependencies.antt =====
-- The index of a plan's ids, and the edges of one task, of services/orchestrator/executor/dag_executor.go.
use multi_agent_agent_hub.Prelude.{
  ℕ, zero, suc, ◌+◌, ◌≤◌, ◌≡◌, refl, ap, ◌∙◌, sym, subst, Bool, true, false, ◌||◌, Option, none,
  some, List, [], ◌∷◌, ◌++◌, Bool-cases, str_eq, any, get_elem?, inl, inr, if◌then◌else◌, if-cases,
  ==_refl, arith, All, String,
}
use multi_agent_agent_hub.Prelude.Dict.{Dict, lookup, insert, lookup-insert}
use multi_agent_agent_hub.Dag.{TaskPlan, task_index}
use multi_agent_agent_hub.Dag.Counting.{
  edges_to, edges_from, found_edge, occ, open_to, open_to-append,
}

abbrev pub is_some {ℓ} : {A : Type ℓ} → Option A → Bool
is_some none = false
is_some (some a) = true

-- A task with the id is among the tasks.
abbrev pub given : String → List TaskPlan → Bool
given id tasks = any (λ t. str_eq t.task_id id) tasks

pub given-append :
    (id : String) (ts us : List TaskPlan) → given id (ts ++ us) ≡ (given id ts || given id us)
given-append id [] us = refl
given-append id (t ∷ ts) us = ground (arith, given-append id ts us)

-- The entry is a task with the id.
abbrev pub has_id : String → Option TaskPlan → Bool
has_id id none = false
has_id id (some t) = str_eq t.task_id id

module _ (plan : List TaskPlan) where
  abbrev pub Named : String → Option ℕ → Type 0
  Named id none = Unit
  Named id (some j) = has_id id (get_elem? plan j) ≡ true

  -- An index stands for a task with the id.
  pub task_index-Named :
      (i : ℕ) (ts : List TaskPlan) (index : Dict ℕ)
      → ((k : ℕ) → get_elem? plan (i + k) ≡ get_elem? ts k)
      → ((id : String) → Named id (lookup id index))
      → (id : String) → Named id (lookup id (task_index i ts index))
  unfolding task_index
  task_index-Named i [] index at h id = h id
  task_index-Named i (t ∷ ts) index at h id =
      task_index-Named (suc i) ts (insert t.task_id i index)
        (λ k. let e : suc i + k ≡ i + suc k = omega arith in ap (get_elem? plan) e ∙ at (suc k))
        (λ x.
          let e : i ≡ i + 0 = omega arith in
          let here : get_elem? plan i ≡ some t = ap (get_elem? plan) e ∙ at 0 in
          rw (lookup-insert t.task_id x i index) (
            if-cases (Named x) (str_eq t.task_id x) (some i) (lookup x index)
              (λ same. ap (has_id x) here ∙ same) (λ other. h x)))
        id

  -- Every id of the plan has an index.
  pub task_index-found :
      (id : String) (i : ℕ) (ts : List TaskPlan) (index : Dict ℕ)
      → is_some (lookup id (task_index i ts index)) ≡ (given id ts || is_some (lookup id index))
  unfolding task_index
  task_index-found id i [] index = refl
  task_index-found id i (t ∷ ts) index =
      let put = ap is_some (lookup-insert t.task_id id i index) in
      let step = task_index-found id (suc i) ts (insert t.task_id i index) in
      elim (Bool-cases (str_eq t.task_id id)) [
        | inl same ↦
            let now = put ∙ ap (λ b. is_some (if b then some i else lookup id index)) same in
            step ∙ ground (arith, now, same)
        | inr other ↦
            let old = put ∙ ap (λ b. is_some (if b then some i else lookup id index)) other in
            step ∙ ground (arith, old, other)
      ]

abbrev pub Settled : List ℕ → Option ℕ → Type 0
Settled done none = Unit
Settled done (some j) = 1 ≤ occ j done

module _ (done : List ℕ) where
  found_edge-Settled : (u : ℕ) (o : Option ℕ) → open_to u done (found_edge o u) ≡ 0 → Settled done o
  found_edge-Settled u none h = tt
  found_edge-Settled u (some j) h = ground (arith, h, ==_refl u)

  edges_to-Settled :
      (u : ℕ) (index : Dict ℕ) (deps : List String)
      → open_to u done (edges_to index u deps) ≡ 0
      → All (λ id. Settled done (lookup id index)) deps
  edges_to-Settled u index [] h = tt
  edges_to-Settled u index (id ∷ deps) h =
      let here = found_edge (lookup id index) u in
      let sum = open_to-append u done here (edges_to index u deps) in
      (
        found_edge-Settled u (lookup id index) (omega (arith, sum, h)),
        edges_to-Settled u index deps (omega (arith, sum, h)),
      )

  pub edges_from-Settled :
      (i k : ℕ) (index : Dict ℕ) (ts : List TaskPlan) (t : TaskPlan)
      → get_elem? ts k ≡ some t
      → open_to (i + k) done (edges_from index i ts) ≡ 0
      → All (λ id. Settled done (lookup id index)) t.depends_on
  edges_from-Settled i k index [] t at h = ground (arith, at)
  edges_from-Settled i zero index (u ∷ ts) t at h =
      let e : i + 0 ≡ i = omega arith in
      let first = edges_to index i u.depends_on in
      let sum = open_to-append i done first (edges_from index (suc i) ts) in
      let zero_at = subst (λ j. open_to j done (edges_from index i (u ∷ ts)) ≡ 0) e h in
      let u_t : u ≡ t = ground (arith, at) in
      subst (λ x. All (λ id. Settled done (lookup id index)) x.depends_on) u_t
        (edges_to-Settled i index u.depends_on (omega (arith, sum, zero_at)))
  edges_from-Settled i (suc k) index (u ∷ ts) t at h =
      let e : suc i + k ≡ i + suc k = omega arith in
      let first = edges_to index i u.depends_on in
      let sum = open_to-append (i + suc k) done first (edges_from index (suc i) ts) in
      let rest : open_to (i + suc k) done (edges_from index (suc i) ts) ≡ 0 =
        omega (arith, sum, h) in
      edges_from-Settled (suc i) k index ts t at
        (subst (λ j. open_to j done (edges_from index (suc i) ts) ≡ 0) (sym e) rest)
