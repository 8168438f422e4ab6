-- ===== src/Executor/IndexWaves.antt =====
-- The waves of task indices of services/orchestrator/executor/dag_executor.go, and the state that they
-- end in.
use multi_agent_agent_hub.Prelude.{
  ℕ, zero, suc, ◌+◌, ◌-◌, ◌≤◌, ◌≡◌, refl, ap, ◌∙◌, sym, subst, true, false, List, [], ◌∷◌, ◌++◌,
  append_assoc, append-nil, length, ◌==◌, ==_refl, Bool-cases, inl, inr, if◌then◌else◌, arith, All,
}
use multi_agent_agent_hub.Dag.{
  TaskPlan, Graph, set_at, build_graph, Progress, lower, pop_from, pop, kahn, start,
}
use multi_agent_agent_hub.Dag.Counting.{
  Edge, edges, occ, open_to, Has, build_graph-Has, Inside, edges-Inside,
}
use multi_agent_agent_hub.Dag.Invariant.{Inv, kahn-Inv, start-Inv, visited-lower}
use multi_agent_agent_hub.Dag.Acyclic.{kahn_idle, kahn_empties}
use multi_agent_agent_hub.Executor.{head_to, pop_wave, is_empty, collect_waves, index_waves}

-- Nodes in reverse order before others.
abbrev pub rev_onto : List ℕ → List ℕ → List ℕ
rev_onto [] done = done
rev_onto (u ∷ us) done = rev_onto us (u ∷ done)

-- Lowering only adds to the end of the queue.
queue-lower :
    (vs : List ℕ) (p : Progress) → (more : List ℕ) × ((lower vs p).queue ≡ p.queue ++ more)
unfolding lower
queue-lower [] p = ([], sym (append-nil p.queue))
queue-lower (v ∷ vs) p =
    let q = record p {
      in_degree = set_at p.in_degree v (p.in_degree v - 1);
      queue = if p.in_degree v == 1 then p.queue ++ v ∷ [] else p.queue;
    } in
    let (more, e) = queue-lower vs q in
    elim (Bool-cases (p.in_degree v == 1)) [
      | inl joins ↦ (
        v ∷ more,
        e
            ∙ (ap (λ b. (if b then p.queue ++ v ∷ [] else p.queue) ++ more) joins
                ∙ append_assoc p.queue (v ∷ []) more),
      )
      | inr waits ↦ (more, e ∙ ap (λ b. (if b then p.queue ++ v ∷ [] else p.queue) ++ more) waits)
    ]

module _ (g : Graph) where
  -- A wave of the size of a first part of the queue is that part.
  pub pop_wave-front :
      (xs ys : List ℕ) (p : Progress)
      → p.queue ≡ xs ++ ys
      → ((pop_wave g (length xs) p).0 ≡ xs)
        × ((pop_wave g (length xs) p).1.visited ≡ rev_onto xs p.visited)
  unfolding pop_wave pop
  pop_wave-front [] ys p e = (refl, refl)
  pop_wave-front (x ∷ xs) ys p e =
      let rest = record p { queue = xs ++ ys; visited = x ∷ p.visited } in
      let popped : pop g p ≡ lower (g.adj x) rest = ap (λ q. pop_from g q p) e in
      let (more, q) = queue-lower (g.adj x) rest in
      let ih =
        pop_wave-front xs (ys ++ more) (pop g p)
          (ap (λ r. r.queue) popped ∙ (q ∙ append_assoc xs ys more)) in
      (
        ap (λ l. head_to l (pop_wave g (length xs) (pop g p)).0) e ∙ ap (λ l. x ∷ l) ih.0,
        ih.1 ∙ ap (rev_onto xs) (ap (λ r. r.visited) popped ∙ visited-lower (g.adj x) rest),
      )

  pop_wave-kahn : (size : ℕ) (p : Progress) → (pop_wave g size p).1 ≡ kahn g size p
  unfolding pop_wave kahn
  pop_wave-kahn zero p = refl
  pop_wave-kahn (suc size) p = pop_wave-kahn size (pop g p)

  kahn_add : (k m : ℕ) (p : Progress) → kahn g (k + m) p ≡ kahn g m (kahn g k p)
  unfolding kahn
  kahn_add zero m p = let e : 0 + m ≡ m = omega arith in ap (λ i. kahn g i p) e
  kahn_add (suc k) m p =
      let e : suc k + m ≡ suc (k + m) = omega arith in
      ap (λ i. kahn g i p) e ∙ kahn_add k m (pop g p)

nil_if : (q : List ℕ) → is_empty q ≡ true → q ≡ []
nil_if [] h = refl
nil_if (u ∷ q) h = ground (arith, h)

some_if : (q : List ℕ) → is_empty q ≡ false → 1 ≤ length q
some_if [] h = ground (arith, h)
some_if (u ∷ q) h = omega arith

length-rev_onto : (us done : List ℕ) → length (rev_onto us done) ≡ length us + length done
length-rev_onto [] done = omega arith
length-rev_onto (u ∷ us) done = omega (arith, length-rev_onto us (u ∷ done))

-- Each node of a wave has all its dependencies in earlier waves.
abbrev pub Layered : List Edge → List ℕ → List (List ℕ) → Type 0
Layered es done [] = Unit
Layered es done (wave ∷ waves) =
    All (λ u. open_to u done es ≡ 0) wave × Layered es (rev_onto wave done) waves

All-by_occ {ℓ} : (P : ℕ → Type ℓ) (us : List ℕ) → ((u : ℕ) → 1 ≤ occ u us → P u) → All P us
All-by_occ P [] h = tt
All-by_occ P (u ∷ us) h =
    (h u (ground (arith, ==_refl u)), All-by_occ P us (λ v le. h v (omega (arith, le))))

module _ (es : List Edge) (n : ℕ) (g : Graph) (has : Has es g) (inside : All (Inside n) es) where
  queue-closed : (p : Progress) → Inv es n p → All (λ u. open_to u p.visited es ≡ 0) p.queue
  queue-closed p inv =
      All-by_occ (λ u. open_to u p.visited es ≡ 0) p.queue
        (λ u le. ground (arith, inv.counted u, inv.degrees u, le))

  wave-Inv : (p : Progress) → Inv es n p → Inv es n (pop_wave g (length p.queue) p).1
  wave-Inv p inv =
      subst (Inv es n) (sym (pop_wave-kahn g (length p.queue) p))
        (kahn-Inv es n g has inside (length p.queue) p inv)

  collect_waves-Layered :
      (fuel : ℕ) (p : Progress) → Inv es n p → Layered es p.visited (collect_waves g fuel p).0
  unfolding collect_waves
  collect_waves-Layered zero p inv = tt
  collect_waves-Layered (suc fuel) p inv =
      let (same, visited) = pop_wave-front g p.queue [] p (sym (append-nil p.queue)) in
      let q = (pop_wave g (length p.queue) p).1 in
      let ih = collect_waves-Layered fuel q (wave-Inv p inv) in
      elim (Bool-cases (is_empty p.queue)) [
        | inl none_left ↦ rw none_left tt
        | inr some_left ↦ rw some_left (
          subst (All (λ u. open_to u p.visited es ≡ 0)) (sym same) (queue-closed p inv),
          subst (λ d. Layered es d (collect_waves g fuel q).0)
              (visited ∙ ap (λ w. rev_onto w p.visited) (sym same)) ih,
        )
      ]

  -- The waves leave the state that some number of rounds leaves.
  collect_waves-kahn :
      (fuel : ℕ) (p : Progress) → (k : ℕ) × ((collect_waves g fuel p).1 ≡ kahn g k p)
  unfolding collect_waves
  collect_waves-kahn zero p = (0, unfold kahn in refl)
  collect_waves-kahn (suc fuel) p =
      let size = length p.queue in
      let (k, e) = collect_waves-kahn fuel (pop_wave g size p).1 in
      elim (Bool-cases (is_empty p.queue)) [
        | inl none_left ↦ (0, rw none_left (unfold kahn in refl))
        | inr some_left ↦ (
          size + k,
          rw some_left (e ∙ (ap (kahn g k) (pop_wave-kahn g size p) ∙ sym (kahn_add g size k p))),
        )
      ]

  collect_waves_empties :
      (fuel : ℕ) (p : Progress)
      → Inv es n p
      → n ≤ fuel + length p.visited
      → (collect_waves g fuel p).1.queue ≡ []
  unfolding collect_waves
  collect_waves_empties zero p inv le = unfold kahn in kahn_empties es n g has inside 0 p inv le
  collect_waves_empties (suc fuel) p inv le =
      let (same, visited) = pop_wave-front g p.queue [] p (sym (append-nil p.queue)) in
      let q = (pop_wave g (length p.queue) p).1 in
      let grown = ap length visited ∙ length-rev_onto p.queue p.visited in
      let ih = collect_waves_empties fuel q (wave-Inv p inv) in
      elim (Bool-cases (is_empty p.queue)) [
        | inl none_left ↦ rw none_left (nil_if p.queue none_left)
        | inr some_left ↦
            let more = some_if p.queue some_left in
            rw some_left (ih (omega (arith, more, grown, le)))
      ]

module _ (tasks : List TaskPlan) where
  pub same_end : (index_waves tasks).1 ≡ kahn (build_graph tasks) (length tasks) (start tasks)
  same_end =
      let n = length tasks in
      let g = build_graph tasks in
      let has = build_graph-Has tasks in
      let inside = edges-Inside tasks in
      let s = start tasks in
      let inv = start-Inv tasks in
      let (k, e) = collect_waves-kahn (edges tasks) n g has inside n s in
      let here_empty =
        ap (λ r. r.queue) (sym e)
        ∙ collect_waves_empties (edges tasks) n g has inside n s inv (omega arith) in
      let there_empty = kahn_empties (edges tasks) n g has inside n s inv (omega arith) in
      let flip : k + n ≡ n + k = omega arith in
      e
      ∙ (sym (kahn_add g k n s ∙ kahn_idle (edges tasks) n g has inside n (kahn g k s) here_empty)
          ∙ (ap (λ i. kahn g i s) flip
              ∙ (kahn_add g n k s
                  ∙ kahn_idle (edges tasks) n g has inside k (kahn g n s) there_empty)))

  pub index_waves-Layered : Layered (edges tasks) [] (index_waves tasks).0
  unfolding start
  index_waves-Layered =
      collect_waves-Layered (edges tasks) (length tasks) (build_graph tasks) (build_graph-Has tasks)
        (edges-Inside tasks) (length tasks) (start tasks) (start-Inv tasks)
