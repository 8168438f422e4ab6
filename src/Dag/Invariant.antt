-- ===== src/Dag/Invariant.antt =====
-- The invariant of Kahn's algorithm in services/orchestrator/validator/validator.go.
use multi_agent_agent_hub.Prelude.{
  ℕ, zero, suc, ◌+◌, ◌-◌, ◌≤◌, ◌<◌, ◌≡◌, refl, ap, ◌∙◌, sym, subst, ◌⊎◌, false, List, [], ◌∷◌, ◌++◌,
  length, ltb, leb, ◌==◌, ==_iff, ==_refl, Bool-cases, inl, inr, if◌then◌else◌, arith, All,
}
use multi_agent_agent_hub.Dag.{
  TaskPlan, Graph, set_at, build_graph, ready, Progress, lower, pop_from, pop, kahn, start,
}
use multi_agent_agent_hub.Dag.Counting.{
  Edge, edges, one_if, occ, between, open_to, occ-append, open_to-done, Has, build_graph-Has,
  Inside,
}

-- A node below `n` is in the queue or visited, once, exactly if it waits for nothing.
Counted : ℕ → Progress → Type 0
Counted n p =
    (v : ℕ)
    → occ v p.visited + occ v p.queue ≡ one_if (if p.in_degree v == 0 then ltb v n else false)

lower_one :
    (n w : ℕ) (p : Progress)
    → w < n
    → 1 ≤ p.in_degree w
    → Counted n p
    → Counted n (record p {
      in_degree = set_at p.in_degree w (p.in_degree w - 1);
      queue = if p.in_degree w == 1 then p.queue ++ w ∷ [] else p.queue;
    })
unfolding Counted
lower_one n w p lt some_left h v = elim (Bool-cases (v == w)) [
  | inl eq ↦
      subst
        (λ k.
          occ k p.visited + occ k (if p.in_degree w == 1 then p.queue ++ w ∷ [] else p.queue)
          ≡ one_if (if set_at p.in_degree w (p.in_degree w - 1) k == 0 then ltb k n else false))
        (sym ((==_iff v w).0 eq)) (ground (arith, h w, occ-append w p.queue (w ∷ [])))
  | inr ne ↦ ground (arith, ne, h v, occ-append v p.queue (w ∷ []))
]

-- Each node that is lowered waits for at least as many dependencies.
Enough : List ℕ → Progress → Type 0
Enough vs p = (v : ℕ) → occ v vs ≤ p.in_degree v

abbrev lowered : ℕ → Progress → Progress
lowered w p = record p {
  in_degree = set_at p.in_degree w (p.in_degree w - 1);
  queue = if p.in_degree w == 1 then p.queue ++ w ∷ [] else p.queue;
}

lowered_degree :
    (w : ℕ) (p : Progress)
    → 1 ≤ p.in_degree w
    → (v : ℕ) → (lowered w p).in_degree v + one_if (w == v) ≡ p.in_degree v
lowered_degree w p h v = elim (Bool-cases (v == w)) [
  | inl eq ↦
      subst (λ k. set_at p.in_degree w (p.in_degree w - 1) k + one_if (w == k) ≡ p.in_degree k)
        (sym ((==_iff v w).0 eq)) (ground (arith, h))
  | inr ne ↦ ground (arith, ne)
]

lower-Counted :
    (n : ℕ) (vs : List ℕ) (p : Progress)
    → All (λ v. v < n) vs
    → Enough vs p
    → Counted n p
    → Counted n (lower vs p)
unfolding lower Enough
lower-Counted n [] p inside enough h = h
lower-Counted n (w ∷ vs) p inside enough h =
    let at_w : 1 ≤ p.in_degree w = ground (arith, enough w) in
    lower-Counted n vs (lowered w p) inside.1
      (λ v. ground (arith, enough v, lowered_degree w p at_w v)) (lower_one n w p inside.0 at_w h)

lower_degrees :
    (vs : List ℕ) (p : Progress)
    → Enough vs p
    → (v : ℕ) → (lower vs p).in_degree v + occ v vs ≡ p.in_degree v
unfolding lower Enough
lower_degrees [] p enough v = omega arith
lower_degrees (w ∷ vs) p enough v =
    let at_w : 1 ≤ p.in_degree w = ground (arith, enough w) in
    let rest : Enough vs (lowered w p) =
      (λ u. ground (arith, enough u, lowered_degree w p at_w u)) in
    omega (arith, lower_degrees vs (lowered w p) rest v, lowered_degree w p at_w v)

pub visited-lower : (vs : List ℕ) (p : Progress) → (lower vs p).visited ≡ p.visited
unfolding lower
visited-lower [] p = refl
visited-lower (w ∷ vs) p = visited-lower vs (lowered w p)

-- Each visited node, the latest first, comes after all nodes that it has an edge from.
abbrev pub Ordered : List Edge → List ℕ → Type 0
Ordered es [] = Unit
Ordered es (u ∷ us) = (open_to u us es ≡ 0) × Ordered es us

pub record Inv (es : List Edge) (n : ℕ) (p : Progress) : Type 0 where
  pub counted :
      (v : ℕ)
      → occ v p.visited + occ v p.queue ≡ one_if (if p.in_degree v == 0 then ltb v n else false)
  pub degrees : (v : ℕ) → p.in_degree v ≡ open_to v p.visited es
  pub ordered : Ordered es p.visited

pub All-occ : (n : ℕ) (vs : List ℕ) → ((v : ℕ) → 1 ≤ occ v vs → v < n) → All (λ v. v < n) vs
All-occ n [] h = tt
All-occ n (v ∷ vs) h =
    (h v (ground (arith, ==_refl v)), All-occ n vs (λ u le. h u (omega (arith, le))))

between-Inside : (n u v : ℕ) (es : List Edge) → All (Inside n) es → 1 ≤ between u v es → v < n
between-Inside n u v [] h le = absurd (omega (arith, le))
between-Inside n u v ((j, i) ∷ es) h le = elim (Bool-cases (i == v)) [
  | inl eq ↦ subst (λ k. k < n) ((==_iff i v).0 eq) h.0.1
  | inr ne ↦ between-Inside n u v es h.1 (ground (arith, le, ne))
]

module _ (es : List Edge) (n : ℕ) (g : Graph) (has : Has es g) (inside : All (Inside n) es) where
  -- The head of the queue waits for nothing, and was not visited before.
  head_ready :
      (u : ℕ) (queue : List ℕ) (p : Progress)
      → p.queue ≡ u ∷ queue
      → Inv es n p
      → (p.in_degree u ≡ 0) × (occ u p.visited ≡ 0)
  head_ready u queue p e inv =
      let c = inv.counted u in
      let q : occ u p.queue ≡ occ u (u ∷ queue) = ap (occ u) e in
      (ground (arith, c, q), ground (arith, c, q))

  pop_from-Inv :
      (queue : List ℕ) (p : Progress) → p.queue ≡ queue → Inv es n p → Inv es n (pop_from g queue p)
  unfolding Enough Counted
  pop_from-Inv [] p e inv = inv
  pop_from-Inv (u ∷ queue) p e inv =
      let p1 = record p { queue = queue; visited = u ∷ p.visited } in
      let (zero_degree, fresh) = head_ready u queue p e inv in
      let same_queue : (v : ℕ) → occ v p.queue ≡ occ v (u ∷ queue) = λ v. ap (occ v) e in
      let targets = has.targets u in
      let done : (v : ℕ) → open_to v (u ∷ p.visited) es + between u v es ≡ open_to v p.visited es =
        λ v. open_to-done u v p.visited es fresh in
      let enough : Enough (g.adj u) p1 = λ v. omega (arith, targets v, inv.degrees v, done v) in
      let below =
        All-occ n (g.adj u)
          (λ v le. between-Inside n u v es inside (omega (arith, le, targets v))) in
      let counted : Counted n p1 = λ v. ground (arith, inv.counted v, same_queue v) in
      record {
        counted = lower-Counted n (g.adj u) p1 below enough counted;
        degrees = λ v.
            rw (visited-lower (g.adj u) p1) (
              omega (arith, lower_degrees (g.adj u) p1 enough v, targets v, inv.degrees v, done v));
        ordered = rw (visited-lower (g.adj u) p1) (sym (inv.degrees u) ∙ zero_degree, inv.ordered);
      }

  pub kahn-Inv : (fuel : ℕ) (p : Progress) → Inv es n p → Inv es n (kahn g fuel p)
  unfolding kahn pop
  kahn-Inv zero p inv = inv
  kahn-Inv (suc fuel) p inv = kahn-Inv fuel (pop g p) (pop_from-Inv p.queue p refl inv)

  pub visited-pop_from :
      (queue : List ℕ) (p : Progress)
      → (queue ≡ []) ⊎ (length (pop_from g queue p).visited ≡ suc (length p.visited))
  visited-pop_from [] p = inl refl
  visited-pop_from (u ∷ queue) p =
      inr
        (ap length (visited-lower (g.adj u) (record p { queue = queue; visited = u ∷ p.visited })))

occ-ready :
    (deg : ℕ → ℕ) (v i left : ℕ)
    → occ v (ready deg i left)
      ≡ one_if (if deg v == 0 then (if leb i v then ltb v (i + left) else false) else false)
unfolding ready
occ-ready deg v i zero = ground arith
occ-ready deg v i (suc left) = elim (Bool-cases (i == v)) [
  | inl eq ↦
      let same = ap deg ((==_iff i v).0 eq) in
      ground (arith, eq, same, occ-ready deg v (suc i) left)
  | inr ne ↦ ground (arith, ne, occ-ready deg v (suc i) left)
]

pub start-Inv : (tasks : List TaskPlan) → Inv (edges tasks) (length tasks) (start tasks)
unfolding start
start-Inv tasks =
    let has = build_graph-Has tasks in
    record {
      counted = λ v. ground (arith, occ-ready (build_graph tasks).in_degree v 0 (length tasks));
      degrees = has.degrees;
      ordered = tt;
    }
