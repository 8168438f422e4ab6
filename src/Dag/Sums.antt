-- ===== src/Dag/Sums.antt =====
-- Sums over the nodes below a bound, for the counts of Kahn's algorithm in
-- services/orchestrator/validator/validator.go.
use multi_agent_agent_hub.Prelude.{
  ℕ, zero, suc, ◌+◌, ◌≤◌, ◌<◌, ◌≡◌, refl, ap, ◌∙◌, sym, List, [], ◌∷◌, length, ltb, ◌==◌, ==_iff,
  Bool-cases, inl, inr, if◌then◌else◌, arith, All,
}
use multi_agent_agent_hub.Dag.Counting.{one_if, occ}

unfoldable pub sum_below : ℕ → (ℕ → ℕ) → ℕ
sum_below zero f = 0
sum_below (suc n) f = sum_below n f + f n

pub sum_one :
    (u n : ℕ) (f : ℕ → ℕ)
    → sum_below n (λ v. one_if (u == v) + f v) ≡ one_if (ltb u n) + sum_below n f
unfolding sum_below
sum_one u zero f = ground arith
sum_one u (suc n) f = ground (arith, sum_one u n f)

pub sum_zero : (n : ℕ) → sum_below n (λ v. 0) ≡ 0
unfolding sum_below
sum_zero zero = refl
sum_zero (suc n) = omega (arith, sum_zero n)

pub sum_occ : (n : ℕ) (us : List ℕ) → All (λ v. v < n) us → sum_below n (λ v. occ v us) ≡ length us
sum_occ n [] h = sum_zero n
sum_occ n (u ∷ us) h = ground (arith, sum_one u n (λ v. occ v us), sum_occ n us h.1, h.0)

pub sum_at_most : (n : ℕ) (f : ℕ → ℕ) → ((v : ℕ) → f v ≤ 1) → sum_below n f ≤ n
unfolding sum_below
sum_at_most zero f h = omega arith
sum_at_most (suc n) f h = omega (arith, sum_at_most n f h, h n)

pub sum_full :
    (n : ℕ) (f : ℕ → ℕ) → ((v : ℕ) → f v ≤ 1) → n ≤ sum_below n f → (v : ℕ) → v < n → f v ≡ 1
unfolding sum_below
sum_full zero f h le v lt = absurd (omega (arith, lt))
sum_full (suc n) f h le v lt =
    let most = sum_at_most n f h in
    elim (Bool-cases (v == n)) [
      | inl eq ↦ let same = ap f ((==_iff v n).0 eq) in omega (arith, same, most, h n, le)
      | inr ne ↦ sum_full n f h (omega (arith, le, h n)) v (ground (arith, ne, lt))
    ]

pub sum_ones : (n : ℕ) (f : ℕ → ℕ) → ((v : ℕ) → v < n → f v ≡ 1) → sum_below n f ≡ n
unfolding sum_below
sum_ones zero f h = refl
sum_ones (suc n) f h =
    omega (arith, sum_ones n f (λ v lt. h v (omega (arith, lt))), h n (omega arith))

pub sum_same : (n : ℕ) (f g : ℕ → ℕ) → ((v : ℕ) → v < n → f v ≡ g v) → sum_below n f ≡ sum_below n g
unfolding sum_below
sum_same zero f g h = refl
sum_same (suc n) f g h =
    omega (arith, sum_same n f g (λ v lt. h v (omega (arith, lt))), h n (omega arith))

pub sum_first : (n : ℕ) (f : ℕ → ℕ) → sum_below (suc n) f ≡ f 0 + sum_below n (λ v. f (suc v))
unfolding sum_below
sum_first zero f = omega arith
sum_first (suc n) f = omega (arith, sum_first n f)

module _ (f : ℕ → ℕ) where
  -- The weights of a list.
  unfoldable pub weight : List ℕ → ℕ
  weight [] = 0
  weight (i ∷ us) = f i + weight us

  picked : ℕ → List ℕ → ℕ
  picked v [] = 0
  picked v (u ∷ us) = (if u == v then f v else 0) + picked v us

  sum_pick :
      (u n : ℕ) (g : ℕ → ℕ)
      → sum_below n (λ v. (if u == v then f v else 0) + g v)
        ≡ (if ltb u n then f u else 0) + sum_below n g
  unfolding sum_below
  sum_pick u zero g = ground arith
  sum_pick u (suc n) g = elim (Bool-cases (u == n)) [
    | inl eq ↦ let same = ap f ((==_iff u n).0 eq) in ground (arith, eq, same, sum_pick u n g)
    | inr ne ↦ ground (arith, ne, sum_pick u n g)
  ]

  sum_zeros : (n : ℕ) → sum_below n (λ v. 0) ≡ 0
  unfolding sum_below
  sum_zeros zero = refl
  sum_zeros (suc n) = omega (arith, sum_zeros n)

  sum_picked :
      (n : ℕ) (us : List ℕ) → All (λ v. v < n) us → sum_below n (λ v. picked v us) ≡ weight us
  unfolding picked weight
  sum_picked n [] h = sum_zeros n
  sum_picked n (u ∷ us) h =
      ground (arith, sum_pick u n (λ v. picked v us), sum_picked n us h.1, h.0)

  picked_never : (v : ℕ) (us : List ℕ) → occ v us ≡ 0 → picked v us ≡ 0
  unfolding picked
  picked_never v [] h = refl
  picked_never v (u ∷ us) h = ground (arith, h, picked_never v us)

  picked_once : (v : ℕ) (us : List ℕ) → occ v us ≡ 1 → picked v us ≡ f v
  unfolding picked
  picked_once v [] h = absurd (omega (arith, h))
  picked_once v (u ∷ us) h = elim (Bool-cases (u == v)) [
    | inl eq ↦ let gone = picked_never v us (ground (arith, eq, h)) in ground (arith, eq, gone)
    | inr ne ↦ let rest = picked_once v us (ground (arith, ne, h)) in ground (arith, ne, rest)
  ]

  -- Each node below the bound once: the weights are those of the nodes.
  pub weight_once :
      (n : ℕ) (us : List ℕ)
      → All (λ v. v < n) us
      → ((v : ℕ) → v < n → occ v us ≡ 1)
      → weight us ≡ sum_below n f
  weight_once n us below once =
      sym (sum_picked n us below)
      ∙ sum_same n (λ v. picked v us) f (λ v lt. picked_once v us (once v lt))
