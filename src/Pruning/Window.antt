-- ===== src/Pruning/Window.antt =====
-- What the window pruners of pkg/runtime/pruning/pruner.go keep.
use multi_agent_agent_hub.Prelude.{
  ℕ, zero, suc, ◌+◌, ◌-◌, ◌^◌, ◌≤◌, ◌<◌, ◌≡◌, refl, ap, ◌∙◌, sym, Bool, true, false, not, ◌||◌,
  Option, [], ◌∷◌, ◌++◌, length, take, drop, filter, if◌then◌else◌, Bool-cases, inl, inr, arith,
  ltb, leb, min,
}
use multi_agent_agent_hub.Prelude.Int.{pos, add64, sub64, wrap64, ◌+ℤ◌, ◌-ℤ◌}
use multi_agent_agent_hub.Pruning.{
  Content, Contents, is_system, in_window, keep_from, ends, prune_ends,
}

-- The contents that no system sent.
abbrev pub spoken : Contents → Contents
spoken contents = filter (λ c. not (is_system c)) contents

abbrev pub instructions : Contents → Contents
instructions contents = filter is_system contents

spoken_size :
    (c : Option Content) (contents : Contents)
    → length (spoken (c ∷ contents))
      ≡ (if is_system c then length (spoken contents) else suc (length (spoken contents)))
spoken_size c contents = by (is_system c)
  where
    by :
        (b : Bool)
        → length (elim (not b) [ true ↦ c ∷ spoken contents | false ↦ spoken contents ])
          ≡ (if b then length (spoken contents) else suc (length (spoken contents)))
    by true = refl
    by false = refl

module _ (h t total : ℕ) (small : total < 2 ^ 63) (inside : h + t < total) where
  window_lem : (i : ℕ) → in_window (pos h) (pos t) total i ≡ (ltb i h || leb (total - t) i)
  unfolding in_window sub64 wrap64 ◌+ℤ◌ ◌-ℤ◌
  window_lem i = ground arith

  abbrev keep : ℕ → Option Content → Bool
  keep = ends (pos h) (pos t) total

  kept-head : (i : ℕ) (c : Option Content) → i < h → keep i c ≡ true
  kept-head i c lt = ground (arith, window_lem i)

  kept-tail : (i : ℕ) (c : Option Content) → total - t ≤ i → keep i c ≡ true
  kept-tail i c le = ground (arith, window_lem i)

  kept-system : (i : ℕ) (c : Option Content) → is_system c ≡ true → keep i c ≡ true
  kept-system i c s = ground (arith, s)

  kept-spoken :
      (i : ℕ) (c : Option Content)
      → is_system c ≡ false
      → keep i c ≡ true
      → (ltb i h || leb (total - t) i) ≡ true
  kept-spoken i c s k = ground (arith, s, k, window_lem i)

  keeps_when :
      (i : ℕ) (c : Option Content) (contents : Contents)
      → keep i c ≡ true
      → keep_from keep i (c ∷ contents) ≡ c ∷ keep_from keep (suc i) contents
  unfolding keep_from
  keeps_when i c contents k =
      ap (λ b. if b then c ∷ keep_from keep (suc i) contents else keep_from keep (suc i) contents) k

  drops_when :
      (i : ℕ) (c : Option Content) (contents : Contents)
      → keep i c ≡ false
      → keep_from keep i (c ∷ contents) ≡ keep_from keep (suc i) contents
  unfolding keep_from
  drops_when i c contents k =
      ap (λ b. if b then c ∷ keep_from keep (suc i) contents else keep_from keep (suc i) contents) k

  head_same :
      (d i : ℕ) (contents : Contents)
      → i + d ≤ h
      → take d (keep_from keep i contents) ≡ take d contents
  head_same zero i contents le = refl
  head_same (suc d) i [] le = unfold keep_from in refl
  head_same (suc d) i (c ∷ contents) le =
      ap (take (suc d)) (keeps_when i c contents (kept-head i c (omega (arith, le))))
      ∙ ap (λ l. c ∷ l) (head_same d (suc i) contents (omega (arith, le)))

  tail_same : (i : ℕ) (contents : Contents) → total - t ≤ i → keep_from keep i contents ≡ contents
  tail_same i [] le = unfold keep_from in refl
  tail_same i (c ∷ contents) le =
      keeps_when i c contents (kept-tail i c le)
      ∙ ap (λ l. c ∷ l) (tail_same (suc i) contents (omega (arith, le)))

  tail_kept :
      (d i : ℕ) (contents : Contents)
      → total - t ≤ i + d
      → (front : Contents) × (keep_from keep i contents ≡ front ++ drop d contents)
  tail_kept zero i contents le = ([], tail_same i contents (omega (arith, le)))
  tail_kept (suc d) i [] le = ([], unfold keep_from in refl)
  tail_kept (suc d) i (c ∷ contents) le =
      let (front, e) = tail_kept d (suc i) contents (omega (arith, le)) in
      elim (Bool-cases (keep i c)) [
        | inl yes_kept ↦ (c ∷ front, keeps_when i c contents yes_kept ∙ ap (λ l. c ∷ l) e)
        | inr not_kept ↦ (front, drops_when i c contents not_kept ∙ e)
      ]

  instructions_same :
      (i : ℕ) (contents : Contents)
      → instructions (keep_from keep i contents) ≡ instructions contents
  instructions_same i [] = unfold keep_from in refl
  instructions_same i (c ∷ contents) =
      let ih = instructions_same (suc i) contents in
      elim (Bool-cases (is_system c)) [
        | inl s ↦
            ap instructions (keeps_when i c contents (kept-system i c s))
            ∙ ap (λ l. elim (is_system c) [ true ↦ c ∷ l | false ↦ l ]) ih
        | inr s ↦ elim (Bool-cases (keep i c)) [
          | inl yes_kept ↦
              ap instructions (keeps_when i c contents yes_kept)
              ∙ ap (λ l. elim (is_system c) [ true ↦ c ∷ l | false ↦ l ]) ih
          | inr not_kept ↦
              ap instructions (drops_when i c contents not_kept)
              ∙ (ih
                  ∙ sym (
                      ap
                        (λ b. elim b [
                          | true ↦ c ∷ instructions contents
                          | false ↦ instructions contents
                        ])
                        s))
        ]
      ]

  spoken_bound :
      (i : ℕ) (contents : Contents)
      → i + length contents ≡ total
      → length (spoken (keep_from keep i contents)) ≤ (h - i) + min (length contents) t
  spoken_bound i [] e = unfold keep_from in omega arith
  spoken_bound i (c ∷ contents) e =
      let ih = spoken_bound (suc i) contents (omega (arith, e)) in
      elim (Bool-cases (keep i c)) [
        | inl yes_kept ↦ rw (keeps_when i c contents yes_kept) (elim (Bool-cases (is_system c)) [
          | inl s ↦ ground (arith, s, ih, spoken_size c (keep_from keep (suc i) contents))
          | inr s ↦ ground (
            arith,
            s,
            ih,
            e,
            kept-spoken i c s yes_kept,
            spoken_size c (keep_from keep (suc i) contents),
          )
        ])
        | inr not_kept ↦ rw (drops_when i c contents not_kept) (omega (arith, ih))
      ]

pruned_lem :
    (h t : ℕ) (contents : Contents)
    → 1 ≤ h + t
    → h + t < length contents
    → length contents < 2 ^ 63
    → prune_ends (pos h) (pos t) contents
      ≡ keep_from (ends (pos h) (pos t) (length contents)) 0 contents
unfolding prune_ends add64 wrap64 ◌+ℤ◌
pruned_lem h t contents some_size inside small = ground arith

-- For a window of h contents at the start and t at the end, not both none, which does not cover a
-- conversation of fewer than 2 ^ 63 contents: the system's contents are all kept, in order; the first
-- h and the last t contents are kept where they stand; and at most h + t others are kept.
pub prune_ends-window :
    (h t : ℕ) (contents : Contents)
    → 1 ≤ h + t
    → h + t < length contents
    → length contents < 2 ^ 63
    → (instructions (prune_ends (pos h) (pos t) contents) ≡ instructions contents)
      × (take h (prune_ends (pos h) (pos t) contents) ≡ take h contents)
      × ((front : Contents) × (prune_ends (pos h) (pos t) contents
            ≡ front ++ drop (length contents - t) contents))
      × (length (spoken (prune_ends (pos h) (pos t) contents)) ≤ h + t)
prune_ends-window h t contents some_size inside small =
    let n = length contents in
    let pruned = pruned_lem h t contents some_size inside small in
    let (front, e) = tail_kept h t n small inside (n - t) 0 contents (omega arith) in
    (
      ap instructions pruned ∙ instructions_same h t n small inside 0 contents,
      ap (take h) pruned ∙ head_same h t n small inside h 0 contents (omega arith),
      (front, pruned ∙ e),
      rw pruned (omega (arith, spoken_bound h t n small inside 0 contents (omega arith))),
    )
