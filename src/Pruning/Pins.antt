-- ===== src/Pruning/Pins.antt =====
-- Pinned contents in KeepPinnedWindowPruner of pkg/runtime/pruning/pruner.go.
use multi_agent_agent_hub.Prelude.{
  ℕ, zero, suc, ◌+◌, ◌≡◌, refl, ap, ◌∙◌, sym, ◌⊎◌, Bool, true, false, ◌&&◌, ◌||◌, Option, some, [],
  ◌∷◌, ◌++◌, length, get_elem?, Bool-cases, inl, inr, arith,
}
use multi_agent_agent_hub.Prelude.Int.{ℤ, pos, ltb_ℤ, ◌≤ℤ◌}
use multi_agent_agent_hub.Pruning.{
  Content, Contents, over_hard_limit, refused, kept, keep_from, ends, KeepPinnedWindowPruner,
  pinned_ends, within_limit, prune_pinned,
}

-- A content stands in a list.
abbrev pub Holds : Option Content → Contents → Type 0
Holds c contents = (front : Contents) × (back : Contents) × (contents ≡ front ++ c ∷ back)

keep_from-Holds :
    (keep : ℕ → Option Content → Bool) (i k : ℕ) (c : Option Content) (contents : Contents)
    → get_elem? contents i ≡ some c
    → keep (k + i) c ≡ true
    → Holds c (keep_from keep k contents)
unfolding keep_from
keep_from-Holds keep i k c [] e yes_kept = ground (arith, e)
keep_from-Holds keep zero k c (d ∷ contents) e yes_kept =
    let same : d ≡ c = ground (arith, e) in
    let from : k ≡ k + 0 = omega arith in
    let at_k : keep k d ≡ true = ap (keep k) same ∙ (ap (λ j. keep j c) from ∙ yes_kept) in
    (
      [],
      keep_from keep (suc k) contents,
      rw at_k (ap (λ x. x ∷ keep_from keep (suc k) contents) same),
    )
keep_from-Holds keep (suc i) k c (d ∷ contents) e yes_kept =
    let shift : suc k + i ≡ k + suc i = omega arith in
    let (front, back, f) =
      keep_from-Holds keep i (suc k) c contents e (ap (λ j. keep j c) shift ∙ yes_kept) in
    elim (Bool-cases (keep k d)) [
      | inl here ↦ (d ∷ front, back, rw here (ap (λ l. d ∷ l) f))
      | inr gone ↦ (front, back, rw gone f)
    ]

pinned_kept :
    (p : KeepPinnedWindowPruner) (total i : ℕ) (c : Option Content)
    → p.pinned_indexes i ≡ true
    → pinned_ends p total i c ≡ true
pinned_kept p total i c pin = go (ends p.head p.tail total i c) (p.pinned_indexes i) pin
  where
    go : (b pinned : Bool) → pinned ≡ true → (b || pinned) ≡ true
    go true pinned h = refl
    go false pinned h = h

-- What the limit lets through.
limit_cases :
    (limit : ℤ) (contents : Contents)
    → (within_limit limit contents ≡ refused over_hard_limit)
      ⊎ ((within_limit limit contents ≡ kept contents)
          × (ltb_ℤ (pos 0) limit && ltb_ℤ limit (pos (length contents)) ≡ false))
limit_cases limit contents =
    elim (Bool-cases (ltb_ℤ (pos 0) limit && ltb_ℤ limit (pos (length contents)))) [
      | inl over ↦ inl (rw over refl)
      | inr fits ↦ inr (rw fits refl, fits)
    ]

-- For each pinned content, the pruner either refuses the request for its hard limit, or keeps contents
-- that hold the pinned one and are no more than the hard limit where that is positive.
pub prune_pinned-Holds :
    (p : KeepPinnedWindowPruner) (contents : Contents) (i : ℕ) (c : Option Content)
    → p.pinned_indexes i ≡ true
    → get_elem? contents i ≡ some c
    → (prune_pinned (some p) false (some contents) ≡ refused over_hard_limit)
      ⊎ ((out : Contents) × (prune_pinned (some p) false (some contents) ≡ kept out)
          × Holds c out
          × ((p.hard_limit ≤ℤ pos 0) ⊎ (pos (length out) ≤ℤ p.hard_limit)))
unfolding prune_pinned
prune_pinned-Holds p contents i c pin e =
    let keep = pinned_ends p (length contents) in
    let out = keep_from keep 0 contents in
    let first : i ≡ 0 + i = omega arith in
    let at_i : keep (0 + i) c ≡ true =
      ap (λ j. keep j c) (sym first) ∙ pinned_kept p (length contents) i c pin in
    elim (limit_cases p.hard_limit out) [
      | inl over ↦ inl over
      | inr (fits, small) ↦ inr (
        out,
        fits,
        keep_from-Holds keep i 0 c contents e at_i,
        bound p.hard_limit (length out) small,
      )
    ]
  where
    bound :
        (limit : ℤ) (n : ℕ)
        → ltb_ℤ (pos 0) limit && ltb_ℤ limit (pos n) ≡ false
        → (limit ≤ℤ pos 0) ⊎ (pos n ≤ℤ limit)
    bound limit n h = ground (arith, h)
