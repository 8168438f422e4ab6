-- ===== src/Diff/Sides.antt =====
-- What a list of operations of services/agents/diff-agent/diff.go says of the two texts.
use multi_agent_agent_hub.Prelude.{
  ℕ, suc, ◌≡◌, refl, ap, ◌∙◌, String, Bool, true, false, List, [], ◌∷◌, map, str_eq, eq_iff, leb,
  Bool-cases, inl, inr,
}
use multi_agent_agent_hub.Diff.{
  Kind, same, removed, added, DiffOp, op, cell, fill_table, walk_line, walk, diff_ops,
}

abbrev pub on_old : Kind → Bool
on_old same = true
on_old removed = true
on_old added = false

abbrev pub on_new : Kind → Bool
on_new same = true
on_new removed = false
on_new added = true

abbrev pub on_both : Kind → Bool
on_both same = true
on_both removed = false
on_both added = false

abbrev pub cons_if : Bool → String → List String → List String
cons_if true x xs = x ∷ xs
cons_if false x xs = xs

-- The lines of the operations of some kinds, in order.
abbrev pub side : (Kind → Bool) → List DiffOp → List String
side p [] = []
side p (o ∷ ops) = cons_if (p o.kind) o.text (side p ops)

all_added :
    (ys : List String)
    → (side on_old (map (op added) ys) ≡ []) × (side on_new (map (op added) ys) ≡ ys)
all_added [] = (refl, refl)
all_added (y ∷ ys) = let (a, b) = all_added ys in (a, ap (λ l. y ∷ l) b)

-- The operations turn the old lines into the new ones.
abbrev Turns : List DiffOp → List String → List String → Type 0
Turns ops xs ys = (side on_old ops ≡ xs) × (side on_new ops ≡ ys)

module _ (dp : List (List ℕ)) where
  walk_line-Turns :
      (x : String) (xs : List String) (i : ℕ) (next : ℕ → List String → List DiffOp)
      → ((j : ℕ) (ys : List String) → Turns (next j ys) xs ys)
      → (j : ℕ) (ys : List String) → Turns (walk_line dp x i next j ys) (x ∷ xs) ys
  unfolding walk_line
  walk_line-Turns x xs i next h j [] = let (a, b) = h j [] in (ap (λ l. x ∷ l) a, b)
  walk_line-Turns x xs i next h j (y ∷ ys) = elim (Bool-cases (str_eq x y)) [
    | inl eq ↦
        let (a, b) = h (suc j) ys in
        rw (eq, walk_line)
          (ap (λ l. x ∷ l) a, ap (λ l. x ∷ l) b ∙ ap (λ z. z ∷ ys) ((eq_iff x y).0 eq))
    | inr ne ↦
        rw (ne, walk_line)
          (elim (Bool-cases (leb (cell dp i (suc j)) (cell dp (suc i) j))) [
            | inl down ↦ let (a, b) = h j (y ∷ ys) in rw down (ap (λ l. x ∷ l) a, b)
            | inr right ↦
                let (a, b) = walk_line-Turns x xs i next h (suc j) ys in
                rw right (a, ap (λ l. y ∷ l) b)
          ])
  ]

  walk-Turns : (xs : List String) (i j : ℕ) (ys : List String) → Turns (walk dp xs i j ys) xs ys
  unfolding walk
  walk-Turns [] i j ys = all_added ys
  walk-Turns (x ∷ xs) i j ys =
      walk_line-Turns x xs i (walk dp xs (suc i)) (walk-Turns xs (suc i)) j ys

-- For any two lists of lines, the unchanged and removed lines of the diff are the old lines, and
-- its unchanged and added lines are the new lines, each in order.
pub diff_ops-sides :
    (old new : List String)
    → (side on_old (diff_ops old new) ≡ old) × (side on_new (diff_ops old new) ≡ new)
unfolding diff_ops
diff_ops-sides old new = walk-Turns (fill_table old new) old 0 0 new
