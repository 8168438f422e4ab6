-- ===== src/Diff/Optimal.antt =====
-- The diff of services/agents/diff-agent/diff.go keeps a longest common subsequence of the lines.
use multi_agent_agent_hub.Prelude.{
  ℕ, zero, suc, ◌+◌, ◌≤◌, ◌≡◌, refl, ap, subst, ◌∙◌, sym, ◌⊎◌, inl, inr, String, true, false, List,
  [], ◌∷◌, map, length, drop, replicate, str_eq, eq_iff, leb, Bool-cases, arith,
}
use multi_agent_agent_hub.Diff.{
  Kind, same, removed, added, DiffOp, op, at, cell, best, fill_row, top_row, fill_table, walk_line,
  walk, diff_ops,
}
use multi_agent_agent_hub.Diff.Sides.{side, cons_if, on_both, on_old, on_new, diff_ops-sides}

-- `zs` is `xs` with some elements left out.
abbrev pub IsSub : List String → List String → Type 0
IsSub [] xs = Unit
IsSub (z ∷ zs) [] = ⊥
IsSub (z ∷ zs) (x ∷ xs) = ((z ≡ x) × IsSub zs xs) ⊎ IsSub (z ∷ zs) xs

lcs_line : String → (List String → ℕ) → List String → ℕ
lcs_line x below [] = 0
lcs_line x below (y ∷ ys) = best (str_eq x y) (below ys) (below (y ∷ ys)) (lcs_line x below ys)

lcs : List String → List String → ℕ
unfolding lcs_line
lcs [] ys = 0
lcs (x ∷ xs) ys = lcs_line x (lcs xs) ys

tail-IsSub : (z : String) (zs xs : List String) → IsSub (z ∷ zs) xs → IsSub zs xs
tail-IsSub z [] xs h = tt
tail-IsSub z (w ∷ zs) [] h = elim h [ ]
tail-IsSub z (w ∷ zs) (x ∷ xs) (inl (e, h)) = inr h
tail-IsSub z (w ∷ zs) (x ∷ xs) (inr h) = inr (tail-IsSub z (w ∷ zs) xs h)

rest-IsSub : (z x : String) (zs xs : List String) → IsSub (z ∷ zs) (x ∷ xs) → IsSub zs xs
rest-IsSub z x zs xs (inl (e, h)) = h
rest-IsSub z x zs xs (inr h) = tail-IsSub z zs xs h

best-right : (a b c n : ℕ) → n ≤ c → n ≤ best false a b c
best-right a b c n h = ground arith

best-below : (a b c n : ℕ) → n ≤ b → n ≤ best false a b c
best-below a b c n h = ground arith

lcs_line-bound :
    (x : String) (xs : List String)
    → ((zs ys : List String) → IsSub zs xs → IsSub zs ys → length zs ≤ lcs xs ys)
    → (zs ys : List String) → IsSub zs (x ∷ xs)
    → IsSub zs ys
    → length zs ≤ lcs_line x (lcs xs) ys
unfolding lcs_line
lcs_line-bound x xs below [] ys h k = omega arith
lcs_line-bound x xs below (z ∷ zs) [] h k = elim k [ ]
lcs_line-bound x xs below (z ∷ zs) (y ∷ ys) h k = elim (Bool-cases (str_eq x y)) [
  | inl eq ↦
      let shorter = below zs ys (rest-IsSub z x zs xs h) (rest-IsSub z y zs ys k) in
      rw eq (omega (arith, shorter))
  | inr ne ↦ rw ne (elim h [
    | inr below_x ↦
        best-below (lcs xs ys) (lcs xs (y ∷ ys)) (lcs_line x (lcs xs) ys) _
          (below (z ∷ zs) (y ∷ ys) below_x k)
    | inl (zx, sub_x) ↦ elim k [
      | inr right_y ↦
          best-right (lcs xs ys) (lcs xs (y ∷ ys)) (lcs_line x (lcs xs) ys) _
            (lcs_line-bound x xs below (z ∷ zs) ys (inl (zx, sub_x)) right_y)
      | inl (zy, _) ↦ let both = (eq_iff x y).1 (sym zx ∙ zy) in ground (arith, ne, both)
    ]
  ])
]

lcs-bound : (xs zs ys : List String) → IsSub zs xs → IsSub zs ys → length zs ≤ lcs xs ys
unfolding lcs
lcs-bound [] [] ys h k = omega arith
lcs-bound [] (z ∷ zs) ys h k = elim h [ ]
lcs-bound (x ∷ xs) zs ys h k = lcs_line-bound x xs (lcs-bound xs) zs ys h k

-- A row by what it holds for each rest of the new lines.
row_by : (List String → ℕ) → List String → List ℕ
row_by f [] = f [] ∷ []
row_by f (y ∷ ys) = f (y ∷ ys) ∷ row_by f ys

at-row_by :
    (f : List String → ℕ)
    → f [] ≡ 0
    → (ys : List String) (j : ℕ) → at (row_by f ys) j ≡ f (drop j ys)
unfolding row_by
at-row_by f z [] zero = refl
at-row_by f z [] (suc j) = sym z
at-row_by f z (y ∷ ys) zero = refl
at-row_by f z (y ∷ ys) (suc j) = at-row_by f z ys j

first-row_by : (f : List String → ℕ) (ys : List String) → at (row_by f ys) 0 ≡ f ys
unfolding row_by
first-row_by f [] = refl
first-row_by f (y ∷ ys) = refl

fill_row-lcs :
    (x : String) (f : List String → ℕ) (ys : List String)
    → fill_row x ys (row_by f ys) ≡ row_by (lcs_line x f) ys
unfolding fill_row row_by lcs_line
fill_row-lcs x f [] = refl
fill_row-lcs x f (y ∷ ys) =
    rw (fill_row-lcs x f ys, first-row_by f ys, first-row_by (lcs_line x f) ys) refl

zeros : (ys : List String) → replicate (suc (length ys)) 0 ≡ row_by (lcs []) ys
unfolding row_by lcs
zeros [] = refl
zeros (y ∷ ys) = ap (λ l. 0 ∷ l) (zeros ys)

top_row-fill_table : (xs ys : List String) → top_row (fill_table xs ys) ≡ row_by (lcs xs) ys
unfolding fill_table lcs
top_row-fill_table [] ys = zeros ys
top_row-fill_table (x ∷ xs) ys = rw (top_row-fill_table xs ys) (fill_row-lcs x (lcs xs) ys)

lcs-nil : (xs : List String) → lcs xs [] ≡ 0
unfolding lcs lcs_line
lcs-nil [] = refl
lcs-nil (x ∷ xs) = refl

-- Each cell holds the best length for what is left of the two texts.
cell-lcs :
    (xs ys : List String) (i j : ℕ) → cell (fill_table xs ys) i j ≡ lcs (drop i xs) (drop j ys)
unfolding fill_table
cell-lcs [] ys zero j = ap (λ r. at r j) (zeros ys) ∙ at-row_by (lcs []) (lcs-nil []) ys j
cell-lcs [] ys (suc i) j = unfold lcs in refl
cell-lcs (x ∷ xs) ys zero j =
    ap (λ r. at r j) (top_row-fill_table (x ∷ xs) ys)
    ∙ at-row_by (lcs (x ∷ xs)) (lcs-nil (x ∷ xs)) ys j
cell-lcs (x ∷ xs) ys (suc i) j = cell-lcs xs ys i j

module _ (x y : String) (xs ys : List String) where
  lcs-same : str_eq x y ≡ true → lcs (x ∷ xs) (y ∷ ys) ≡ suc (lcs xs ys)
  unfolding lcs lcs_line
  lcs-same eq = rw eq (omega arith)

  lcs-below :
      str_eq x y ≡ false
      → leb (lcs (x ∷ xs) ys) (lcs xs (y ∷ ys)) ≡ true
      → lcs (x ∷ xs) (y ∷ ys) ≡ lcs xs (y ∷ ys)
  unfolding lcs lcs_line
  lcs-below ne le = rw (ne, le) refl

  lcs-right :
      str_eq x y ≡ false
      → leb (lcs (x ∷ xs) ys) (lcs xs (y ∷ ys)) ≡ false
      → lcs (x ∷ xs) (y ∷ ys) ≡ lcs (x ∷ xs) ys
  unfolding lcs lcs_line
  lcs-right ne gt = rw (ne, gt) refl

drop-suc {ℓ} :
    {A : Type ℓ} (j : ℕ) (x : A) (xs ys : List A) → drop j ys ≡ x ∷ xs → drop (suc j) ys ≡ xs
drop-suc zero x xs [] h = ground (arith, h)
drop-suc zero x xs (y ∷ ys) h = ap (drop 1) h
drop-suc (suc j) x xs [] h = ground (arith, h)
drop-suc (suc j) x xs (y ∷ ys) h = drop-suc j x xs ys h

-- How many lines are unchanged.
abbrev kept : List DiffOp → ℕ
kept ops = length (side on_both ops)

kept-added : (ys : List String) → kept (map (op added) ys) ≡ 0
kept-added [] = refl
kept-added (y ∷ ys) = kept-added ys

module _ (new : List String) (dp : List (List ℕ)) where
  -- The cells of a row hold the best lengths of the old lines `xs` and any rest of the new ones.
  Row : ℕ → List String → Type 0
  Row i xs = (j : ℕ) (ys : List String) → drop j new ≡ ys → cell dp i j ≡ lcs xs ys

  walk_line-kept :
      (x : String) (xs : List String) (i : ℕ) (next : ℕ → List String → List DiffOp)
      → Row i (x ∷ xs)
      → Row (suc i) xs
      → ((j : ℕ) (ys : List String) → drop j new ≡ ys → kept (next j ys) ≡ lcs xs ys)
      → (j : ℕ) (ys : List String) → drop j new ≡ ys
      → kept (walk_line dp x i next j ys) ≡ lcs (x ∷ xs) ys
  unfolding walk_line Row
  walk_line-kept x xs i next here below rest j [] e =
      rest j [] e ∙ (lcs-nil xs ∙ sym (lcs-nil (x ∷ xs)))
  walk_line-kept x xs i next here below rest j (y ∷ ys) e = elim (Bool-cases (str_eq x y)) [
    | inl eq ↦
        rw (eq, walk_line)
          (ap suc (rest (suc j) ys (drop-suc j y ys new e)) ∙ sym (lcs-same x y xs ys eq))
    | inr ne ↦
        let right = here (suc j) ys (drop-suc j y ys new e) in
        let down = below j (y ∷ ys) e in
        elim (Bool-cases (leb (cell dp i (suc j)) (cell dp (suc i) j))) [
          | inl le ↦
              let le' : leb (lcs (x ∷ xs) ys) (lcs xs (y ∷ ys)) ≡ true =
                ap (λ n. leb n (lcs xs (y ∷ ys))) (sym right)
                ∙ (ap (λ n. leb (cell dp i (suc j)) n) (sym down) ∙ le) in
              rw (ne, walk_line) (rw le (rest j (y ∷ ys) e ∙ sym (lcs-below x y xs ys ne le')))
          | inr gt ↦
              let gt' : leb (lcs (x ∷ xs) ys) (lcs xs (y ∷ ys)) ≡ false =
                ap (λ n. leb n (lcs xs (y ∷ ys))) (sym right)
                ∙ (ap (λ n. leb (cell dp i (suc j)) n) (sym down) ∙ gt) in
              rw (ne, walk_line)
                (rw gt (
                  walk_line-kept x xs i next here below rest (suc j) ys (drop-suc j y ys new e)
                  ∙ sym (lcs-right x y xs ys ne gt')))
        ]
  ]

  shift_index : (n m : ℕ) (xs : List String) → n ≡ m → Row n xs → Row m xs
  shift_index n m xs e r = subst (λ k. Row k xs) e r

  walk-kept :
      (xs : List String) (i : ℕ)
      → ((k : ℕ) → Row (i + k) (drop k xs))
      → (j : ℕ) (ys : List String) → drop j new ≡ ys
      → kept (walk dp xs i j ys) ≡ lcs xs ys
  unfolding walk
  walk-kept [] i rows j ys e = unfold lcs in kept-added ys
  walk-kept (x ∷ xs) i rows j ys e =
      let here : Row i (x ∷ xs) = shift_index (i + 0) i (x ∷ xs) (omega arith) (rows 0) in
      let below : Row (suc i) xs = shift_index (i + 1) (suc i) xs (omega arith) (rows 1) in
      let next_rows : (k : ℕ) → Row (suc i + k) (drop k xs) =
        λ k. shift_index (i + suc k) (suc i + k) (drop k xs) (omega arith) (rows (suc k)) in
      walk_line-kept x xs i (walk dp xs (suc i)) here below (walk-kept xs (suc i) next_rows) j ys e

diff_ops-kept : (old new : List String) → kept (diff_ops old new) ≡ lcs old new
unfolding diff_ops Row
diff_ops-kept old new =
    let dp = fill_table old new in
    walk-kept new dp old 0
      (λ k j ys e.
        cell-lcs old new (0 + k) j
        ∙ (ap (λ n. lcs (drop n old) (drop j new)) (omega arith) ∙ ap (lcs (drop k old)) e))
      0 new refl

cons-IsSub : (x : String) (zs xs : List String) → IsSub zs xs → IsSub zs (x ∷ xs)
cons-IsSub x [] xs h = tt
cons-IsSub x (z ∷ zs) xs h = inr h

both-IsSub-old : (ops : List DiffOp) → IsSub (side on_both ops) (side on_old ops)
both-IsSub-old [] = tt
both-IsSub-old (o ∷ ops) = go o.kind o.text (both-IsSub-old ops)
  where
    go :
        (k : Kind) (x : String)
        → IsSub (side on_both ops) (side on_old ops)
        → IsSub (cons_if (on_both k) x (side on_both ops)) (cons_if (on_old k) x (side on_old ops))
    go same x h = inl (refl, h)
    go removed x h = cons-IsSub x _ _ h
    go added x h = h

both-IsSub-new : (ops : List DiffOp) → IsSub (side on_both ops) (side on_new ops)
both-IsSub-new [] = tt
both-IsSub-new (o ∷ ops) = go o.kind o.text (both-IsSub-new ops)
  where
    go :
        (k : Kind) (x : String)
        → IsSub (side on_both ops) (side on_new ops)
        → IsSub (cons_if (on_both k) x (side on_both ops)) (cons_if (on_new k) x (side on_new ops))
    go same x h = inl (refl, h)
    go removed x h = h
    go added x h = cons-IsSub x _ _ h

-- The unchanged lines of the diff are a common subsequence of the old and the new lines, and no
-- common subsequence is longer.
pub diff_ops-longest :
    (old new zs : List String)
    → IsSub zs old
    → IsSub zs new
    → IsSub (side on_both (diff_ops old new)) old
      × IsSub (side on_both (diff_ops old new)) new
      × (length zs ≤ length (side on_both (diff_ops old new)))
diff_ops-longest old new zs h k =
    let (a, b) = diff_ops-sides old new in
    let ops = diff_ops old new in
    (
      subst (IsSub (side on_both ops)) a (both-IsSub-old ops),
      subst (IsSub (side on_both ops)) b (both-IsSub-new ops),
      rw (diff_ops-kept old new) (lcs-bound old zs new h k),
    )
