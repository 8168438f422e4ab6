-- ===== src/Diff/Hunks.antt =====
-- The hunks of services/agents/diff-agent/diff.go hold every change, and turn the old text into the new.
use multi_agent_agent_hub.Prelude.{
  ℕ, zero, suc, ◌+◌, ◌-◌, ◌≤◌, ◌<◌, ◌≡◌, refl, ap, ◌∙◌, sym, subst, String, Bool, false, Option,
  none, some, List, [], ◌∷◌, ◌++◌, map, length, take, drop, get_elem?, length-take, length-drop,
  leb, ◌==◌, ==_iff, Bool-cases, inl, inr, arith,
}
use multi_agent_agent_hub.Diff.{
  Kind, DiffOp, Span, span_at, spans_from, spans, slice, change_indexes, build_hunks, number_from,
  number_ops, diff_ops, is_change, old_lines_of, new_lines_of,
}
use multi_agent_agent_hub.Diff.Sides.{side, cons_if, on_old, on_new, diff_ops-sides}
use multi_agent_agent_hub.Diff.Patch.{Cut, Unchanged, Numbered, apply_hunks, apply_hunks-Cut}

-- No change at the indices from `a` on and before `b`.
Quiet : ℕ → ℕ → List DiffOp → Type 0
Quiet a b ops =
    (i : ℕ) (o : DiffOp) → a ≤ i → i < b → get_elem? ops i ≡ some o → is_change o.kind ≡ false

Quiet-Unchanged :
    (k n : ℕ) (ops : List DiffOp) → Quiet k (k + n) ops → Unchanged (take n (drop k ops))
unfolding Quiet
Quiet-Unchanged k zero ops h = tt
Quiet-Unchanged k (suc n) [] h = nothing k
  where
    nothing : (j : ℕ) → Unchanged (take (suc n) (drop j []))
    nothing zero = tt
    nothing (suc j) = tt
Quiet-Unchanged zero (suc n) (o ∷ ops) h = (
  h 0 o (omega arith) (omega arith) refl,
  Quiet-Unchanged 0 n ops (λ i p le lt e. h (suc i) p (omega arith) (omega (arith, lt)) e),
)
Quiet-Unchanged (suc k) (suc n) (o ∷ ops) h =
    Quiet-Unchanged k (suc n) ops
      (λ i p le lt e. h (suc i) p (omega (arith, le)) (omega (arith, lt)) e)

split_at {ℓ} : {A : Type ℓ} (n : ℕ) (xs : List A) → xs ≡ take n xs ++ drop n xs
split_at zero xs = refl
split_at (suc n) [] = refl
split_at (suc n) (x ∷ xs) = ap (λ l. x ∷ l) (split_at n xs)

drop-nil {ℓ} : {A : Type ℓ} (n : ℕ) → drop {A = A} n [] ≡ []
drop-nil zero = refl
drop-nil (suc n) = refl

drop-drop {ℓ} : {A : Type ℓ} (m n : ℕ) (xs : List A) → drop m (drop n xs) ≡ drop (n + m) xs
drop-drop m zero xs = let e : m ≡ 0 + m = omega arith in ap (λ k. drop k xs) e
drop-drop zero (suc n) [] = sym (drop-nil (suc n + 0))
drop-drop (suc m) (suc n) [] = sym (drop-nil (suc n + suc m))
drop-drop m (suc n) (x ∷ xs) =
    let e : suc (n + m) ≡ suc n + m = omega arith in drop-drop m n xs ∙ ap (λ k. drop k (x ∷ xs)) e

Quiet-rest : (a : ℕ) (ops : List DiffOp) → Quiet a (length ops) ops → Unchanged (drop a ops)
unfolding Quiet
Quiet-rest zero [] h = tt
Quiet-rest zero (o ∷ ops) h = (
  h 0 o (omega arith) (omega arith) refl,
  Quiet-rest 0 ops (λ i p le lt e. h (suc i) p (omega arith) (omega (arith, lt)) e),
)
Quiet-rest (suc a) [] h = tt
Quiet-rest (suc a) (o ∷ ops) h =
    Quiet-rest a ops (λ i p le lt e. h (suc i) p (omega (arith, le)) (omega (arith, lt)) e)

head_at {ℓ} :
    {A : Type ℓ} (j : ℕ) (x : A) (xs more : List A)
    → drop j xs ≡ x ∷ more
    → (get_elem? xs j ≡ some x) × (drop (suc j) xs ≡ more) × (j < length xs)
head_at zero x [] more h = ground (arith, h)
head_at zero x (y ∷ xs) more h = (ap (λ l. get_elem? l 0) h, ap (drop 1) h, omega arith)
head_at (suc j) x [] more h = ground (arith, h)
head_at (suc j) x (y ∷ xs) more h =
    let (a, b, c) = head_at j x xs more h in (a, b, omega (arith, c))

short {ℓ} : {A : Type ℓ} (j : ℕ) (xs : List A) → drop j xs ≡ [] → length xs ≤ j
short j xs h = omega (arith, length-drop j xs, ap length h)

abbrev changes : Option DiffOp → Bool
changes none = false
changes (some o) = is_change o.kind

module _ (ops : List DiffOp) (context : ℕ) where
  last : ℕ
  last = length ops - 1

  -- A span with quiet operations before it, cut out.
  one_span :
      (k : ℕ) (s : Span) (hunks : List (List DiffOp))
      → k ≤ s.start
      → s.start ≤ s.end
      → s.end < length ops
      → Quiet k s.start ops
      → Cut (drop (s.end + 1) ops) hunks
      → Cut (drop k ops) (slice ops s ∷ hunks)
  one_span k s hunks before ordered inside quiet rest =
      let gap = s.start - k in
      let size = s.end + 1 - s.start in
      let to_start : k + gap ≡ s.start = omega (arith, before) in
      let to_end : s.start + size ≡ s.end + 1 = omega (arith, ordered) in
      let at_start : drop gap (drop k ops) ≡ drop s.start ops =
        drop-drop gap k ops ∙ ap (λ m. drop m ops) to_start in
      let at_end : drop size (drop s.start ops) ≡ drop (s.end + 1) ops =
        drop-drop size s.start ops ∙ ap (λ m. drop m ops) to_end in
      let parts : drop k ops ≡ take gap (drop k ops) ++ (slice ops s ++ drop (s.end + 1) ops) =
        split_at gap (drop k ops)
        ∙ ap (λ l. take gap (drop k ops) ++ l)
            (at_start ∙ (split_at size (drop s.start ops) ∙ ap (λ l. slice ops s ++ l) at_end)) in
      (
        take gap (drop k ops),
        drop (s.end + 1) ops,
        parts,
        Quiet-Unchanged k gap ops (subst (λ m. Quiet k m ops) (sym to_start) quiet),
        omega
            (arith, length-take size (drop s.start ops), length-drop s.start ops, ordered, inside),
        rest,
      )

  -- One more operation that is no change.
  Quiet-next :
      (a j : ℕ) (o : DiffOp)
      → get_elem? ops j ≡ some o
      → is_change o.kind ≡ false
      → Quiet a j ops
      → Quiet a (suc j) ops
  unfolding Quiet
  Quiet-next a j o at_j calm h i p le lt e = elim (Bool-cases (i == j)) [
    | inl eq ↦
        ap changes (sym e)
        ∙ (ap (λ m. changes (get_elem? ops m)) ((==_iff i j).0 eq) ∙ (ap changes at_j ∙ calm))
    | inr ne ↦ h i p le (ground (arith, ne, lt)) e
  ]

  Quiet-nothing : (a b : ℕ) → b ≤ a → Quiet a b ops
  unfolding Quiet
  Quiet-nothing a b h i o le lt e = absurd (omega (arith, h, le, lt))

  Quiet-less : (a b m : ℕ) → b ≤ m → Quiet a m ops → Quiet a b ops
  unfolding Quiet
  Quiet-less a b m le h i o le' lt e = h i o le' (omega (arith, lt, le)) e

  spans_from-Cut :
      (more : List DiffOp) (j k : ℕ) (s : Span)
      → drop j ops ≡ more
      → k ≤ s.start
      → s.start ≤ s.end
      → s.end < length ops
      → s.start ≤ j
      → Quiet k s.start ops
      → Quiet (s.end + 1) j ops
      → Cut (drop k ops) (map (slice ops) (spans_from context last s (change_indexes j more)))
  unfolding change_indexes spans_from last
  spans_from-Cut [] j k s e before ordered inside reached quiet after =
      one_span k s [] before ordered inside quiet
        (Quiet-rest (s.end + 1) ops (Quiet-less (s.end + 1) (length ops) j (short j ops e) after))
  spans_from-Cut (o ∷ more) j k s e before ordered inside reached quiet after =
      let (at_j, e', lt) = head_at j o ops more e in
      elim (Bool-cases (is_change o.kind)) [
        | inl change ↦
            let t = span_at context last j in
            let wide : Span = record { start = s.start; end = t.end } in
            let covers : j ≤ t.end = omega (arith, lt) in
            let t_inside : t.end < length ops = omega (arith, lt) in
            let nothing_after = Quiet-nothing (t.end + 1) (suc j) (omega (arith, covers)) in
            elim (Bool-cases (leb t.start (s.end + 1))) [
              | inl joins ↦ rw change (
                  rw joins (
                    spans_from-Cut more (suc j) k wide e' before (omega (arith, reached, covers))
                      t_inside (omega (arith, reached)) quiet nothing_after))
              | inr apart ↦
                  let past : s.end + 1 ≤ t.start = ground (arith, apart) in
                  let ih =
                    spans_from-Cut more (suc j) (s.end + 1) t e' past (omega (arith, covers))
                      t_inside (omega arith) (Quiet-less (s.end + 1) t.start j (omega arith) after)
                      nothing_after in
                  rw change (rw apart (one_span k s _ before ordered inside quiet ih))
            ]
        | inr calm ↦ rw calm (
            spans_from-Cut more (suc j) k s e' before ordered inside (omega (arith, reached)) quiet
              (Quiet-next (s.end + 1) j o at_j calm after))
      ]

  spans-Cut :
      (more : List DiffOp) (j : ℕ)
      → drop j ops ≡ more
      → Quiet 0 j ops
      → Cut ops (map (slice ops) (spans context last (change_indexes j more)))
  unfolding change_indexes last
  spans-Cut [] j e quiet = Quiet-rest 0 ops (Quiet-less 0 (length ops) j (short j ops e) quiet)
  spans-Cut (o ∷ more) j e quiet =
      let (at_j, e', lt) = head_at j o ops more e in
      let t = span_at context last j in
      let covers : j ≤ t.end = omega (arith, lt) in
      elim (Bool-cases (is_change o.kind)) [
        | inl change ↦ rw change (
            spans_from-Cut more (suc j) 0 t e' (omega arith) (omega (arith, covers))
              (omega (arith, lt)) (omega arith) (Quiet-less 0 t.start j (omega arith) quiet)
              (Quiet-nothing (t.end + 1) (suc j) (omega (arith, covers))))
        | inr calm ↦ rw calm (spans-Cut more (suc j) e' (Quiet-next 0 j o at_j calm quiet))
      ]

build_hunks-Cut : (ops : List DiffOp) (context : ℕ) → Cut ops (build_hunks ops context)
unfolding build_hunks last
build_hunks-Cut ops context =
    spans-Cut ops context ops 0 refl (Quiet-nothing ops context 0 0 (omega arith))

number_from-Numbered :
    (next line : ℕ) (ops : List DiffOp) → Numbered next (number_from next line ops)
unfolding number_from Numbered
number_from-Numbered next line [] = tt
number_from-Numbered next line (o ∷ ops) =
    (refl, number_from-Numbered (next + old_lines_of o.kind) (line + new_lines_of o.kind) ops)

side-number_from :
    (p : Kind → Bool) (next line : ℕ) (ops : List DiffOp)
    → side p (number_from next line ops) ≡ side p ops
unfolding number_from
side-number_from p next line [] = refl
side-number_from p next line (o ∷ ops) =
    ap (cons_if (p o.kind) o.text)
      (side-number_from p (next + old_lines_of o.kind) (line + new_lines_of o.kind) ops)

-- For any old and new lines and any number of lines of context, the hunks of the diff, applied at the
-- old lines that their headers name, turn the old lines into the new ones.
pub build_hunks-apply :
    (old new : List String) (context : ℕ)
    → apply_hunks 1 old (build_hunks (number_ops (diff_ops old new)) context) ≡ new
unfolding number_ops
build_hunks-apply old new context =
    let ops = number_ops (diff_ops old new) in
    let hunks = build_hunks ops context in
    let (from_old, to_new) = diff_ops-sides old new in
    let old_side : side on_old ops ≡ old =
      side-number_from on_old 1 1 (diff_ops old new) ∙ from_old in
    let new_side : side on_new ops ≡ new =
      side-number_from on_new 1 1 (diff_ops old new) ∙ to_new in
    ap (λ l. apply_hunks 1 l hunks) (sym old_side)
    ∙ (apply_hunks-Cut hunks ops 1 (number_from-Numbered 1 1 (diff_ops old new))
          (build_hunks-Cut ops context)
        ∙ new_side)
