-- ===== src/Diff/Patch.antt =====
-- What a patch of services/agents/diff-agent/diff.go means: its hunks, applied to the old lines.
use multi_agent_agent_hub.Prelude.{
  ℕ, ◌+◌, ◌-◌, ◌≤◌, ◌≡◌, refl, ap, ◌∙◌, sym, subst, String, Bool, true, false, List, [], ◌∷◌, ◌++◌,
  append_assoc, length, length-append, take, drop, arith, All,
}
use multi_agent_agent_hub.Diff.{
  Kind, same, removed, added, DiffOp, header_of, count, old_lines_of, is_change,
}
use multi_agent_agent_hub.Diff.Sides.{side, cons_if, on_old, on_new}

-- The lines after the hunks, each of which says where it stands among the old lines and how many of
-- them it replaces; `old` are the old lines from line `next` on.
unfoldable pub apply_hunks : ℕ → List String → List (List DiffOp) → List String
apply_hunks next old [] = old
apply_hunks next old (hunk ∷ hunks) =
    let h = header_of hunk in
    let before = h.old_start - next in
    take before old
    ++ (side on_new hunk
        ++ apply_hunks (h.old_start + h.old_count) (drop (before + h.old_count) old) hunks)

-- The operations are numbered from an old line on.
unfoldable pub Numbered : ℕ → List DiffOp → Type 0
Numbered next [] = Unit
Numbered next (o ∷ ops) = (o.old_pos ≡ next) × Numbered (next + old_lines_of o.kind) ops

abbrev pub Unchanged : List DiffOp → Type 0
Unchanged ops = All (λ o. is_change o.kind ≡ false) ops

-- The operations are the hunks, none of them empty, with unchanged lines around them.
abbrev pub Cut : List DiffOp → List (List DiffOp) → Type 0
Cut ops [] = Unchanged ops
Cut ops (hunk ∷ hunks) =
    (gap : List DiffOp) × (rest : List DiffOp) × (ops ≡ gap ++ (hunk ++ rest))
    × Unchanged gap
    × (1 ≤ length hunk)
    × Cut rest hunks

side-append :
    (p : Kind → Bool) (ops more : List DiffOp) → side p (ops ++ more) ≡ side p ops ++ side p more
side-append p [] more = refl
side-append p (o ∷ ops) more = one (p o.kind) (side-append p ops more)
  where
    one :
        (b : Bool)
        → side p (ops ++ more) ≡ side p ops ++ side p more
        → cons_if b o.text (side p (ops ++ more)) ≡ cons_if b o.text (side p ops) ++ side p more
    one true e = ap (λ l. o.text ∷ l) e
    one false e = e

length-side_old : (ops : List DiffOp) → length (side on_old ops) ≡ count old_lines_of ops
length-side_old [] = refl
length-side_old (o ∷ ops) = one o.kind (length-side_old ops)
  where
    one :
        (k : Kind)
        → length (side on_old ops) ≡ count old_lines_of ops
        → length (cons_if (on_old k) o.text (side on_old ops))
          ≡ old_lines_of k + count old_lines_of ops
    one same e = omega (arith, e)
    one removed e = omega (arith, e)
    one added e = omega (arith, e)

equal_sides : (ops : List DiffOp) → Unchanged ops → side on_old ops ≡ side on_new ops
equal_sides [] h = refl
equal_sides (o ∷ ops) h = one o.kind h.0 (equal_sides ops h.1)
  where
    one :
        (k : Kind)
        → is_change k ≡ false
        → side on_old ops ≡ side on_new ops
        → cons_if (on_old k) o.text (side on_old ops) ≡ cons_if (on_new k) o.text (side on_new ops)
    one same c e = ap (λ l. o.text ∷ l) e
    one removed c e = ground (arith, c)
    one added c e = ground (arith, c)

Numbered-after :
    (ops more : List DiffOp) (next : ℕ)
    → Numbered next (ops ++ more)
    → Numbered (next + count old_lines_of ops) more
unfolding Numbered
Numbered-after [] more next h = subst (λ n. Numbered n more) (omega arith) h
Numbered-after (o ∷ ops) more next h =
    subst (λ n. Numbered n more) (omega arith)
      (Numbered-after ops more (next + old_lines_of o.kind) h.1)

start_of :
    (hunk rest : List DiffOp) (next : ℕ)
    → Numbered next (hunk ++ rest)
    → 1 ≤ length hunk
    → (header_of hunk).old_start ≡ next
unfolding Numbered
start_of [] rest next h le = absurd (omega (arith, le))
start_of (o ∷ hunk) rest next h le = h.0

count_of : (hunk : List DiffOp) → (header_of hunk).old_count ≡ count old_lines_of hunk
count_of [] = refl
count_of (o ∷ hunk) = refl

take_front {ℓ} : {A : Type ℓ} (xs ys : List A) → take (length xs) (xs ++ ys) ≡ xs
take_front [] ys = refl
take_front (x ∷ xs) ys = ap (λ l. x ∷ l) (take_front xs ys)

drop_front {ℓ} : {A : Type ℓ} (xs ys : List A) → drop (length xs) (xs ++ ys) ≡ ys
drop_front [] ys = refl
drop_front (x ∷ xs) ys = drop_front xs ys

pub apply_hunks-Cut :
    (hunks : List (List DiffOp)) (ops : List DiffOp) (next : ℕ)
    → Numbered next ops
    → Cut ops hunks
    → apply_hunks next (side on_old ops) hunks ≡ side on_new ops
unfolding apply_hunks
apply_hunks-Cut [] ops next n c = equal_sides ops c
apply_hunks-Cut (hunk ∷ hunks) ops next n (gap, rest, e, quiet, some_op, c) =
    let a = side on_old gap in
    let b = side on_old hunk in
    let r = side on_old rest in
    let numbered = subst (Numbered next) e n in
    let at_hunk = Numbered-after gap (hunk ++ rest) next numbered in
    let at_rest = Numbered-after hunk rest (next + count old_lines_of gap) at_hunk in
    let start = start_of hunk rest (next + count old_lines_of gap) at_hunk some_op in
    let size = count_of hunk in
    let old : side on_old ops ≡ a ++ (b ++ r) =
      ap (side on_old) e
      ∙ (side-append on_old gap (hunk ++ rest) ∙ ap (λ l. a ++ l) (side-append on_old hunk rest)) in
    let new : side on_new ops ≡ side on_new gap ++ (side on_new hunk ++ side on_new rest) =
      ap (side on_new) e
      ∙ (side-append on_new gap (hunk ++ rest)
          ∙ ap (λ l. side on_new gap ++ l) (side-append on_new hunk rest)) in
    let h = header_of hunk in
    let lines = side on_old ops in
    let to_hunk : h.old_start - next ≡ length a = omega (arith, start, length-side_old gap) in
    let past_hunk : h.old_start - next + h.old_count ≡ length (a ++ b) =
      omega (arith, start, size, length-side_old gap, length-side_old hunk, length-append a b) in
    let after : h.old_start + h.old_count
        ≡ next + count old_lines_of gap + count old_lines_of hunk =
      omega (arith, start, size) in
    let front : take (h.old_start - next) lines ≡ a =
      ap (take (h.old_start - next)) old
      ∙ (ap (λ k. take k (a ++ (b ++ r))) to_hunk ∙ take_front a (b ++ r)) in
    let back : drop (h.old_start - next + h.old_count) lines ≡ r =
      ap (drop (h.old_start - next + h.old_count)) (old ∙ sym (append_assoc a b r))
      ∙ (ap (λ k. drop k (a ++ b ++ r)) past_hunk ∙ drop_front (a ++ b) r) in
    let ih =
      apply_hunks-Cut hunks rest (next + count old_lines_of gap + count old_lines_of hunk) at_rest
        c in
    let later : apply_hunks (h.old_start + h.old_count)
          (drop (h.old_start - next + h.old_count) lines) hunks
        ≡ side on_new rest =
      ap (λ k. apply_hunks k (drop (h.old_start - next + h.old_count) lines) hunks) after
      ∙ (ap (λ l. apply_hunks (next + count old_lines_of gap + count old_lines_of hunk) l hunks)
            back
          ∙ ih) in
    ap
      (λ l.
        l
        ++ (side on_new hunk
            ++ apply_hunks (h.old_start + h.old_count)
                (drop (h.old_start - next + h.old_count) lines) hunks))
      front
    ∙ (ap (λ x. a ++ (side on_new hunk ++ x)) later
        ∙ (ap (λ x. x ++ (side on_new hunk ++ side on_new rest)) (equal_sides gap quiet) ∙ sym new))
